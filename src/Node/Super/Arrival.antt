-- ===== src/Node/Super/Arrival.antt =====
-- From the builder of an onion to the node that gets its message.
use dor.Base.{
  ℕ, suc, ◌≤◌, ◌≡◌, refl, ◌∙◌, true, none, some, List, [], ◌∷◌, ◌++◌, arith, nat_eq, Bytes,
  bytes_eq, length, get_elem?, All, All-get_elem?, All-map, Lacks, IsBytes, IsMember, lookup, ok,
  int_eq,
}
use dor.Strings.{contains}
use dor.Model.Crypto.{Crypto, CryptoLaws, Fresh, IsFresh}
use dor.Model.Layer.{OnionLayer}
use dor.Model.Broadcast.{join_addresses}
use dor.Model.Broadcast.Addresses.{IsAddress}
use dor.Model.Peel.{peel}
use dor.Model.Node.{Run, Env, finished}
use dor.Model.Node.Reached.{IsUp}
use dor.Model.Handler.{handle_layer, handle_onion}
use dor.Node.Super.{LayerGroup, final_layer, encrypt_onion_layers_group}
use dor.Node.Super.Peels.{
  Peels, last, hop, IsField, IsSendable, onionlayer_to_string-IsBytes,
  encrypt_onion_layers_group-Peels,
}
use dor.Node.Super.Total.{CanRead, encrypt_onion_layers_group_total}
use dor.Node.Super.Delivery.{
  HopNode, Delivers, Travels, Notes, arrived, passed, relay_layer-Reached, final_layer-delivered,
}

-- The hops can do their part: each is a member of its group, can reach a node of the next one, and
-- has not seen its identifiers.
pub record IsReady (c : Crypto) (route : List (LayerGroup c.PublicKey)) (nacks : List Bytes)
    (hops : ℕ → HopNode c) : Type 0 where
  pub members :
      (i : ℕ) (g : LayerGroup c.PublicKey)
      → get_elem? route i ≡ some g
      → IsMember (c.public_of (hops i).key) g.pub_keys
  pub reachable :
      (i : ℕ) (g : LayerGroup c.PublicKey)
      → get_elem? route (suc i) ≡ some g
      → (a : Bytes) × IsMember a g.addrs × IsUp (hops i).env a
  pub new_relay :
      (i : ℕ) (n0 n1 : Bytes)
      → get_elem? nacks i ≡ some n0
      → get_elem? nacks (suc i) ≡ some n1
      → lookup (n0 ++ (b':' ∷ n1)) (hops i).run.node.seen_msgs ≡ none

-- The address can be listed in a layer, and has a port.
abbrev pub IsEndpoint : Bytes → Type 0
IsEndpoint a = IsAddress a × (contains a b':' ≡ true)

-- The addresses of the group can be listed in a layer, and have a port.
abbrev pub IsListed : (c : Crypto) → LayerGroup c.PublicKey → Type 0
IsListed c g = All IsAddress g.addrs × (contains (join_addresses g.addrs) b':' ≡ true)

pub handle_onion-opened :
    (c : Crypto) (sk : c.PrivateKey) (env : Env) (text : Bytes) (r : Run) (layer : OnionLayer)
    → peel c sk text ≡ ok layer
    → handle_onion c sk env text r ≡ handle_layer env layer r
unfolding handle_onion
handle_onion-opened c sk env text r layer h = rw (handle_onion, h) refl

module _ (c : Crypto) (route : List (LayerGroup c.PublicKey)) (sender_addr : Bytes)
    (nacks : List Bytes) (inner : OnionLayer) (hops : ℕ → HopNode c)
    (ready : IsReady c route nacks hops) (listed : All (IsListed c) route)
    (plain : All (Lacks b':') nacks) (Ends : ℕ → Run → Type 0)
    (ends : (i : ℕ)
      → suc i ≡ length route
      → (r : Run) × (handle_layer (hops i).env inner (hops i).run ≡ (finished, r)) × Ends i r) where
  -- A route whose hops open their layers is travelled, if the last hop can do with the inner layer.
  pub Peels-Travels :
      {i : ℕ} {text : Bytes}
      → Peels c route sender_addr nacks inner i text
      → Travels c route hops Ends i text
  Peels-Travels (last {i} {text} group end at opens) =
      let sk = (hops i).key in
      let (r, done, got) = ends i end in
      arrived r end
        (handle_onion-opened c sk (hops i).env text (hops i).run inner
            (opens sk (ready.members i group at))
          ∙ done)
        got
  Peels-Travels
        (hop {i} {text} group after prev n0 n1 rest at at_next at_prev get0 get1 opens more) =
      let sk = (hops i).key in
      let (a, member, up) = ready.reachable i after at_next in
      let (valid, port) = All-get_elem? (IsListed c) route (suc i) at_next listed in
      let (r, done, reached) =
        relay_layer-Reached (hops i).env n0 n1 prev rest a after.addrs (hops i).run
          (All-get_elem? (Lacks b':') nacks i get0 plain) valid port
          (ready.new_relay i n0 n1 get0 get1) member up in
      passed r after rest at_next
        (handle_onion-opened c sk (hops i).env text (hops i).run _
            (opens sk (ready.members i group at))
          ∙ done)
        reached (Peels-Travels more)

pub final_layer-IsSendable :
    (msg_id next payload message : Bytes)
    → All IsField (msg_id ∷ next ∷ payload ∷ [])
    → IsBytes message
    → IsSendable (final_layer msg_id next payload [] message)
unfolding final_layer
final_layer-IsSendable msg_id next payload message ((li, bi), ((ln, bn), ((lp, bp), none_left)))
      bytes =
    record {
      printable = record {
        type = omega arith;
        msg_id = li;
        next = ln;
        from = tt;
        payload = lp;
        frag = tt;
      };
      bytes = onionlayer_to_string-IsBytes _ (omega arith) bi bn tt bp tt bytes;
    }

-- The onion of a message of bytes is built, for a route of groups with listed addresses and keys that
-- can encrypt, one NACK identifier without a colon for each, and fields without separators. If the
-- hops can do their part and the last one has not seen the message, it goes its way: each hop hands
-- what it unwraps over to a node of the next group, and the last one notes the message.
pub encrypt_onion_layers_group-Delivers :
    (c : Crypto) (laws : CryptoLaws c) (fresh : ℕ → Fresh) (good : (i : ℕ) → IsFresh (fresh i))
    (route : List (LayerGroup c.PublicKey)) (sender_addr : Bytes) (nacks : List Bytes)
    (msg_id next payload message : Bytes) (hops : ℕ → HopNode c)
    → 1 ≤ length route
    → All (CanRead c) route
    → All (IsListed c) route
    → IsField sender_addr
    → length nacks ≡ length route
    → All IsField nacks
    → All (Lacks b':') nacks
    → All IsField (msg_id ∷ next ∷ payload ∷ [])
    → IsBytes message
    → IsReady c route nacks hops
    → ((i : ℕ) → suc i ≡ length route → lookup msg_id (hops i).run.node.seen_msgs ≡ none)
    → (text : Bytes) × (encrypt_onion_layers_group c fresh route sender_addr nacks
          (final_layer msg_id next payload [] message)
        ≡ ok text)
      × Delivers c route hops message 0 text
encrypt_onion_layers_group-Delivers c laws fresh good route sender_addr nacks msg_id next payload
      message hops some_hop readable listed sender one_each fields plain parts bytes ready unseen =
    let inner = final_layer msg_id next payload [] message in
    let (text, made) =
      encrypt_onion_layers_group_total c laws fresh good route sender_addr nacks readable one_each
        inner some_hop in
    let (peels, field) =
      encrypt_onion_layers_group-Peels c laws fresh good route sender_addr nacks
        (All-map (IsListed c) (λ (g : LayerGroup c.PublicKey). All IsAddress g.addrs) (λ g h. h.0)
          route listed)
        sender fields inner text (final_layer-IsSendable msg_id next payload message parts bytes)
        made in
    (
      text,
      made,
      Peels-Travels c route sender_addr nacks inner hops ready listed plain (Notes c hops message)
          (λ i end.
            final_layer-delivered (hops i).env msg_id next payload message (hops i).run
              (unseen i end))
          peels,
    )
