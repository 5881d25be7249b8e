-- ===== src/Node/Super/Answer.antt =====
-- From the sender of a message to the recipient and back: the ACK comes to the channel of the sender.
use dor.Base.{
  ℕ, zero, suc, ◌≤◌, ◌≡◌, refl, ◌∙◌, ◌≢◌, true, none, some, List, [], ◌∷◌, reverse, arith, nat_eq,
  Bytes, bytes_eq, length, All, All-map, Lacks, IsBytes, IsMember, All-reverse, lookup, index, ok,
  int_eq,
}
use dor.Model.Layer.Ids.{generate_msg_id-plain}
use dor.Model.Layer.{generate_msg_id}
use dor.Model.Crypto.{Crypto, CryptoLaws, Fresh, IsFresh}
use dor.Model.Broadcast.{join_addresses}
use dor.Model.Broadcast.Addresses.{IsAddress}
use dor.Model.Node.{Run}
use dor.Model.Node.Reached.{IsUp, Reached}
use dor.Node.Super.{LayerGroup, final_layer, ack_layer, nack_ids, encapsulator_func_super}
use dor.Node.Super.Peels.{IsField, encrypt_onion_layers_group-Peels}
use dor.Node.SendSuper.{first_addrs}
use dor.Node.Super.Return.{
  length-nack_ids, nack_ids-IsField, nack_ids-Lacks_colon, Peels-not-empty, return_part-Peels,
  listed-IsField,
}
use dor.Node.Super.Total.{CanRead, encrypt_onion_layers_group_total}
use dor.Node.Super.Delivery.{HopNode, Travels, Notes, final_layer-answered, ack_layer-told}
use dor.Node.Super.Arrival.{IsReady, IsListed, Peels-Travels, final_layer-IsSendable}
use dor.Strings.{codes, contains}

contains-not-empty : (s : Bytes) → contains s b':' ≡ true → s ≢ []
unfolding contains
contains-not-empty [] h e = cc
contains-not-empty (x ∷ s) h e = cc

IsListed-addrs :
    (c : Crypto) (route : List (LayerGroup c.PublicKey))
    → All (IsListed c) route
    → All (λ g. All IsAddress g.addrs) route
IsListed-addrs c route listed =
    All-map (IsListed c) (λ (g : LayerGroup c.PublicKey). All IsAddress g.addrs) (λ g h. h.0) route
      listed

index-nack_ids :
    (draws : ℕ → List ℕ) (start n : ℕ)
    → 1 ≤ n
    → index (nack_ids draws start n) 0 ≡ ok (generate_msg_id (codes "nack") (draws start))
unfolding nack_ids
index-nack_ids draws start zero h = absurd (omega (arith, h))
index-nack_ids draws start (suc n) h = refl

-- The last hop notes the message and hands the return onion over to one of the addresses.
abbrev pub Answers : (c : Crypto) → (ℕ → HopNode c) → Bytes → List Bytes → Bytes → ℕ → Run → Type 0
Answers c hops message addrs onion i r =
    Notes c hops message i r × Reached onion addrs (hops i).run.sent r.sent

-- The sender, at the end of the way back, has `true` in the channel, and waits no longer.
abbrev pub IsTold : Bytes → ℕ → ℕ → Run → Type 0
IsTold msg_id ch i r = (r.node.channels ch ≡ true ∷ []) × (lookup msg_id r.node.pending_acks ≡ none)

-- When `Encapsulator_func_super` gets a route and a way back of the same length, not empty, of groups
-- with listed addresses and keys that can encrypt, and a message of bytes, it makes an onion. If the
-- hops can do their part, on both ways, the last hop of the route has not seen the message and can
-- reach a node of the first group of the way back, and the node at the end of the way back waits for
-- the answer, then the onion goes its way, the recipient notes the message and hands a return onion
-- over, this goes its way, and the channel of the sender gets `true`.
pub encapsulator_func_super-Answers :
    (c : Crypto) (laws : CryptoLaws c) (forward_fresh return_fresh : ℕ → Fresh)
    (good : (i : ℕ) → IsFresh (forward_fresh i)) (good_back : (i : ℕ) → IsFresh (return_fresh i))
    (draws : ℕ → List ℕ) (message : Bytes) (route back : List (LayerGroup c.PublicKey))
    (sender_addr : Bytes) (hops back_hops : ℕ → HopNode c) (ch : ℕ)
    → let msg_id = generate_msg_id [] (draws 0) in
      let nacks = nack_ids draws 1 (length route) in
      1 ≤ length back
      → length route ≡ length back
      → All (CanRead c) route
      → All (CanRead c) back
      → All (IsListed c) route
      → All (IsListed c) back
      → IsField sender_addr
      → IsBytes message
      → IsReady c route nacks hops
      → IsReady c back (reverse nacks) back_hops
      → ((i : ℕ)
          → suc i ≡ length route
          → (lookup msg_id (hops i).run.node.seen_msgs ≡ none)
            × ((a : Bytes) × IsMember a (first_addrs c back) × IsUp (hops i).env a))
      → ((i : ℕ)
          → suc i ≡ length back
          → (lookup msg_id (back_hops i).run.node.pending_acks ≡ some ch)
            × ((back_hops i).run.node.channels ch ≡ []))
      → (text onion : Bytes) × (encapsulator_func_super c forward_fresh return_fresh draws message
            route
            (some back)
            sender_addr
          ≡ ok (text, msg_id, generate_msg_id (codes "nack") (draws 1)))
        × Travels c route hops (Answers c hops message (first_addrs c back) onion) 0 text
        × Travels c back back_hops (IsTold msg_id ch) 0 onion
unfolding encapsulator_func_super first_addrs
encapsulator_func_super-Answers c laws forward_fresh return_fresh good good_back draws message route
      [] sender_addr hops back_hops ch some_hop same readable readable_back listed listed_back
      sender bytes ready ready_back end end_back =
    absurd (omega (arith, some_hop))
encapsulator_func_super-Answers c laws forward_fresh return_fresh good good_back draws message route
      (first ∷ later) sender_addr hops back_hops ch some_hop same readable readable_back listed
      listed_back sender bytes ready ready_back end end_back =
    let back = first ∷ later in
    let msg_id = generate_msg_id [] (draws 0) in
    let nacks = nack_ids draws 1 (length route) in
    let measured = length-nack_ids draws 1 (length route) in
    let fields = nack_ids-IsField draws 1 (length route) in
    let plain = nack_ids-Lacks_colon draws 1 (length route) in
    let id_field = generate_msg_id-plain (draws 0) in
    let addresses = IsListed-addrs c back listed_back in
    let (onion, back_sender, made_back, peels_back, onion_field) =
      return_part-Peels c laws forward_fresh return_fresh good good_back draws msg_id nacks first
        later (measured ∙ same) fields id_field readable_back addresses in
    let back_hop = join_addresses first.addrs in
    let inner = final_layer msg_id back_hop onion [] message in
    let (text, made) =
      encrypt_onion_layers_group_total c laws forward_fresh good route sender_addr nacks readable
        measured inner (omega (arith, same)) in
    let (peels, field) =
      encrypt_onion_layers_group-Peels c laws forward_fresh good route sender_addr nacks
        (IsListed-addrs c route listed) sender fields inner text
        (final_layer-IsSendable msg_id back_hop onion message
          (id_field, (listed-IsField first.addrs addresses.0, (onion_field, tt))) bytes)
        made in
    let at = index-nack_ids draws 1 (length route) (omega (arith, same)) in
    let some_onion =
      Peels-not-empty c back back_sender (reverse nacks) (ack_layer msg_id) 0 (back_hops 0).key
        onion (ready_back.members 0) peels_back in
    (
      text,
      onion,
      rw (made_back) (rw (made) (rw (at) refl)),
      Peels-Travels c route sender_addr nacks inner hops ready listed plain
          (Answers c hops message first.addrs onion)
          (λ i last_hop.
            let (unseen, (a, member, up)) = end i last_hop in
            let (r, done, noted, reached) =
              final_layer-answered (hops i).env msg_id onion message a first.addrs (hops i).run
                unseen addresses.0 (contains-not-empty back_hop listed_back.0.1) some_onion member
                up in
            (r, done, (noted, reached)))
          peels,
      Peels-Travels c back back_sender (reverse nacks) (ack_layer msg_id) back_hops ready_back
          listed_back (All-reverse (Lacks b':') nacks plain) (IsTold msg_id ch)
          (λ i last_hop.
            let (waits, empty) = end_back i last_hop in
            let (r, done, told, left) =
              ack_layer-told (back_hops i).env msg_id ch (back_hops i).run waits empty in
            (r, done, (told, left)))
          peels_back,
    )
