-- ===== src/Node/Super/Delivery.antt =====
-- An onion on its way: every hop of the route runs the handler, and the last one gets the message.
use dor.Base.{
  ℕ, suc, ◌≡◌, refl, ap, ◌∙◌, ◌≢◌, true, false, ◌||◌, none, some, List, [], ◌∷◌, ◌++◌, arith, ◌==◌,
  eq_refl, nat_eq, Bytes, bytes_eq, length, get_elem?, All, Lacks, IsMember, lookup, insert, int_eq,
}
use dor.Strings.{split_max_pair, contains}
use dor.Model.Crypto.{Crypto}
use dor.Model.Layer.{OnionLayer, relay_type, final_type}
use dor.Model.Broadcast.{join_addresses}
use dor.Model.Broadcast.Addresses.{IsAddress, parse_addresses-join_addresses}
use dor.Model.Node.{Node, Run, finished, Env, seen_msg}
use dor.Model.Node.Reached.{IsUp, Reached, send_first-Reached}
use dor.Model.Relay.{handle_relay, relay_parts, relay_to, handle_ack, resolve}
use dor.Model.Relay.Nacks.{relay_to_delivered}
use dor.Model.Relay.Acks.{resolve_empty}
use dor.Model.Handler.Final.{send_ack_no_from}
use dor.Model.Fragment.{receive_message, deliver}
use dor.Model.Handler.{handle_final, send_ack, dispatch, handle_layer, handle_onion}
use dor.Node.Onion.{relay_layer}
use dor.Node.Super.{LayerGroup, final_layer, ack_layer}

-- The layer has not been seen: the node is as before but for the time at which it now was.
abbrev marked : Env → Bytes → Run → Run
marked env id r = record r {
  node = record r.node { seen_msgs = insert id env.now r.node.seen_msgs };
}

relay_to-finished :
    (env : Env) (layer : OnionLayer) (tosend toreceive : Bytes) (r : Run)
    → (relay_to env layer tosend toreceive r).0 ≡ finished
unfolding relay_to
relay_to-finished env layer tosend toreceive r = ground arith

seen_msg-fresh :
    (env : Env) (id : Bytes) (n : Node)
    → lookup id n.seen_msgs ≡ none
    → seen_msg env id n ≡ (false, record n { seen_msgs = insert id env.now n.seen_msgs })
unfolding seen_msg
seen_msg-fresh env id n h = rw (seen_msg, h) refl

handle_layer-fresh :
    (env : Env) (layer : OnionLayer) (r : Run)
    → (layer.type == relay_type || layer.type == final_type) ≡ true
    → lookup layer.msg_id r.node.seen_msgs ≡ none
    → handle_layer env layer r ≡ dispatch env layer (marked env layer.msg_id r)
unfolding handle_layer
handle_layer-fresh env layer r once unseen =
    rw (once, seen_msg-fresh env layer.msg_id r.node unseen) refl

handle_layer-relay_layer :
    (env : Env) (n0 n1 next prev rest : Bytes) (r : Run)
    → Lacks b':' n0
    → contains next b':' ≡ true
    → lookup (n0 ++ (b':' ∷ n1)) r.node.seen_msgs ≡ none
    → handle_layer env (relay_layer n0 n1 next prev rest) r
      ≡ relay_to env (relay_layer n0 n1 next prev rest) n0 n1 (marked env (n0 ++ (b':' ∷ n1)) r)
unfolding dispatch handle_relay relay_layer relay_parts
handle_layer-relay_layer env n0 n1 next prev rest r no_colon port unseen =
    handle_layer-fresh env (relay_layer n0 n1 next prev rest) r refl unseen
    ∙ rw (port, split_max_pair b':' n0 n1 no_colon) refl

pub relay_layer-Reached :
    (env : Env) (n0 n1 prev rest a : Bytes) (addrs : List Bytes) (r : Run)
    → Lacks b':' n0
    → All IsAddress addrs
    → contains (join_addresses addrs) b':' ≡ true
    → lookup (n0 ++ (b':' ∷ n1)) r.node.seen_msgs ≡ none
    → IsMember a addrs
    → IsUp env a
    → (r' : Run) × (handle_layer env (relay_layer n0 n1 (join_addresses addrs) prev rest) r
        ≡ (finished, r'))
      × Reached rest addrs r.sent r'.sent
unfolding relay_layer
relay_layer-Reached env n0 n1 prev rest a addrs r no_colon valid port unseen member up =
    let layer = relay_layer n0 n1 (join_addresses addrs) prev rest in
    let r0 = marked env (n0 ++ (b':' ∷ n1)) r in
    let same = parse_addresses-join_addresses addrs valid in
    let (answered, reached) = send_first-Reached env rest a addrs r.sent member up in
    let (waits, log) = relay_to_delivered env layer n0 n1 r0 (rw (same) answered) in
    (
      (relay_to env layer n0 n1 r0).1,
      handle_layer-relay_layer env n0 n1 (join_addresses addrs) prev rest r no_colon port unseen
          ∙ (λ i. (relay_to-finished env layer n0 n1 r0 i, (relay_to env layer n0 n1 r0).1)),
      rw (log) (rw (same) reached),
    )

node-send_ack : (env : Env) (layer : OnionLayer) (r : Run) → (send_ack env layer r).node ≡ r.node
unfolding send_ack
node-send_ack env layer r = ground arith

pub final_layer-delivered :
    (env : Env) (msg_id next payload message : Bytes) (r : Run)
    → lookup msg_id r.node.seen_msgs ≡ none
    → (r' : Run) × (handle_layer env (final_layer msg_id next payload [] message) r
        ≡ (finished, r'))
      × (r'.node.received_msgs ≡ r.node.received_msgs ++ message ∷ [])
unfolding dispatch handle_final receive_message deliver final_layer
final_layer-delivered env msg_id next payload message r unseen =
    let layer = final_layer msg_id next payload [] message in
    let noted = marked env msg_id r in
    let got = record noted { node = deliver message noted.node } in
    (
      send_ack env layer got,
      handle_layer-fresh env layer r refl unseen,
      ap (λ n. n.received_msgs) (node-send_ack env layer got),
    )

-- A hop: its private key, what it gets from outside, and its state when the onion comes.
pub record HopNode (c : Crypto) : Type 0 where
  pub key : c.PrivateKey
  pub env : Env
  pub run : Run

-- The way of `text` from hop `i` on. A hop runs the handler from the decryption on; it hands a text
-- over to an address of the next group, and this is what the next hop gets; the last hop ends its
-- run as `Ends` says.
pub data Travels (c : Crypto) (route : List (LayerGroup c.PublicKey)) (hops : ℕ → HopNode c)
    (Ends : ℕ → Run → Type 0) : ℕ → Bytes → Type 0 where
  arrived :
      {i : ℕ} {text : Bytes} (r : Run)
      → suc i ≡ length route
      → handle_onion c (hops i).key (hops i).env text (hops i).run ≡ (finished, r)
      → Ends i r
      → Travels c route hops Ends i text
  passed :
      {i : ℕ} {text : Bytes} (r : Run) (next : LayerGroup c.PublicKey) (rest : Bytes)
      → get_elem? route (suc i) ≡ some next
      → handle_onion c (hops i).key (hops i).env text (hops i).run ≡ (finished, r)
      → Reached rest next.addrs (hops i).run.sent r.sent
      → Travels c route hops Ends (suc i) rest
      → Travels c route hops Ends i text

-- The last hop notes the message as received.
abbrev pub Notes : (c : Crypto) → (ℕ → HopNode c) → Bytes → ℕ → Run → Type 0
Notes c hops message i r = r.node.received_msgs ≡ (hops i).run.node.received_msgs ++ message ∷ []

abbrev pub Delivers :
    (c : Crypto) → List (LayerGroup c.PublicKey) → (ℕ → HopNode c) → Bytes → ℕ → Bytes → Type 0
Delivers c route hops message = Travels c route hops (Notes c hops message)

-- A return onion that is not empty goes from the last hop to a node of its first group, which
-- answers; the message is noted.
pub final_layer-answered :
    (env : Env) (msg_id payload message a : Bytes) (addrs : List Bytes) (r : Run)
    → lookup msg_id r.node.seen_msgs ≡ none
    → All IsAddress addrs
    → join_addresses addrs ≢ []
    → payload ≢ []
    → IsMember a addrs
    → IsUp env a
    → (r' : Run) × (handle_layer env
          (final_layer msg_id (join_addresses addrs) payload [] message)
          r
        ≡ (finished, r'))
      × (r'.node.received_msgs ≡ r.node.received_msgs ++ message ∷ [])
      × Reached payload addrs r.sent r'.sent
unfolding dispatch handle_final receive_message deliver final_layer
final_layer-answered env msg_id payload message a addrs r unseen valid some_hop some_onion member
      up =
    let layer = final_layer msg_id (join_addresses addrs) payload [] message in
    let noted = marked env msg_id r in
    let got = record noted { node = deliver message noted.node } in
    let same = parse_addresses-join_addresses addrs valid in
    let (answered, reached) = send_first-Reached env payload a addrs r.sent member up in
    (
      send_ack env layer got,
      handle_layer-fresh env layer r refl unseen,
      ap (λ n. n.received_msgs) (node-send_ack env layer got),
      rw (send_ack_no_from env layer got refl some_hop some_onion) (rw (same) reached),
    )

handle_layer-ack_layer :
    (env : Env) (msg_id : Bytes) (r : Run)
    → handle_layer env (ack_layer msg_id) r ≡ handle_ack (ack_layer msg_id) r
unfolding handle_layer dispatch ack_layer
handle_layer-ack_layer env msg_id r = refl

handle_ack-resolve :
    (msg_id : Bytes) (ch : ℕ) (r : Run)
    → lookup msg_id r.node.pending_acks ≡ some ch
    → handle_ack (ack_layer msg_id) r ≡ resolve msg_id ch true r
unfolding handle_ack ack_layer
handle_ack-resolve msg_id ch r h = rw (handle_ack, h) refl

-- An ACK for a message that waits tells its channel `true`.
pub ack_layer-told :
    (env : Env) (msg_id : Bytes) (ch : ℕ) (r : Run)
    → lookup msg_id r.node.pending_acks ≡ some ch
    → r.node.channels ch ≡ []
    → (r' : Run) × (handle_layer env (ack_layer msg_id) r ≡ (finished, r'))
      × (r'.node.channels ch ≡ true ∷ [])
      × (lookup msg_id r'.node.pending_acks ≡ none)
ack_layer-told env msg_id ch r waits empty =
    let (done, told, left, sent) = resolve_empty msg_id ch true r empty in
    (
      (resolve msg_id ch true r).1,
      handle_layer-ack_layer env msg_id r
          ∙ (handle_ack-resolve msg_id ch r waits ∙ (λ i. (done i, (resolve msg_id ch true r).1))),
      told,
      ground (arith, left msg_id, eq_refl msg_id),
    )

-- What holds when the last hop has run its handler.
pub Travels-last :
    (c : Crypto) (route : List (LayerGroup c.PublicKey)) (hops : ℕ → HopNode c)
    (Ends : ℕ → Run → Type 0) (P : Type 0)
    → ((i : ℕ) (text : Bytes) (r : Run)
        → suc i ≡ length route
        → handle_onion c (hops i).key (hops i).env text (hops i).run ≡ (finished, r)
        → Ends i r
        → P)
    → {i : ℕ} {text : Bytes} → Travels c route hops Ends i text
    → P
Travels-last c route hops Ends P step (arrived {i} {text} r end done ends) =
    step i text r end done ends
Travels-last c route hops Ends P step (passed r next rest at done reached more) =
    Travels-last c route hops Ends P step more
