-- ===== src/Model/Relay.antt =====
-- The cases of `handlerroutine` of node_server/model/Node.go that route: NACK lines, ACK layers and
-- RELAY layers. The proofs are in the modules below this one.
pub mod Acks
pub mod Nacks
use dor.Base.{
  ℕ, Bool, true, false, none, some, List, [], ◌∷◌, if◌then◌else◌, nat_eq, Bytes, bytes_eq, lookup,
  insert, delete, int_eq,
}
use dor.Strings.{split_max, contains}
use dor.Model.Layer.{OnionLayer}
use dor.Model.Broadcast.{parse_addresses}
use dor.Model.Shuffle.{shuffle}
use dor.Model.Node.{
  Node, Nackstruct, Run, Status, finished, blocked, Env, send_first, nack_line, notify,
}

-- `PendingACKs[id]` is told `value` and forgotten.
unfoldable pub resolve : Bytes → ℕ → Bool → Run → Status × Run
resolve id ch value r = elim (notify r.node ch value) [
  | none ↦ (blocked, r)
  | some n ↦ (finished, record r { node = record n { pending_acks = delete id n.pending_acks } })
]

-- A NACK for a message that this node relayed goes to the node that it came from.
unfoldable pub propagate_nack : Env → Bytes → Run → Status × Run
propagate_nack env id r =
    let n = r.node in
    let forgotten = record n { pending_relays = delete id n.pending_relays } in
    elim (lookup id n.pending_relays) [
      | none ↦ (finished, record r { node = forgotten })
      | some nack ↦
          let (_, sent) =
            send_first env (nack_line nack.prev_nack_id) (parse_addresses nack.prev_node_addr)
              r.sent in
          (finished, record r { node = forgotten; sent = sent })
    ]

unfoldable pub handle_nack : Env → Bytes → Run → Status × Run
handle_nack env id r = elim (lookup id r.node.pending_acks) [
  | some ch ↦ resolve id ch false r
  | none ↦ propagate_nack env id r
]

unfoldable pub handle_ack : OnionLayer → Run → Status × Run
handle_ack layer r = elim (lookup layer.msg_id r.node.pending_acks) [
  | some ch ↦ resolve layer.msg_id ch true r
  | none ↦ (finished, r)
]

-- Forward the payload to one of the next addresses; if none answers, forget the relay and send a
-- NACK to one of the addresses that it came from.
unfoldable pub relay_to : Env → OnionLayer → Bytes → Bytes → Run → Status × Run
relay_to env layer tosend toreceive r =
    let n = r.node in
    let entry : Nackstruct = record { prev_nack_id = tosend; prev_node_addr = layer.from } in
    let waiting = record n { pending_relays = insert toreceive entry n.pending_relays } in
    let (delivered, sent) =
      send_first env layer.payload (shuffle env.draws (parse_addresses layer.next)) r.sent in
    let (_, nacked) = send_first env (nack_line tosend) (parse_addresses layer.from) sent in
    if delivered then (finished, record r { node = waiting; sent = sent }) else (
      finished,
      record r {
        node = record waiting { pending_relays = delete toreceive waiting.pending_relays };
        sent = nacked;
      },
    )

unfoldable pub relay_parts : Env → OnionLayer → List Bytes → Run → Status × Run
relay_parts env layer (tosend ∷ toreceive ∷ []) r = relay_to env layer tosend toreceive r
relay_parts env layer _ r = (finished, r)

-- An address without a port, or an identifier without a colon, drops the layer.
unfoldable pub handle_relay : Env → OnionLayer → Run → Status × Run
handle_relay env layer r =
    if contains layer.next b':'
    then relay_parts env layer (split_max 1 layer.msg_id b':') r
    else (finished, r)
