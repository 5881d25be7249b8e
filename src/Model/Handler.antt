-- ===== src/Model/Handler.antt =====
-- `handlerroutine` of node_server/model/Node.go. The proofs are in the modules below this one.
pub mod Replay
pub mod Eviction
pub mod Crash
pub mod Final
pub mod Tells
use dor.Base.{
  ◌||◌, [], ◌∷◌, ◌++◌, if◌then◌else◌, ◌==◌, nat_eq, Bytes, bytes_eq, drop, ok, err, panic, int_eq,
}
use dor.Strings.{codes, has_prefix, trim_space}
use dor.Encoding.{encode}
use dor.Model.Crypto.{Crypto}
use dor.Model.Layer.{OnionLayer, relay_type, final_type, ack_type}
use dor.Model.Broadcast.{parse_addresses}
use dor.Model.Peel.{peel}
use dor.Model.Shuffle.{shuffle}
use dor.Model.Node.{Run, Status, finished, panicked, Env, send_first, nack_line, seen_msg}
use dor.Model.Relay.{handle_nack, handle_ack, handle_relay}
use dor.Model.Fragment.{receive_message}

-- The return onion goes to one of the next addresses, and a NACK back if none answers.
unfoldable pub send_ack : Env → OnionLayer → Run → Run
send_ack env layer r =
    if layer.next == [] || layer.payload == []
    then r
    else let (delivered, sent) =
        send_first env layer.payload (shuffle env.draws (parse_addresses layer.next)) r.sent in
      let (_, nacked) = send_first env (nack_line layer.msg_id) (parse_addresses layer.from) sent in
      record r { sent = if delivered then sent else nacked }

unfoldable pub handle_final : Env → OnionLayer → Run → Status × Run
handle_final env layer r = elim (receive_message layer r.node) [
  | ok n ↦ (finished, send_ack env layer (record r { node = n }))
  | _ ↦ (panicked, r)
]

-- The `switch` on the type of the layer.
unfoldable pub dispatch : Env → OnionLayer → Run → Status × Run
dispatch env layer r =
    if layer.type == relay_type
    then handle_relay env layer r
    else if layer.type == final_type
    then handle_final env layer r
    else if layer.type == ack_type
    then handle_ack layer r
    else (finished, r)

-- RELAY and FINAL layers pass once for each identifier.
unfoldable pub handle_layer : Env → OnionLayer → Run → Status × Run
handle_layer env layer r =
    if layer.type == relay_type || layer.type == final_type
    then (let (seen, n) = seen_msg env layer.msg_id r.node in
        if seen then (finished, r) else dispatch env layer (record r { node = n }))
    else dispatch env layer r

module _ (c : Crypto) (private_key : c.PrivateKey) where
  unfoldable pub handle_onion : Env → Bytes → Run → Status × Run
  handle_onion env line r = elim (peel c private_key line) [
    | ok layer ↦ handle_layer env layer r
    | err e ↦ (finished, r)
    | panic ↦ (panicked, r)
  ]

  unfoldable pub get_pubkey : Run → Status × Run
  get_pubkey r = (
    finished,
    record r {
      replies = r.replies ++ (encode (c.marshal_pkix (c.public_of private_key)) ++ codes "\n") ∷ [];
    },
  )

  unfoldable pub handle_line : Env → Bytes → Run → Status × Run
  handle_line env line r =
      if line == []
      then (finished, r)
      else if line == codes "GET_PUBKEY"
      then get_pubkey r
      else if has_prefix line (codes "NACK:")
      then handle_nack env (drop 5 line) r
      else handle_onion env line r

  -- `handlerroutine` on the first line of a connection.
  unfoldable pub handlerroutine : Env → Bytes → Run → Status × Run
  unfolding handle_line get_pubkey handle_onion
  handlerroutine env line r = handle_line env (trim_space line) r
