-- ===== src/Model/Handler/Final.antt =====
-- The answer of the recipient of an onion.
use dor.Base.{◌≡◌, ◌≢◌, false, List, [], arith, eq_iff, nat_eq, Bytes, bytes_eq, int_eq}
use dor.Model.Layer.{OnionLayer}
use dor.Model.Broadcast.{parse_addresses}
use dor.Model.Shuffle.{shuffle}
use dor.Model.Node.{Run, Env, send_first, Attempt}
use dor.Model.Handler.{send_ack, nack_line}

no_addresses :
    (env : Env) (m from : Bytes) (sent : List Attempt)
    → from ≡ []
    → send_first env m (parse_addresses from) sent ≡ (false, sent)
unfolding send_first parse_addresses
no_addresses env m from sent h = rw h

-- A FINAL layer without a `From`, the only kind that senders build: the return onion is offered to
-- the first return hops, and if none of them answers, no NACK is sent to anybody.
pub send_ack_no_from :
    (env : Env) (layer : OnionLayer) (r : Run)
    → layer.from ≡ []
    → layer.next ≢ []
    → layer.payload ≢ []
    → (send_ack env layer r).sent
      ≡ (send_first env layer.payload (shuffle env.draws (parse_addresses layer.next)) r.sent).1
unfolding send_ack
send_ack_no_from env layer r none_from next body =
    let forwarding =
      send_first env layer.payload (shuffle env.draws (parse_addresses layer.next)) r.sent in
    ground (
      arith,
      eq_iff layer.next [],
      eq_iff layer.payload [],
      no_addresses env (nack_line layer.msg_id) layer.from forwarding.1 none_from,
    )
