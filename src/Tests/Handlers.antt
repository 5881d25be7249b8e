-- ===== src/Tests/Handlers.antt =====
-- The handlers of a node at concrete inputs.
use dor.Base.{
  ◌≡◌, refl, inl, true, false, ◌&&◌, none, some, [], ◌∷◌, arith, eq_iff, nat_eq, bytes_eq, lookup,
  int_eq,
}
use dor.Strings.{split, codes, contains}
use dor.Model.Layer.{OnionLayer}
use dor.Model.Broadcast.{parse_addresses}
use dor.Model.Shuffle.{shuffle, shuffle_from}
use dor.Model.Node.{Node, Run, Env, finished, panicked, send_first, nack_line, send_to}
use dor.Model.Relay.{handle_relay, handle_nack, handle_ack}
use dor.Model.Relay.Acks.{handle_ack_leak}
use dor.Model.Relay.Nacks.{relay_then_nack}
use dor.Model.Handler.{handle_onion}
use dor.Model.Handler.Tells.{IsHopeful, handle_onion-IsHopeful}
use dor.Tests.Toy.{toy}
use dor.Model.Handler.{handle_layer}
use dor.Model.Handler.Eviction.{evict_rounds, handle_layer-evict_rounds}
use dor.Model.Handler.Replay.{handle_layer_twice}
use dor.Model.Handler.Crash.{handle_layer_bad_frag}
use dor.Node.Super.{final_layer}
use dor.Node.Super.Silent.{Offers, is_taken, has_return, offered, handle_layer-Offers}

abbrev pub idle : Node
idle = record {
  pending_acks = [];
  channels = λ k. [];
  pending_relays = [];
  frag_buf = [];
  frag_total = [];
  seen_msgs = [];
  received_msgs = [];
}

abbrev start : Run
start = record { node = idle; sent = []; replies = [] }

-- A sender whose message "m" and NACK identifier "n" share the channel 0.
abbrev waiting : Run
waiting = record start {
  node = record idle { pending_acks = (codes "m", 0) ∷ (codes "n", 0) ∷ [] };
}

-- Every call of `SendTo` succeeds, or none does.
abbrev pub online : Env
online = record { dial = λ k addr m. true; now = 5; draws = λ k. 0 }

abbrev pub offline : Env
offline = record { dial = λ k addr m. false; now = 5; draws = λ k. 0 }

abbrev relay : OnionLayer
relay = record {
  type = codes "RELAY";
  msg_id = codes "n0:n1";
  next = codes "b:2";
  from = codes "a:1";
  payload = codes "inner";
  frag = [];
  message = [];
}

abbrev final : OnionLayer
final = record relay { type = codes "FINAL"; from = []; message = codes "hello" }

-- The node behind "b:2" answers, or does not.
sends_online :
    (send_first online (codes "inner") (shuffle online.draws (parse_addresses (codes "b:2"))) []).0
    ≡ true
unfolding send_first send_to shuffle shuffle_from parse_addresses split
sends_online = refl

fails_offline :
    (send_first offline
      (codes "inner")
      (shuffle offline.draws (parse_addresses (codes "b:2")))
      []).0
    ≡ false
unfolding send_first send_to shuffle shuffle_from parse_addresses split
fails_offline = refl

handle_layer_twice_example :
    handle_layer online relay (handle_layer online relay start).1
    ≡ (finished, (handle_layer online relay start).1)
handle_layer_twice_example = handle_layer_twice online online relay start (inl refl)

-- The layer was handled at the second 5.
handle_layer-evict_rounds_example :
    handle_layer online relay (evict_rounds (30 ∷ 35 ∷ []) (handle_layer online relay start).1)
    ≡ (finished, evict_rounds (30 ∷ 35 ∷ []) (handle_layer online relay start).1)
unfolding lookup
handle_layer-evict_rounds_example =
    handle_layer-evict_rounds online online relay start (30 ∷ 35 ∷ []) (inl refl) refl (omega arith)

relay_then_nack_example :
    let relayed = (handle_relay online relay start).1 in
    let nacked = (handle_nack online (codes "n1") relayed).1 in
    (nacked.sent
      ≡ (send_first online (nack_line (codes "n0")) (parse_addresses (codes "a:1")) relayed.sent).1)
    × ((handle_nack online (codes "n1") nacked).1.sent ≡ nacked.sent)
unfolding lookup contains
relay_then_nack_example =
    relay_then_nack online online online relay (codes "n0") (codes "n1") start refl
      ((λ e. ground (arith, e)), ((λ e. ground (arith, e)), tt)) refl sends_online refl

-- An onion that cannot be opened, and a free channel.
handle_onion-IsHopeful_example : IsHopeful 0 (handle_onion toy 5 online (codes "x") start).1
handle_onion-IsHopeful_example = handle_onion-IsHopeful toy 5 online (codes "x") 0 start refl

handle_ack_leak_example :
    let r' = (handle_ack (record final { msg_id = codes "m" }) waiting).1 in
    (r'.node.channels 0 ≡ true ∷ [])
    × (lookup (codes "m") r'.node.pending_acks ≡ none)
    × (lookup (codes "n") r'.node.pending_acks ≡ some 0)
unfolding lookup
handle_ack_leak_example =
    handle_ack_leak (record final { msg_id = codes "m" }) (codes "n") 0 waiting refl refl
      (λ e. ground (arith, (eq_iff (codes "m") (codes "n")).1 e)) refl

handle_layer_bad_frag_example :
    (handle_layer online (record final { frag = codes "oops" }) start).0 ≡ panicked
unfolding lookup
handle_layer_bad_frag_example =
    handle_layer_bad_frag online (record final { frag = codes "oops" }) start refl refl
      (λ e. ground arith) (omega arith)

-- The return onion "inner" for "b:2".
handle_layer-Offers_example :
    Offers
      (is_taken online (codes "f1") (codes "b:2") (codes "inner") [] (codes "hello") start
        && has_return online (codes "f1") (codes "b:2") (codes "inner") [] (codes "hello"))
      (codes "inner")
      (offered online (codes "f1") (codes "b:2") (codes "inner") [] (codes "hello"))
      []
      (handle_layer online
        (final_layer (codes "f1") (codes "b:2") (codes "inner") [] (codes "hello"))
        start).1.sent
handle_layer-Offers_example =
    handle_layer-Offers online (codes "f1") (codes "b:2") (codes "inner") [] (codes "hello") start
