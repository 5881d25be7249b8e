-- ===== src/Node/Send/Waits.antt =====
-- `SendWithRetry`: a try whose first node answers, up to the wait on the channel.
use dor.Base.{
  ℕ, ◌≡◌, refl, ap, true, some, List, [], ◌∷◌, ◌++◌, Bytes, length, get_elem?, Result, ok,
}
use dor.Model.Crypto.{Crypto}
use dor.Model.Node.{send_to}
use dor.Model.Node.Reached.{IsUp}
use dor.Node.KeyCache.{KeyCache}
use dor.Node.Encapsulate.{cached_key, refresh_keys, build_onions, encapsulator_func}
use dor.Node.Send.{
  Outcome, acknowledged, Plan, Sender, World, register, await, transmit, launch, follow,
}

-- The state in which the goroutine waits, when the first node has taken the onion.
abbrev pub sent_sender :
    {K : Type 0} → World → ℕ → Bytes → Bytes → Bytes → Bytes → Sender K → Sender K
sent_sender w k a onion msg_id first_nack s = record s {
  node = register msg_id first_nack (w.channel k) s.node;
  sent = s.sent ++ record { addr = a; message = onion; delivered = true } ∷ [];
}

transmit-acknowledged :
    (c : Crypto) (w : World) (node_addr dest_addr message frag : Bytes) (k : ℕ)
    (retry : Sender c.PublicKey → Outcome × Sender c.PublicKey) (route : List Bytes)
    (onion msg_id first_nack a : Bytes) (s : Sender c.PublicKey)
    → get_elem? route 0 ≡ some a
    → IsUp (w.env k) a
    → w.answer k ≡ some true
    → transmit c w node_addr dest_addr message frag k retry route onion msg_id first_nack s
      ≡ (acknowledged k, sent_sender w k a onion msg_id first_nack s)
unfolding transmit await send_to
transmit-acknowledged c w node_addr dest_addr message frag k retry [] onion msg_id first_nack a s at
      up told =
    cc
transmit-acknowledged c w node_addr dest_addr message frag k retry (x ∷ route) onion msg_id
      first_nack a s at up told =
    let same : x ≡ a = cc in rw (same, up (length s.sent) onion, told) refl

encapsulator_func-built :
    (c : Crypto) (w : World) (k : ℕ) (node_addr message : Bytes) (p : Plan)
    (cache : KeyCache c.PublicKey) (s : Sender c.PublicKey) (o : Result (Bytes × Bytes × Bytes))
    → refresh_keys c w.exchange (w.clock k) 0 s.cache (p.route ++ p.return_route) ≡ (cache, ok tt)
    → build_onions c
        (w.forward_fresh k)
        (w.return_fresh k)
        (w.ids k)
        (cached_key c cache)
        message
        []
        p.route
        (some p.return_route)
        node_addr
      ≡ o
    → encapsulator_func c w.exchange
        (w.clock k)
        (w.forward_fresh k)
        (w.return_fresh k)
        (w.ids k)
        s.cache
        message
        []
        p.route
        (some p.return_route)
        node_addr
      ≡ (cache, o)
unfolding encapsulator_func
encapsulator_func-built c w k node_addr message p cache s o refreshed built =
    rw (refreshed) (ap (λ x. (cache, x)) built)

pub follow-acknowledged :
    (c : Crypto) (w : World) (node_addr dest_addr message : Bytes) (k : ℕ)
    (retry : Sender c.PublicKey → Outcome × Sender c.PublicKey) (p : Plan)
    (onion msg_id first_nack a : Bytes) (cache : KeyCache c.PublicKey) (s : Sender c.PublicKey)
    → refresh_keys c w.exchange (w.clock k) 0 s.cache (p.route ++ p.return_route) ≡ (cache, ok tt)
    → build_onions c
        (w.forward_fresh k)
        (w.return_fresh k)
        (w.ids k)
        (cached_key c cache)
        message
        []
        p.route
        (some p.return_route)
        node_addr
      ≡ ok (onion, msg_id, first_nack)
    → get_elem? p.route 0 ≡ some a
    → IsUp (w.env k) a
    → w.answer k ≡ some true
    → follow c w node_addr dest_addr message [] k retry p s
      ≡ (acknowledged k, sent_sender w k a onion msg_id first_nack (record s { cache = cache }))
unfolding follow launch
follow-acknowledged c w node_addr dest_addr message k retry p onion msg_id first_nack a cache s
      refreshed built at up told =
    rw (encapsulator_func-built c w k node_addr message p cache s _ refreshed built) (
      transmit-acknowledged c w node_addr dest_addr message [] k retry p.route onion msg_id
        first_nack a (record s { cache = cache }) at up told)
