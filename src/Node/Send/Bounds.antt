-- ===== src/Node/Send/Bounds.antt =====
-- How often a send tries.
use dor.Base.{
  ℕ, zero, suc, ◌+◌, ◌≤◌, ◌≡◌, ◌⊎◌, inl, inr, Bool, true, false, Option, none, some, List, [], ◌∷◌,
  arith, if◌then◌else◌, Bytes, length, Result, ok, err, panic, ℤ, pos,
}
use dor.Model.Crypto.{Crypto}
use dor.Node.Encapsulate.{encapsulator_func}
use dor.Node.Send.{
  register, unregister, Outcome, Plan, Sender, World, plan, await, transmit, launch, follow,
  by_plan, send_with_retry, send_to, Node, Attempt,
}
use dor.Model.Node.Sends.{length-send_to}

module _ (c : Crypto) (w : World) (node_addr dest_addr message frag : Bytes) where
  module _ (k n : ℕ) (retry : Sender c.PublicKey → Outcome × Sender c.PublicKey)
      (bound : (s : Sender c.PublicKey) → length (retry s).1.sent ≤ length s.sent + n) where
    await-bound :
        (msg_id first_nack : Bytes) (answer : Option Bool) (s : Sender c.PublicKey)
        → length
            (await c w node_addr dest_addr message frag k retry msg_id first_nack answer s).1.sent
          ≤ length s.sent + n
    unfolding await
    await-bound msg_id first_nack (some true) s = omega arith
    await-bound msg_id first_nack (some false) s = bound _
    await-bound msg_id first_nack none s = omega arith

    transmit-bound :
        (route : List Bytes) (onion msg_id first_nack : Bytes) (s : Sender c.PublicKey)
        → length
            (transmit c w node_addr dest_addr message frag k retry route onion msg_id first_nack
              s).1.sent
          ≤ length s.sent + suc n
    unfolding transmit
    transmit-bound [] onion msg_id first_nack s = omega arith
    transmit-bound (hop ∷ hops) onion msg_id first_nack s =
        go (send_to (w.env k) hop onion s.sent) (length-send_to (w.env k) hop onion s.sent)
      where
        registered : Node
        registered = register msg_id first_nack (w.channel k) s.node

        go :
            (r : Bool × List Attempt)
            → length r.1 ≡ suc (length s.sent)
            → length
                (if r.0
                  then await c w node_addr dest_addr message frag k retry msg_id first_nack
                      (w.answer k)
                      (record { node = registered; cache = s.cache; sent = r.1 })
                  else retry (record {
                    node = unregister msg_id first_nack registered;
                    cache = s.cache;
                    sent = r.1;
                  })).1.sent
              ≤ length s.sent + suc n
        go (true, sent) e = omega (
          arith,
          e,
          await-bound msg_id first_nack (w.answer k)
              (record { node = registered; cache = s.cache; sent = sent }),
        )
        go (false, sent) e = omega (
          arith,
          e,
          bound (record {
            node = unregister msg_id first_nack registered;
            cache = s.cache;
            sent = sent;
          }),
        )

    launch-bound :
        (route : List Bytes) (built : Result (Bytes × Bytes × Bytes)) (s : Sender c.PublicKey)
        → length (launch c w node_addr dest_addr message frag k retry route built s).1.sent
          ≤ length s.sent + suc n
    unfolding launch
    launch-bound route (ok (onion, msg_id, first_nack)) s =
        transmit-bound route onion msg_id first_nack s
    launch-bound route (err e) s = omega arith
    launch-bound route panic s = omega arith

  by_plan-bound :
      (k n : ℕ) (retry : ℤ → Sender c.PublicKey → Outcome × Sender c.PublicKey)
      (bound : (num : ℤ) (s : Sender c.PublicKey) → length (retry num s).1.sent ≤ length s.sent + n)
      (p : Outcome ⊎ Plan) (s : Sender c.PublicKey)
      → length (by_plan c w node_addr dest_addr message frag k retry p s).1.sent
        ≤ length s.sent + suc n
  unfolding by_plan follow
  by_plan-bound k n retry bound (inl o) s = omega arith
  by_plan-bound k n retry bound (inr p) s =
      let (cache', built) =
        encapsulator_func c w.exchange (w.clock k) (w.forward_fresh k) (w.return_fresh k) (w.ids k)
          s.cache message frag p.route (some p.return_route) node_addr in
      launch-bound k n (retry (pos p.num_relays)) (bound (pos p.num_relays)) p.route built
        (record s { cache = cache' })

  -- A send with `tries` tries left hands its message to `SendTo` at most that often, whatever the
  -- network, the directory server and the recipients do.
  pub send_with_retry-bound :
      (tries k : ℕ) (num_relays : ℤ) (s : Sender c.PublicKey)
      → length (send_with_retry c w node_addr dest_addr message frag tries k num_relays s).1.sent
        ≤ length s.sent + tries
  unfolding send_with_retry
  send_with_retry-bound zero k num_relays s = omega arith
  send_with_retry-bound (suc tries) k num_relays s =
      by_plan-bound k tries
        (λ num s'. send_with_retry c w node_addr dest_addr message frag tries (suc k) num s')
        (λ num s'. send_with_retry-bound tries (suc k) num s')
        (plan node_addr dest_addr (w.draws k) num_relays (w.list k)) s
