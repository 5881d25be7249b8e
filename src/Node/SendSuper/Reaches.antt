-- ===== src/Node/SendSuper/Reaches.antt =====
-- `SendWithRetrySuper`: a try whose first group has a node that answers, up to the wait on the channel.
use dor.Base.{
  ℕ, ◌≡◌, refl, ap, ◌∙◌, subst, inl, inr, true, some, List, [], ◌∷◌, ◌++◌, arith, Bool-cases, Bytes,
  length, IsMember,
}
use dor.Model.Crypto.{Crypto}
use dor.Model.Node.{Env, Attempt, send_to}
use dor.Model.Node.Sends.{Tried}
use dor.Model.Node.Reached.{IsUp, Reached, Tried-Reached}
use dor.Node.Send.{Sender, register}
use dor.Node.SendSuper.{
  SuperOutcome, acknowledged, SuperWorld, send_group, await_super, transmit_super,
}
use dor.Node.SendSuper.Tries.{send_group-Tried}

module _ (c : Crypto) where
  send_group-up :
      (env : Env) (m a : Bytes) (addrs : List Bytes) (sent : List Attempt) (failed : List Bytes)
      → IsMember a addrs
      → IsUp env a
      → (send_group c env m addrs sent failed).0 ≡ true
  unfolding send_group send_to
  send_group-up env m a [] sent failed member up = absurd member
  send_group-up env m a (x ∷ addrs) sent failed (inl e) up =
      let delivered : env.dial (length sent) x m ≡ true =
        subst (λ y. env.dial (length sent) y m ≡ true) e (up (length sent) m) in
      ground (arith, delivered)
  send_group-up env m a (x ∷ addrs) sent failed (inr member) up =
      let d = env.dial (length sent) x m in
      elim (Bool-cases d) [
        | inl e ↦ ground (arith, e)
        | inr e ↦ ground (
          arith,
          e,
          send_group-up env m a addrs (sent ++ record { addr = x; message = m; delivered = d } ∷ [])
              (failed ++ x ∷ []) member up,
        )
      ]

  send_group-Reached :
      (env : Env) (m a : Bytes) (addrs : List Bytes) (sent : List Attempt) (failed : List Bytes)
      → IsMember a addrs
      → IsUp env a
      → ((send_group c env m addrs sent failed).0 ≡ true)
        × Reached m addrs sent (send_group c env m addrs sent failed).1
  send_group-Reached env m a addrs sent failed member up =
      let reached = send_group-up env m a addrs sent failed member up in
      let (calls, log, tried, known) = send_group-Tried c env m addrs sent failed in
      let (before, t, split, there, what, delivered) =
        Tried-Reached m addrs calls (subst (λ b. Tried m addrs b calls) reached tried) in
      (reached, (before, t, log ∙ ap (λ l. sent ++ l) split, there, what, delivered))

  -- The state in which the goroutine waits.
  abbrev pub waiting_sender :
      SuperWorld c.PublicKey
      → ℕ
      → Bytes
      → Bytes
      → Bytes
      → List Bytes
      → List Bytes
      → Sender c.PublicKey
      → Sender c.PublicKey
  waiting_sender w k onion msg_id first_nack addrs failed s = record {
    node = register msg_id first_nack (w.channel k) s.node;
    cache = s.cache;
    sent = (send_group c (w.env k) onion addrs s.sent failed).1;
  }

  pub transmit-acknowledged :
      (w : SuperWorld c.PublicKey) (node_addr dest_addr message : Bytes) (k : ℕ)
      (retry : List Bytes → Sender c.PublicKey → SuperOutcome × Sender c.PublicKey)
      (addrs : List Bytes) (onion msg_id first_nack a : Bytes) (failed : List Bytes)
      (s : Sender c.PublicKey)
      → IsMember a addrs
      → IsUp (w.env k) a
      → w.answer k ≡ some true
      → let s' = waiting_sender w k onion msg_id first_nack addrs failed s in
        (transmit_super c w node_addr dest_addr message k retry addrs onion msg_id first_nack failed
            s
          ≡ (acknowledged k, s'))
        × Reached onion addrs s.sent s'.sent
  unfolding transmit_super await_super
  transmit-acknowledged w node_addr dest_addr message k retry [] onion msg_id first_nack a failed s
        member up told =
      absurd member
  transmit-acknowledged w node_addr dest_addr message k retry (x ∷ addrs) onion msg_id first_nack a
        failed s member up told =
      let (delivered, reached) =
        send_group-Reached (w.env k) onion a (x ∷ addrs) s.sent failed member up in
      (rw (delivered, told) refl, reached)
