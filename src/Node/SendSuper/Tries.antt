-- ===== src/Node/SendSuper/Tries.antt =====
-- `SendWithRetrySuper`: the calls of `SendTo`, one try after the other.
use dor.Base.{
  ℕ, suc, ◌≡◌, refl, sym, ap, ◌∙◌, subst, inl, inr, Bool, true, false, Option, none, some, List, [],
  ◌∷◌, ◌++◌, append_assoc, append-nil, arith, if◌then◌else◌, Bool-cases, Bytes, length, All, Result,
  ok, err, panic,
}
use dor.Model.Crypto.{Crypto}
use dor.Model.Node.{Node, Env, Attempt, send_to}
use dor.Model.Node.Sends.{Tried}
use dor.Node.Send.{Sender, register, unregister}
use dor.Node.Cluster.Allowed.{IsAllowed}
use dor.Node.SendSuper.{
  SuperOutcome, SuperWorld, send_group, await_super, transmit_super, launch_super,
}

-- The addresses of the calls that failed.
abbrev pub misses : List Attempt → List Bytes
misses [] = []
misses (t ∷ calls) = if t.delivered then misses calls else t.addr ∷ misses calls

-- At most so many tries, with these calls in this order, from this list of failed addresses on.
-- Each try goes through addresses that are allowed and not known to have failed, with one message,
-- up to the first that answers; those that did not are known to the tries after it.
pub data Tries (P : Bytes → Type 0) : ℕ → List Bytes → List Attempt → Type 0 where
  no_more : {n : ℕ} {failed : List Bytes} → Tries P n failed []
  one_more :
      {n : ℕ} {failed : List Bytes} (onion : Bytes) (addrs : List Bytes) (b : Bool)
      (calls later : List Attempt)
      → All (IsAllowed P failed) addrs
      → Tried onion addrs b calls
      → Tries P n (failed ++ misses calls) later
      → Tries P (suc n) failed (calls ++ later)

Tries-suc :
    {P : Bytes → Type 0} {n : ℕ} {failed : List Bytes} {calls : List Attempt}
    → Tries P n failed calls
    → Tries P (suc n) failed calls
Tries-suc no_more = no_more
Tries-suc (one_more onion addrs b calls later allowed tried rest) =
    one_more onion addrs b calls later allowed tried (Tries-suc rest)

module _ (c : Crypto) where
  send_group_miss :
      (env : Env) (m a : Bytes) (addrs : List Bytes) (sent : List Attempt) (failed : List Bytes)
      → env.dial (length sent) a m ≡ false
      → send_group c env m (a ∷ addrs) sent failed
        ≡ send_group c env m addrs
            (sent ++ record { addr = a; message = m; delivered = env.dial (length sent) a m } ∷ [])
            (failed ++ a ∷ [])
  unfolding send_group send_to
  send_group_miss env m a addrs sent failed h = ground arith

  -- What the loop over a group does to the log and to `failedNodes`.
  pub send_group-Tried :
      (env : Env) (m : Bytes) (addrs : List Bytes) (sent : List Attempt) (failed : List Bytes)
      → (calls : List Attempt) × ((send_group c env m addrs sent failed).1 ≡ sent ++ calls)
        × Tried m addrs (send_group c env m addrs sent failed).0 calls
        × ((send_group c env m addrs sent failed).2 ≡ failed ++ misses calls)
  unfolding send_group send_to
  send_group-Tried env m [] sent failed =
      ([], sym (append-nil sent), (refl, refl), sym (append-nil failed))
  send_group-Tried env m (a ∷ addrs) sent failed =
      let d = env.dial (length sent) a m in
      let t : Attempt = record { addr = a; message = m; delivered = d } in
      elim (Bool-cases d) [
        | inl e ↦ (
          t ∷ [],
          ground arith,
          (refl, refl, inl (e, ground arith, refl)),
          ground (arith, append-nil failed),
        )
        | inr e ↦
            let (calls, log, tried, known) =
              send_group-Tried env m addrs (sent ++ t ∷ []) (failed ++ a ∷ []) in
            let miss = send_group_miss env m a addrs sent failed e in
            (
              t ∷ calls,
              ap (λ p. p.1) miss ∙ log ∙ append_assoc sent (t ∷ []) calls,
              (
                refl,
                refl,
                inr (e, subst (λ b. Tried m addrs b calls) (sym (ap (λ p. p.0) miss)) tried),
              ),
              ap (λ p. p.2) miss
                  ∙ known
                  ∙ ground (arith, e, append_assoc failed (a ∷ []) (misses calls)),
            )
      ]

  -- What a run adds to the log of the calls.
  abbrev pub Logged : (Bytes → Type 0) → ℕ → List Bytes → List Attempt → List Attempt → Type 0
  Logged P n failed sent sent' =
      (calls : List Attempt) × (sent' ≡ sent ++ calls) × Tries P n failed calls

  pub nothing_sent :
      (P : Bytes → Type 0) (n : ℕ) (failed : List Bytes) (sent : List Attempt)
      → Logged P n failed sent sent
  nothing_sent P n failed sent = ([], sym (append-nil sent), no_more)

  -- A try, and what comes after it.
  try-Logged :
      (P : Bytes → Type 0) (n : ℕ) (onion : Bytes) (addrs : List Bytes) (b : Bool)
      (calls : List Attempt) (failed failed' : List Bytes) (sent sent' final : List Attempt)
      → All (IsAllowed P failed) addrs
      → Tried onion addrs b calls
      → sent' ≡ sent ++ calls
      → failed' ≡ failed ++ misses calls
      → Logged P n failed' sent' final
      → Logged P (suc n) failed sent final
  try-Logged P n onion addrs b calls failed failed' sent sent' final allowed tried log known
        (later, log', tries) =
      (
        calls ++ later,
        log' ∙ ap (λ l. l ++ later) log ∙ append_assoc sent calls later,
        one_more onion addrs b calls later allowed tried
            (subst (λ f. Tries P n f later) known tries),
      )

  module _ (P : Bytes → Type 0) (w : SuperWorld c.PublicKey) (node_addr dest_addr message : Bytes)
      (k n : ℕ) (retry : List Bytes → Sender c.PublicKey → SuperOutcome × Sender c.PublicKey)
      (later : (failed : List Bytes) (s : Sender c.PublicKey)
        → Logged P n failed s.sent (retry failed s).1.sent) where
    await-Logged :
        (msg_id first_nack : Bytes) (answer : Option Bool) (failed : List Bytes)
        (s : Sender c.PublicKey)
        → Logged P n failed s.sent
            (await_super c w node_addr dest_addr message k retry msg_id first_nack answer failed
              s).1.sent
    unfolding await_super
    await-Logged msg_id first_nack (some true) failed s = nothing_sent P n failed s.sent
    await-Logged msg_id first_nack (some false) failed s = later failed _
    await-Logged msg_id first_nack none failed s = nothing_sent P n failed s.sent

    transmit-Logged :
        (addrs : List Bytes) (onion msg_id first_nack : Bytes) (failed : List Bytes)
        (s : Sender c.PublicKey)
        → All (IsAllowed P failed) addrs
        → Logged P
            (suc n)
            failed
            s.sent
            (transmit_super c w node_addr dest_addr message k retry addrs onion msg_id first_nack
              failed s).1.sent
    unfolding transmit_super
    transmit-Logged [] onion msg_id first_nack failed s allowed =
        nothing_sent P (suc n) failed s.sent
    transmit-Logged (addr ∷ addrs) onion msg_id first_nack failed s allowed =
        let (calls, log, tried, known) =
          send_group-Tried (w.env k) onion (addr ∷ addrs) s.sent failed in
        go (send_group c (w.env k) onion (addr ∷ addrs) s.sent failed) calls log tried known
      where
        registered : Node
        registered = register msg_id first_nack (w.channel k) s.node

        go :
            (r : Bool × List Attempt × List Bytes) (calls : List Attempt)
            → r.1 ≡ s.sent ++ calls
            → Tried onion (addr ∷ addrs) r.0 calls
            → r.2 ≡ failed ++ misses calls
            → Logged P
                (suc n)
                failed
                s.sent
                (if r.0
                  then await_super c w node_addr dest_addr message k retry msg_id first_nack
                      (w.answer k)
                      r.2
                      (record { node = registered; cache = s.cache; sent = r.1 })
                  else retry r.2 (record {
                    node = unregister msg_id first_nack registered;
                    cache = s.cache;
                    sent = r.1;
                  })).1.sent
        go (true, sent, failed') calls log tried known =
            try-Logged P n onion (addr ∷ addrs) true calls failed failed' s.sent sent _ allowed
              tried log known
              (await-Logged msg_id first_nack (w.answer k) failed'
                (record { node = registered; cache = s.cache; sent = sent }))
        go (false, sent, failed') calls log tried known =
            try-Logged P n onion (addr ∷ addrs) false calls failed failed' s.sent sent _ allowed
              tried log known
              (later failed' (record {
                node = unregister msg_id first_nack registered;
                cache = s.cache;
                sent = sent;
              }))

    pub launch-Logged :
        (addrs : List Bytes) (built : Result (Bytes × Bytes × Bytes)) (failed : List Bytes)
        (s : Sender c.PublicKey)
        → All (IsAllowed P failed) addrs
        → Logged P
            (suc n)
            failed
            s.sent
            (launch_super c w node_addr dest_addr message k retry addrs built failed s).1.sent
    unfolding launch_super
    launch-Logged addrs (ok (onion, msg_id, first_nack)) failed s allowed =
        transmit-Logged addrs onion msg_id first_nack failed s allowed
    launch-Logged addrs (err e) failed s allowed = nothing_sent P (suc n) failed s.sent
    launch-Logged addrs panic failed s allowed = nothing_sent P (suc n) failed s.sent
