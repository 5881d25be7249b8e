-- ===== src/Model/Node/Sends.antt =====
-- The loops over candidate addresses stop at the first one that answers.
use dor.Base.{
  suc, ◌≡◌, refl, sym, ap, ◌∙◌, subst, ◌⊎◌, inl, inr, Bool, true, false, List, [], ◌∷◌, ◌++◌,
  append_assoc, append-nil, arith, Bool-cases, Bytes, length, length-append,
}
use dor.Model.Node.{Env, Attempt, send_to, send_first}

-- The calls of `SendTo` that a loop over `addrs` makes: one for each address up to the first that
-- answers, all with the message `m`; `b` says whether one did.
abbrev pub Tried : Bytes → List Bytes → Bool → List Attempt → Type 0
Tried m [] b calls = (b ≡ false) × (calls ≡ [])
Tried m (a ∷ addrs) b [] = ⊥
Tried m (a ∷ addrs) b (t ∷ calls) =
    (t.addr ≡ a)
    × (t.message ≡ m)
    × (((t.delivered ≡ true) × (b ≡ true) × (calls ≡ []))
        ⊎ ((t.delivered ≡ false) × Tried m addrs b calls))

send_first_miss :
    (env : Env) (m a : Bytes) (addrs : List Bytes) (sent : List Attempt)
    → env.dial (length sent) a m ≡ false
    → send_first env m (a ∷ addrs) sent
      ≡ send_first env m addrs
          (sent ++ record { addr = a; message = m; delivered = env.dial (length sent) a m } ∷ [])
unfolding send_first send_to
send_first_miss env m a addrs sent h = ground arith

-- A loop over addresses adds exactly these calls to the log.
pub send_first-Tried :
    (env : Env) (m : Bytes) (addrs : List Bytes) (sent : List Attempt)
    → (calls : List Attempt) × ((send_first env m addrs sent).1 ≡ sent ++ calls)
      × Tried m addrs (send_first env m addrs sent).0 calls
unfolding send_first send_to
send_first-Tried env m [] sent = ([], sym (append-nil sent), (refl, refl))
send_first-Tried env m (a ∷ addrs) sent =
    let d = env.dial (length sent) a m in
    let t : Attempt = record { addr = a; message = m; delivered = d } in
    elim (Bool-cases d) [
      | inl e ↦ (t ∷ [], ground arith, (refl, refl, inl (e, ground arith, refl)))
      | inr e ↦
          let (calls, log, tried) = send_first-Tried env m addrs (sent ++ t ∷ []) in
          let miss = send_first_miss env m a addrs sent e in
          (
            t ∷ calls,
            ap (λ p. p.1) miss ∙ log ∙ append_assoc sent (t ∷ []) calls,
            (
              refl,
              refl,
              inr (e, subst (λ b. Tried m addrs b calls) (sym (ap (λ p. p.0) miss)) tried),
            ),
          )
    ]

-- A call of `SendTo` is recorded whether it succeeds or not.
pub length-send_to :
    (env : Env) (addr m : Bytes) (sent : List Attempt)
    → length (send_to env addr m sent).1 ≡ suc (length sent)
unfolding send_to
length-send_to env addr m sent = omega (
  arith,
  length-append sent
      (record { addr = addr; message = m; delivered = env.dial (length sent) addr m } ∷ []),
)
