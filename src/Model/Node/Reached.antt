-- ===== src/Model/Node/Reached.antt =====
-- The loops over candidate addresses reach a node if one of the candidates answers.
use dor.Base.{
  ℕ, ◌≡◌, ap, ◌∙◌, subst, inl, inr, Bool, true, false, ◌||◌, List, [], ◌∷◌, ◌++◌, arith, Bool-cases,
  ◌==◌, eq_iff, nat_eq, Bytes, bytes_eq, length, IsMember, IsMember-Permᴰ, int_eq,
}
use dor.Model.Node.{Env, Attempt, send_to, send_first}
use dor.Model.Node.Sends.{Tried, send_first-Tried}
use dor.Model.Shuffle.{shuffle, shuffle-Perm}
use mathlib.Core.Logic.{∥∥₁_elim}
use mathlib.Core.List.{Perm}
use mathlib.Core.List.Perm

-- The node behind this address answers, whenever it is called.
abbrev pub IsUp : Env → Bytes → Type 0
IsUp env a = (k : ℕ) (m : Bytes) → env.dial k a m ≡ true

-- The last call handed the message over, to one of these addresses.
abbrev pub Reached : Bytes → List Bytes → List Attempt → List Attempt → Type 0
Reached m addrs sent sent' =
    (before : List Attempt) × (t : Attempt) × (sent' ≡ sent ++ (before ++ t ∷ []))
    × IsMember t.addr addrs
    × (t.message ≡ m)
    × (t.delivered ≡ true)

send_first-up :
    (env : Env) (m a : Bytes) (addrs : List Bytes) (sent : List Attempt)
    → IsMember a addrs
    → IsUp env a
    → (send_first env m addrs sent).0 ≡ true
unfolding send_first send_to
send_first-up env m a [] sent member up = absurd member
send_first-up env m a (x ∷ addrs) sent (inl e) up =
    let delivered : env.dial (length sent) x m ≡ true =
      subst (λ y. env.dial (length sent) y m ≡ true) e (up (length sent) m) in
    ground (arith, delivered)
send_first-up env m a (x ∷ addrs) sent (inr member) up =
    let d = env.dial (length sent) x m in
    elim (Bool-cases d) [
      | inl e ↦ ground (arith, e)
      | inr e ↦ ground (
        arith,
        e,
        send_first-up env m a addrs (sent ++ record { addr = x; message = m; delivered = d } ∷ [])
            member up,
      )
    ]

pub Tried-Reached :
    (m : Bytes) (addrs : List Bytes) (calls : List Attempt)
    → Tried m addrs true calls
    → (before : List Attempt) × (t : Attempt) × (calls ≡ before ++ t ∷ [])
      × IsMember t.addr addrs
      × (t.message ≡ m)
      × (t.delivered ≡ true)
Tried-Reached m [] calls (b, none_made) = cc
Tried-Reached m (a ∷ addrs) [] h = absurd h
Tried-Reached m (a ∷ addrs) (t ∷ calls) (at, what, inl (sent, b, over)) =
    ([], t, ap (λ l. t ∷ l) over, inl at, what, sent)
Tried-Reached m (a ∷ addrs) (t ∷ calls) (at, what, inr (missed, tried)) =
    let (before, u, log, member, what', sent) = Tried-Reached m addrs calls tried in
    (t ∷ before, u, ap (λ l. t ∷ l) log, inr member, what', sent)

abbrev listed : Bytes → List Bytes → Bool
listed a [] = false
listed a (x ∷ xs) = a == x || listed a xs

listed-IsMember : (a : Bytes) (xs : List Bytes) → listed a xs ≡ true → IsMember a xs
listed-IsMember a [] h = cc
listed-IsMember a (x ∷ xs) h = elim (Bool-cases (a == x)) [
  | inl e ↦ inl ((eq_iff a x).0 e)
  | inr e ↦ inr (listed-IsMember a xs (ground (arith, e, h)))
]

IsMember-listed : (a : Bytes) (xs : List Bytes) → IsMember a xs → listed a xs ≡ true
IsMember-listed a [] h = absurd h
IsMember-listed a (x ∷ xs) (inl e) = ground (arith, (eq_iff a x).1 e)
IsMember-listed a (x ∷ xs) (inr h) = ground (arith, IsMember-listed a xs h)

-- A permutation keeps the members; which one it is does not matter, since equality is decided.
IsMember-Perm : (a : Bytes) {xs ys : List Bytes} → Perm xs ys → IsMember a xs → IsMember a ys
IsMember-Perm a {xs} {ys} p h =
    listed-IsMember a ys (∥∥₁_elim p (hlevel) (λ d. IsMember-listed a ys (IsMember-Permᴰ a d h)))

-- If one of the addresses is up, the loop over them in shuffled order ends with a call that one of
-- them takes.
pub send_first-Reached :
    (env : Env) (m a : Bytes) (addrs : List Bytes) (sent : List Attempt)
    → IsMember a addrs
    → IsUp env a
    → ((send_first env m (shuffle env.draws addrs) sent).0 ≡ true)
      × Reached m addrs sent (send_first env m (shuffle env.draws addrs) sent).1
send_first-Reached env m a addrs sent member up =
    let shuffled = shuffle env.draws addrs in
    let mixed = shuffle-Perm env.draws addrs in
    let reached =
      send_first-up env m a shuffled sent (IsMember-Perm a (Perm.symm mixed) member) up in
    let (calls, log, tried) = send_first-Tried env m shuffled sent in
    let (before, t, split, there, what, delivered) =
      Tried-Reached m shuffled calls (subst (λ b. Tried m shuffled b calls) reached tried) in
    (
      reached,
      (
        before,
        t,
        log ∙ ap (λ l. sent ++ l) split,
        IsMember-Perm t.addr mixed there,
        what,
        delivered,
      ),
    )
