-- ===== src/Node/Race/Progress.antt =====
-- The goroutine that waits and the handlers: who can go on.
use dor.Base.{
  ℕ, suc, ◌<◌, ◌≡◌, refl, ◌⊎◌, inl, inr, Bool, true, false, Option, none, some, List, [], ◌∷◌,
  arith, length,
}
use dor.Node.Race.{
  Answer, told_by, Slot, by_msg, by_nack, Waiter, waiting, received, expired, acknowledged, cleaned,
  Race, race, Step, deliver_msg, deliver_nack, block_msg, block_nack, release_msg, release_nack,
  receive, expire, accept, clear_nack, clear_timeout, Reach, start, later,
}

-- How many of the two entries have been used up.
abbrev consumed : Bool → Bool → ℕ
consumed true true = 0
consumed true false = 1
consumed false true = 1
consumed false false = 2

-- Each use of an entry put one value into the buffer, and the goroutine takes at most one.
abbrev Counts : Waiter → ℕ → ℕ → Type 0
Counts waiting used held = used ≡ held
Counts expired used held = used ≡ held
Counts (received b) used held = used ≡ suc held
Counts acknowledged used held = used ≡ suc held
Counts cleaned used held = used ≡ 2

abbrev Holds : Option (Slot × Answer) → Bool → Bool → Type 0
Holds none a k = Unit
Holds (some (by_msg, v)) a k = a ≡ true
Holds (some (by_nack, v)) a k = k ≡ true

abbrev pub IsConsistent : Race → Type 0
IsConsistent (race a k buf w h) = Counts w (consumed a k) (length buf) × Holds h a k

-- The goroutine is through, and `Mu` is free.
abbrev pub IsSettled : Race → Type 0
IsSettled (race a k buf acknowledged none) = Unit
IsSettled (race a k buf cleaned none) = Unit
IsSettled _ = ⊥

-- The goroutine has given up and waits for `Mu`, which a handler holds that waits for room.
abbrev pub IsDeadlocked : Race → Type 0
IsDeadlocked (race a k buf w h) =
    (w ≡ expired)
    × ((b : Bool) × (bs : List Bool) × (buf ≡ b ∷ bs))
    × ((g : Slot × Answer) × (h ≡ some g))

Counts-delivered : (w : Waiter) (used : ℕ) → Counts w used 0 → used < 2 → Counts w (suc used) 1
Counts-delivered waiting used h lt = omega (arith, h)
Counts-delivered expired used h lt = omega (arith, h)
Counts-delivered (received b) used h lt = omega (arith, h)
Counts-delivered acknowledged used h lt = omega (arith, h)
Counts-delivered cleaned used h lt = absurd (omega (arith, h, lt))

Step-IsConsistent : {s t : Race} → Step s t → IsConsistent s → IsConsistent t
Step-IsConsistent (deliver_msg true w v) (c, h) = (Counts-delivered w 0 c (omega arith), tt)
Step-IsConsistent (deliver_msg false w v) (c, h) = (Counts-delivered w 1 c (omega arith), tt)
Step-IsConsistent (deliver_nack true w v) (c, h) = (Counts-delivered w 0 c (omega arith), tt)
Step-IsConsistent (deliver_nack false w v) (c, h) = (Counts-delivered w 1 c (omega arith), tt)
Step-IsConsistent (block_msg k b bs w v) (c, h) = (c, refl)
Step-IsConsistent (block_nack a b bs w v) (c, h) = (c, refl)
Step-IsConsistent (release_msg true true w v) (c, h) = (Counts-delivered w 0 c (omega arith), tt)
Step-IsConsistent (release_msg true false w v) (c, h) = (Counts-delivered w 1 c (omega arith), tt)
Step-IsConsistent (release_msg false k w v) (c, h) = cc
Step-IsConsistent (release_nack true true w v) (c, h) = (Counts-delivered w 0 c (omega arith), tt)
Step-IsConsistent (release_nack false true w v) (c, h) = (Counts-delivered w 1 c (omega arith), tt)
Step-IsConsistent (release_nack a false w v) (c, h) = cc
Step-IsConsistent (receive a k b bs g) (c, h) = (c, h)
Step-IsConsistent (expire a k buf g) (c, h) = (c, h)
Step-IsConsistent (accept a k buf g) (c, h) = (c, h)
Step-IsConsistent (clear_nack a k buf) (c, h) = (refl, tt)
Step-IsConsistent (clear_timeout a k buf) (c, h) = (refl, tt)

Reach-IsConsistent : {s : Race} → Reach s → IsConsistent s
Reach-IsConsistent start = (refl, tt)
Reach-IsConsistent (later before step) = Step-IsConsistent step (Reach-IsConsistent before)

-- A blocked handler and a full buffer leave one entry unused.
full-consumed : (g : Slot × Answer) (a k : Bool) → Holds (some g) a k → consumed a k < 2
full-consumed (by_msg, v) true true h = omega arith
full-consumed (by_msg, v) true false h = omega arith
full-consumed (by_msg, v) false k h = cc
full-consumed (by_nack, v) true true h = omega arith
full-consumed (by_nack, v) false true h = omega arith
full-consumed (by_nack, v) a false h = cc

progress : (s : Race) → IsConsistent s → ((t : Race) × Step s t) ⊎ (IsSettled s ⊎ IsDeadlocked s)
progress (race a k buf waiting h) inv = inl (_, expire a k buf h)
progress (race a k buf (received true) h) inv = inl (_, accept a k buf h)
progress (race a k buf (received false) none) inv = inl (_, clear_nack a k buf)
progress (race a k buf expired none) inv = inl (_, clear_timeout a k buf)
progress (race a k buf acknowledged none) inv = inr (inl tt)
progress (race a k buf cleaned none) inv = inr (inl tt)
progress (race a k [] w (some (by_msg, v))) inv = inl (_, release_msg a k w v)
progress (race a k [] w (some (by_nack, v))) inv = inl (_, release_nack a k w v)
progress (race a k (b ∷ bs) (received false) (some g)) (c, h) =
    absurd (omega (arith, c, full-consumed g a k h))
progress (race a k (b ∷ bs) expired (some g)) inv = inr (inr (refl, (b, bs, refl), (g, refl)))
progress (race a k (b ∷ bs) acknowledged (some g)) (c, h) =
    absurd (omega (arith, c, full-consumed g a k h))
progress (race a k (b ∷ bs) cleaned (some g)) (c, h) =
    absurd (omega (arith, c, full-consumed g a k h))

-- In whatever order the goroutine and the handlers of ACK layers and NACK lines run, from the
-- registration on: something can go on, or the goroutine is through and `Mu` is free, or the
-- goroutine has timed out and waits for `Mu` while a handler holds it and waits for room in the
-- channel.
pub Reach-progress : {s : Race} → Reach s → ((t : Race) × Step s t) ⊎ (IsSettled s ⊎ IsDeadlocked s)
Reach-progress {s} reached = progress s (Reach-IsConsistent reached)

-- No goroutine gets out of that state.
IsDeadlocked-stuck : {s t : Race} → Step s t → ¬ IsDeadlocked s
IsDeadlocked-stuck (deliver_msg k w v) (gone, (b, bs, full), (g, held)) = cc
IsDeadlocked-stuck (deliver_nack a w v) (gone, (b, bs, full), (g, held)) = cc
IsDeadlocked-stuck (block_msg k b bs w v) (gone, full, (g, held)) = cc
IsDeadlocked-stuck (block_nack a b bs w v) (gone, full, (g, held)) = cc
IsDeadlocked-stuck (release_msg a k w v) (gone, (b, bs, full), held) = cc
IsDeadlocked-stuck (release_nack a k w v) (gone, (b, bs, full), held) = cc
IsDeadlocked-stuck (receive a k b bs g) (gone, full, held) = apart gone
  where
    apart : waiting ≡ expired → ⊥
    apart e = cc
IsDeadlocked-stuck (expire a k buf g) (gone, full, held) = cc
IsDeadlocked-stuck (accept a k buf g) (gone, full, held) = cc
IsDeadlocked-stuck (clear_nack a k buf) (gone, full, held) = cc
IsDeadlocked-stuck (clear_timeout a k buf) (gone, full, (g, held)) = cc

-- When the goroutine has timed out before either handler ran, two handlers are enough to get there,
-- whatever they bring: the first fills the channel, the second waits with `Mu` held; and from there
-- nothing goes on.
pub timeout_deadlock :
    (v u : Answer)
    → Reach (race false true (told_by v ∷ []) expired (some (by_nack, u)))
      × IsDeadlocked (race false true (told_by v ∷ []) expired (some (by_nack, u)))
      × ((t : Race) → ¬ Step (race false true (told_by v ∷ []) expired (some (by_nack, u))) t)
timeout_deadlock v u =
    let dead : IsDeadlocked (race false true (told_by v ∷ []) expired (some (by_nack, u))) =
      (refl, (told_by v, [], refl), ((by_nack, u), refl)) in
    (
      later (later (later start (expire true true [] none)) (deliver_msg true expired v))
          (block_nack false (told_by v) [] expired u),
      dead,
      λ t step. IsDeadlocked-stuck step dead,
    )
