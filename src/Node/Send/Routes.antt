-- ===== src/Node/Send/Routes.antt =====
-- The routes that a send chooses.
use dor.Base.{
  ℕ, zero, suc, ◌+◌, ◌-◌, ◌%◌, ◌≡◌, refl, subst, ◌≢◌, inl, inr, not, ◌&&◌, Option, none, some, List,
  [], ◌∷◌, ◌++◌, reverse, arith, Bool-cases, ◌==◌, eq_iff, nat_eq, Bytes, bytes_eq, length,
  get_elem?, set, take, All, All-get_elem?, Result, ok, err, panic, int_eq, ℤ, pos, negsuc,
}
use dor.Directory.Candidates.{entry_addr, keep_candidate, candidates_of, candidates}
use dor.Node.Send.{Plan, choose, plan, codes, clamp}
use dor.Model.Shuffle.{swap, shuffle_from, shuffle}

-- A relay is neither the sender nor the destination.
abbrev pub IsRelay : Bytes → Bytes → Bytes → Type 0
IsRelay node_addr dest_addr a = (a ≢ node_addr) × (a ≢ dest_addr)

keep_candidate-All :
    (node_addr dest_addr : Bytes) (o : Option Bytes) (rest : List Bytes)
    → All (IsRelay node_addr dest_addr) rest
    → All (IsRelay node_addr dest_addr) (keep_candidate node_addr dest_addr o rest)
unfolding keep_candidate
keep_candidate-All node_addr dest_addr none rest h = h
keep_candidate-All node_addr dest_addr (some addr) rest h =
    elim (Bool-cases (not (addr == node_addr) && not (addr == dest_addr))) [
      | inl e ↦ rw (e) (
        (
          (λ same. ground (arith, e, (eq_iff addr node_addr).1 same)),
          (λ same. ground (arith, e, (eq_iff addr dest_addr).1 same)),
        ),
        h,
      )
      | inr e ↦ rw (e) h
    ]

-- Every candidate that a list offers is a relay, whatever the text of the list.
pub candidates_of-All :
    (node_addr dest_addr : Bytes) (entries : List Bytes)
    → All (IsRelay node_addr dest_addr) (candidates_of node_addr dest_addr entries)
unfolding candidates_of
candidates_of-All node_addr dest_addr [] = tt
candidates_of-All node_addr dest_addr (entry ∷ entries) =
    keep_candidate-All node_addr dest_addr (entry_addr entry) _
      (candidates_of-All node_addr dest_addr entries)

module _ (P : Bytes → Type 0) where
  set-All : (xs : List Bytes) (i : ℕ) (v : Bytes) → P v → All P xs → All P (set xs i v)
  set-All [] i v p h = tt
  set-All (x ∷ xs) zero v p (h, hs) = (p, hs)
  set-All (x ∷ xs) (suc i) v p (h, hs) = (h, set-All xs i v p hs)

  swap-All : (xs : List Bytes) (i j : ℕ) → All P xs → All P (swap xs i j)
  unfolding swap
  swap-All xs i j h = outer (get_elem? xs i) refl
    where
      inner :
          (x : Bytes) (o : Option Bytes)
          → P x
          → get_elem? xs j ≡ o
          → All P (elim o [ none ↦ xs | some y ↦ set (set xs i y) j x ])
      inner x none p e = h
      inner x (some y) p e =
          set-All (set xs i y) j x p (set-All xs i y (All-get_elem? P xs j e h) h)

      outer :
          (o : Option Bytes)
          → get_elem? xs i ≡ o
          → All P (elim o [
            | none ↦ xs
            | some x ↦ elim (get_elem? xs j) [ none ↦ xs | some y ↦ set (set xs i y) j x ]
          ])
      outer none e = h
      outer (some x) e = inner x (get_elem? xs j) (All-get_elem? P xs i e h) refl

  shuffle_from-All :
      (draws : ℕ → ℕ) (i : ℕ) (xs : List Bytes) → All P xs → All P (shuffle_from draws i xs)
  unfolding shuffle_from
  shuffle_from-All draws zero xs h = h
  shuffle_from-All draws (suc i) xs h =
      shuffle_from-All draws i _ (swap-All xs (suc i) (draws (suc i) % (suc i + 1)) h)

  take-relays : (n : ℕ) (xs : List Bytes) → All P xs → All P (take n xs)
  take-relays zero xs h = tt
  take-relays (suc n) [] h = tt
  take-relays (suc n) (x ∷ xs) (h, hs) = (h, take-relays n xs hs)

-- The route and the return route of a plan: the same relays out and back, none of them the sender
-- or the destination; the route ends at the destination and the return route at the sender.
abbrev pub IsRoundTrip : Bytes → Bytes → Plan → Type 0
IsRoundTrip node_addr dest_addr p =
    (relays : List Bytes) × All (IsRelay node_addr dest_addr) relays
    × (p.route ≡ relays ++ dest_addr ∷ [])
    × (p.return_route ≡ reverse relays ++ node_addr ∷ [])

choose-IsRoundTrip :
    (node_addr dest_addr : Bytes) (draws : ℕ → ℕ) (offered : List Bytes) (n : ℤ) (p : Plan)
    → All (IsRelay node_addr dest_addr) offered
    → choose node_addr dest_addr draws offered n ≡ inr p
    → IsRoundTrip node_addr dest_addr p
unfolding choose shuffle
choose-IsRoundTrip node_addr dest_addr draws offered (pos zero) p h made = cc
choose-IsRoundTrip node_addr dest_addr draws offered (negsuc k) p h made = cc
choose-IsRoundTrip node_addr dest_addr draws offered (pos (suc k)) p h made =
    let same : record {
      num_relays = suc k;
      route = take (suc k) (shuffle draws offered) ++ dest_addr ∷ [];
      return_route = reverse (take (suc k) (shuffle draws offered)) ++ node_addr ∷ [];
    }
        ≡ p =
      cc (made) in
    subst (IsRoundTrip node_addr dest_addr) same (
      take (suc k) (shuffle draws offered),
      take-relays (IsRelay node_addr dest_addr) (suc k) (shuffle draws offered)
          (shuffle_from-All (IsRelay node_addr dest_addr) draws (length offered - 1) offered h),
      refl,
      refl,
    )

-- A try that gets as far as a route has the same relays out and back, none of them the sender or
-- the destination, whatever the list says; the route ends at the destination, and the return route
-- at the sender.
pub plan-IsRoundTrip :
    (node_addr dest_addr : Bytes) (draws : ℕ → ℕ) (num_relays : ℤ) (list : Result Bytes) (p : Plan)
    → plan node_addr dest_addr draws num_relays list ≡ inr p
    → IsRoundTrip node_addr dest_addr p
unfolding plan candidates
plan-IsRoundTrip node_addr dest_addr draws num_relays (ok list) p made =
    elim (Bool-cases (list == codes "LIST:empty")) [
      | inl e ↦ absurd (ground (arith, e, made))
      | inr e ↦
          choose-IsRoundTrip node_addr dest_addr draws (candidates node_addr dest_addr list)
            (clamp num_relays (length (candidates node_addr dest_addr list))) p
            (candidates_of-All node_addr dest_addr _) (ground (arith, e, made))
    ]
plan-IsRoundTrip node_addr dest_addr draws num_relays (err e) p made = cc
plan-IsRoundTrip node_addr dest_addr draws num_relays panic p made = cc
