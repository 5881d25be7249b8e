-- ===== src/Node/Cluster/Members.antt =====
-- Clusters as lists of addresses with their keys, which the two slices of a `LayerGroup` hold.
use dor.Base.{
  ℕ, zero, suc, ◌+◌, ◌≤◌, ◌<◌, ◌≡◌, refl, sym, ap, subst, inl, inr, Option, none, some, List, [],
  ◌∷◌, ◌++◌, map, append_assoc, arith, ltb, Bool-cases, Bytes, length, length-append, All,
  length-map, ok, ltb_ℤ, ℤ,
}
use dor.Model.Crypto.{Crypto}
use dor.Model.Shuffle.{shuffle, shuffle-Perm}
use dor.Model.Shuffle.Maps.{shuffle-map}
use dor.Directory.Table.{NodeInfo}
use dor.Node.Super.{LayerGroup}
use dor.Node.Cluster.{
  Cluster, node_address, parse_public_key, with_node, pad, add_at, lightest, target,
  shuffle_cluster,
}
use mathlib.Core.List.{Perm, flatten, perm_middle, map-append}
use mathlib.Core.List.Perm

module _ (c : Crypto) where
  abbrev pub Member : Type 0
  Member = Bytes × c.PublicKey

  -- The address and the key of a node whose key can be parsed.
  unfoldable pub keyed : NodeInfo → Option Member
  keyed n = elim (parse_public_key c n.public_key) [
    | none ↦ none
    | some key ↦ some (node_address n, key)
  ]

  abbrev pub member_addr : Member → Bytes
  member_addr (a, k) = a

  abbrev pub member_key : Member → c.PublicKey
  member_key (a, k) = k

  -- The group with these members, in this order.
  abbrev pub group_of : List Member → LayerGroup c.PublicKey
  group_of ms = record { addrs = map member_addr ms; pub_keys = map member_key ms }

  -- The members of each cluster, in order.
  abbrev pub HasMembers : List (List Member) → List (Cluster c) → Type 0
  HasMembers [] [] = Unit
  HasMembers (ms ∷ mss) ((g, score) ∷ clusters) = (g ≡ group_of ms) × HasMembers mss clusters
  HasMembers _ _ = ⊥

  abbrev pub NoneEmpty : List (List Member) → Type 0
  NoneEmpty = All (λ ms. 1 ≤ length ms)

  pub HasMembers-length :
      (mss : List (List Member)) (clusters : List (Cluster c))
      → HasMembers mss clusters
      → length mss ≡ length clusters
  HasMembers-length [] [] h = refl
  HasMembers-length [] (cl ∷ clusters) h = absurd h
  HasMembers-length (ms ∷ mss) [] h = absurd h
  HasMembers-length (ms ∷ mss) ((g, score) ∷ clusters) (h, hs) =
      ap suc (HasMembers-length mss clusters hs)

  -- A node joins a cluster behind the other members.
  pub with_node-group_of :
      (n : NodeInfo) (key : c.PublicKey) (ms : List Member) (score : ℤ)
      → (with_node c n key (group_of ms, score)).0 ≡ group_of (ms ++ (node_address n, key) ∷ [])
  unfolding with_node
  with_node-group_of n key ms score = simp (map-append)

  unfoldable pub pad_members : ℕ → List (List Member) → List (List Member)
  pad_members zero mss = mss
  pad_members (suc hops) [] = [] ∷ pad_members hops []
  pad_members (suc hops) (ms ∷ mss) = ms ∷ pad_members hops mss

  pub pad-HasMembers :
      (hops : ℕ) (mss : List (List Member)) (clusters : List (Cluster c))
      → HasMembers mss clusters
      → HasMembers (pad_members hops mss) (pad c hops clusters)
  unfolding pad pad_members
  pad-HasMembers zero mss clusters h = h
  pad-HasMembers (suc hops) [] [] h = (refl, pad-HasMembers hops [] [] tt)
  pad-HasMembers (suc hops) [] (cl ∷ clusters) h = absurd h
  pad-HasMembers (suc hops) (ms ∷ mss) [] h = absurd h
  pad-HasMembers (suc hops) (ms ∷ mss) ((g, score) ∷ clusters) (h, hs) =
      (h, pad-HasMembers hops mss clusters hs)

  pub flatten-pad_members :
      (hops : ℕ) (mss : List (List Member)) → flatten (pad_members hops mss) ≡ flatten mss
  unfolding pad_members flatten
  flatten-pad_members zero mss = refl
  flatten-pad_members (suc hops) [] = flatten-pad_members hops []
  flatten-pad_members (suc hops) (ms ∷ mss) = ap (λ t. ms ++ t) (flatten-pad_members hops mss)

  pub length-pad_members :
      (hops : ℕ) (mss : List (List Member))
      → length mss ≤ hops
      → length (pad_members hops mss) ≡ hops
  unfolding pad_members
  length-pad_members zero [] h = refl
  length-pad_members zero (ms ∷ mss) h = absurd (omega (arith, h))
  length-pad_members (suc hops) [] h = ap suc (length-pad_members hops [] (omega arith))
  length-pad_members (suc hops) (ms ∷ mss) h =
      ap suc (length-pad_members hops mss (omega (arith, h)))

  pub pad_members-all :
      (hops : ℕ) (mss : List (List Member)) → length mss ≡ hops → pad_members hops mss ≡ mss
  unfolding pad_members
  pad_members-all zero mss h = refl
  pad_members-all (suc hops) [] h = absurd (omega (arith, h))
  pad_members-all (suc hops) (ms ∷ mss) h =
      ap (λ t. ms ∷ t) (pad_members-all hops mss (omega (arith, h)))

  -- The members after one more has joined cluster `i`.
  abbrev pub add_member : ℕ → Member → List (List Member) → List (List Member)
  add_member i m [] = []
  add_member zero m (ms ∷ mss) = (ms ++ m ∷ []) ∷ mss
  add_member (suc i) m (ms ∷ mss) = ms ∷ add_member i m mss

  pub flatten-add_member :
      (i : ℕ) (m : Member) (mss : List (List Member))
      → i < length mss
      → Perm (flatten (add_member i m mss)) (m ∷ flatten mss)
  unfolding flatten
  flatten-add_member i m [] h = absurd (omega (arith, h))
  flatten-add_member zero m (ms ∷ mss) h =
      rw (append_assoc ms (m ∷ []) (flatten mss)) (perm_middle ms (flatten mss))
  flatten-add_member (suc i) m (ms ∷ mss) h =
      Perm.trans (Perm.append_left ms (flatten-add_member i m mss (omega (arith, h))))
        (perm_middle ms (flatten mss))

  pub length-add_member :
      (i : ℕ) (m : Member) (mss : List (List Member)) → length (add_member i m mss) ≡ length mss
  length-add_member i m [] = refl
  length-add_member zero m (ms ∷ mss) = refl
  length-add_member (suc i) m (ms ∷ mss) = ap suc (length-add_member i m mss)

  pub add_member-NoneEmpty :
      (i : ℕ) (m : Member) (mss : List (List Member))
      → NoneEmpty mss
      → NoneEmpty (add_member i m mss)
  add_member-NoneEmpty i m [] h = tt
  add_member-NoneEmpty zero m (ms ∷ mss) (h, hs) = (omega (arith, length-append ms (m ∷ [])), hs)
  add_member-NoneEmpty (suc i) m (ms ∷ mss) (h, hs) = (h, add_member-NoneEmpty i m mss hs)

  pub add_at-HasMembers :
      (i : ℕ) (n : NodeInfo) (key : c.PublicKey) (mss : List (List Member))
      (clusters : List (Cluster c))
      → HasMembers mss clusters
      → i < length mss
      → (clusters' : List (Cluster c)) × (add_at c i n key clusters ≡ ok clusters')
        × HasMembers (add_member i (node_address n, key) mss) clusters'
  unfolding add_at
  add_at-HasMembers i n key [] clusters h lt = absurd (omega (arith, lt))
  add_at-HasMembers i n key (ms ∷ mss) [] h lt = absurd h
  add_at-HasMembers zero n key (ms ∷ mss) ((g, score) ∷ clusters) (h, hs) lt = (
    _,
    refl,
    (
      subst (λ k. (with_node c n key (k, score)).0 ≡ group_of (ms ++ (node_address n, key) ∷ []))
          (sym h) (with_node-group_of n key ms score),
      hs,
    ),
  )
  add_at-HasMembers (suc i) n key (ms ∷ mss) ((g, score) ∷ clusters) (h, hs) lt =
      let (more, made, members) = add_at-HasMembers i n key mss clusters hs (omega (arith, lt)) in
      ((g, score) ∷ more, rw (made) refl, (h, members))

  lightest-lt :
      (i target_idx : ℕ) (min_score : ℤ) (clusters : List (Cluster c))
      → target_idx < i
      → lightest c i target_idx min_score clusters < i + length clusters
  unfolding lightest
  lightest-lt i target_idx min_score [] h = omega (arith, h)
  lightest-lt i target_idx min_score ((g, score) ∷ clusters) h =
      elim (Bool-cases (ltb_ℤ score min_score)) [
        | inl t ↦ rw (t) (omega (arith, lightest-lt (suc i) i score clusters (omega arith)))
        | inr f ↦
            rw (f)
              (omega (arith, lightest-lt (suc i) target_idx min_score clusters (omega (arith, h))))
      ]

  pub target-lt :
      (clusters : List (Cluster c)) → 1 ≤ length clusters → target c clusters < length clusters
  unfolding target
  target-lt [] h = absurd (omega (arith, h))
  target-lt ((g, score) ∷ clusters) h = omega (arith, lightest-lt 1 0 score clusters (omega arith))

  -- The shuffle of a cluster keeps each key beside its address.
  pub shuffle_cluster-group_of :
      (draws : ℕ → ℕ) (ms : List Member)
      → (ms' : List Member) × (shuffle_cluster c draws (group_of ms) ≡ group_of ms') × Perm ms' ms
  unfolding shuffle_cluster
  shuffle_cluster-group_of draws ms = elim (Bool-cases (ltb 1 (length ms))) [
    | inl t ↦ (
      shuffle draws ms,
      rw
          (
            length-map member_addr ms,
            t,
            shuffle-map member_addr draws ms,
            shuffle-map member_key draws ms,
          )
          refl,
      shuffle-Perm draws ms,
    )
    | inr f ↦ (ms, rw (length-map member_addr ms, f) refl, Perm.refl ms)
  ]
