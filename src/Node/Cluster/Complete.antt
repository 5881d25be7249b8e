-- ===== src/Node/Cluster/Complete.antt =====
-- `BuildSmartClusters`: every usable node ends up in one cluster, with its own key.
use dor.Base.{
  ℕ, suc, ◌≤◌, ◌<◌, ◌≡◌, refl, ap, ◌∙◌, ◌⊎◌, inl, inr, none, some, List, [], ◌∷◌, ◌++◌, map,
  append-nil, arith, ltb, Bool-cases, Option-cases, Bytes, length, length-Perm, Result, ok, ℤ,
}
use dor.Model.Crypto.{Crypto}
use dor.Directory.Table.{NodeInfo}
use dor.Node.Cluster.{
  Cluster, node_address, parse_public_key, seed, place, spread, target, available_nodes,
  shuffle_clusters, build_smart_clusters, total_score,
}
use dor.Node.Cluster.Members.{
  Member, keyed, group_of, HasMembers, NoneEmpty, HasMembers-length, pad_members, pad-HasMembers,
  flatten-pad_members, length-pad_members, pad_members-all, add_member, flatten-add_member,
  length-add_member, add_member-NoneEmpty, add_at-HasMembers, target-lt, shuffle_cluster-group_of,
}
use dor.Node.Cluster.Partition.{keyed-none, keyed-some, seed-Dealt}
use mathlib.Core.List.{Perm, flatten, filter_map, perm_middle}
use mathlib.Core.List.Perm

module _ (c : Crypto) where
  -- The clusters after a loop that adds the usable ones of these nodes.
  abbrev Joined : List (List (Member c)) → List NodeInfo → Result (List (Cluster c)) → Type 0
  Joined mss nodes r =
      (clusters : List (Cluster c)) × (mss' : List (List (Member c))) × (r ≡ ok clusters)
      × HasMembers c mss' clusters
      × Perm (flatten mss') (flatten mss ++ filter_map (keyed c) nodes)
      × (length mss' ≡ length mss)
      × (NoneEmpty c mss → NoneEmpty c mss')

  place-add_member :
      (n : NodeInfo) (key : c.PublicKey) (mss : List (List (Member c)))
      (clusters : List (Cluster c))
      → HasMembers c mss clusters
      → 1 ≤ length mss
      → (clusters' : List (Cluster c)) × (i : ℕ) × (i < length mss)
        × (place c n (some key) clusters ≡ ok clusters')
        × HasMembers c (add_member c i (node_address n, key) mss) clusters'
  unfolding place
  place-add_member n key mss clusters members some_cluster =
      let count = HasMembers-length c mss clusters members in
      let inside : target c clusters < length mss =
        omega (arith, count, target-lt c clusters (omega (arith, count, some_cluster))) in
      let (clusters', made, members') =
        add_at-HasMembers c (target c clusters) n key mss clusters members inside in
      (clusters', target c clusters, inside, made, members')

  Joined-skip :
      (n : NodeInfo) (nodes : List NodeInfo) (mss : List (List (Member c)))
      (clusters : List (Cluster c))
      → parse_public_key c n.public_key ≡ none
      → Joined mss nodes (spread c nodes clusters)
      → Joined mss (n ∷ nodes) (spread c (n ∷ nodes) clusters)
  unfolding spread place
  Joined-skip n nodes mss clusters h (clusters', mss', made, members, p, count, full) =
      (clusters', mss', rw (h) made, members, rw (keyed-none c n nodes h) p, count, full)

  Joined-add :
      (n : NodeInfo) (nodes : List NodeInfo) (key : c.PublicKey) (i : ℕ)
      (mss : List (List (Member c))) (clusters more : List (Cluster c))
      → parse_public_key c n.public_key ≡ some key
      → i < length mss
      → place c n (some key) clusters ≡ ok more
      → Joined (add_member c i (node_address n, key) mss) nodes (spread c nodes more)
      → Joined mss (n ∷ nodes) (spread c (n ∷ nodes) clusters)
  unfolding spread
  Joined-add n nodes key i mss clusters more h lt placed
        (clusters', mss', made, members, p, count, full) =
      let m : Member c = (node_address n, key) in
      let usable = filter_map (keyed c) nodes in
      (
        clusters',
        mss',
        rw (h, placed) made,
        members,
        rw (keyed-some c n nodes key h) (
            Perm.trans p (
              Perm.trans (Perm.append_right usable (flatten-add_member c i m mss lt))
                (Perm.symm (perm_middle (flatten mss) usable)))),
        count ∙ length-add_member c i m mss,
        λ some_each. full (add_member-NoneEmpty c i m mss some_each),
      )

  spread-Joined :
      (nodes : List NodeInfo) (mss : List (List (Member c))) (clusters : List (Cluster c))
      → HasMembers c mss clusters
      → 1 ≤ length mss
      → Joined mss nodes (spread c nodes clusters)
  unfolding spread filter_map
  spread-Joined [] mss clusters members some_cluster = (
    clusters,
    mss,
    refl,
    members,
    rw (append-nil (flatten mss)) (Perm.refl (flatten mss)),
    refl,
    λ h. h,
  )
  spread-Joined (n ∷ nodes) mss clusters members some_cluster =
      elim (Option-cases (parse_public_key c n.public_key)) [
        | inl h ↦
            Joined-skip n nodes mss clusters h
              (spread-Joined nodes mss clusters members some_cluster)
        | inr (key, h) ↦
            let (more, i, lt, placed, members') =
              place-add_member n key mss clusters members some_cluster in
            let grown = add_member c i (node_address n, key) mss in
            Joined-add n nodes key i mss clusters more h lt placed (
              spread-Joined nodes grown more members'
                (omega (arith, some_cluster, length-add_member c i (node_address n, key) mss)))
      ]

  shuffle_clusters-group_of :
      (draws : ℕ → ℕ → ℕ) (i : ℕ) (mss : List (List (Member c))) (clusters : List (Cluster c))
      → HasMembers c mss clusters
      → (mss' : List (List (Member c))) × (shuffle_clusters c draws i clusters
          ≡ map (group_of c) mss')
        × Perm (flatten mss') (flatten mss)
        × (length mss' ≡ length mss)
        × (NoneEmpty c mss → NoneEmpty c mss')
  unfolding shuffle_clusters flatten
  shuffle_clusters-group_of draws i [] [] members = ([], refl, Perm.refl [], refl, λ h. h)
  shuffle_clusters-group_of draws i [] (cl ∷ clusters) members = absurd members
  shuffle_clusters-group_of draws i (ms ∷ mss) [] members = absurd members
  shuffle_clusters-group_of draws i (ms ∷ mss) ((g, score) ∷ clusters) (h, members) =
      let (ms', shuffled, p) = shuffle_cluster-group_of c (draws i) ms in
      let (mss', made, ps, count, full) =
        shuffle_clusters-group_of draws (suc i) mss clusters members in
      (
        ms' ∷ mss',
        rw (h, shuffled, made) refl,
        Perm.append p ps,
        ap suc count,
        λ some_each. (omega (arith, length-Perm p, some_each.0), full some_each.1),
      )

  padded-NoneEmpty :
      (hops n : ℕ) (mss : List (List (Member c)))
      → NoneEmpty c mss
      → length mss ≤ hops
      → (length mss ≡ hops) ⊎ (length mss ≡ n)
      → NoneEmpty c (pad_members c hops mss) ⊎ (n < hops)
  padded-NoneEmpty hops n mss full le (inl e) = inl (rw (pad_members-all c hops mss e) full)
  padded-NoneEmpty hops n mss full le (inr e) = elim (Bool-cases (ltb n hops)) [
    | inl t ↦ inr (ground (arith, t))
    | inr f ↦ inl (rw (pad_members-all c hops mss (ground (arith, f, e, le))) full)
  ]

  -- For at least one hop, and a sort that only reorders, the clusters are built. They hold every
  -- node that is not blacklisted and whose key can be parsed exactly once, each with its own key;
  -- there is one for each hop, and none is empty unless there are fewer such nodes than hops.
  pub build_smart_clusters-Perm :
      (sort : List NodeInfo → List NodeInfo)
      (sorts : (nodes : List NodeInfo) → Perm (sort nodes) nodes) (rolls : ℕ → ℕ)
      (draws : ℕ → ℕ → ℕ) (nodes : List NodeInfo) (num_hops : ℕ) (blacklist : List Bytes)
      → 1 ≤ num_hops
      → (mss : List (List (Member c))) × (score : ℤ) × (build_smart_clusters c sort rolls draws
            nodes num_hops blacklist
          ≡ ok (map (group_of c) mss, score))
        × (length mss ≡ num_hops)
        × Perm (flatten mss) (filter_map (keyed c) (available_nodes blacklist nodes))
        × (NoneEmpty c mss
            ⊎ (length (filter_map (keyed c) (available_nodes blacklist nodes)) < num_hops))
  unfolding build_smart_clusters
  build_smart_clusters-Perm sort sorts rolls draws nodes num_hops blacklist hops =
      let usable = available_nodes blacklist nodes in
      let sorted = Perm.filter_map (keyed c) (sorts usable) in
      let (mss, members, p, le, full, last) =
        seed-Dealt c rolls num_hops (length (sort usable)) 0 (sort usable) refl in
      let padded = pad_members c num_hops mss in
      let all = length-pad_members c num_hops mss le in
      let (clusters, mss', spread_ok, members', p', count, full') =
        spread-Joined (seed c rolls num_hops (length (sort usable)) 0 (sort usable)).1 padded _
          (pad-HasMembers c num_hops mss _ members) (omega (arith, all, hops)) in
      let (mss'', made, p'', count', full'') =
        shuffle_clusters-group_of draws 0 mss' clusters members' in
      (
        mss'',
        total_score c clusters,
        rw (spread_ok, made) refl,
        count' ∙ count ∙ all,
        Perm.trans p''
            (Perm.trans p' (rw (flatten-pad_members c num_hops mss) (Perm.trans p sorted))),
        elim (padded-NoneEmpty num_hops (length (filter_map (keyed c) usable)) mss full le
            (rw (← length-Perm sorted) last)) [
              | inl some_each ↦ inl (full'' (full' some_each))
              | inr few ↦ inr few
            ],
      )
