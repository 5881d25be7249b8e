-- ===== src/Node/Cluster/Partition.antt =====
-- `BuildSmartClusters`: how the usable nodes are dealt out to the clusters.
use dor.Base.{
  ℕ, zero, suc, ◌≤◌, ◌<◌, ◌≡◌, refl, ap, ◌∙◌, ◌⊎◌, inl, inr, Option, none, some, List, [], ◌∷◌,
  ◌++◌, arith, length, length-Perm, pos,
}
use dor.Model.Crypto.{Crypto}
use dor.Model.Shuffle.{swap, swap-Perm}
use dor.Model.Shuffle.Maps.{length-swap}
use dor.Directory.Table.{NodeInfo}
use dor.Node.Cluster.{
  Cluster, node_address, parse_public_key, with_node, empty_cluster, pick_offset, seed,
}
use dor.Node.Cluster.Members.{Member, keyed, HasMembers, NoneEmpty, with_node-group_of}
use mathlib.Core.List.{Perm, flatten, filter_map}
use mathlib.Core.List.Perm

module _ (c : Crypto) where
  -- The node that is taken is one of those that are left.
  pick_offset-lt : (remaining r : ℕ) → 1 ≤ remaining → pick_offset remaining r < remaining
  unfolding pick_offset
  pick_offset-lt remaining r h = ground arith

  -- What the first loop gives for these nodes and this number of clusters.
  abbrev pub Dealt : List NodeInfo → ℕ → List (Cluster c) × List NodeInfo → Type 0
  Dealt nodes hops (clusters, left) =
      (mss : List (List (Member c))) × HasMembers c mss clusters
      × Perm (flatten mss ++ filter_map (keyed c) left) (filter_map (keyed c) nodes)
      × (length mss ≤ hops)
      × NoneEmpty c mss
      × ((length mss ≡ hops) ⊎ (length mss ≡ length (filter_map (keyed c) nodes)))

  Dealt-Perm :
      (nodes nodes' : List NodeInfo) (hops : ℕ) (r : List (Cluster c) × List NodeInfo)
      → Perm (filter_map (keyed c) nodes) (filter_map (keyed c) nodes')
      → Dealt nodes hops r
      → Dealt nodes' hops r
  Dealt-Perm nodes nodes' hops (clusters, left) p (mss, members, q, le, full, inl e) =
      (mss, members, Perm.trans q p, le, full, inl e)
  Dealt-Perm nodes nodes' hops (clusters, left) p (mss, members, q, le, full, inr e) =
      (mss, members, Perm.trans q p, le, full, inr (e ∙ length-Perm p))

  pub keyed-none :
      (n : NodeInfo) (rest : List NodeInfo)
      → parse_public_key c n.public_key ≡ none
      → filter_map (keyed c) (n ∷ rest) ≡ filter_map (keyed c) rest
  unfolding keyed filter_map
  keyed-none n rest h = rw (keyed, h) refl

  pub keyed-some :
      (n : NodeInfo) (rest : List NodeInfo) (key : c.PublicKey)
      → parse_public_key c n.public_key ≡ some key
      → filter_map (keyed c) (n ∷ rest) ≡ (node_address n, key) ∷ filter_map (keyed c) rest
  unfolding keyed filter_map
  keyed-some n rest key h = rw (keyed, h) refl

  Dealt-with_node :
      (n : NodeInfo) (rest : List NodeInfo) (key : c.PublicKey) (hops : ℕ)
      (r : List (Cluster c) × List NodeInfo)
      → parse_public_key c n.public_key ≡ some key
      → Dealt rest hops r
      → Dealt (n ∷ rest) (suc hops) (with_node c n key (empty_cluster c) ∷ r.0, r.1)
  unfolding flatten
  Dealt-with_node n rest key hops (clusters, left) h (mss, members, p, le, full, last) = (
    ((node_address n, key) ∷ []) ∷ mss,
    (with_node-group_of c n key [] (pos 0), members),
    rw (keyed-some n rest key h) (Perm.cons (node_address n, key) p),
    omega (arith, le),
    (omega arith, full),
    elim last [ inl e ↦ inl (ap suc e) | inr e ↦ inr (rw (keyed-some n rest key h) (ap suc e)) ],
  )

  pub seed-Dealt :
      (rolls : ℕ → ℕ) (hops remaining node_idx : ℕ) (nodes : List NodeInfo)
      → length nodes ≡ remaining
      → Dealt nodes hops (seed c rolls hops remaining node_idx nodes)
  unfolding seed flatten filter_map
  seed-Dealt rolls hops zero node_idx [] e =
      ([], tt, Perm.refl (filter_map (keyed c) []), omega arith, tt, inr refl)
  seed-Dealt rolls hops zero node_idx (n ∷ nodes) e = absurd (omega (arith, e))
  seed-Dealt rolls zero (suc remaining) node_idx nodes e =
      ([], tt, Perm.refl (filter_map (keyed c) nodes), omega arith, tt, inl refl)
  seed-Dealt rolls (suc hops) (suc remaining) node_idx nodes e =
      let k = pick_offset (suc remaining) (rolls node_idx) in
      picked (λ left len. seed-Dealt rolls (suc hops) remaining (suc node_idx) left len)
        (λ left len. seed-Dealt rolls hops remaining (suc node_idx) left len) (swap nodes 0 k)
        (Perm.filter_map (keyed c) (swap-Perm nodes 0 k)) (length-swap nodes 0 k ∙ e)
    where
      taken :
          (skipped : (left : List NodeInfo)
            → length left ≡ remaining
            → Dealt left (suc hops) (seed c rolls (suc hops) remaining (suc node_idx) left))
          (used : (left : List NodeInfo)
            → length left ≡ remaining
            → Dealt left hops (seed c rolls hops remaining (suc node_idx) left))
          (n : NodeInfo) (rest : List NodeInfo) (key : Option c.PublicKey)
          → parse_public_key c n.public_key ≡ key
          → length rest ≡ remaining
          → Dealt (n ∷ rest) (suc hops) (elim key [
            | none ↦ seed c rolls (suc hops) remaining (suc node_idx) rest
            | some key ↦
                let (clusters, left) = seed c rolls hops remaining (suc node_idx) rest in
                (with_node c n key (empty_cluster c) ∷ clusters, left)
          ])
      taken skipped used n rest none h len =
          Dealt-Perm rest (n ∷ rest) (suc hops)
            (seed c rolls (suc hops) remaining (suc node_idx) rest)
            (rw (keyed-none n rest h) (Perm.refl (filter_map (keyed c) rest))) (skipped rest len)
      taken skipped used n rest (some key) h len =
          Dealt-with_node n rest key hops (seed c rolls hops remaining (suc node_idx) rest) h
            (used rest len)

      picked :
          (skipped : (left : List NodeInfo)
            → length left ≡ remaining
            → Dealt left (suc hops) (seed c rolls (suc hops) remaining (suc node_idx) left))
          (used : (left : List NodeInfo)
            → length left ≡ remaining
            → Dealt left hops (seed c rolls hops remaining (suc node_idx) left))
          (ys : List NodeInfo)
          → Perm (filter_map (keyed c) ys) (filter_map (keyed c) nodes)
          → length ys ≡ suc remaining
          → Dealt nodes (suc hops) (elim ys [
            | [] ↦ ([], [])
            | n ∷ rest ↦ elim (parse_public_key c n.public_key) [
              | none ↦ seed c rolls (suc hops) remaining (suc node_idx) rest
              | some key ↦
                  let (clusters, left) = seed c rolls hops remaining (suc node_idx) rest in
                  (with_node c n key (empty_cluster c) ∷ clusters, left)
            ]
          ])
      picked skipped used [] p len = absurd (omega (arith, len))
      picked skipped used (n ∷ rest) p len =
          Dealt-Perm (n ∷ rest) nodes (suc hops) _ p
            (taken skipped used n rest (parse_public_key c n.public_key) refl (omega (arith, len)))
