-- ===== src/Node/Cluster/Allowed.antt =====
-- `BuildSmartClusters`: what holds of every usable node holds of every address of the clusters.
use dor.Base.{
  ℕ, ◌≤◌, ◌≡◌, inl, inr, false, List, [], ◌∷◌, map, Bool-cases, Option-cases, Bytes, All, All-Perm,
  All-halves, ok, ℤ,
}
use dor.Model.Crypto.{Crypto}
use dor.Directory.Table.{NodeInfo}
use dor.Node.Super.{LayerGroup}
use dor.Node.Cluster.{
  node_address, is_blacklisted, parse_public_key, available_nodes, build_smart_clusters,
}
use dor.Node.Cluster.Members.{Member, keyed, group_of}
use dor.Node.Cluster.Partition.{keyed-none, keyed-some}
use dor.Node.Cluster.Complete.{build_smart_clusters-Perm}
use mathlib.Core.List.{Perm, flatten, filter_map}
use mathlib.Core.List.Perm

-- The addresses that `blacklist` does not name, and that `P` holds of.
abbrev pub IsAllowed : (Bytes → Type 0) → List Bytes → Bytes → Type 0
IsAllowed P blacklist a = P a × (is_blacklisted a blacklist ≡ false)

available_nodes-All :
    (P : Bytes → Type 0) (blacklist : List Bytes) (nodes : List NodeInfo)
    → All (λ n. P (node_address n)) nodes
    → All (λ n. IsAllowed P blacklist (node_address n)) (available_nodes blacklist nodes)
unfolding available_nodes
available_nodes-All P blacklist [] h = tt
available_nodes-All P blacklist (n ∷ nodes) (h, hs) =
    elim (Bool-cases (is_blacklisted (node_address n) blacklist)) [
      | inl e ↦ rw (e) (available_nodes-All P blacklist nodes hs)
      | inr e ↦ rw (e) ((h, e), available_nodes-All P blacklist nodes hs)
    ]

module _ (c : Crypto) (P : Bytes → Type 0) where
  keyed-All :
      (nodes : List NodeInfo)
      → All (λ n. P (node_address n)) nodes
      → All (λ (m : Member c). P m.0) (filter_map (keyed c) nodes)
  unfolding filter_map
  keyed-All [] h = tt
  keyed-All (n ∷ nodes) (h, hs) = elim (Option-cases (parse_public_key c n.public_key)) [
    | inl e ↦ rw (keyed-none c n nodes e) (keyed-All nodes hs)
    | inr (key, e) ↦ rw (keyed-some c n nodes key e) (h, keyed-All nodes hs)
  ]

  group_of-All :
      (ms : List (Member c)) → All (λ (m : Member c). P m.0) ms → All P (group_of c ms).addrs
  group_of-All [] h = tt
  group_of-All (m ∷ ms) (h, hs) = (h, group_of-All ms hs)

  groups-All :
      (mss : List (List (Member c)))
      → All (λ (m : Member c). P m.0) (flatten mss)
      → All (λ (g : LayerGroup c.PublicKey). All P g.addrs) (map (group_of c) mss)
  unfolding flatten
  groups-All [] h = tt
  groups-All (ms ∷ mss) h =
      let (here, rest) = All-halves (λ (m : Member c). P m.0) ms (flatten mss) h in
      (group_of-All ms here, groups-All mss rest)

-- Every address in a cluster is one that the blacklist does not name; what holds of the address of
-- every node that is given holds of it too.
pub build_smart_clusters-IsAllowed :
    (c : Crypto) (P : Bytes → Type 0) (P_prop : (a : Bytes) → IsProp (P a))
    (sort : List NodeInfo → List NodeInfo)
    (sorts : (nodes : List NodeInfo) → Perm (sort nodes) nodes) (rolls : ℕ → ℕ) (draws : ℕ → ℕ → ℕ)
    (nodes : List NodeInfo) (num_hops : ℕ) (blacklist : List Bytes)
    (groups : List (LayerGroup c.PublicKey)) (score : ℤ)
    → 1 ≤ num_hops
    → All (λ n. P (node_address n)) nodes
    → build_smart_clusters c sort rolls draws nodes num_hops blacklist ≡ ok (groups, score)
    → All (λ (g : LayerGroup c.PublicKey). All (IsAllowed P blacklist) g.addrs) groups
build_smart_clusters-IsAllowed c P P_prop sort sorts rolls draws nodes num_hops blacklist groups
      score hops h built =
    let (mss, total, built', count, p, full) =
      build_smart_clusters-Perm c sort sorts rolls draws nodes num_hops blacklist hops in
    let allowed = available_nodes-All P blacklist nodes h in
    let found : List (LayerGroup c.PublicKey) × ℤ = (map (group_of c) mss, total) in
    let given : List (LayerGroup c.PublicKey) × ℤ = (groups, score) in
    let pairs : found ≡ given = cc (built, built') in
    let same : map (group_of c) mss ≡ groups = λ i. (pairs i).0 in
    let both : (a : Bytes) → IsProp (IsAllowed P blacklist a) = λ a. hlevel (P_prop a) in
    rw (← same) (
      groups-All c (IsAllowed P blacklist) mss (
        All-Perm (λ (m : Member c). IsAllowed P blacklist m.0) (λ m. both m.0) (Perm.symm p)
          (keyed-All c (IsAllowed P blacklist) (available_nodes blacklist nodes) allowed)))
