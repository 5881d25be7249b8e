-- ===== src/Node/Cluster.antt =====
-- node_server/node/cluster.go, and `parsePublicKey` of node_server/node/super_send.go: the nodes of
-- a list are dealt out to clusters, one for each hop. A score is a half of an integer in the
-- source; here it is doubled, so that it is an integer. Doubles hold these values exactly up to
-- 2 ^ 53. `sort.Slice` is the argument `sort`, and the random draws are arguments too.
pub mod Members
pub mod Partition
pub mod Complete
pub mod Allowed
use dor.Base.{
  ℕ, zero, suc, Bool, false, ◌&&◌, ◌||◌, Option, none, some, List, [], ◌∷◌, ◌++◌, ltb, leb,
  if◌then◌else◌, ◌==◌, nat_eq, Bytes, bytes_eq, length, ◌>>=◌, Result, ok, panic, ◌+ℤ◌, ltb_ℤ,
  int_eq, ℤ, pos,
}
use dor.Strings.{itoa}
use dor.Encoding.{decode}
use dor.Model.Crypto.{Crypto}
use dor.Model.Shuffle.{swap, shuffle}
use dor.Directory.Table.{NodeInfo}
use dor.Node.Super.{LayerGroup}

-- `fmt.Sprintf("%s:%d", n.Ip, n.Port)`
unfoldable pub node_address : NodeInfo → Bytes
node_address n = n.ip ++ (b':' ∷ itoa n.port)

-- Twice `calculateNodeScore`: both weights are a half.
unfoldable pub calculate_node_score : NodeInfo → ℤ
calculate_node_score n = n.availability_score +ℤ n.network_score

-- The loop `for _, b := range blacklist`.
unfoldable pub is_blacklisted : Bytes → List Bytes → Bool
is_blacklisted addr [] = false
is_blacklisted addr (b ∷ blacklist) = b == addr || is_blacklisted addr blacklist

unfoldable pub available_nodes : List Bytes → List NodeInfo → List NodeInfo
unfolding is_blacklisted node_address
available_nodes blacklist [] = []
available_nodes blacklist (n ∷ nodes) =
    let rest = available_nodes blacklist nodes in
    if is_blacklisted (node_address n) blacklist then rest else n ∷ rest

-- How far down the sorted nodes the next one is taken, from the number of them that are left and a
-- number below 100.
unfoldable pub pick_offset : ℕ → ℕ → ℕ
pick_offset remaining r =
    if ltb remaining 2
    then 0
    else if leb 70 r && ltb r 85
    then 1
    else if leb 85 r && (ltb r 95 && leb 3 remaining)
    then 2
    else if leb 95 r && leb 4 remaining
    then 3
    else 0

module _ (c : Crypto) where
  -- A text that is no base64, or no RSA key, is nil.
  unfoldable pub parse_public_key : Bytes → Option c.PublicKey
  parse_public_key key_b64 = elim (decode key_b64) [
    | none ↦ none
    | some public_bytes ↦ c.parse_pkix public_bytes
  ]

  -- `clusters[i]` and `clusterScores[i]`.
  abbrev pub Cluster : Type 0
  Cluster = LayerGroup c.PublicKey × ℤ

  abbrev pub empty_cluster : Cluster
  empty_cluster = (record { addrs = []; pub_keys = [] }, pos 0)

  -- A node and its key at the end of a cluster.
  unfoldable pub with_node : NodeInfo → c.PublicKey → Cluster → Cluster
  unfolding node_address calculate_node_score
  with_node n key (g, score) = (
    record { addrs = g.addrs ++ node_address n ∷ []; pub_keys = g.pub_keys ++ key ∷ [] },
    score +ℤ calculate_node_score n,
  )

  -- The first loop: a node for each cluster, from the cluster and the node that are next. It
  -- gives the clusters that have got one, and the nodes that are left; `remaining` is their count.
  unfoldable pub seed : (ℕ → ℕ) → ℕ → ℕ → ℕ → List NodeInfo → List Cluster × List NodeInfo
  unfolding with_node
  seed rolls hops zero node_idx nodes = ([], nodes)
  seed rolls zero (suc remaining) node_idx nodes = ([], nodes)
  seed rolls (suc hops) (suc remaining) node_idx nodes =
      elim (swap nodes 0 (pick_offset (suc remaining) (rolls node_idx))) [
        | [] ↦ ([], [])
        | n ∷ rest ↦ elim (parse_public_key n.public_key) [
          | none ↦ seed rolls (suc hops) remaining (suc node_idx) rest
          | some key ↦
              let (clusters, left) = seed rolls hops remaining (suc node_idx) rest in
              (with_node n key empty_cluster ∷ clusters, left)
        ]
      ]

  -- The clusters of `make` that the first loop did not reach.
  unfoldable pub pad : ℕ → List Cluster → List Cluster
  pad zero clusters = clusters
  pad (suc hops) [] = empty_cluster ∷ pad hops []
  pad (suc hops) (cluster ∷ clusters) = cluster ∷ pad hops clusters

  -- `targetIdx`: the first cluster of the least score. `i` is the index of the next one.
  unfoldable pub lightest : ℕ → ℕ → ℤ → List Cluster → ℕ
  lightest i target_idx min_score [] = target_idx
  lightest i target_idx min_score ((g, score) ∷ clusters) =
      let lighter = ltb_ℤ score min_score in
      lightest (suc i) (if lighter then i else target_idx) (if lighter then score else min_score)
        clusters

  -- The first score is below `math.MaxFloat64`.
  unfoldable pub target : List Cluster → ℕ
  unfolding lightest
  target [] = 0
  target ((g, score) ∷ clusters) = lightest 1 0 score clusters

  unfoldable pub add_at : ℕ → NodeInfo → c.PublicKey → List Cluster → Result (List Cluster)
  add_at i n key [] = panic
  add_at zero n key (cluster ∷ clusters) = ok (with_node n key cluster ∷ clusters)
  add_at (suc i) n key (cluster ∷ clusters) = do more ← add_at i n key clusters; ok (cluster ∷ more)

  -- One round of the second loop.
  unfoldable pub place : NodeInfo → Option c.PublicKey → List Cluster → Result (List Cluster)
  unfolding target add_at
  place n none clusters = ok clusters
  place n (some key) clusters = add_at (target clusters) n key clusters

  unfoldable pub spread : List NodeInfo → List Cluster → Result (List Cluster)
  unfolding place
  spread [] clusters = ok clusters
  spread (n ∷ nodes) clusters = do
    clusters' ← place n (parse_public_key n.public_key) clusters
    spread nodes clusters'

  -- The shuffle of one cluster: the same draws move the addresses and the keys.
  unfoldable pub shuffle_cluster : (ℕ → ℕ) → LayerGroup c.PublicKey → LayerGroup c.PublicKey
  shuffle_cluster draws g =
      if ltb 1 (length g.addrs)
      then record { addrs = shuffle draws g.addrs; pub_keys = shuffle draws g.pub_keys }
      else g

  unfoldable pub shuffle_clusters : (ℕ → ℕ → ℕ) → ℕ → List Cluster → List (LayerGroup c.PublicKey)
  unfolding shuffle_cluster
  shuffle_clusters draws i [] = []
  shuffle_clusters draws i ((g, score) ∷ clusters) =
      shuffle_cluster (draws i) g ∷ shuffle_clusters draws (suc i) clusters

  unfoldable pub total_score : List Cluster → ℤ
  total_score [] = pos 0
  total_score ((g, score) ∷ clusters) = score +ℤ total_score clusters

  -- The clusters, and twice the sum of their scores, which the source divides by `numHops`.
  unfoldable pub build_smart_clusters :
      (List NodeInfo → List NodeInfo)
      → (ℕ → ℕ)
      → (ℕ → ℕ → ℕ)
      → List NodeInfo
      → ℕ
      → List Bytes
      → Result (List (LayerGroup c.PublicKey) × ℤ)
  unfolding available_nodes seed pad spread shuffle_clusters
  build_smart_clusters sort rolls draws nodes num_hops blacklist =
      let sorted_nodes = sort (available_nodes blacklist nodes) in
      let (seeded, left) = seed rolls num_hops (length sorted_nodes) 0 sorted_nodes in
      do
        clusters ← spread left (pad num_hops seeded)
        ok (shuffle_clusters draws 0 clusters, total_score clusters)
