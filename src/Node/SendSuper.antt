-- ===== src/Node/SendSuper.antt =====
-- `SendWithRetrySuper` of node_server/node/super_send.go: sending over groups of nodes. The nodes
-- that could not be reached are left out of the next try.
pub mod Tries
pub mod Avoids
pub mod Reaches
pub mod Acknowledged
pub mod EndToEnd
use dor.Base.{
  ℕ, zero, suc, ◌+◌, Bool, true, false, ◌||◌, Option, none, some, List, [], ◌∷◌, ◌++◌, reverse, ltb,
  if◌then◌else◌, ◌==◌, nat_eq, Bytes, bytes_eq, length, Result, ok, err, panic, int_eq, ℤ, pos,
  negsuc,
}
use dor.Strings.{atoi, split, codes, trim_prefix}
use dor.Model.Crypto.{Crypto, Fresh}
use dor.Model.Node.{Attempt, Env, send_to}
use dor.Directory.Table.{NodeInfo}
use dor.Node.KeyCache.{KeyCache, get, set as set_key, fetch_key_from_server}
use dor.Node.Super.{LayerGroup, encapsulator_func_super}
use dor.Node.Cluster.{node_address, parse_public_key, build_smart_clusters}
use dor.Node.Send.{Sender, register, unregister}

-- How a send ends; the number is `currentTry`.
pub data SuperOutcome : Type 0 where
  abandoned : SuperOutcome
  no_list : SuperOutcome
  no_nodes : SuperOutcome
  not_enough_nodes : SuperOutcome
  no_destination_key : SuperOutcome
  not_encapsulated : SuperOutcome
  acknowledged : ℕ → SuperOutcome
  timed_out : ℕ → SuperOutcome
  crashed : SuperOutcome

-- What the `k`-th try gets from outside: the answer of `GetNodesList`, the time at which each of its
-- entries is read, `sort.Slice`, the draws for the clusters, the directory server, the random bytes
-- of `Encapsulator_func_super`, the node's own public key, the new channel, the outcome of `SendTo`,
-- and what comes out of the channel: true for an ACK, false for a NACK, none for the timeout.
pub record SuperWorld (K : Type 0) : Type 0 where
  pub list : ℕ → Result Bytes
  pub now : ℕ → ℕ → ℕ
  pub sort : ℕ → List NodeInfo → List NodeInfo
  pub rolls : ℕ → ℕ → ℕ
  pub draws : ℕ → ℕ → ℕ → ℕ
  pub exchange : ℕ → Bytes → Result Bytes
  pub forward_fresh : ℕ → ℕ → Fresh
  pub return_fresh : ℕ → ℕ → Fresh
  pub ids : ℕ → ℕ → List ℕ
  pub public_key : ℕ → K
  pub channel : ℕ → ℕ
  pub env : ℕ → Env
  pub answer : ℕ → Option Bool

abbrev pub min_clusters : ℕ
min_clusters = 3

-- `numHops` after the test against `MinClusters`, which leaves no negative number.
unfoldable pub raise_hops : ℤ → ℕ
raise_hops (pos n) = if ltb n min_clusters then min_clusters else n
raise_hops (negsuc n) = min_clusters

-- The node of one entry, if it has the six fields; a number that cannot be parsed is 0 or the
-- nearest integer, since the error is dropped.
unfoldable pub node_of_fields : List Bytes → Option NodeInfo
node_of_fields (name ∷ ip ∷ port ∷ public_key ∷ sa ∷ sn ∷ more) = some (record {
  uuid = [];
  name = name;
  ip = ip;
  port = (atoi port).value;
  public_key = public_key;
  availability_score = (atoi sa).value;
  network_score = (atoi sn).value;
})
node_of_fields _ = none

module _ (c : Crypto) where
  -- One entry: the node if it is a candidate, and the cache, which has its key then.
  unfoldable pub take_candidate :
      ℕ
      → Bytes
      → Bytes
      → Option NodeInfo
      → KeyCache c.PublicKey
      → Option NodeInfo × KeyCache c.PublicKey
  take_candidate now node_addr dest_addr none cache = (none, cache)
  take_candidate now node_addr dest_addr (some n) cache =
      let addr = node_address n in
      if addr == node_addr || addr == dest_addr then (none, cache) else elim (get cache addr) [
        | some cached ↦ (some n, cache)
        | none ↦ elim (parse_public_key c n.public_key) [
          | none ↦ (none, cache)
          | some key ↦ (some n, set_key cache addr (record { key = key; expires_at = now + 60 }))
        ]
      ]

  abbrev pub with_candidate : Option NodeInfo → List NodeInfo → List NodeInfo
  with_candidate none more = more
  with_candidate (some n) more = n ∷ more

  -- The loop over the entries.
  unfoldable pub take_candidates :
      (ℕ → ℕ)
      → ℕ
      → Bytes
      → Bytes
      → List Bytes
      → KeyCache c.PublicKey
      → List NodeInfo × KeyCache c.PublicKey
  unfolding take_candidate node_of_fields
  take_candidates now i node_addr dest_addr [] cache = ([], cache)
  take_candidates now i node_addr dest_addr (entry ∷ entries) cache =
      let (o, cache') =
        take_candidate (now i) node_addr dest_addr (node_of_fields (split entry b'|')) cache in
      let (more, cache'') = take_candidates now (suc i) node_addr dest_addr entries cache' in
      (with_candidate o more, cache'')

  -- The loop over the addresses of the first group: whether one was reached, the calls of `SendTo`,
  -- and `failedNodes`.
  unfoldable pub send_group :
      Env → Bytes → List Bytes → List Attempt → List Bytes → Bool × List Attempt × List Bytes
  send_group env onion [] sent failed = (false, sent, failed)
  send_group env onion (addr ∷ addrs) sent failed =
      let (delivered, sent') = send_to env addr onion sent in
      let rest = send_group env onion addrs sent' (failed ++ addr ∷ []) in
      if delivered then (true, sent', failed) else rest

  abbrev pub single : Bytes → c.PublicKey → LayerGroup c.PublicKey
  single addr key = record { addrs = addr ∷ []; pub_keys = key ∷ [] }

  -- `route[0].Addrs`; the route ends with the destination, so that there is a first group.
  unfoldable pub first_addrs : List (LayerGroup c.PublicKey) → List Bytes
  first_addrs [] = []
  first_addrs (g ∷ route) = g.addrs

  module _ (w : SuperWorld c.PublicKey) (node_addr dest_addr message : Bytes) where
    -- `retry` is the recursive call, from `failedNodes` and the state that the failed try leaves.
    module _ (k : ℕ)
        (retry : List Bytes → Sender c.PublicKey → SuperOutcome × Sender c.PublicKey) where
      -- The goroutine that waits on the channel.
      unfoldable pub await_super :
          Bytes
          → Bytes
          → Option Bool
          → List Bytes
          → Sender c.PublicKey
          → SuperOutcome × Sender c.PublicKey
      await_super msg_id first_nack (some true) failed s = (acknowledged k, s)
      await_super msg_id first_nack (some false) failed s =
          retry failed (record s { node = unregister msg_id first_nack s.node })
      await_super msg_id first_nack none failed s =
          (timed_out k, record s { node = unregister msg_id first_nack s.node })

      -- The registration and the calls of `SendTo` for the first group. The goroutine for the
      -- telemetry reads the first address of that group.
      unfoldable pub transmit_super :
          List Bytes
          → Bytes
          → Bytes
          → Bytes
          → List Bytes
          → Sender c.PublicKey
          → SuperOutcome × Sender c.PublicKey
      transmit_super [] onion msg_id first_nack failed s = (crashed, s)
      transmit_super (addr ∷ addrs) onion msg_id first_nack failed s =
          let n = register msg_id first_nack (w.channel k) s.node in
          let (delivered, sent, failed') =
            send_group (w.env k) onion (addr ∷ addrs) s.sent failed in
          if delivered
          then await_super msg_id first_nack (w.answer k) failed'
              (record { node = n; cache = s.cache; sent = sent })
          else retry failed'
              (record { node = unregister msg_id first_nack n; cache = s.cache; sent = sent })

      -- The result of `Encapsulator_func_super`, with the addresses of the first group.
      unfoldable pub launch_super :
          List Bytes
          → Result (Bytes × Bytes × Bytes)
          → List Bytes
          → Sender c.PublicKey
          → SuperOutcome × Sender c.PublicKey
      unfolding transmit_super
      launch_super first (ok (onion, msg_id, first_nack)) failed s =
          transmit_super first onion msg_id first_nack failed s
      launch_super first (err e) failed s = (not_encapsulated, s)
      launch_super first panic failed s = (crashed, s)

      -- From the clusters and the key of the destination on.
      unfoldable pub route_super :
          List (LayerGroup c.PublicKey)
          → c.PublicKey
          → List Bytes
          → Sender c.PublicKey
          → SuperOutcome × Sender c.PublicKey
      unfolding launch_super
      route_super relay_groups dest_key failed s =
          let route = relay_groups ++ single dest_addr dest_key ∷ [] in
          let return_route = reverse relay_groups ++ single node_addr (w.public_key k) ∷ [] in
          launch_super (first_addrs route)
            (encapsulator_func_super c (w.forward_fresh k) (w.return_fresh k) (w.ids k) message
              route (some return_route) node_addr)
            failed s

      unfoldable pub key_super :
          Result (List (LayerGroup c.PublicKey) × ℤ)
          → Result c.PublicKey
          → List Bytes
          → Sender c.PublicKey
          → SuperOutcome × Sender c.PublicKey
      unfolding route_super
      key_super (ok (relay_groups, score)) (ok dest_key) failed s =
          route_super relay_groups dest_key failed s
      key_super (ok (relay_groups, score)) (err e) failed s = (no_destination_key, s)
      key_super (ok (relay_groups, score)) panic failed s = (crashed, s)
      key_super (err e) key failed s = (crashed, s)
      key_super panic key failed s = (crashed, s)

      -- From the candidates on.
      unfoldable pub cluster_super :
          List NodeInfo → ℕ → List Bytes → Sender c.PublicKey → SuperOutcome × Sender c.PublicKey
      unfolding key_super
      cluster_super nodes num_hops failed s =
          if ltb (length nodes) num_hops
          then (not_enough_nodes, s)
          else key_super
              (build_smart_clusters c (w.sort k) (w.rolls k) (w.draws k) nodes num_hops failed)
              (fetch_key_from_server c (w.exchange k) dest_addr) failed s

      unfoldable pub list_super :
          Result Bytes → ℕ → List Bytes → Sender c.PublicKey → SuperOutcome × Sender c.PublicKey
      unfolding cluster_super take_candidates
      list_super (ok list) num_hops failed s =
          let (nodes, cache') =
            take_candidates (w.now k) 0 node_addr dest_addr
              (split (trim_prefix list (codes "LIST:")) b',') s.cache in
          if list == codes "LIST:empty"
          then (no_nodes, s)
          else cluster_super nodes num_hops failed (record s { cache = cache' })
      list_super (err e) num_hops failed s = (no_list, s)
      list_super panic num_hops failed s = (crashed, s)

    -- `tries` is `maxRetries - currentTry` and `k` is `currentTry`.
    unfoldable pub send_with_retry_super :
        ℕ → ℕ → ℤ → List Bytes → Sender c.PublicKey → SuperOutcome × Sender c.PublicKey
    unfolding list_super
    send_with_retry_super zero k num_hops failed s = (abandoned, s)
    send_with_retry_super (suc tries) k num_hops failed s =
        let hops = raise_hops num_hops in
        list_super k (λ failed' s'. send_with_retry_super tries (suc k) (pos hops) failed' s')
          (w.list k) hops failed s
