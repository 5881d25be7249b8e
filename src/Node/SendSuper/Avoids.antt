-- ===== src/Node/SendSuper/Avoids.antt =====
-- `SendWithRetrySuper`: which addresses it calls.
use dor.Base.{
  ℕ, zero, suc, ◌≤◌, ◌≡◌, inl, inr, false, ◌||◌, Option, none, some, List, [], ◌∷◌, map, arith, ltb,
  Bool-cases, Option-cases, ◌==◌, eq_iff, nat_eq, Bytes, bytes_eq, length, All, length-map, Result,
  ok, err, panic, int_eq, ℤ, pos, negsuc,
}
use dor.Strings.{split, codes, trim_prefix}
use dor.Model.Crypto.{Crypto}
use dor.Directory.Table.{NodeInfo}
use dor.Node.KeyCache.{KeyCache, get, fetch_key_from_server}
use dor.Node.Super.{LayerGroup}
use dor.Node.Send.{Sender}
use dor.Node.Send.Routes.{IsRelay}
use dor.Node.Cluster.{node_address, parse_public_key}
use dor.Node.Cluster.Members.{group_of}
use dor.Node.Cluster.Complete.{build_smart_clusters-Perm}
use dor.Node.Cluster.Allowed.{IsAllowed, build_smart_clusters-IsAllowed}
use dor.Node.SendSuper.{
  SuperOutcome, SuperWorld, raise_hops, min_clusters, node_of_fields, take_candidate,
  take_candidates, with_candidate, first_addrs, route_super, key_super, cluster_super, list_super,
  send_with_retry_super,
}
use dor.Node.SendSuper.Tries.{Logged, nothing_sent, launch-Logged}
use mathlib.Core.List.{Perm}

raise_hops-bound : (n : ℤ) → min_clusters ≤ raise_hops n
unfolding raise_hops
raise_hops-bound (pos n) = ground arith
raise_hops-bound (negsuc n) = omega arith

not_endpoints :
    (a node_addr dest_addr : Bytes)
    → (a == node_addr || a == dest_addr) ≡ false
    → IsRelay node_addr dest_addr a
not_endpoints a node_addr dest_addr e = (
  (λ same. ground (arith, e, (eq_iff a node_addr).1 same)),
  (λ same. ground (arith, e, (eq_iff a dest_addr).1 same)),
)

module _ (c : Crypto) (node_addr dest_addr : Bytes) where
  abbrev IsRelayNode : NodeInfo → Type 0
  IsRelayNode n = IsRelay node_addr dest_addr (node_address n)

  with_candidate-All :
      (now : ℕ) (o : Option NodeInfo) (cache : KeyCache c.PublicKey) (more : List NodeInfo)
      → All IsRelayNode more
      → All IsRelayNode (with_candidate c (take_candidate c now node_addr dest_addr o cache).0 more)
  unfolding take_candidate
  with_candidate-All now none cache more h = h
  with_candidate-All now (some n) cache more h =
      elim (Bool-cases (node_address n == node_addr || node_address n == dest_addr)) [
        | inl e ↦ rw (e) h
        | inr e ↦ elim (Option-cases (get cache (node_address n))) [
          | inr (cached, known) ↦
              rw (e, known) (not_endpoints (node_address n) node_addr dest_addr e, h)
          | inl unknown ↦ elim (Option-cases (parse_public_key c n.public_key)) [
            | inl bad ↦ rw (e, unknown, bad) h
            | inr (key, good) ↦
                rw (e, unknown, good) (not_endpoints (node_address n) node_addr dest_addr e, h)
          ]
        ]
      ]

  take_candidates-All :
      (now : ℕ → ℕ) (i : ℕ) (entries : List Bytes) (cache : KeyCache c.PublicKey)
      → All IsRelayNode (take_candidates c now i node_addr dest_addr entries cache).0
  unfolding take_candidates
  take_candidates-All now i [] cache = tt
  take_candidates-All now i (entry ∷ entries) cache =
      with_candidate-All (now i) (node_of_fields (split entry b'|')) cache _ (
        take_candidates-All now (suc i) entries
          (take_candidate c (now i) node_addr dest_addr (node_of_fields (split entry b'|'))
            cache).1)

  module _ (w : SuperWorld c.PublicKey) (message : Bytes)
      (sorts : (k : ℕ) (nodes : List NodeInfo) → Perm (w.sort k nodes) nodes) where
    module _ (k n : ℕ) (retry : List Bytes → Sender c.PublicKey → SuperOutcome × Sender c.PublicKey)
        (later : (failed : List Bytes) (s : Sender c.PublicKey)
          → Logged c (IsRelay node_addr dest_addr) n failed s.sent (retry failed s).1.sent) where
      route-Logged :
          (groups : List (LayerGroup c.PublicKey)) (dest_key : c.PublicKey) (failed : List Bytes)
          (s : Sender c.PublicKey)
          → 1 ≤ length groups
          → All
              (λ (g : LayerGroup c.PublicKey).
                All (IsAllowed (IsRelay node_addr dest_addr) failed) g.addrs)
              groups
          → Logged c
              (IsRelay node_addr dest_addr)
              (suc n)
              failed
              s.sent
              (route_super c w node_addr dest_addr message k retry groups dest_key failed s).1.sent
      unfolding route_super first_addrs
      route-Logged [] dest_key failed s some_group h = absurd (omega (arith, some_group))
      route-Logged (g ∷ groups) dest_key failed s some_group (h, hs) =
          launch-Logged c (IsRelay node_addr dest_addr) w node_addr dest_addr message k n retry
            later g.addrs _ failed s h

      key-Logged :
          (groups : List (LayerGroup c.PublicKey)) (score : ℤ) (key : Result c.PublicKey)
          (failed : List Bytes) (s : Sender c.PublicKey)
          → 1 ≤ length groups
          → All
              (λ (g : LayerGroup c.PublicKey).
                All (IsAllowed (IsRelay node_addr dest_addr) failed) g.addrs)
              groups
          → Logged c
              (IsRelay node_addr dest_addr)
              (suc n)
              failed
              s.sent
              (key_super c w node_addr dest_addr message k retry
                (ok (groups, score))
                key
                failed
                s).1.sent
      unfolding key_super
      key-Logged groups score (ok dest_key) failed s some_group h =
          route-Logged groups dest_key failed s some_group h
      key-Logged groups score (err e) failed s some_group h =
          nothing_sent c (IsRelay node_addr dest_addr) (suc n) failed s.sent
      key-Logged groups score panic failed s some_group h =
          nothing_sent c (IsRelay node_addr dest_addr) (suc n) failed s.sent

      cluster-Logged :
          (nodes : List NodeInfo) (num_hops : ℕ) (failed : List Bytes) (s : Sender c.PublicKey)
          → 1 ≤ num_hops
          → All IsRelayNode nodes
          → Logged c
              (IsRelay node_addr dest_addr)
              (suc n)
              failed
              s.sent
              (cluster_super c w node_addr dest_addr message k retry nodes num_hops failed s).1.sent
      unfolding cluster_super
      cluster-Logged nodes num_hops failed s hops h =
          elim (Bool-cases (ltb (length nodes) num_hops)) [
            | inl e ↦ rw (e) (nothing_sent c (IsRelay node_addr dest_addr) (suc n) failed s.sent)
            | inr e ↦
                let (mss, score, built, count, partition, full) =
                  build_smart_clusters-Perm c (w.sort k) (sorts k) (w.rolls k) (w.draws k) nodes
                    num_hops failed hops in
                rw (e, built)
                  (key-Logged (map (group_of c) mss) score
                    (fetch_key_from_server c (w.exchange k) dest_addr) failed s
                    (omega (arith, length-map (group_of c) mss, count, hops))
                    (build_smart_clusters-IsAllowed c (IsRelay node_addr dest_addr) (λ a. hlevel)
                      (w.sort k) (sorts k) (w.rolls k) (w.draws k) nodes num_hops failed
                      (map (group_of c) mss) score hops h built))
          ]

      list-Logged :
          (list : Result Bytes) (num_hops : ℕ) (failed : List Bytes) (s : Sender c.PublicKey)
          → 1 ≤ num_hops
          → Logged c
              (IsRelay node_addr dest_addr)
              (suc n)
              failed
              s.sent
              (list_super c w node_addr dest_addr message k retry list num_hops failed s).1.sent
      unfolding list_super
      list-Logged (ok list) num_hops failed s hops =
          let entries = split (trim_prefix list (codes "LIST:")) b',' in
          elim (Bool-cases (list == codes "LIST:empty")) [
            | inl e ↦ rw (e) (nothing_sent c (IsRelay node_addr dest_addr) (suc n) failed s.sent)
            | inr e ↦ rw (e) (
                cluster-Logged (take_candidates c (w.now k) 0 node_addr dest_addr entries s.cache).0
                  num_hops failed _ hops (take_candidates-All (w.now k) 0 entries s.cache))
          ]
      list-Logged (err e) num_hops failed s hops =
          nothing_sent c (IsRelay node_addr dest_addr) (suc n) failed s.sent
      list-Logged panic num_hops failed s hops =
          nothing_sent c (IsRelay node_addr dest_addr) (suc n) failed s.sent

    -- When the sort only reorders: with `tries` tries left a send makes at most that many, each with
    -- one message to the addresses of one group up to the first that answers; none of them is the
    -- sender, the destination or an address that failed in an earlier try.
    pub send_with_retry_super-Tries :
        (tries k : ℕ) (num_hops : ℤ) (failed : List Bytes) (s : Sender c.PublicKey)
        → Logged c
            (IsRelay node_addr dest_addr)
            tries
            failed
            s.sent
            (send_with_retry_super c w node_addr dest_addr message tries k num_hops failed s).1.sent
    unfolding send_with_retry_super
    send_with_retry_super-Tries zero k num_hops failed s =
        nothing_sent c (IsRelay node_addr dest_addr) zero failed s.sent
    send_with_retry_super-Tries (suc tries) k num_hops failed s =
        list-Logged k tries
          (λ failed' s'.
            send_with_retry_super c w node_addr dest_addr message tries (suc k)
              (pos (raise_hops num_hops)) failed' s')
          (λ failed' s'.
            send_with_retry_super-Tries tries (suc k) (pos (raise_hops num_hops)) failed' s')
          (w.list k) (raise_hops num_hops) failed s (omega (arith, raise_hops-bound num_hops))
