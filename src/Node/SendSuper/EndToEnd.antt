-- ===== src/Node/SendSuper/EndToEnd.antt =====
-- `SendWithRetrySuper` from its first statement to the ACK, with every node of the route.
use dor.Base.{
  ℕ, suc, ◌≤◌, ◌≡◌, refl, ◌∙◌, Bool, false, none, some, List, [], ◌∷◌, ◌++◌, reverse, ltb, ◌==◌,
  nat_eq, Bytes, bytes_eq, length, All, IsBytes, IsMember, lookup, ok, int_eq, ℤ, pos,
}
use dor.Strings.{split, codes, trim_prefix}
use dor.Model.Crypto.{Crypto, CryptoLaws, IsFresh}
use dor.Model.Layer.{generate_msg_id}
use dor.Model.Node.{Run, finished}
use dor.Model.Node.Reached.{IsUp, Reached}
use dor.Model.Handler.{handle_onion}
use dor.Node.KeyCache.{fetch_key_from_server}
use dor.Node.Cluster.{build_smart_clusters}
use dor.Node.Send.{Sender, register}
use dor.Node.Super.{LayerGroup, nack_ids}
use dor.Node.Super.Total.{CanRead}
use dor.Node.Super.Delivery.{HopNode, Travels}
use dor.Node.Super.Arrival.{IsEndpoint, IsReady, IsListed}
use dor.Node.Super.Answer.{Answers, IsTold}
use dor.Node.SendSuper.{
  SuperOutcome, acknowledged, SuperWorld, single, first_addrs, raise_hops, take_candidates,
  route_super, list_super, key_super, cluster_super, send_with_retry_super,
}
use dor.Node.SendSuper.Acknowledged.{route_super-Acknowledged}

module _ (c : Crypto) (w : SuperWorld c.PublicKey) (node_addr dest_addr message : Bytes) (k : ℕ)
    (retry : List Bytes → Sender c.PublicKey → SuperOutcome × Sender c.PublicKey) where
  -- A list with enough candidates, clusters and a key lead to the routes.
  list_super-route_super :
      (list : Bytes) (num_hops : ℕ) (failed : List Bytes) (s : Sender c.PublicKey)
      (relay_groups : List (LayerGroup c.PublicKey)) (score : ℤ) (dest_key : c.PublicKey)
      → let offered =
          take_candidates c
            (w.now k)
            0
            node_addr
            dest_addr
            (split (trim_prefix list (codes "LIST:")) b',')
            s.cache in
        (list == codes "LIST:empty") ≡ false
        → ltb (length offered.0) num_hops ≡ false
        → build_smart_clusters c (w.sort k) (w.rolls k) (w.draws k) offered.0 num_hops failed
          ≡ ok (relay_groups, score)
        → fetch_key_from_server c (w.exchange k) dest_addr ≡ ok dest_key
        → list_super c w node_addr dest_addr message k retry (ok list) num_hops failed s
          ≡ route_super c w node_addr dest_addr message k retry relay_groups dest_key failed
              (record s { cache = offered.1 })
  unfolding list_super cluster_super key_super
  list_super-route_super list num_hops failed s relay_groups score dest_key some_list enough built
        fetched =
      rw (some_list, enough, built, fetched) refl

-- When the list of the directory has enough candidates, the clusters and the key of the
-- destination are there, the random bytes are as many as asked for, keys can encrypt, addresses
-- can be listed and the message is of bytes; when the hops of both ways can do their part, the
-- recipient has not seen the message and can reach a node of the way back, a node of the first
-- group answers, the ACK finds the node as the send left it, and what the handler there puts
-- into the channel is what comes out of it: then the send ends as acknowledged in this try, its
-- last call hands the onion over to the first group, the recipient notes the message, and the
-- ACK comes back.
pub send_with_retry_super-Acknowledged :
    (c : Crypto) (laws : CryptoLaws c) (w : SuperWorld c.PublicKey)
    (node_addr dest_addr message : Bytes) (tries k : ℕ) (num_hops : ℤ) (failed : List Bytes)
    (s : Sender c.PublicKey) (list : Bytes) (relay_groups : List (LayerGroup c.PublicKey))
    (score : ℤ) (dest_key : c.PublicKey) (hops back_hops : ℕ → HopNode c) (a : Bytes)
    → let hop_count = raise_hops num_hops in
      let offered =
        take_candidates c
          (w.now k)
          0
          node_addr
          dest_addr
          (split (trim_prefix list (codes "LIST:")) b',')
          s.cache in
      let there = relay_groups ++ single c dest_addr dest_key ∷ [] in
      let back = reverse relay_groups ++ single c node_addr (w.public_key k) ∷ [] in
      let recipient = hops (length relay_groups) in
      let sender = back_hops (length relay_groups) in
      let msg_id = generate_msg_id [] (w.ids k 0) in
      let nacks = nack_ids (w.ids k) 1 (length there) in
      let ch = w.channel k in
      ((i : ℕ) → IsFresh (w.forward_fresh k i))
      → ((i : ℕ) → IsFresh (w.return_fresh k i))
      → w.list k ≡ ok list
      → (list == codes "LIST:empty") ≡ false
      → ltb (length offered.0) hop_count ≡ false
      → build_smart_clusters c (w.sort k) (w.rolls k) (w.draws k) offered.0 hop_count failed
        ≡ ok (relay_groups, score)
      → fetch_key_from_server c (w.exchange k) dest_addr ≡ ok dest_key
      → All (CanRead c) relay_groups
      → 98 ≤ c.modulus_size dest_key
      → 98 ≤ c.modulus_size (w.public_key k)
      → All (IsListed c) relay_groups
      → IsEndpoint dest_addr
      → IsEndpoint node_addr
      → IsBytes message
      → IsReady c there nacks hops
      → IsReady c back (reverse nacks) back_hops
      → lookup msg_id recipient.run.node.seen_msgs ≡ none
      → (b : Bytes) × IsMember b (first_addrs c back) × IsUp recipient.env b
      → sender.run.node ≡ register msg_id (generate_msg_id (codes "nack") (w.ids k 1)) ch s.node
      → IsMember a (first_addrs c there) × IsUp (w.env k) a
      → ((text : Bytes) (r : Run) (v : Bool)
          → handle_onion c sender.key sender.env text sender.run ≡ (finished, r)
          → r.node.channels ch ≡ v ∷ []
          → w.answer k ≡ some v)
      → (text onion : Bytes) × (s' : Sender c.PublicKey) × (send_with_retry_super c w node_addr
            dest_addr message
            (suc tries)
            k
            num_hops
            failed
            s
          ≡ (acknowledged k, s'))
        × Reached text (first_addrs c there) s.sent s'.sent
        × Travels c there hops (Answers c hops message (first_addrs c back) onion) 0 text
        × Travels c back back_hops (IsTold msg_id ch) 0 onion
unfolding send_with_retry_super
send_with_retry_super-Acknowledged c laws w node_addr dest_addr message tries k num_hops failed s
      list relay_groups score dest_key hops back_hops a good good_back listing some_list enough
      built fetched readable dest_fits own_fits listed dest own bytes ready ready_back unseen
      returns waits first_up takes =
    let retry : List Bytes → Sender c.PublicKey → SuperOutcome × Sender c.PublicKey = λ failed' s'.
      send_with_retry_super c w node_addr dest_addr message tries (suc k)
        (pos (raise_hops num_hops)) failed' s' in
    let offered =
      take_candidates c (w.now k) 0 node_addr dest_addr
        (split (trim_prefix list (codes "LIST:")) b',') s.cache in
    let s0 = record s { cache = offered.1 } in
    let (text, onion, s', result, reached, there, back) =
      route_super-Acknowledged c laws w k good good_back node_addr dest_addr message retry
        relay_groups dest_key hops back_hops failed s0 a readable dest_fits own_fits listed dest own
        bytes ready ready_back unseen returns waits first_up takes in
    (
      text,
      onion,
      s',
      rw (listing) (
          list_super-route_super c w node_addr dest_addr message k retry list (raise_hops num_hops)
            failed s relay_groups score dest_key some_list enough built fetched
          ∙ result),
      reached,
      there,
      back,
    )
