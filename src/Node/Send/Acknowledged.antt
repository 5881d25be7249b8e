-- ===== src/Node/Send/Acknowledged.antt =====
-- `SendWithRetry` and the nodes of its route: the message arrives, and the ACK ends the send.
use dor.Base.{
  ℕ, suc, ◌+◌, ◌≤◌, ◌≡◌, refl, sym, ap, ◌∙◌, inl, inr, Bool, true, none, some, List, [], ◌∷◌, ◌++◌,
  map, reverse, arith, nat_eq, Bytes, bytes_eq, length, get_elem?, length-append, All, IsBytes,
  length-map, IsMember, length-reverse, lookup, ok, int_eq, ℤ,
}
use dor.Strings.{join, codes}
use dor.Model.Crypto.{Crypto, CryptoLaws, IsFresh}
use dor.Model.Layer.{generate_msg_id}
use dor.Model.Broadcast.{join_addresses}
use dor.Model.Node.{Run, finished}
use dor.Model.Node.Reached.{IsUp}
use dor.Model.Handler.{handle_onion}
use dor.Node.KeyCache.{KeyCache, fetch_key_from_server}
use dor.Node.Encapsulate.{cached_key, refresh_keys}
use dor.Node.Encapsulate.Keys.{IsHonest, Knows, refresh_keys-Knows}
use dor.Node.Encapsulate.Groups.{build_onions-eq-groups}
use dor.Node.Onion.Groups.{single}
use dor.Node.Race.Handlers.{register-Shows}
use dor.Node.Super.{LayerGroup, nack_ids}
use dor.Node.Super.Peels.{IsField}
use dor.Node.Super.Total.{CanRead}
use dor.Node.Super.Delivery.{HopNode, Travels, Travels-last}
use dor.Node.Super.Arrival.{IsReady, IsListed, IsEndpoint}
use dor.Node.Super.Return.{msg_id-ne-nack_id}
use dor.Node.Super.Answer.{Answers, IsTold, encapsulator_func_super-Answers}
use dor.Node.Send.{acknowledged, Plan, Sender, World, register, by_plan, plan, send_with_retry}
use dor.Node.SendSuper.{first_addrs}
use dor.Node.Send.Waits.{sent_sender, follow-acknowledged}
use dor.Node.Send.Routes.{IsRoundTrip, plan-IsRoundTrip}

module _ {K : Type 0} (key : Bytes → K) where
  -- What holds for the group of each node holds for the groups.
  singles-All :
      (P : Bytes → Type 0) (Q : LayerGroup K → Type 0)
      → ((a : Bytes) → P a → Q (single key a))
      → (route : List Bytes) → All P route
      → All Q (map (single key) route)
  singles-All P Q step [] h = tt
  singles-All P Q step (a ∷ route) (h, hs) = (step a h, singles-All P Q step route hs)

single-IsListed :
    (c : Crypto) (key : Bytes → c.PublicKey) (a : Bytes) → IsEndpoint a → IsListed c (single key a)
unfolding join_addresses join
single-IsListed c key a (valid, port) = ((valid, tt), port)

All-split : {A : Type 0} (P : A → Type 0) (xs ys : List A) → All P (xs ++ ys) → All P xs × All P ys
All-split P [] ys h = (tt, h)
All-split P (x ∷ xs) ys (h, hs) = let (l, r) = All-split P xs ys hs in ((h, l), r)

length-round_trip :
    (node_addr dest_addr : Bytes) (p : Plan)
    → IsRoundTrip node_addr dest_addr p
    → (length p.route ≡ length p.return_route) × (1 ≤ length p.return_route)
length-round_trip node_addr dest_addr p (relays, others, there, back) =
    let out : length p.route ≡ length relays + 1 =
      ap length there ∙ length-append relays (dest_addr ∷ []) in
    let home : length p.return_route ≡ length relays + 1 =
      ap length back
      ∙ length-append (reverse relays) (node_addr ∷ [])
      ∙ ap (λ n. n + 1) (length-reverse relays) in
    (out ∙ sym home, omega (arith, home))

first_member :
    (c : Crypto) (key : Bytes → c.PublicKey) (route : List Bytes) (a : Bytes)
    → get_elem? route 0 ≡ some a
    → IsMember a (first_addrs c (map (single key) route))
unfolding first_addrs
first_member c key [] a h = cc
first_member c key (x ∷ route) a h = let same : x ≡ a = cc in inl (sym same)

-- A send whose try gets as far as a plan, without a fragment, when the keys of both routes are
-- there and honest and can encrypt, the random bytes are as many as asked for, the addresses can
-- be listed and the message is of bytes; when the hops of both ways can do their part, the
-- recipient has not seen the message and can reach the first node of the way back, the first
-- node of the route answers, the ACK finds the node as the send left it, and what the handler
-- there puts into the channel is what comes out of it: then the send ends as acknowledged in
-- this try, with one call that hands the onion over to the first node, the recipient notes the
-- message, and the ACK comes back.
pub send_with_retry-Acknowledged :
    (c : Crypto) (laws : CryptoLaws c) (owner : Bytes → c.PrivateKey) (w : World)
    (node_addr dest_addr message : Bytes) (tries k : ℕ) (num_relays : ℤ) (s : Sender c.PublicKey)
    (p : Plan) (cache : KeyCache c.PublicKey) (hops back_hops : ℕ → HopNode c) (a b : Bytes)
    → let key = λ (x : Bytes). c.public_of (owner x) in
      let there = map (single key) p.route in
      let back = map (single key) p.return_route in
      let msg_id = generate_msg_id [] (w.ids k 0) in
      let first_nack = generate_msg_id (codes "nack") (w.ids k 1) in
      let nacks = nack_ids (w.ids k) 1 (length there) in
      let ch = w.channel k in
      ((i : ℕ) → IsFresh (w.forward_fresh k i))
      → ((i : ℕ) → IsFresh (w.return_fresh k i))
      → plan node_addr dest_addr (w.draws k) num_relays (w.list k) ≡ inr p
      → IsHonest c owner s.cache
      → ((x : Bytes) (y : c.PublicKey) → fetch_key_from_server c w.exchange x ≡ ok y → y ≡ key x)
      → refresh_keys c w.exchange (w.clock k) 0 s.cache (p.route ++ p.return_route) ≡ (cache, ok tt)
      → ((x : Bytes) → 98 ≤ c.modulus_size (key x))
      → All IsEndpoint p.route
      → All IsEndpoint p.return_route
      → IsField node_addr
      → IsBytes message
      → IsReady c there nacks hops
      → IsReady c back (reverse nacks) back_hops
      → ((i : ℕ)
          → suc i ≡ length there
          → (lookup msg_id (hops i).run.node.seen_msgs ≡ none) × IsUp (hops i).env b)
      → get_elem? p.return_route 0 ≡ some b
      → ((i : ℕ)
          → suc i ≡ length back
          → (back_hops i).run.node ≡ register msg_id first_nack ch s.node)
      → get_elem? p.route 0 ≡ some a
      → IsUp (w.env k) a
      → ((i : ℕ) (text : Bytes) (r : Run) (v : Bool)
          → suc i ≡ length back
          → handle_onion c (back_hops i).key (back_hops i).env text (back_hops i).run
            ≡ (finished, r)
          → r.node.channels ch ≡ v ∷ []
          → w.answer k ≡ some v)
      → (text onion : Bytes) × (s' : Sender c.PublicKey) × (send_with_retry c w node_addr dest_addr
            message []
            (suc tries)
            k
            num_relays
            s
          ≡ (acknowledged k, s'))
        × (s'.sent ≡ s.sent ++ record { addr = a; message = text; delivered = true } ∷ [])
        × Travels c there hops (Answers c hops message (first_addrs c back) onion) 0 text
        × Travels c back back_hops (IsTold msg_id ch) 0 onion
unfolding send_with_retry by_plan
send_with_retry-Acknowledged c laws owner w node_addr dest_addr message tries k num_relays s p cache
      hops back_hops a b good good_back planned honest true_keys refreshed fits listed listed_back
      own bytes ready ready_back end first_back waits first_there up takes =
    let key = λ (x : Bytes). c.public_of (owner x) in
    let there = map (single key) p.route in
    let back = map (single key) p.return_route in
    let msg_id = generate_msg_id [] (w.ids k 0) in
    let first_nack = generate_msg_id (codes "nack") (w.ids k 1) in
    let (same, some_hop) =
      length-round_trip node_addr dest_addr p
        (plan-IsRoundTrip node_addr dest_addr (w.draws k) num_relays (w.list k) p planned) in
    let (known, known_back) = All-split (Knows c owner cache) p.route p.return_route (
      refresh_keys-Knows c owner w.exchange (w.clock k) true_keys 0 s.cache cache
        (p.route ++ p.return_route) honest refreshed) in
    let (text, onion, made, travels, returns) =
      encapsulator_func_super-Answers c laws (w.forward_fresh k) (w.return_fresh k) good good_back
        (w.ids k) message there back node_addr hops back_hops (w.channel k)
        (omega (arith, some_hop, length-map (single key) p.return_route))
        (length-map (single key) p.route ∙ same ∙ sym (length-map (single key) p.return_route))
        (singles-All key IsEndpoint (CanRead c) (λ x h. (omega arith, (fits x, tt))) p.route listed)
        (singles-All key IsEndpoint (CanRead c) (λ x h. (omega arith, (fits x, tt))) p.return_route
          listed_back)
        (singles-All key IsEndpoint (IsListed c) (single-IsListed c key) p.route listed)
        (singles-All key IsEndpoint (IsListed c) (single-IsListed c key) p.return_route listed_back)
        own bytes ready ready_back
        (λ i e.
          let (unseen, reaches) = end i e in
          (unseen, (b, first_member c key p.return_route b first_back, reaches)))
        (λ i e.
          let (own_entry, nack_entry, empty) =
            register-Shows msg_id first_nack (w.channel k)
              (msg_id-ne-nack_id (w.ids k 0) (w.ids k 1)) s.node in
          rw (waits i e) (own_entry, empty)) in
    let told : w.answer k ≡ some true =
      Travels-last c back back_hops (IsTold msg_id (w.channel k)) (w.answer k ≡ some true)
        (λ i line r e done ends. takes i line r true e done ends.0) returns in
    let built =
      build_onions-eq-groups c (w.forward_fresh k) (w.return_fresh k) (w.ids k) (cached_key c cache)
        key message p.route (some p.return_route) node_addr known known_back
      ∙ made in
    (
      text,
      onion,
      sent_sender w k a text msg_id first_nack (record s { cache = cache }),
      rw (planned) (
          follow-acknowledged c w node_addr dest_addr message k _ p text msg_id first_nack a cache s
            refreshed built first_there up told),
      refl,
      travels,
      returns,
    )
