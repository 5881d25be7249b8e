-- ===== src/Tests/SendEnd.antt =====
-- `SEND` over one relay, which is acknowledged.
use dor.Base.{
  ℕ, zero, suc, ◌≡◌, refl, sym, ap, subst, inl, inr, Bool, true, Option, none, some, List, [], ◌∷◌,
  ◌++◌, map, arith, nat_eq, Bytes, bytes_eq, All, IsMember, lookup, insert, ok-injective, ok,
  int_eq, pos,
}
use dor.Strings.{split, split_max, codes, trim_prefix, contains, is_space, trim_space}
use dor.Encoding.{decode}
use dor.Model.Layer.{generate_msg_id}
use dor.Model.Node.{Node, Run, finished}
use dor.Model.Handler.{handle_onion}
use dor.Model.Handler.Tells.{IsHopeful, handle_onion-IsHopeful}
use dor.Model.Shuffle.{shuffle, shuffle_from, swap}
use dor.Directory.Candidates.{candidates, candidates_of, keep_candidate, entry_addr}
use dor.Node.KeyCache
use dor.Node.KeyCache.{KeyCache, CachedKey, fetch_key_from_server}
use dor.Node.Encapsulate.Groups.{build_onions-eq-groups}
use dor.Node.Super.{encapsulator_func_super}
use dor.Tests.Toy.{fresh_toy}
use dor.Node.Encapsulate.{build_onions, refresh_keys, refresh_key, needs_fetch}
use dor.Node.Encapsulate.Keys.{IsHonest}
use dor.Node.Onion.Groups.{single}
use dor.Node.Super.{LayerGroup}
use dor.Node.Super.Delivery.{HopNode, Travels}
use dor.Node.Super.Arrival.{IsEndpoint}
use dor.Node.Super.Answer.{Answers, IsTold}
use dor.Node.SendSuper.{first_addrs}
use dor.Node.Send.{acknowledged, Sender, World, register, plan, choose, clamp, send_with_retry}
use dor.Node.Send.Acknowledged.{send_with_retry-Acknowledged}
use dor.Tests.Toy.{toy, toy_laws, fresh_toy-IsFresh}
use dor.Tests.Handlers.{idle}
use dor.Tests.Arrival.{reachable_env}
use dor.Tests.Retry.{by_alice, unlucky, sender}
use dor.Tests.EndToEnd.{node_with, node_with-IsReady}
use dor.Model.Node.Reached.{IsUp}

-- Every node answers, and the channel gives what the handler puts in.
abbrev bright : World
bright = record unlucky { ids = λ k i. i ∷ []; env = λ k. reachable_env; answer = λ k. some true }

abbrev dest_addr : Bytes
dest_addr = codes "10.0.0.2:9001"

abbrev node_addr : Bytes
node_addr = codes "10.0.0.3:9002"

abbrev alice_addr : Bytes
alice_addr = codes "10.0.0.1:9000"

abbrev key_of_all : Bytes → ℕ
key_of_all a = 5

abbrev there : List (LayerGroup ℕ)
there = map (single key_of_all) by_alice.route

abbrev back : List (LayerGroup ℕ)
back = map (single key_of_all) by_alice.return_route

abbrev sent_id : Bytes
sent_id = generate_msg_id [] (0 ∷ [])

-- The second node of the way back is the sender, as the send left it.
abbrev return_node : ℕ → Node
return_node zero = idle
return_node (suc i) = register sent_id (generate_msg_id (codes "nack") (1 ∷ [])) 0 idle

abbrev back_hops : ℕ → HopNode toy
back_hops i = node_with (return_node i)

return_node_new : (i : ℕ) → (return_node i).seen_msgs ≡ []
unfolding register
return_node_new zero = refl
return_node_new (suc i) = refl

abbrev warm : KeyCache ℕ
warm =
    (refresh_keys toy bright.exchange (bright.clock 0) 0 []
      (by_alice.route ++ by_alice.return_route)).0

refreshed :
    refresh_keys toy bright.exchange (bright.clock 0) 0 [] (by_alice.route ++ by_alice.return_route)
    ≡ (warm, ok tt)
unfolding refresh_keys refresh_key needs_fetch fetch_key_from_server decode trim_space is_space
    split_max KeyCache.get KeyCache.set KeyCache.is_expired lookup insert
refreshed = refl

planned : plan node_addr dest_addr (bright.draws 0) (pos 4) (bright.list 0) ≡ inr by_alice
unfolding plan choose clamp candidates candidates_of keep_candidate entry_addr split split_max
    trim_prefix shuffle shuffle_from swap
planned = refl

true_keys : (x : Bytes) (y : ℕ) → fetch_key_from_server toy bright.exchange x ≡ ok y → y ≡ 5
unfolding fetch_key_from_server decode trim_space is_space split_max
true_keys x y h = sym (ok-injective h)

empty-IsHonest : IsHonest toy (λ a. 5) []
unfolding KeyCache.get lookup
empty-IsHonest a v found = cc

alice-IsEndpoint : IsEndpoint alice_addr
unfolding contains
alice-IsEndpoint = (
  record {
    not_empty = λ e. ground arith;
    no_comma = omega arith;
    no_bar = omega arith;
    bytes = omega arith;
  },
  refl,
)

dest-IsEndpoint : IsEndpoint dest_addr
unfolding contains
dest-IsEndpoint = (
  record {
    not_empty = λ e. ground arith;
    no_comma = omega arith;
    no_bar = omega arith;
    bytes = omega arith;
  },
  refl,
)

own-IsEndpoint : IsEndpoint node_addr
unfolding contains
own-IsEndpoint = (
  record {
    not_empty = λ e. ground arith;
    no_comma = omega arith;
    no_bar = omega arith;
    bytes = omega arith;
  },
  refl,
)

recipient_ready :
    (i : ℕ) → suc i ≡ 2 → (lookup sent_id idle.seen_msgs ≡ none) × IsUp reachable_env alice_addr
unfolding lookup
recipient_ready i h = (refl, λ k m. refl)

sender_waits :
    (i : ℕ)
    → suc i ≡ 2
    → (back_hops i).run.node
      ≡ register sent_id (generate_msg_id (codes "nack") (1 ∷ [])) 0 sender.node
sender_waits zero h = cc
sender_waits (suc i) h = refl

-- Whatever onion a node of the way back gets: a value in its channel is `true`.
sender_takes :
    (i : ℕ) (text : Bytes) (r : Run) (v : Bool)
    → suc i ≡ 2
    → handle_onion toy (back_hops i).key (back_hops i).env text (back_hops i).run ≡ (finished, r)
    → r.node.channels 0 ≡ v ∷ []
    → some true ≡ some v
sender_takes i text r v e done told = by_case (
    subst (IsHopeful 0) (ap (λ p. p.1) done)
      (handle_onion-IsHopeful toy 5 reachable_env text 0 (back_hops i).run (no_answer i)))
  where
    no_answer : (j : ℕ) → (return_node j).channels 0 ≡ []
    no_answer zero = refl
    no_answer (suc j) = unfold register in refl

    by_case : IsHopeful 0 r → some true ≡ some v
    by_case (inl empty) = cc
    by_case (inr given) = cc

keyed :
    (route : List Bytes)
    → All (λ (g : LayerGroup ℕ). IsMember 5 g.pub_keys) (map (single key_of_all) route)
keyed [] = tt
keyed (a ∷ route) = (inl refl, keyed route)

addressed :
    (route : List Bytes)
    → All (λ (g : LayerGroup ℕ). (a : Bytes) × IsMember a g.addrs) (map (single key_of_all) route)
addressed [] = tt
addressed (a ∷ route) = ((a, inl refl), addressed route)

send_with_retry-Acknowledged_example :
    (text onion : Bytes) × (s' : Sender ℕ) × (send_with_retry toy bright node_addr dest_addr
        (codes "hi")
        []
        2
        0
        (pos 4)
        sender
      ≡ (acknowledged 0, s'))
    × (s'.sent ≡ record { addr = alice_addr; message = text; delivered = true } ∷ [])
    × Travels toy there
        (λ i. node_with idle)
        (Answers toy (λ i. node_with idle) (codes "hi") (first_addrs toy back) onion)
        0
        text
    × Travels toy back back_hops (IsTold sent_id 0) 0 onion
send_with_retry-Acknowledged_example =
    send_with_retry-Acknowledged toy toy_laws (λ a. 5) bright node_addr dest_addr (codes "hi") 1 0
      (pos 4) sender by_alice warm (λ i. node_with idle) back_hops alice_addr alice_addr
      (λ i. fresh_toy-IsFresh) (λ i. fresh_toy-IsFresh) planned empty-IsHonest true_keys refreshed
      (λ x. omega arith) (alice-IsEndpoint, (dest-IsEndpoint, tt))
      (alice-IsEndpoint, (own-IsEndpoint, tt)) (omega arith) (omega arith)
      (node_with-IsReady there _ (λ i. idle) (keyed by_alice.route) (addressed by_alice.route)
        (λ i. refl))
      (node_with-IsReady back _ return_node (keyed by_alice.return_route)
        (addressed by_alice.return_route) return_node_new)
      recipient_ready refl sender_waits refl (λ k m. refl) sender_takes

abbrev one_key : Bytes → Option ℕ
one_key a = some 5

build_onions-eq-groups_example :
    build_onions toy
      (λ i. fresh_toy)
      (λ i. fresh_toy)
      (λ i. i ∷ [])
      one_key
      (codes "hi")
      []
      by_alice.route
      (some by_alice.return_route)
      node_addr
    ≡ encapsulator_func_super toy
        (λ i. fresh_toy)
        (λ i. fresh_toy)
        (λ i. i ∷ [])
        (codes "hi")
        there
        (some back)
        node_addr
build_onions-eq-groups_example =
    build_onions-eq-groups toy (λ i. fresh_toy) (λ i. fresh_toy) (λ i. i ∷ []) one_key key_of_all
      (codes "hi") by_alice.route (some by_alice.return_route) node_addr (refl, (refl, tt))
      (refl, (refl, tt))
