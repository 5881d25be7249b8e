-- ===== src/Tests/EndToEnd.antt =====
-- A send over three groups, which is acknowledged.
use dor.Base.{
  ℕ, zero, suc, ◌≡◌, refl, ap, subst, inl, inr, Bool, true, false, some, List, [], ◌∷◌, ◌++◌,
  reverse, arith, ltb, nat_eq, Bytes, bytes_eq, length, All, All-get_elem?, IsMember, lookup,
  insert, ok, ◌+ℤ◌, int_eq, pos,
}
use dor.Strings.{
  nat_text, itoa, atoi, split, split_max, join, codes, trim_prefix, contains, is_space, trim_space,
}
use dor.Model.Layer.{generate_msg_id}
use dor.Model.Broadcast.{join_addresses}
use dor.Model.Broadcast.Addresses.{IsAddress}
use dor.Model.Node.{Node, Run, finished}
use dor.Model.Handler.{handle_onion}
use dor.Model.Handler.Tells.{IsHopeful, handle_onion-IsHopeful}
use dor.Node.Send.{register, Sender}
use dor.Node.Super.{LayerGroup}
use dor.Node.Super.Delivery.{HopNode, Travels}
use dor.Node.Super.Arrival.{IsEndpoint, IsReady, IsListed}
use dor.Node.SendSuper.{
  acknowledged, SuperWorld, single, take_candidates, raise_hops, first_addrs, send_with_retry_super,
}
use dor.Model.Node.Reached.{Reached}
use dor.Node.Super.Answer.{Answers, IsTold}
use dor.Node.SendSuper.EndToEnd.{send_with_retry_super-Acknowledged}
use dor.Tests.Toy.{toy, toy_laws, fresh_toy-IsFresh}
use dor.Tests.Handlers.{idle}
use dor.Tests.Arrival.{reachable_env}
use dor.Tests.Groups.{no_luck, group_at, three_relays, super_sender}
use dor.Directory.Table.{NodeInfo}
use dor.Node.Cluster.{
  build_smart_clusters, node_address, parse_public_key, pick_offset, total_score,
}
use dor.Node.KeyCache.{fetch_key_from_server, get, set as set_key}
use dor.Encoding.{decode}
use dor.Model.Shuffle.{swap}

-- Every node answers, and the channel gives what the handler puts in.
abbrev lucky : SuperWorld ℕ
lucky = record no_luck { ids = λ k i. i ∷ []; env = λ k. reachable_env; answer = λ k. some true }

abbrev relay_groups : List (LayerGroup ℕ)
relay_groups =
    group_at (codes "10.0.0.1:9000")
    ∷ group_at (codes "10.0.0.1:9001")
    ∷ group_at (codes "10.0.0.1:9002")
    ∷ []

abbrev dest_addr : Bytes
dest_addr = codes "10.0.0.1:9003"

abbrev node_addr : Bytes
node_addr = codes "10.0.0.1:9004"

abbrev there : List (LayerGroup ℕ)
there = relay_groups ++ single toy dest_addr 5 ∷ []

abbrev back : List (LayerGroup ℕ)
back = reverse relay_groups ++ single toy node_addr 5 ∷ []

abbrev sent_id : Bytes
sent_id = generate_msg_id [] (0 ∷ [])

-- The fourth node of the way back is the sender, as the send left it.
abbrev return_node : ℕ → Node
return_node (suc (suc (suc i))) = register sent_id (generate_msg_id (codes "nack") (1 ∷ [])) 0 idle
return_node i = idle

abbrev pub node_with : Node → HopNode toy
node_with n = record {
  key = 5;
  env = reachable_env;
  run = record { node = n; sent = []; replies = [] };
}

abbrev back_hops : ℕ → HopNode toy
back_hops i = node_with (return_node i)

pub node_with-IsReady :
    (route : List (LayerGroup ℕ)) (nacks : List Bytes) (nodes : ℕ → Node)
    → All (λ (g : LayerGroup ℕ). IsMember 5 g.pub_keys) route
    → All (λ (g : LayerGroup ℕ). (a : Bytes) × IsMember a g.addrs) route
    → ((i : ℕ) → (nodes i).seen_msgs ≡ [])
    → IsReady toy route nacks (λ i. node_with (nodes i))
node_with-IsReady route nacks nodes keys addrs unseen = record {
  members = λ i g at. All-get_elem? (λ (g : LayerGroup ℕ). IsMember 5 g.pub_keys) route i at keys;
  reachable = λ i g at.
      let (a, member) =
        All-get_elem? (λ (g : LayerGroup ℕ). (a : Bytes) × IsMember a g.addrs) route (suc i) at
          addrs in
      (a, member, λ k m. refl);
  new_relay = λ i n0 n1 h0 h1. rw (unseen i) (unfold lookup in refl);
}

return_node_new : (i : ℕ) → (return_node i).seen_msgs ≡ []
unfolding register
return_node_new zero = refl
return_node_new (suc zero) = refl
return_node_new (suc (suc zero)) = refl
return_node_new (suc (suc (suc i))) = refl

at_9000-IsAddress : IsAddress (codes "10.0.0.1:9000")
at_9000-IsAddress = record {
  not_empty = λ e. ground arith;
  no_comma = omega arith;
  no_bar = omega arith;
  bytes = omega arith;
}

at_9001-IsAddress : IsAddress (codes "10.0.0.1:9001")
at_9001-IsAddress = record {
  not_empty = λ e. ground arith;
  no_comma = omega arith;
  no_bar = omega arith;
  bytes = omega arith;
}

at_9002-IsAddress : IsAddress (codes "10.0.0.1:9002")
at_9002-IsAddress = record {
  not_empty = λ e. ground arith;
  no_comma = omega arith;
  no_bar = omega arith;
  bytes = omega arith;
}

relay_groups-IsListed : All (IsListed toy) relay_groups
unfolding join_addresses join contains
relay_groups-IsListed = (
  ((at_9000-IsAddress, tt), refl),
  (((at_9001-IsAddress, tt), refl), (((at_9002-IsAddress, tt), refl), tt)),
)

dest-IsEndpoint : IsEndpoint dest_addr
unfolding contains
dest-IsEndpoint = (
  record {
    not_empty = λ e. ground arith;
    no_comma = omega arith;
    no_bar = omega arith;
    bytes = omega arith;
  },
  refl,
)

own-IsEndpoint : IsEndpoint node_addr
unfolding contains
own-IsEndpoint = (
  record {
    not_empty = λ e. ground arith;
    no_comma = omega arith;
    no_bar = omega arith;
    bytes = omega arith;
  },
  refl,
)

-- Whatever onion the sender gets: a value in the channel is `true`.
sender_takes :
    (text : Bytes) (r : Run) (v : Bool)
    → handle_onion toy 5 reachable_env text (back_hops 3).run ≡ (finished, r)
    → r.node.channels 0 ≡ v ∷ []
    → some true ≡ some v
unfolding register
sender_takes text r v done told = by_case (
    subst (IsHopeful 0) (ap (λ p. p.1) done)
      (handle_onion-IsHopeful toy 5 reachable_env text 0 (back_hops 3).run refl))
  where
    by_case : IsHopeful 0 r → some true ≡ some v
    by_case (inl empty) = cc
    by_case (inr given) = cc

abbrev offered : List NodeInfo
offered =
    (take_candidates toy (lucky.now 0) 0 node_addr dest_addr
      (split (trim_prefix three_relays (codes "LIST:")) b',') super_sender.cache).0

enough : ltb (length offered) (raise_hops (pos 3)) ≡ false
unfolding take_candidates raise_hops split trim_prefix atoi node_address itoa nat_text
    parse_public_key decode get lookup set_key insert
enough = refl

clustered :
    build_smart_clusters toy
      (lucky.sort 0)
      (lucky.rolls 0)
      (lucky.draws 0)
      offered
      (raise_hops (pos 3))
      []
    ≡ ok (relay_groups, pos 330)
unfolding build_smart_clusters take_candidates raise_hops split trim_prefix atoi node_address itoa
    nat_text parse_public_key decode get lookup set_key insert swap pick_offset total_score ◌+ℤ◌
clustered = refl

fetched : fetch_key_from_server toy (lucky.exchange 0) dest_addr ≡ ok 5
unfolding fetch_key_from_server decode trim_space is_space split_max
fetched = refl

there_addrs : All (λ (g : LayerGroup ℕ). (a : Bytes) × IsMember a g.addrs) there
there_addrs = ((_, inl refl), ((_, inl refl), ((_, inl refl), ((_, inl refl), tt))))

back_addrs : All (λ (g : LayerGroup ℕ). (a : Bytes) × IsMember a g.addrs) back
back_addrs = ((_, inl refl), ((_, inl refl), ((_, inl refl), ((_, inl refl), tt))))

first_there : IsMember (codes "10.0.0.1:9000") (first_addrs toy there)
unfolding first_addrs
first_there = inl refl

first_back : IsMember (codes "10.0.0.1:9002") (first_addrs toy back)
unfolding first_addrs
first_back = inl refl

-- `SSEND` over three groups of one node each: alice, bob and carol carry the message to dave.
send_with_retry_super-Acknowledged_example :
    (text onion : Bytes) × (s' : Sender ℕ) × (send_with_retry_super toy lucky node_addr dest_addr
        (codes "hi")
        2
        0
        (pos 3)
        []
        super_sender
      ≡ (acknowledged 0, s'))
    × Reached text (first_addrs toy there) [] s'.sent
    × Travels toy there
        (λ i. node_with idle)
        (Answers toy (λ i. node_with idle) (codes "hi") (first_addrs toy back) onion)
        0
        text
    × Travels toy back back_hops (IsTold sent_id 0) 0 onion
send_with_retry_super-Acknowledged_example =
    send_with_retry_super-Acknowledged toy toy_laws lucky node_addr dest_addr (codes "hi") 1 0
      (pos 3) [] super_sender three_relays relay_groups (pos 330) 5 (λ i. node_with idle) back_hops
      (codes "10.0.0.1:9000") (λ i. fresh_toy-IsFresh) (λ i. fresh_toy-IsFresh) refl refl enough
      clustered fetched (omega arith) (omega arith) (omega arith) relay_groups-IsListed
      dest-IsEndpoint own-IsEndpoint (omega arith)
      (node_with-IsReady there _ (λ i. idle) (inl refl, (inl refl, (inl refl, (inl refl, tt))))
        there_addrs (λ i. refl))
      (node_with-IsReady back _ return_node (inl refl, (inl refl, (inl refl, (inl refl, tt))))
        back_addrs return_node_new)
      (unfold lookup in refl) (codes "10.0.0.1:9002", first_back, λ k m. refl) refl
      (first_there, λ k m. refl) sender_takes
