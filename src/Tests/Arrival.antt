-- ===== src/Tests/Arrival.antt =====
-- Two hops that are ready to pass on an onion.
use dor.Base.{
  ℕ, zero, suc, ◌≡◌, refl, subst, inl, inr, true, none, some, List, [], ◌∷◌, ◌++◌, arith, nat_eq,
  Bytes, bytes_eq, get_elem?, All, IsMember, lookup, int_eq,
}
use dor.Strings.{join, codes, contains}
use dor.Model.Broadcast.{join_addresses}
use dor.Model.Broadcast.Addresses.{IsAddress}
use dor.Model.Node.{Env}
use dor.Model.Node.Reached.{IsUp}
use dor.Node.Super.{LayerGroup}
use dor.Node.Super.Delivery.{HopNode}
use dor.Node.Super.Arrival.{IsReady, IsListed}
use dor.Tests.Toy.{toy}
use dor.Tests.Handlers.{idle}

abbrev pub relay_group : LayerGroup ℕ
relay_group = record {
  addrs = codes "10.0.0.1:9000" ∷ codes "10.0.0.3:9002" ∷ [];
  pub_keys = 1 ∷ 4 ∷ [];
}

abbrev pub last_group : LayerGroup ℕ
last_group = record { addrs = codes "10.0.0.2:9001" ∷ []; pub_keys = 2 ∷ [] }

abbrev pub relay_then_last : List (LayerGroup ℕ)
relay_then_last = relay_group ∷ last_group ∷ []

abbrev relay_nacks : List Bytes
relay_nacks = codes "nack0" ∷ codes "nack1" ∷ []

abbrev pub reachable_env : Env
reachable_env = record { dial = λ k addr m. true; now = 5; draws = λ k. 0 }

-- The second member of the first group, and the recipient.
abbrev pub relay_hops : ℕ → HopNode toy
relay_hops zero = record {
  key = 4;
  env = reachable_env;
  run = record { node = idle; sent = []; replies = [] };
}
relay_hops (suc i) = record {
  key = 2;
  env = reachable_env;
  run = record { node = idle; sent = []; replies = [] };
}

pub hop_members :
    (i : ℕ) (g : LayerGroup ℕ)
    → get_elem? relay_then_last i ≡ some g
    → IsMember (toy.public_of (relay_hops i).key) g.pub_keys
hop_members zero g h =
    let same : relay_group ≡ g = cc in
    subst (λ (x : LayerGroup ℕ). IsMember 4 x.pub_keys) same (inr (inl refl))
hop_members (suc zero) g h =
    let same : last_group ≡ g = cc in
    subst (λ (x : LayerGroup ℕ). IsMember 2 x.pub_keys) same (inl refl)
hop_members (suc (suc i)) g h = cc

pub hop_reachable :
    (i : ℕ) (g : LayerGroup ℕ)
    → get_elem? relay_then_last (suc i) ≡ some g
    → (a : Bytes) × IsMember a g.addrs × IsUp (relay_hops i).env a
hop_reachable zero g h =
    let same : last_group ≡ g = cc in
    (
      codes "10.0.0.2:9001",
      subst (λ (x : LayerGroup ℕ). IsMember (codes "10.0.0.2:9001") x.addrs) same (inl refl),
      λ k m. refl,
    )
hop_reachable (suc i) g h = cc

pub hop_new : (i : ℕ) (id : Bytes) → lookup id (relay_hops i).run.node.seen_msgs ≡ none
unfolding lookup
hop_new zero id = refl
hop_new (suc i) id = refl

hops-IsReady : IsReady toy relay_then_last relay_nacks relay_hops
hops-IsReady = record {
  members = hop_members;
  reachable = hop_reachable;
  new_relay = λ i n0 n1 h0 h1. hop_new i (n0 ++ (b':' ∷ n1));
}

relay-IsAddress : IsAddress (codes "10.0.0.1:9000")
relay-IsAddress = record {
  not_empty = λ e. ground arith;
  no_comma = omega arith;
  no_bar = omega arith;
  bytes = omega arith;
}

pub other_relay-IsAddress : IsAddress (codes "10.0.0.3:9002")
other_relay-IsAddress = record {
  not_empty = λ e. ground arith;
  no_comma = omega arith;
  no_bar = omega arith;
  bytes = omega arith;
}

recipient-IsAddress : IsAddress (codes "10.0.0.2:9001")
recipient-IsAddress = record {
  not_empty = λ e. ground arith;
  no_comma = omega arith;
  no_bar = omega arith;
  bytes = omega arith;
}

pub relay-IsListed : All (IsListed toy) relay_then_last
unfolding join_addresses join contains
relay-IsListed = (
  ((relay-IsAddress, (other_relay-IsAddress, tt)), refl),
  (((recipient-IsAddress, tt), refl), tt),
)
