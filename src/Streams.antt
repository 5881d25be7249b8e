-- ===== src/Streams.antt =====
-- The event streams of node_server/node/web.go (`logBroker`, for log lines) and dashboard/main.go
-- (`clients`, for telemetry events): a set of channels, one for each open page, and a writer that
-- offers each item to all of them and never waits. A channel is known by the number of its
-- allocation. Each function that is a step runs with the mutex of the set held.
pub mod Delivery
pub mod Dashboard
use dor.Base.{
  ℕ, suc, none, some, List, [], ◌∷◌, ◌++◌, ltb, if◌then◌else◌, nat_eq, bytes_eq, length, Dict,
  lookup, insert, delete, int_eq,
}

-- The buffer of a channel, and the items that the handler of the page took from it and wrote, each
-- as a `data:` line: how an item is rendered is left out.
pub record Stream (A : Type 0) : Type 0 where
  pub buffer : List A
  pub written : List A

pub record Hub (A : Type 0) : Type 0 where
  pub next : ℕ
  pub subs : Dict ℕ (Stream A)

abbrev pub broker_capacity : ℕ
broker_capacity = 256

abbrev pub clients_capacity : ℕ
clients_capacity = 64

module _ {A : Type 0} where
  -- `ch <- item` under a `select` with a default: a full buffer loses the item.
  unfoldable pub offer : ℕ → A → Stream A → Stream A
  offer capacity item s =
      if ltb (length s.buffer) capacity
      then record { buffer = s.buffer ++ (item ∷ []); written = s.written }
      else s

  unfoldable pub broadcast : ℕ → A → Dict ℕ (Stream A) → Dict ℕ (Stream A)
  broadcast capacity item [] = []
  broadcast capacity item ((ch, s) ∷ subs) =
      (ch, offer capacity item s) ∷ broadcast capacity item subs

  unfoldable pub subscribe : Hub A → Hub A
  subscribe hub = record {
    next = suc hub.next;
    subs = insert hub.next (record { buffer = []; written = [] }) hub.subs;
  }

  unfoldable pub unsubscribe : ℕ → Hub A → Hub A
  unsubscribe ch hub = record { next = hub.next; subs = delete ch hub.subs }

  -- `item := <-ch`, which waits while the buffer is empty, and the write of its lines.
  unfoldable pub write_item : Stream A → Stream A
  write_item s = elim s.buffer [
    | [] ↦ s
    | item ∷ rest ↦ record { buffer = rest; written = s.written ++ (item ∷ []) }
  ]

  unfoldable pub receive_item : ℕ → Hub A → Hub A
  receive_item ch hub = elim (lookup ch hub.subs) [
    | none ↦ hub
    | some s ↦ record { next = hub.next; subs = insert ch (write_item s) hub.subs }
  ]

  -- All that a page has or can still get.
  abbrev pub got : Stream A → List A
  got s = s.written ++ s.buffer

-- What can happen to the set: an item is published, a page opens, closes, or reads its channel.
pub data Act (A : Type 0) : Type 0 where
  published : A → Act A
  opened : Act A
  closed : ℕ → Act A
  read : ℕ → Act A

module _ {A : Type 0} where
  unfoldable pub hub_step : ℕ → Act A → Hub A → Hub A
  hub_step capacity (published item) hub = record {
    next = hub.next;
    subs = broadcast capacity item hub.subs;
  }
  hub_step capacity opened hub = subscribe hub
  hub_step capacity (closed ch) hub = unsubscribe ch hub
  hub_step capacity (read ch) hub = receive_item ch hub

  unfoldable pub run_hub : ℕ → List (Act A) → Hub A → Hub A
  run_hub capacity [] hub = hub
  run_hub capacity (e ∷ es) hub = run_hub capacity es (hub_step capacity e hub)

  -- The items that the events publish, in their order.
  unfoldable pub items : List (Act A) → List A
  items [] = []
  items (published item ∷ es) = item ∷ items es
  items (opened ∷ es) = items es
  items (closed ch ∷ es) = items es
  items (read ch ∷ es) = items es
