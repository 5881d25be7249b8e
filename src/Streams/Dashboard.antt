-- ===== src/Streams/Dashboard.antt =====
-- dashboard/main.go: the events that the nodes report, kept in `history` and offered to the pages. A
-- POST to /telemetry appends its event under `histMutex` and broadcasts it under `mutex`: between the
-- two other requests can run, so an event is pending in between.
pub mod Complete
use dor.Base.{ℕ, zero, suc, Option, none, some, List, [], ◌∷◌, ◌++◌, Bytes}
use dor.Streams.{Hub, Act, published, opened, closed, read, hub_step, clients_capacity}

pub record Event : Type 0 where
  pub from : Bytes
  pub to : Bytes
  pub type : Bytes
  pub msg : Bytes
  pub ex_id : Bytes
  pub ts : ℕ

pub record Dashboard : Type 0 where
  pub history : List Event
  pub pending : List Event
  pub clients : Hub Event

abbrev pub stamped : ℕ → Event → Event
stamped now ev = record {
  from = ev.from;
  to = ev.to;
  type = ev.type;
  msg = ev.msg;
  ex_id = ev.ex_id;
  ts = now;
}

-- The first half of a POST: the body as it is decoded, or nothing.
unfoldable pub post : Option Event → ℕ → Dashboard → Dashboard
post none now d = d
post (some ev) now d = record {
  history = d.history ++ (stamped now ev ∷ []);
  pending = d.pending ++ (stamped now ev ∷ []);
  clients = d.clients;
}

abbrev pub add_front : Event → Option (Event × List Event) → Option (Event × List Event)
add_front x none = none
add_front x (some (y, rest)) = some (y, x ∷ rest)

-- The pending POST that runs on.
unfoldable pub pick : ℕ → List Event → Option (Event × List Event)
pick i [] = none
pick zero (x ∷ xs) = some (x, xs)
pick (suc i) (x ∷ xs) = add_front x (pick i xs)

-- The second half of a POST.
unfoldable pub announce : Option (Event × List Event) → Dashboard → Dashboard
announce none d = d
announce (some (ev, rest)) d = record {
  history = d.history;
  pending = rest;
  clients = hub_step clients_capacity (published ev) d.clients;
}

abbrev pub visit : Act Event → Dashboard → Dashboard
visit act d = record {
  history = d.history;
  pending = d.pending;
  clients = hub_step clients_capacity act d.clients;
}

-- The requests: the halves of a POST, and a page that opens /stream, leaves it, or reads it.
pub data Request : Type 0 where
  posted : Option Event → ℕ → Request
  announced : ℕ → Request
  page_opened : Request
  page_closed : ℕ → Request
  page_read : ℕ → Request

unfoldable pub handle_request : Request → Dashboard → Dashboard
handle_request (posted body now) d = post body now d
handle_request (announced i) d = announce (pick i d.pending) d
handle_request page_opened d = visit opened d
handle_request (page_closed ch) d = visit (closed ch) d
handle_request (page_read ch) d = visit (read ch) d

unfoldable pub handle_requests : List Request → Dashboard → Dashboard
handle_requests [] d = d
handle_requests (r ∷ rs) d = handle_requests rs (handle_request r d)
