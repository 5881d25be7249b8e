-- ===== src/Tests/Pages.antt =====
-- The streams of the log and of the dashboard at concrete inputs.
use mathlib.Core.List.{Permᴰ}
use dor.Base.{
  ℕ, ◌≤◌, ◌≡◌, refl, none, some, List, [], ◌∷◌, ◌++◌, arith, nat_eq, bytes_eq, length, lookup,
  int_eq,
}
use dor.Streams.{
  Hub, Act, published, opened, closed, read, got, items, run_hub, subscribe, Stream,
  broker_capacity,
}
use dor.Streams.Delivery.{Kept, subscribe-Follows}
use dor.Streams.Dashboard.{
  handle_requests, Dashboard, Event, Request, handle_request, posted, page_opened, post, announced,
  announce, page_read, pick, visit, page_closed,
}
use dor.Strings.{codes}
use dor.Streams.Dashboard.Complete.{page-Perm}

abbrev one_page : Hub ℕ
one_page = record { next = 1; subs = (0, record { buffer = []; written = [] }) ∷ [] }

-- Two items, a page that leaves, and a read between.
abbrev visits : List (Act ℕ)
visits = published 7 ∷ opened ∷ read 1 ∷ published 8 ∷ closed 0 ∷ read 2 ∷ []

subscribe-Follows_example :
    (t : Stream ℕ) × (lookup 1 (run_hub broker_capacity visits (subscribe one_page)).subs ≡ some t)
    × Kept (got t) (items visits)
    × (length (items visits) ≤ broker_capacity → got t ≡ items visits)
subscribe-Follows_example =
    subscribe-Follows broker_capacity one_page visits ((λ e. omega arith), tt)

abbrev report : Event
report = record {
  from = codes "a:1";
  to = codes "b:2";
  type = codes "SEND";
  msg = codes "hi";
  ex_id = codes "x";
  ts = 0;
}

abbrev quiet_dashboard : Dashboard
quiet_dashboard = record {
  history = report ∷ [];
  pending = [];
  clients = record { next = 1; subs = [] };
}

-- Two POSTs whose second halves run in the other order, and one with a bad body.
abbrev requests : List Request
requests =
    posted (some report) 5
    ∷ posted none 6
    ∷ page_opened
    ∷ posted (some report) 7
    ∷ announced 1
    ∷ page_read 1
    ∷ announced 0
    ∷ page_closed 2
    ∷ []

page-Perm_example :
    (t : Stream Event) × (lookup 1
        (handle_requests requests (visit opened quiet_dashboard)).clients.subs
      ≡ some t)
    × Permᴰ
        (quiet_dashboard.history ++ got t)
        (handle_requests requests (visit opened quiet_dashboard)).history
unfolding handle_requests handle_request post announce pick
page-Perm_example =
    page-Perm quiet_dashboard requests refl refl ((λ e. omega arith), tt) (omega arith)
