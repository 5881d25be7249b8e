-- ===== src/Streams/Dashboard/Complete.antt =====
-- The history of dashboard/main.go, against what its streams get.
use dor.Base.{
  ℕ, zero, suc, ◌≤◌, ◌≡◌, refl, sym, ap, ◌∙◌, subst, Option, none, some, List, [], ◌∷◌, ◌++◌,
  append_assoc, append-nil, arith, nat_eq, bytes_eq, length, length-Permᴰ, lookup, int_eq,
}
use dor.Streams.{
  Act, run_hub, clients_capacity, published, items, Hub, opened, hub_step, Stream, got, closed,
  read,
}
use dor.Streams.Delivery.{StaysOpen, subscribe-Follows}
use dor.Streams.Dashboard.{
  handle_request, handle_requests, post, pick, Dashboard, Request, announce, Event, add_front,
  visit, posted, announced, stamped, page_closed, page_opened, page_read,
}
use mathlib.Core.List.Permᴰ
use mathlib.Core.List.{Permᴰ}

-- The events that the POSTs append.
abbrev pub appended : List Request → List Event
appended [] = []
appended (posted none now ∷ rs) = appended rs
appended (posted (some ev) now ∷ rs) = stamped now ev ∷ appended rs
appended (announced i ∷ rs) = appended rs
appended (page_opened ∷ rs) = appended rs
appended (page_closed ch ∷ rs) = appended rs
appended (page_read ch ∷ rs) = appended rs

-- What the requests do to the set of streams.
abbrev pub picked_act : Option (Event × List Event) → List (Act Event)
picked_act none = []
picked_act (some (ev, rest)) = published ev ∷ []

abbrev pub request_acts : Request → Dashboard → List (Act Event)
request_acts (posted body now) d = []
request_acts (announced i) d = picked_act (pick i d.pending)
request_acts page_opened d = opened ∷ []
request_acts (page_closed ch) d = closed ch ∷ []
request_acts (page_read ch) d = read ch ∷ []

abbrev pub acts : List Request → Dashboard → List (Act Event)
acts [] d = []
acts (r ∷ rs) d = request_acts r d ++ acts rs (handle_request r d)

announce-history :
    (o : Option (Event × List Event)) (d : Dashboard) → (announce o d).history ≡ d.history
unfolding announce
announce-history none d = refl
announce-history (some x) d = refl

history_appended :
    (rs : List Request) (d : Dashboard) → (handle_requests rs d).history ≡ d.history ++ appended rs
unfolding handle_requests handle_request post
history_appended [] d = sym (append-nil d.history)
history_appended (posted none now ∷ rs) d = history_appended rs d
history_appended (posted (some ev) now ∷ rs) d =
    history_appended rs (post (some ev) now d)
    ∙ append_assoc d.history (stamped now ev ∷ []) (appended rs)
history_appended (announced i ∷ rs) d =
    history_appended rs (announce (pick i d.pending) d)
    ∙ ap (λ ys. ys ++ appended rs) (announce-history (pick i d.pending) d)
history_appended (page_opened ∷ rs) d = history_appended rs (visit opened d)
history_appended (page_closed ch ∷ rs) d = history_appended rs (visit (closed ch) d)
history_appended (page_read ch ∷ rs) d = history_appended rs (visit (read ch) d)

-- The set of streams after the acts of some requests.
announce-clients :
    (o : Option (Event × List Event)) (d : Dashboard)
    → (announce o d).clients ≡ run_hub clients_capacity (picked_act o) d.clients
unfolding announce run_hub
announce-clients none d = refl
announce-clients (some x) d = refl

run_hub-append :
    (xs ys : List (Act Event)) (hub : Hub Event)
    → run_hub clients_capacity (xs ++ ys) hub
      ≡ run_hub clients_capacity ys (run_hub clients_capacity xs hub)
unfolding run_hub
run_hub-append [] ys hub = refl
run_hub-append (x ∷ xs) ys hub = run_hub-append xs ys (hub_step clients_capacity x hub)

handle_request-clients :
    (r : Request) (d : Dashboard)
    → (handle_request r d).clients ≡ run_hub clients_capacity (request_acts r d) d.clients
unfolding handle_request post run_hub
handle_request-clients (posted none now) d = refl
handle_request-clients (posted (some ev) now) d = refl
handle_request-clients (announced i) d = announce-clients (pick i d.pending) d
handle_request-clients page_opened d = refl
handle_request-clients (page_closed ch) d = refl
handle_request-clients (page_read ch) d = refl

clients_acts :
    (rs : List Request) (d : Dashboard)
    → (handle_requests rs d).clients ≡ run_hub clients_capacity (acts rs d) d.clients
unfolding handle_requests run_hub
clients_acts [] d = refl
clients_acts (r ∷ rs) d =
    clients_acts rs (handle_request r d)
    ∙ ap (run_hub clients_capacity (acts rs (handle_request r d))) (handle_request-clients r d)
    ∙ sym (run_hub-append (request_acts r d) (acts rs (handle_request r d)) d.clients)

-- Appended events, pending events and published ones.
abbrev Picks : Option (Event × List Event) → List Event → Type 0
Picks none xs = Unit
Picks (some (x, rest)) xs = Permᴰ (x ∷ rest) xs

add_front-Perm :
    (x : Event) (xs : List Event) (o : Option (Event × List Event))
    → Picks o xs
    → Picks (add_front x o) (x ∷ xs)
add_front-Perm x xs none h = h
add_front-Perm x xs (some (y, rest)) h = Permᴰ.trans (Permᴰ.swap refl refl) (Permᴰ.cons refl h)

pick-Perm : (i : ℕ) (xs : List Event) → Picks (pick i xs) xs
unfolding pick
pick-Perm i [] = tt
pick-Perm zero (x ∷ xs) = Permᴰ.refl (x ∷ xs)
pick-Perm (suc i) (x ∷ xs) = add_front-Perm x xs (pick i xs) (pick-Perm i xs)

-- Published and still pending events are those that were pending and those that came.
abbrev Balanced : List Request → Dashboard → Type 0
Balanced rs d =
    Permᴰ (items (acts rs d) ++ (handle_requests rs d).pending) (d.pending ++ appended rs)

announce-Balanced :
    (rs : List Request) (o : Option (Event × List Event)) (d : Dashboard)
    → Picks o d.pending
    → Balanced rs (announce o d)
    → Permᴰ
        (items (picked_act o ++ acts rs (announce o d))
          ++ (handle_requests rs (announce o d)).pending)
        (d.pending ++ appended rs)
unfolding announce items
announce-Balanced rs none d h b = b
announce-Balanced rs (some (ev, rest)) d h b =
    Permᴰ.trans (Permᴰ.cons refl b) (Permᴰ.append_right (appended rs) h)

balanced : (rs : List Request) (d : Dashboard) → Balanced rs d
unfolding handle_requests handle_request post items
balanced [] d = subst (λ ys. Permᴰ d.pending ys) (sym (append-nil d.pending)) (Permᴰ.refl d.pending)
balanced (posted none now ∷ rs) d = balanced rs d
balanced (posted (some ev) now ∷ rs) d =
    subst
      (λ ys.
        Permᴰ
          (items (acts rs (post (some ev) now d))
            ++ (handle_requests rs (post (some ev) now d)).pending)
          ys)
      (append_assoc d.pending (stamped now ev ∷ []) (appended rs))
      (balanced rs (post (some ev) now d))
balanced (announced i ∷ rs) d =
    announce-Balanced rs (pick i d.pending) d (pick-Perm i d.pending)
      (balanced rs (announce (pick i d.pending) d))
balanced (page_opened ∷ rs) d = balanced rs (visit opened d)
balanced (page_closed ch ∷ rs) d = balanced rs (visit (closed ch) d)
balanced (page_read ch ∷ rs) d = balanced rs (visit (read ch) d)

items-Perm :
    (rs : List Request) (d : Dashboard)
    → d.pending ≡ []
    → (handle_requests rs d).pending ≡ []
    → Permᴰ (items (acts rs d)) (appended rs)
items-Perm rs d quiet settled =
    subst (λ ys. Permᴰ (items (acts rs d)) (ys ++ appended rs)) quiet
      (subst (λ ys. Permᴰ ys (d.pending ++ appended rs))
        (ap (λ ys. items (acts rs d) ++ ys) settled ∙ append-nil (items (acts rs d)))
        (balanced rs d))

-- While no POST is pending when a page opens the stream nor at the end, nothing closes the page's
-- channel in between, and no more events came than the buffer holds: the history at the opening
-- and what the page's channel took since, written to the page or still in its buffer, are the
-- history, up to the order.
pub page-Perm :
    (d : Dashboard) (rs : List Request)
    → d.pending ≡ []
    → (handle_requests rs (visit opened d)).pending ≡ []
    → StaysOpen d.clients.next (acts rs (visit opened d))
    → length (appended rs) ≤ clients_capacity
    → (t : Stream Event) × (lookup d.clients.next (handle_requests rs (visit opened d)).clients.subs
        ≡ some t)
      × Permᴰ (d.history ++ got t) (handle_requests rs (visit opened d)).history
unfolding hub_step
page-Perm d rs quiet settled stays room =
    let d_open = visit opened d in
    let same = items-Perm rs d_open quiet settled in
    let same_length = length-Permᴰ same in
    let (t, found, kept, all) =
      subscribe-Follows clients_capacity d.clients (acts rs d_open) stays in
    (
      t,
      ap (λ hub. lookup d.clients.next hub.subs) (clients_acts rs d_open) ∙ found,
      subst (λ ys. Permᴰ (d.history ++ got t) ys) (sym (history_appended rs d_open))
          (Permᴰ.append_left d.history
            (subst (λ ys. Permᴰ ys (appended rs)) (sym (all (omega arith))) same)),
    )
