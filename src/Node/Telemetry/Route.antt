-- ===== src/Node/Telemetry/Route.antt =====
-- The reports of the way out, read as a path.
use dor.Base.{ℕ, suc, ◌+◌, ◌≡◌, refl, ap, ◌∙◌, List, [], ◌∷◌, ◌++◌, map, arith, Bytes, All, ok}
use dor.Node.Telemetry.{TelEvent, relay_reports, forward_reports}

-- `i`, `i + 1`, …, as many as the route has hops.
abbrev pub count_from : ℕ → List Bytes → List ℕ
count_from i [] = []
count_from i (a ∷ route) = i ∷ count_from (suc i) route

abbrev pub IsPath : Bytes → Bytes → List Bytes → Bytes → ℕ → List TelEvent → Type 0
IsPath ex_id start relays dest i events =
    (map TelEvent.from events ≡ start ∷ relays)
    × (map TelEvent.to events ≡ relays ++ (dest ∷ []))
    × (map TelEvent.hop events ≡ count_from i (relays ++ (dest ∷ [])))
    × All (λ e. e.ex_id ≡ ex_id) events

relay_reports-IsPath :
    (ex_id : Bytes) (i : ℕ) (a : Bytes) (relays : List Bytes) (dest : Bytes)
    → IsPath ex_id a relays dest (i + 2) (relay_reports ex_id i (a ∷ (relays ++ (dest ∷ []))))
unfolding relay_reports
relay_reports-IsPath ex_id i a [] dest = (refl, refl, refl, (refl, tt))
relay_reports-IsPath ex_id i a (b ∷ relays) dest =
    let (froms, tos, hops, ids) = relay_reports-IsPath ex_id (suc i) b relays dest in
    (
      ap (λ t. a ∷ t) froms,
      ap (λ t. b ∷ t) tos,
      ap (λ t. (i + 2) ∷ t) (hops ∙ ap (λ k. count_from k (relays ++ (dest ∷ []))) (omega arith)),
      (refl, ids),
    )

-- For a route that ends at the destination, the reports are a path: they come from the sender and
-- from each relay in turn, they go to each relay in turn and to the destination, they are numbered
-- from 1, and all carry the identifier of the message. Whoever reads them knows both ends
-- and every relay.
pub forward_reports-IsPath :
    (type node_addr message ex_id : Bytes) (relays : List Bytes) (dest : Bytes)
    → (events : List TelEvent) × (forward_reports type node_addr message ex_id
          (relays ++ (dest ∷ []))
        ≡ ok events)
      × IsPath ex_id node_addr relays dest 1 events
unfolding forward_reports
forward_reports-IsPath type node_addr message ex_id [] dest =
    (_, refl, (refl, refl, refl, (refl, tt)))
forward_reports-IsPath type node_addr message ex_id (a ∷ relays) dest =
    let (froms, tos, hops, ids) = relay_reports-IsPath ex_id 0 a relays dest in
    (
      _,
      refl,
      (
        ap (λ t. node_addr ∷ t) froms,
        ap (λ t. a ∷ t) tos,
        ap (λ t. 1 ∷ t) (hops ∙ ap (λ k. count_from k (relays ++ (dest ∷ []))) (omega arith)),
        (refl, ids),
      ),
    )
