-- ===== src/Streams/Delivery.antt =====
-- What the page of one channel gets (node_server/node/web.go, dashboard/main.go).
use dor.Base.{
  ℕ, ◌+◌, ◌≤◌, ◌<◌, ◌≡◌, refl, sym, ap, ◌∙◌, subst, ◌≢◌, inl, inr, true, false, some, List, [], ◌∷◌,
  ◌++◌, append_assoc, append-nil, arith, ltb, if◌then◌else◌, Bool-cases, Option-cases, ◌==◌, nat_eq,
  bytes_eq, length, length-append, Dict, lookup, lookup-insert, lookup-delete, int_eq,
}
use dor.Streams.{
  Stream, Hub, offer, broadcast, subscribe, unsubscribe, write_item, receive_item, got, Act,
  published, opened, closed, read, hub_step, run_hub, items,
}

-- The first list is the second with some items left out.
pub data Kept {A : Type 0} : List A → List A → Type 0 where
  done : Kept [] []
  keep : {xs ys : List A} (x : A) → Kept xs ys → Kept (x ∷ xs) (x ∷ ys)
  lose : {xs ys : List A} (x : A) → Kept xs ys → Kept xs (x ∷ ys)

module _ {A : Type 0} where
  -- No event closes the channel.
  abbrev pub StaysOpen : ℕ → List (Act A) → Type 0
  StaysOpen ch [] = Unit
  StaysOpen ch (published item ∷ es) = StaysOpen ch es
  StaysOpen ch (opened ∷ es) = StaysOpen ch es
  StaysOpen ch (closed other ∷ es) = (other ≢ ch) × StaysOpen ch es
  StaysOpen ch (read other ∷ es) = StaysOpen ch es

  lookup-broadcast :
      (capacity ch : ℕ) (item : A) (s : Stream A) (subs : Dict ℕ (Stream A))
      → lookup ch subs ≡ some s
      → lookup ch (broadcast capacity item subs) ≡ some (offer capacity item s)
  unfolding lookup broadcast
  lookup-broadcast capacity ch item s [] h = ground (arith, h)
  lookup-broadcast capacity ch item s ((other, t) ∷ subs) h =
      ground (arith, h, lookup-broadcast capacity ch item s subs)

  -- What a stream that starts with `s` has got of the items when it is `t`.
  abbrev pub Gets : ℕ → List A → Stream A → Stream A → Type 0
  Gets capacity xs s t =
      (kept : List A) × (got t ≡ got s ++ kept)
      × Kept kept xs
      × (length s.buffer + length xs ≤ capacity → kept ≡ xs)

  got-write_item : (b w : List A) → got (write_item (record { buffer = b; written = w })) ≡ w ++ b
  unfolding write_item
  got-write_item [] w = refl
  got-write_item (item ∷ b) w = append_assoc w (item ∷ []) b

  length-write_item :
      (b w : List A) → length (write_item (record { buffer = b; written = w })).buffer ≤ length b
  unfolding write_item
  length-write_item [] w = omega arith
  length-write_item (item ∷ b) w = omega arith

  Gets-write_item :
      (capacity : ℕ) (xs : List A) (s t : Stream A)
      → Gets capacity xs (write_item s) t
      → Gets capacity xs s t
  Gets-write_item capacity xs s t (kept, g, k, all) =
      let shorter = length-write_item s.buffer s.written in
      (
        kept,
        g ∙ ap (λ ys. ys ++ kept) (got-write_item s.buffer s.written),
        k,
        λ room. all (omega arith),
      )

  offer_room :
      (capacity : ℕ) (item : A) (s : Stream A)
      → ltb (length s.buffer) capacity ≡ true
      → offer capacity item s ≡ record { buffer = s.buffer ++ (item ∷ []); written = s.written }
  unfolding offer
  offer_room capacity item s h = rw h refl

  offer_full :
      (capacity : ℕ) (item : A) (s : Stream A)
      → ltb (length s.buffer) capacity ≡ false
      → offer capacity item s ≡ s
  unfolding offer
  offer_full capacity item s h = rw h refl

  Gets-room :
      (capacity : ℕ) (item : A) (xs : List A) (s t : Stream A)
      → Gets capacity xs (record { buffer = s.buffer ++ (item ∷ []); written = s.written }) t
      → Gets capacity (item ∷ xs) s t
  Gets-room capacity item xs s t (kept, g, k, all) =
      let longer = length-append s.buffer (item ∷ []) in
      (
        item ∷ kept,
        g
            ∙ ap (λ ys. ys ++ kept) (sym (append_assoc s.written s.buffer (item ∷ [])))
            ∙ append_assoc (got s) (item ∷ []) kept,
        keep item k,
        λ room. ap (λ ys. item ∷ ys) (all (omega arith)),
      )

  Gets-full :
      (capacity : ℕ) (item : A) (xs : List A) (s t : Stream A)
      → ltb (length s.buffer) capacity ≡ false
      → Gets capacity xs s t
      → Gets capacity (item ∷ xs) s t
  Gets-full capacity item xs s t full (kept, g, k, all) =
      (kept, g, lose item k, λ room. ground (arith, full, room))

  Gets-offer :
      (capacity : ℕ) (item : A) (xs : List A) (s t : Stream A)
      → Gets capacity xs (offer capacity item s) t
      → Gets capacity (item ∷ xs) s t
  Gets-offer capacity item xs s t g = elim (Bool-cases (ltb (length s.buffer) capacity)) [
    | inl h ↦
        Gets-room capacity item xs s t
          (subst (λ u. Gets capacity xs u t) (offer_room capacity item s h) g)
    | inr h ↦
        Gets-full capacity item xs s t h
          (subst (λ u. Gets capacity xs u t) (offer_full capacity item s h) g)
  ]

  receive_item-next : (other : ℕ) (hub : Hub A) → (receive_item other hub).next ≡ hub.next
  unfolding receive_item
  receive_item-next other hub = elim (Option-cases (lookup other hub.subs)) [
    | inl h ↦ ground (arith, h)
    | inr (s, h) ↦ ground (arith, h)
  ]

  lookup-receive_item :
      (ch other : ℕ) (s : Stream A) (hub : Hub A)
      → lookup ch hub.subs ≡ some s
      → lookup ch (receive_item other hub).subs
        ≡ (if other == ch then some (write_item s) else some s)
  unfolding receive_item
  lookup-receive_item ch other s hub h = elim (Option-cases (lookup other hub.subs)) [
    | inl k ↦ ground (arith, h, k)
    | inr (r, k) ↦ ground (arith, h, k, lookup-insert other ch (write_item r) hub.subs)
  ]

  -- A stream that is in the set before some events.
  abbrev pub Follows : ℕ → ℕ → Stream A → List (Act A) → Hub A → Type 0
  Follows capacity ch s es hub =
      (t : Stream A) × (lookup ch (run_hub capacity es hub).subs ≡ some t)
      × Gets capacity (items es) s t

  stream-Follows :
      (capacity ch : ℕ) (s : Stream A) (es : List (Act A)) (hub : Hub A)
      → ch < hub.next
      → StaysOpen ch es
      → lookup ch hub.subs ≡ some s
      → Follows capacity ch s es hub
  unfolding run_hub hub_step items subscribe unsubscribe
  stream-Follows capacity ch s [] hub old stays h =
      (s, h, ([], sym (append-nil (got s)), done, λ room. refl))
  stream-Follows capacity ch s (published item ∷ es) hub old stays h =
      let (t, found, gets) =
        stream-Follows capacity ch (offer capacity item s) es
          (hub_step capacity (published item) hub) old stays
          (lookup-broadcast capacity ch item s hub.subs h) in
      (t, found, Gets-offer capacity item (items es) s t gets)
  stream-Follows capacity ch s (opened ∷ es) hub old stays h =
      stream-Follows capacity ch s es (subscribe hub) (omega arith) stays (
        ground
          (arith, h, lookup-insert hub.next ch (record { buffer = []; written = [] }) hub.subs))
  stream-Follows capacity ch s (closed other ∷ es) hub old (ne, stays) h =
      stream-Follows capacity ch s es (unsubscribe other hub) old stays
        (ground (arith, h, ne, lookup-delete other ch hub.subs))
  stream-Follows capacity ch s (read other ∷ es) hub old stays h =
      let older = receive_item-next other hub in
      let here = lookup-receive_item ch other s hub h in
      elim (Bool-cases (other == ch)) [
        | inl e ↦
            let (t, found, gets) =
              stream-Follows capacity ch (write_item s) es (receive_item other hub) (omega arith)
                stays (ground (arith, here, e)) in
            (t, found, Gets-write_item capacity (items es) s t gets)
        | inr e ↦
            stream-Follows capacity ch s es (receive_item other hub) (omega arith) stays
              (ground (arith, here, e))
      ]

  -- What a page has written since it opened, followed by what its buffer holds, are items that
  -- were published since, in their order and each once, while nothing closes its channel, whatever
  -- other pages do and however slowly they read. They are all of the items if these are no more
  -- than the buffer has room for.
  pub subscribe-Follows :
      (capacity : ℕ) (hub : Hub A) (es : List (Act A))
      → StaysOpen hub.next es
      → (t : Stream A) × (lookup hub.next (run_hub capacity es (subscribe hub)).subs ≡ some t)
        × Kept (got t) (items es)
        × (length (items es) ≤ capacity → got t ≡ items es)
  unfolding subscribe
  subscribe-Follows capacity hub es stays =
      let (t, found, (kept, g, k, all)) =
        stream-Follows capacity hub.next (record { buffer = []; written = [] }) es (subscribe hub)
          (omega arith) stays
          (ground (
            arith,
            lookup-insert hub.next hub.next (record { buffer = []; written = [] }) hub.subs,
          )) in
      (t, found, subst (λ ys. Kept ys (items es)) (sym g) k, λ room. g ∙ all (omega arith))
