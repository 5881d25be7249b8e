-- ===== src/Model/Fragment/Reassembly.antt =====
-- The fragments of a message are put together in the right order, whatever order they come in.
use dor.Base.{
  ℕ, suc, ◌+◌, ◌<◌, ◌≡◌, refl, sym, ap, ◌∙◌, subst, ◌≢◌, ◌⊎◌, inl, inr, none, some, List, [], ◌∷◌,
  ◌++◌, arith, eq_refl, nat_eq, Bytes, bytes_eq, length, Dict, lookup, insert, lookup_cons,
  lookup-insert, lookup-delete, length-insert, int_eq, ℤ, pos,
}
use dor.Model.Node.{Node}
use dor.Model.Fragment.{assemble, deliver, place_fragment, store_fragment}
use dor.Model.Fragment.Order.{
  insert_all, number, Distinct, concat, Permᴰ-lookup, assemble-number, Distinct-number,
  lookup-insert_all, length-number,
}
use mathlib.Core.List.{Permᴰ}

-- What the node keeps of the message `f`: the buffer `buf`, which is not there when it is empty.
abbrev Holds : Bytes → ℕ → Dict ℤ Bytes → Node → Type 0
Holds f total buf n =
    ((lookup f n.frag_buf ≡ some buf) × (lookup f n.frag_total ≡ some (pos total)))
    ⊎ ((lookup f n.frag_buf ≡ none) × (buf ≡ []))

-- Nothing of the message is kept any more.
abbrev pub Forgets : Bytes → Node → Type 0
Forgets f n = (lookup f n.frag_buf ≡ none) × (lookup f n.frag_total ≡ none)

module _ (f : Bytes) (total : ℕ) (buf : Dict ℤ Bytes) (totals : Dict Bytes ℤ) (n : Node)
    (expected : lookup f totals ≡ some (pos total)) where
  place_more :
      length buf < total
      → Holds f total buf (place_fragment f (pos total) buf totals n)
        × ((place_fragment f (pos total) buf totals n).received_msgs ≡ n.received_msgs)
  unfolding place_fragment
  place_more more =
      rw expected (ground (arith, lookup-insert f f buf n.frag_buf, eq_refl f, expected))

  place_last :
      length buf ≡ total
      → Forgets f (place_fragment f (pos total) buf totals n)
        × ((place_fragment f (pos total) buf totals n).received_msgs
            ≡ n.received_msgs ++ assemble buf 1 total ∷ [])
  unfolding place_fragment deliver
  place_last end = ground (
    arith,
    expected,
    eq_refl f,
    lookup-delete f f totals,
    lookup-delete f f (insert f buf n.frag_buf),
  )

-- A fragment is placed into what the node holds.
store_placed :
    (f : Bytes) (total i : ℕ) (c : Bytes) (buf : Dict ℤ Bytes) (n : Node)
    → Holds f total buf n
    → (totals : Dict Bytes ℤ) × (store_fragment f (pos i) (pos total) c n
        ≡ place_fragment f (pos total) (insert (pos i) c buf) totals n)
      × (lookup f totals ≡ some (pos total))
unfolding store_fragment
store_placed f total i c buf n (inl (e, t)) = (n.frag_total, ground arith, t)
store_placed f total i c buf n (inr (e, nil)) = (
  insert f (pos total) n.frag_total,
  ground arith,
  ground (arith, lookup-insert f f (pos total) n.frag_total, eq_refl f),
)

-- The fragments of one message arrive one after the other.
unfoldable pub receive_all : Bytes → ℕ → Dict ℕ Bytes → Node → Node
receive_all f total [] n = n
receive_all f total ((i, c) ∷ ds) n =
    receive_all f total ds (store_fragment f (pos i) (pos total) c n)

-- No index of the list is in the buffer.
abbrev Unused : Dict ℤ Bytes → Dict ℕ Bytes → Type 0
Unused buf ds = (j : ℕ) (c : Bytes) → lookup j ds ≡ some c → lookup (pos j) buf ≡ none

Unused-insert :
    (buf : Dict ℤ Bytes) (i : ℕ) (c : Bytes) (ds : Dict ℕ Bytes)
    → lookup i ds ≡ none
    → Unused buf ((i, c) ∷ ds)
    → Unused (insert (pos i) c buf) ds
Unused-insert buf i c ds new h j d e =
    ground (arith, lookup-insert (pos i) (pos j) c buf, h j d, lookup_cons i j c ds)

length-insert_new :
    (buf : Dict ℤ Bytes) (i : ℕ) (c : Bytes)
    → lookup (pos i) buf ≡ none
    → length (insert (pos i) c buf) ≡ suc (length buf)
length-insert_new buf i c h = ground (arith, length-insert (pos i) c buf)

-- The node `m` has nothing more of the message `f`, which `n` has received as `text`.
abbrev pub Completed : Bytes → Bytes → Node → Node → Type 0
Completed f text n m = Forgets f m × (m.received_msgs ≡ n.received_msgs ++ text ∷ [])

receive_rest :
    (f : Bytes) (total : ℕ) (d : ℕ × Bytes) (ds : Dict ℕ Bytes) (buf : Dict ℤ Bytes) (n : Node)
    → Holds f total buf n
    → Distinct (d ∷ ds)
    → Unused buf (d ∷ ds)
    → length buf + suc (length ds) ≡ total
    → Completed f (assemble (insert_all (d ∷ ds) buf) 1 total) n (receive_all f total (d ∷ ds) n)
unfolding receive_all insert_all
receive_rest f total (i, c) [] buf n holds (new, distinct) unused count =
    let (totals, placed, expected) = store_placed f total i c buf n holds in
    let fits = length-insert_new buf i c (unused i c (ground (arith, lookup_cons i i c []))) in
    subst (Completed f (assemble (insert (pos i) c buf) 1 total) n) (sym placed)
      (place_last f total (insert (pos i) c buf) totals n expected (omega (arith, fits)))
receive_rest f total (i, c) (d ∷ ds) buf n holds (new, distinct) unused count =
    let (totals, placed, expected) = store_placed f total i c buf n holds in
    let buf' = insert (pos i) c buf in
    let fits =
      length-insert_new buf i c (unused i c (ground (arith, lookup_cons i i c (d ∷ ds)))) in
    let n' = place_fragment f (pos total) buf' totals n in
    let (holds', same) = place_more f total buf' totals n expected (omega (arith, fits)) in
    let text = assemble (insert_all (d ∷ ds) buf') 1 total in
    let (forgets, received) =
      receive_rest f total d ds buf' n' holds' distinct (Unused-insert buf i c (d ∷ ds) new unused)
        (omega (arith, fits)) in
    subst (λ m. Completed f text n (receive_all f total (d ∷ ds) m)) (sym placed)
      (forgets, received ∙ ap (λ msgs. msgs ++ text ∷ []) same)

insert_all-concat :
    (chunks : List Bytes) (ds : Dict ℕ Bytes)
    → Distinct ds
    → ((j : ℕ) → lookup j ds ≡ lookup j (number 1 chunks))
    → assemble (insert_all ds []) 1 (length chunks) ≡ concat chunks
insert_all-concat chunks ds distinct same =
    assemble-number chunks 1 (insert_all ds [])
      λ j after. lookup-insert_all ds [] j distinct ∙ unfold lookup in ground (arith, same j)

-- The fragments of a message, numbered from 1 and received in any order by a node that holds
-- nothing of this message, are delivered as the one message that they make up; nothing of them is
-- kept, and nothing else is delivered.
pub receive_all-Permᴰ :
    (f : Bytes) (chunks : List Bytes) (ds : Dict ℕ Bytes) (n : Node)
    → chunks ≢ []
    → Permᴰ (number 1 chunks) ds
    → lookup f n.frag_buf ≡ none
    → Completed f (concat chunks) n (receive_all f (length chunks) ds n)
receive_all-Permᴰ f [] ds n some_chunk order fresh = absurd (some_chunk refl)
receive_all-Permᴰ f (c ∷ cs) [] n some_chunk order fresh =
    let (_, _, count) = Permᴰ-lookup order (Distinct-number 1 (c ∷ cs)) in
    absurd (omega (arith, count))
receive_all-Permᴰ f (c ∷ cs) (d ∷ ds) n some_chunk order fresh =
    let (distinct, same, count) = Permᴰ-lookup order (Distinct-number 1 (c ∷ cs)) in
    let total = length (c ∷ cs) in
    subst (λ text. Completed f text n (receive_all f total (d ∷ ds) n))
      (insert_all-concat (c ∷ cs) (d ∷ ds) distinct same)
      (receive_rest f total d ds [] n (inr (fresh, refl)) distinct (λ j x e. unfold lookup in refl)
        (omega (arith, count, length-number 1 (c ∷ cs))))
