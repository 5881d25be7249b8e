-- ===== src/Node/Fragments/Delivery.antt =====
-- The chunks of a message, and what a recipient makes of their fragments.
use dor.Base.{
  ℕ, zero, suc, ◌≤◌, ◌≡◌, refl, sym, ap, ◌∙◌, subst, ◌≢◌, inl, inr, none, [], ◌∷◌, ◌++◌, append-nil,
  arith, leb, Bool-cases, nat_eq, Bytes, bytes_eq, length, drop, length-take, length-drop,
  take-append-drop, All, Lacks, Dict, lookup, ok, int_eq, pos,
}
use dor.Strings.{itoa, split_max, split-field, split-single, split_max-field}
use dor.Strings.Decimal.RoundTrip.{IsInt64, atoi-itoa, itoa-Lacks}
use dor.Model.Layer.{OnionLayer}
use dor.Model.Node.{Node}
use dor.Model.Fragment.{frag_numbers, frag_fields, store_fragment, receive_fragment}
use dor.Model.Fragment.Order.{concat, number}
use dor.Model.Fragment.Reassembly.{Completed, receive_all, receive_all-Permᴰ}
use dor.Node.Fragments.{split_rounds, split_message, frag_text}
use mathlib.Core.List.{Permᴰ}

-- A chunk is not empty and not larger than `size`.
abbrev pub IsChunk : ℕ → Bytes → Type 0
IsChunk size c = (1 ≤ length c) × (length c ≤ size)

split_rounds_lem :
    (fuel : ℕ) (msg : Bytes) (size : ℕ)
    → 1 ≤ size
    → length msg ≤ fuel
    → (concat (split_rounds fuel msg size) ≡ msg) × All (IsChunk size) (split_rounds fuel msg size)
unfolding split_rounds
split_rounds_lem zero [] size pos_size enough = (refl, tt)
split_rounds_lem zero (b ∷ msg) size pos_size enough = absurd (omega (arith, enough))
split_rounds_lem (suc fuel) [] size pos_size enough = (refl, tt)
split_rounds_lem (suc fuel) (b ∷ msg) size pos_size enough =
    let (whole, chunks) =
      split_rounds_lem fuel (drop size (b ∷ msg)) size pos_size
        (omega (arith, enough, length-drop size (b ∷ msg))) in
    elim (Bool-cases (leb (length (b ∷ msg)) size)) [
      | inl e ↦ rw (e) (append-nil (b ∷ msg), (ground (arith, e), tt))
      | inr e ↦ rw (e) (
        rw (whole) (take-append-drop size (b ∷ msg)),
        (omega (arith, length-take size (b ∷ msg) (ground (arith, e)), pos_size), chunks),
      )
    ]

-- The chunks of a message, for a positive limit, make it up, and none is empty or larger than it.
pub split_message_lem :
    (msg : Bytes) (size : ℕ)
    → 1 ≤ size
    → (concat (split_message msg size) ≡ msg) × All (IsChunk size) (split_message msg size)
unfolding split_message
split_message_lem msg size pos_size = split_rounds_lem (length msg) msg size pos_size (omega arith)

frag_numbers_lem :
    (i total : ℕ)
    → IsInt64 (pos i)
    → IsInt64 (pos total)
    → frag_numbers (itoa (pos i) ++ b'/' ∷ itoa (pos total)) ≡ ok (pos i, pos total)
unfolding frag_numbers
frag_numbers_lem i total fit fits =
    rw (split-field b'/' (itoa (pos i)) (itoa (pos total)) (itoa-Lacks b'/' (pos i) (omega arith)))
      (rw (split-single b'/' (itoa (pos total)) (itoa-Lacks b'/' (pos total) (omega arith)))
        (rw (atoi-itoa (pos i) fit, atoi-itoa (pos total) fits) refl))

-- The field that the sender writes for a fragment, with an identifier without a colon and 64-bit
-- numbers, is read back by the recipient as the identifier, the number and the count, and the
-- fragment is stored under them.
pub receive_fragment-frag_text :
    (frag_id : Bytes) (i total : ℕ) (layer : OnionLayer) (n : Node)
    → Lacks b':' frag_id
    → IsInt64 (pos i)
    → IsInt64 (pos total)
    → layer.frag ≡ frag_text frag_id i total
    → receive_fragment layer n ≡ ok (store_fragment frag_id (pos i) (pos total) layer.message n)
unfolding receive_fragment frag_fields frag_text frag_numbers
receive_fragment-frag_text frag_id i total layer n no_colon fit fits e =
    rw (e, split_max-field b':' 0 frag_id _ no_colon)
      (unfold split_max in rw (frag_numbers_lem i total fit fits) refl)

-- A message that is not empty, that is cut into chunks of a positive size and whose fragments
-- arrive in any order, is delivered once, as it was sent, by a node that held nothing of it.
pub receive_all-split_message :
    (f msg : Bytes) (size : ℕ) (ds : Dict ℕ Bytes) (n : Node)
    → 1 ≤ size
    → msg ≢ []
    → Permᴰ (number 1 (split_message msg size)) ds
    → lookup f n.frag_buf ≡ none
    → Completed f msg n (receive_all f (length (split_message msg size)) ds n)
receive_all-split_message f msg size ds n pos_size some_byte order fresh =
    let (whole, chunks) = split_message_lem msg size pos_size in
    subst (λ m. Completed f m n (receive_all f (length (split_message msg size)) ds n)) whole
      (receive_all-Permᴰ f (split_message msg size) ds n (λ e. some_byte (sym whole ∙ ap concat e))
        order fresh)
