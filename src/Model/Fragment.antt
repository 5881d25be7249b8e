-- ===== src/Model/Fragment.antt =====
-- The FINAL case of `handlerroutine` of node_server/model/Node.go up to the delivery: messages in
-- one piece, and fragments and their reassembly. The proofs are in the modules below this one.
pub mod Order
pub mod Reassembly
use dor.Base.{
  ℕ, zero, suc, none, some, [], ◌∷◌, ◌++◌, if◌then◌else◌, ◌==◌, nat_eq, Bytes, bytes_eq, length,
  Dict, lookup, insert, delete, ◌>>=◌, index, ◌>>◌, Result, ok, pos_part, int_eq, ℤ, pos,
}
use dor.Strings.{atoi, split, split_max}
use dor.Model.Layer.{OnionLayer}
use dor.Model.Node.{Node}

-- `strings.SplitN(layer.Frag, ":", 2)` and `strings.Split(fp[1], "/")`: the identifier, the index
-- and the count of a fragment. A missing part is an index out of range; `strconv.Atoi` may fail,
-- and its error is dropped.
unfoldable pub frag_numbers : Bytes → Result (ℤ × ℤ)
frag_numbers text = do
  let parts = split text b'/'
  idx ← index parts 0
  total ← index parts 1
  ok ((atoi idx).value, (atoi total).value)

unfoldable pub frag_fields : Bytes → Result (Bytes × ℤ × ℤ)
frag_fields frag = do
  let fp = split_max 1 frag b':'
  frag_id ← index fp 0
  rest ← index fp 1
  (idx, total) ← frag_numbers rest
  ok (frag_id, idx, total)

-- `for i := 1; i <= total; i++ { b.WriteString(buf[i]) }` from `i` on, with the rounds that are
-- left; a missing chunk is the empty string.
unfoldable pub assemble : Dict ℤ Bytes → ℕ → ℕ → Bytes
assemble buf i zero = []
assemble buf i (suc rounds) =
    elim (lookup (pos i) buf) [ none ↦ [] | some chunk ↦ chunk ] ++ assemble buf (suc i) rounds

unfoldable pub deliver : Bytes → Node → Node
deliver message n = record n { received_msgs = n.received_msgs ++ message ∷ [] }

-- The section under `FragMu` from the write of the chunk on: `buf` is the buffer with the chunk,
-- `totals` is `FragTotal`, and `total` the count of this fragment.
unfoldable pub place_fragment : Bytes → ℤ → Dict ℤ Bytes → Dict Bytes ℤ → Node → Node
place_fragment frag_id total buf totals n =
    let expected : ℤ = elim (lookup frag_id totals) [ none ↦ pos 0 | some t ↦ t ] in
    let bufs = insert frag_id buf n.frag_buf in
    if pos (length buf) == expected
    then deliver (assemble buf 1 (pos_part total))
        (record n { frag_buf = delete frag_id bufs; frag_total = delete frag_id totals })
    else record n { frag_buf = bufs; frag_total = totals }

-- The first fragment of a message makes its buffer and fixes the expected count.
unfoldable pub store_fragment : Bytes → ℤ → ℤ → Bytes → Node → Node
store_fragment frag_id idx total message n = elim (lookup frag_id n.frag_buf) [
  | none ↦
      place_fragment frag_id total (insert idx message []) (insert frag_id total n.frag_total) n
  | some known ↦ place_fragment frag_id total (insert idx message known) n.frag_total n
]

unfoldable pub receive_fragment : OnionLayer → Node → Result Node
receive_fragment layer n = do
  (frag_id, idx, total) ← frag_fields layer.frag
  ok (store_fragment frag_id idx total layer.message n)

unfoldable pub receive_message : OnionLayer → Node → Result Node
receive_message layer n =
    if layer.frag == [] then ok (deliver layer.message n) else receive_fragment layer n
