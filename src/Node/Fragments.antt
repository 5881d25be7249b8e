-- ===== src/Node/Fragments.antt =====
-- `splitMessage` of node_server/node/cli.go, and the fragments that SEND makes of a long message.
pub mod Delivery
use dor.Base.{ℕ, zero, suc, List, [], ◌∷◌, ◌++◌, leb, if◌then◌else◌, Bytes, length, take, drop, pos}
use dor.Strings.{itoa}

-- Each round cuts at least one byte off, if `size` is positive, so the length of the message is
-- fuel enough.
unfoldable pub split_rounds : ℕ → Bytes → ℕ → List Bytes
split_rounds zero msg size = []
split_rounds (suc fuel) [] size = []
split_rounds (suc fuel) (b ∷ msg) size =
    let rest = split_rounds fuel (drop size (b ∷ msg)) size in
    if leb (length (b ∷ msg)) size then (b ∷ msg) ∷ [] else take size (b ∷ msg) ∷ rest

unfoldable pub split_message : Bytes → ℕ → List Bytes
unfolding split_rounds
split_message msg size = split_rounds (length msg) msg size

abbrev pub frag_chunk_size : ℕ
frag_chunk_size = 4096

-- `fmt.Sprintf("%s:%d/%d", fragID, i+1, len(chunks))`, of the number `i+1`.
unfoldable pub frag_text : Bytes → ℕ → ℕ → Bytes
frag_text frag_id number total =
    frag_id ++ (b':' ∷ (itoa (pos number) ++ (b'/' ∷ itoa (pos total))))

-- The message and the `frag` field of each `SendWithRetry` of the loop.
unfoldable pub fragments_from : Bytes → ℕ → ℕ → List Bytes → List (Bytes × Bytes)
unfolding frag_text
fragments_from frag_id i total [] = []
fragments_from frag_id i total (chunk ∷ chunks) =
    (chunk, frag_text frag_id (suc i) total) ∷ fragments_from frag_id (suc i) total chunks

-- What SEND passes to `SendWithRetry` for a message.
unfoldable pub send_parts : Bytes → Bytes → List (Bytes × Bytes)
unfolding fragments_from split_message
send_parts frag_id message =
    let chunks = split_message message frag_chunk_size in
    if leb (length message) frag_chunk_size
    then (message, []) ∷ []
    else fragments_from frag_id 0 (length chunks) chunks
