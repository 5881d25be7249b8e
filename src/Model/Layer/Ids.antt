-- ===== src/Model/Layer/Ids.antt =====
-- The identifiers that `GenerateMsgID` makes fit into a field of a layer.
use dor.Base.{
  ℕ, ◌+◌, ◌%◌, ◌≤◌, ◌<◌, ◌≢◌, List, [], ◌∷◌, ◌++◌, arith, Bytes, All, All-append, Lacks, IsBytes,
}
use dor.Model.Layer.{digits_text, generate_msg_id, codes}

digits_text-All :
    (P : ℕ → Type 0) (digit : (c : ℕ) → 48 ≤ c → c ≤ 57 → P c) (ns : List ℕ)
    → All P (digits_text ns)
unfolding digits_text
digits_text-All P digit [] = tt
digits_text-All P digit (n ∷ ns) =
    (digit (b'0' + n % 10) (omega arith) (omega arith), digits_text-All P digit ns)

-- An identifier keeps what holds for the prefix, the dash and the ten digits.
pub generate_msg_id-All :
    (P : ℕ → Type 0) (prefix : Bytes) (ns : List ℕ)
    → All P prefix
    → All P (codes "msg-")
    → ((c : ℕ) → 48 ≤ c → c ≤ 57 → P c)
    → All P (generate_msg_id prefix ns)
unfolding generate_msg_id
generate_msg_id-All P [] ns given usual digit =
    All-append P (codes "msg-") (digits_text ns) usual (digits_text-All P digit ns)
generate_msg_id-All P (p ∷ prefix) ns (h, hs) usual digit = (
  h,
  All-append P (prefix ++ codes "-") (digits_text ns)
      (All-append P prefix (codes "-") hs (usual.1.1.1.0, tt)) (digits_text-All P digit ns),
)

-- The identifier of a message has no separator of a layer and is made of bytes.
pub generate_msg_id-plain :
    (ns : List ℕ) → Lacks b'|' (generate_msg_id [] ns) × IsBytes (generate_msg_id [] ns)
generate_msg_id-plain ns = (
  generate_msg_id-All (λ c. c ≢ b'|') [] ns tt (omega arith) (λ c low high. omega arith),
  generate_msg_id-All (λ c. c < 256) [] ns tt (omega arith) (λ c low high. omega arith),
)

-- Nor has that of a NACK, and it has no colon.
pub nack_id-plain :
    (ns : List ℕ)
    → let id = generate_msg_id (codes "nack") ns in Lacks b':' id × Lacks b'|' id × IsBytes id
nack_id-plain ns = (
  generate_msg_id-All (λ c. c ≢ b':') (codes "nack") ns (omega arith) (omega arith)
      (λ c low high. omega arith),
  generate_msg_id-All (λ c. c ≢ b'|') (codes "nack") ns (omega arith) (omega arith)
      (λ c low high. omega arith),
  generate_msg_id-All (λ c. c < 256) (codes "nack") ns (omega arith) (omega arith)
      (λ c low high. omega arith),
)
