-- ===== src/Directory/Candidates/RoundTrip.antt =====
-- What the directory server lists is what a sender chooses its relays from.
use dor.Base.{
  ℕ, ◌≡◌, refl, ap, ◌∙◌, ◌≢◌, some, List, [], ◌∷◌, ◌++◌, map, arith, if◌then◌else◌, ◌==◌, nat_eq,
  Bytes, bytes_eq, All, All-append, Lacks, int_eq,
}
use dor.Strings.{itoa, split_max, split_max-field, split-join, trim_prefix}
use dor.Strings.Decimal.RoundTrip.{itoa-Lacks}
use dor.Directory.Table.{NodeInfo}
use dor.Directory.Server.{entry_text, list_line}
use dor.Directory.Candidates.{entry_addr, keep_candidate, candidates_of, candidates, addr_of_fields}

-- The name and the address have no separator of the list in them, and the key no comma.
pub record IsListable (n : NodeInfo) : Type 0 where
  pub name_bar : Lacks b'|' n.name
  pub name_comma : Lacks b',' n.name
  pub ip_bar : Lacks b'|' n.ip
  pub ip_comma : Lacks b',' n.ip
  pub key_comma : Lacks b',' n.public_key

-- The addresses of the nodes that are neither the sender nor the destination.
unfoldable pub relays_of : Bytes → Bytes → List NodeInfo → List Bytes
relays_of node_addr dest_addr [] = []
relays_of node_addr dest_addr (n ∷ nodes) =
    let rest = relays_of node_addr dest_addr nodes in
    let addr = n.ip ++ (b':' ∷ itoa n.port) in
    if addr == node_addr then rest else if addr == dest_addr then rest else addr ∷ rest

entry_addr-entry_text :
    (n : NodeInfo) → IsListable n → entry_addr (entry_text n) ≡ some (n.ip ++ (b':' ∷ itoa n.port))
unfolding entry_addr entry_text split_max
entry_addr-entry_text n h = ap addr_of_fields (
    split_max-field b'|' 2 n.name _ h.name_bar
    ∙ ap (λ r. n.name ∷ r)
        (split_max-field b'|' 1 n.ip _ h.ip_bar
          ∙ ap (λ r. n.ip ∷ r)
              (split_max-field b'|' 0 (itoa n.port) _ (itoa-Lacks b'|' n.port (omega arith)))))

entry_text-Lacks : (n : NodeInfo) → IsListable n → Lacks b',' (entry_text n)
unfolding entry_text
entry_text-Lacks n h =
    let P = λ (x : ℕ). x ≢ b',' in
    All-append P n.name _ h.name_comma (
      omega arith,
      All-append P n.ip _ h.ip_comma (
        omega arith,
        All-append P (itoa n.port) _ (itoa-Lacks b',' n.port (omega arith)) (
          omega arith,
          All-append P n.public_key _ h.key_comma (
            omega arith,
            All-append P (itoa n.availability_score) _
                (itoa-Lacks b',' n.availability_score (omega arith))
                (omega arith, itoa-Lacks b',' n.network_score (omega arith)),
          ),
        ),
      ),
    )

entries-Lacks :
    (nodes : List NodeInfo) → All IsListable nodes → All (Lacks b',') (map entry_text nodes)
entries-Lacks [] h = tt
entries-Lacks (n ∷ nodes) (h, hs) = (entry_text-Lacks n h, entries-Lacks nodes hs)

candidates_of_lem :
    (node_addr dest_addr : Bytes) (nodes : List NodeInfo)
    → All IsListable nodes
    → candidates_of node_addr dest_addr (map entry_text nodes) ≡ relays_of node_addr dest_addr nodes
unfolding candidates_of relays_of keep_candidate
candidates_of_lem node_addr dest_addr [] h = refl
candidates_of_lem node_addr dest_addr (n ∷ nodes) (h, hs) =
    rw (entry_addr-entry_text n h, candidates_of_lem node_addr dest_addr nodes hs) (ground arith)

-- The candidates that `SendWithRetry` reads out of the line of a list with at least one node are
-- the addresses of the nodes, less its own and that of the destination, if no name or address
-- holds a separator of the list and no key a comma.
pub candidates-list_line :
    (node_addr dest_addr : Bytes) (n : NodeInfo) (nodes : List NodeInfo)
    → All IsListable (n ∷ nodes)
    → candidates node_addr dest_addr (list_line (n ∷ nodes))
      ≡ relays_of node_addr dest_addr (n ∷ nodes)
unfolding candidates list_line trim_prefix
candidates-list_line node_addr dest_addr n nodes h =
    rw (split-join b',' (entry_text n) (map entry_text nodes) (entries-Lacks (n ∷ nodes) h))
      (candidates_of_lem node_addr dest_addr (n ∷ nodes) h)
