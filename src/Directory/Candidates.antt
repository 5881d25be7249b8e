-- ===== src/Directory/Candidates.antt =====
-- The start of `SendWithRetry` in node_server/node/send.go: the relays that the list offers.
pub mod RoundTrip
use dor.Base.{
  not, ◌&&◌, Option, none, some, List, [], ◌∷◌, ◌++◌, if◌then◌else◌, ◌==◌, nat_eq, Bytes, bytes_eq,
  int_eq,
}
use dor.Strings.{split, split_max, codes, trim_prefix}

abbrev pub addr_of_fields : List Bytes → Option Bytes
addr_of_fields (name ∷ ip ∷ port ∷ rest ∷ more) = some (ip ++ (b':' ∷ port))
addr_of_fields _ = none

-- `addr` of one entry, if it has the four fields.
unfoldable pub entry_addr : Bytes → Option Bytes
entry_addr entry = addr_of_fields (split_max 3 entry b'|')

unfoldable pub keep_candidate : Bytes → Bytes → Option Bytes → List Bytes → List Bytes
keep_candidate node_addr dest_addr none rest = rest
keep_candidate node_addr dest_addr (some addr) rest =
    if not (addr == node_addr) && not (addr == dest_addr) then addr ∷ rest else rest

unfoldable pub candidates_of : Bytes → Bytes → List Bytes → List Bytes
unfolding entry_addr keep_candidate
candidates_of node_addr dest_addr [] = []
candidates_of node_addr dest_addr (entry ∷ entries) =
    keep_candidate node_addr dest_addr (entry_addr entry)
      (candidates_of node_addr dest_addr entries)

-- From the text of the list to the candidates.
unfoldable pub candidates : Bytes → Bytes → Bytes → List Bytes
unfolding candidates_of
candidates node_addr dest_addr list =
    candidates_of node_addr dest_addr (split (trim_prefix list (codes "LIST:")) b',')
