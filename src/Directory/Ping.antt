-- ===== src/Directory/Ping.antt =====
-- One tick of `TestPing` in node_server/List_Serveur/serveur.go.
pub mod Eviction
pub mod Rows
pub mod Judged
pub mod Rounds
use dor.Base.{
  ℕ, suc, Bool, List, [], ◌∷◌, if◌then◌else◌, Result, ok, err, panic, ◌+ℤ◌, ltb_ℤ, half_ℤ, ℤ, pos,
}
use dor.Directory.Table.{NodeInfo, Table, get_nodes_list, remove_node, update_availability_score}
use dor.Directory.Server.{max_sample_nodes, table_or}

-- `newScore` of a node that does not answer, and of one that does.
abbrev pub degraded : ℤ → ℤ
degraded score = half_ℤ score

abbrev pub improved : ℤ → ℤ
improved score = if ltb_ℤ (score +ℤ pos 5) (pos 100) then score +ℤ pos 5 else pos 100

-- What the probe of one listed node does to the table; a failed statement is only logged.
unfoldable pub ping_node : Bool → Bool → NodeInfo → Table → Table
ping_node up reachable n table =
    if reachable
    then if ltb_ℤ n.availability_score (pos 100)
      then table_or table
          (update_availability_score up n.name (improved n.availability_score) table)
      else table
    else if ltb_ℤ (degraded n.availability_score) (pos 5)
    then table_or table (remove_node up n.name table)
    else table_or table (update_availability_score up n.name (degraded n.availability_score) table)

-- The loop over the listed nodes: `ups` says of each statement whether it works.
unfoldable pub ping_nodes : (ℕ → Bool) → (NodeInfo → Bool) → ℕ → List NodeInfo → Table → Table
ping_nodes ups reach i [] table = table
ping_nodes ups reach i (n ∷ nodes) table =
    ping_nodes ups reach (suc i) nodes (ping_node (ups i) (reach n) n table)

-- What a tick does with the result of the query; an error ends the tick.
unfoldable pub ping_listed : (ℕ → Bool) → (NodeInfo → Bool) → Table → Result (List NodeInfo) → Table
unfolding ping_nodes
ping_listed ups reach table (ok nodes) = ping_nodes ups reach 1 nodes table
ping_listed ups reach table (err e) = table
ping_listed ups reach table panic = table

unfoldable pub test_ping : (ℕ → Bool) → (Table → Table) → (NodeInfo → Bool) → Table → Table
unfolding ping_listed
test_ping ups order reach table =
    ping_listed ups reach table (get_nodes_list (ups 0) order max_sample_nodes table)
