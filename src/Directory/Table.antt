-- ===== src/Directory/Table.antt =====
-- node_server/data/SQLManager.go and node_server/model/NodeInfo.go: the table `nodes` is the list of
-- its rows. A statement is executed, or the driver returns an error: that is the flag `up`. The
-- order in which SQLite returns the rows, `ORDER BY RANDOM() * …`, is the argument `order`.
use dor.Base.{
  ℕ, Bool, List, [], ◌∷◌, ◌++◌, if◌then◌else◌, ◌==◌, nat_eq, Bytes, bytes_eq, take, Result,
  database_error, ok, err, int_eq, ℤ,
}

pub record NodeInfo : Type 0 where
  pub uuid : Bytes
  pub name : Bytes
  pub ip : Bytes
  pub port : ℤ
  pub public_key : Bytes
  pub availability_score : ℤ
  pub network_score : ℤ

abbrev pub Table : Type 0
Table = List NodeInfo

abbrev pub exec : Bool → Table → Result Table
exec up table = if up then ok table else err database_error

unfoldable pub add_node : Bool → NodeInfo → Table → Result Table
add_node up node table = exec up (table ++ (node ∷ []))

unfoldable pub get_nodes_list : Bool → (Table → Table) → ℕ → Table → Result (List NodeInfo)
get_nodes_list up order limit table = exec up (take limit (order table))

-- `UPDATE nodes SET … WHERE name = ?`
unfoldable pub update : (NodeInfo → NodeInfo) → Bytes → Table → Table
update f name [] = []
update f name (n ∷ table) =
    let rest = update f name table in (if n.name == name then f n else n) ∷ rest

-- `DELETE FROM nodes WHERE name = ?`
unfoldable pub delete_name : Bytes → Table → Table
delete_name name [] = []
delete_name name (n ∷ table) =
    let rest = delete_name name table in if n.name == name then rest else n ∷ rest

abbrev pub with_key : Bytes → NodeInfo → NodeInfo
with_key key n = record {
  uuid = n.uuid;
  name = n.name;
  ip = n.ip;
  port = n.port;
  public_key = key;
  availability_score = n.availability_score;
  network_score = n.network_score;
}

abbrev pub with_score : ℤ → NodeInfo → NodeInfo
with_score score n = record {
  uuid = n.uuid;
  name = n.name;
  ip = n.ip;
  port = n.port;
  public_key = n.public_key;
  availability_score = score;
  network_score = n.network_score;
}

unfoldable pub update_node_key : Bool → Bytes → Bytes → Table → Result Table
unfolding update
update_node_key up name key table = exec up (update (with_key key) name table)

unfoldable pub remove_node : Bool → Bytes → Table → Result Table
unfolding delete_name
remove_node up name table = exec up (delete_name name table)

unfoldable pub update_availability_score : Bool → Bytes → ℤ → Table → Result Table
unfolding update
update_availability_score up name score table = exec up (update (with_score score) name table)

unfoldable pub clear_table : Bool → Table → Result Table
clear_table up table = exec up []
