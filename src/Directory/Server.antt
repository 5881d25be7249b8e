-- ===== src/Directory/Server.antt =====
-- `handleConnection` and `getNodesList` of node_server/List_Serveur/serveur.go: one line is read, the
-- table changes, and a line may be written.
pub mod Registry
use dor.Base.{
  ℕ, Bool, ◌&&◌, Option, none, some, List, [], ◌∷◌, ◌++◌, map, if◌then◌else◌, ◌==◌, nat_eq, Bytes,
  bytes_eq, Result, ok, err, panic, int_eq, ℤ,
}
use dor.Strings.{itoa, atoi, Parsed, split, join, codes, trim_space}
use dor.Directory.Table.{NodeInfo, Table, get_nodes_list, add_node, update_node_key, remove_node}

abbrev pub max_sample_nodes : ℕ
max_sample_nodes = 500

-- What the handler reads besides the line: whether the database works, the order of its rows, the
-- variable NODE_ADDR, the host of the remote address and a new identifier.
pub record Context : Type 0 where
  pub up : Bool
  pub order : Table → Table
  pub node_addr : Bytes
  pub remote_host : Bytes
  pub new_uuid : Bytes

-- `%s|%s|%d|%s|%d|%d`
unfoldable pub entry_text : NodeInfo → Bytes
entry_text n =
    n.name
    ++ (b'|'
        ∷ (n.ip
            ++ (b'|'
                ∷ (itoa n.port
                    ++ (b'|'
                        ∷ (n.public_key
                            ++ (b'|'
                                ∷ (itoa n.availability_score
                                    ++ (b'|' ∷ itoa n.network_score)))))))))

-- The line of a list, without its line feed.
unfoldable pub list_line : List NodeInfo → Bytes
list_line nodes = codes "LIST:" ++ join (map entry_text nodes) (b',' ∷ [])

-- What `getNodesList` answers for a result of the query.
unfoldable pub list_text : Result (List NodeInfo) → Bytes
unfolding list_line
list_text (ok (n ∷ nodes)) = list_line (n ∷ nodes) ++ codes "\n"
list_text _ = codes "LIST:empty\n"

-- The node of an address among the listed ones, and the answer.
unfoldable pub key_answer : List NodeInfo → Bytes → ℤ → Bytes
key_answer [] ip port = codes "ERROR:Node not found\n"
key_answer (n ∷ nodes) ip port =
    let rest = key_answer nodes ip port in
    if (n.ip == ip) && (n.port == port) then codes "KEY:" ++ (n.public_key ++ codes "\n") else rest

-- The table that is left when an error of the database is only logged.
abbrev pub table_or : Table → Result Table → Table
table_or table (ok table') = table'
table_or table _ = table

abbrev pub invalid : Bytes
invalid = codes "ERROR:Invalid format\n"

-- The row of `INIT`: the errors of `Atoi` are dropped.
abbrev pub registered : Context → Bytes → Bytes → Bytes → Bytes → Bytes → NodeInfo
registered cx name port key sa sn = record {
  uuid = cx.new_uuid;
  name = name;
  ip = if cx.node_addr == [] then cx.remote_host else cx.node_addr;
  port = Parsed.value (atoi port);
  public_key = key;
  availability_score = Parsed.value (atoi sa);
  network_score = Parsed.value (atoi sn);
}

abbrev pub init_ack : NodeInfo → Bytes
init_ack node = codes "INIT_ACK:" ++ (node.name ++ (codes ":" ++ (node.ip ++ codes "\n")))

unfoldable pub init : Context → List Bytes → Table → Table × Option Bytes
init cx (_ ∷ name ∷ port ∷ key ∷ sa ∷ sn ∷ more) table =
    let node = registered cx name port key sa sn in
    elim (add_node cx.up node table) [
      | ok table' ↦ (table', some (init_ack node))
      | err e ↦ (table, none)
      | panic ↦ (table, none)
    ]
init cx _ table = (table, some invalid)

unfoldable pub update_key : Context → List Bytes → Table → Table × Option Bytes
update_key cx (_ ∷ id ∷ key ∷ more) table =
    (table_or table (update_node_key cx.up id key table), none)
update_key cx _ table = (table, some invalid)

unfoldable pub get_key : Context → List Bytes → Table → Table × Option Bytes
get_key cx (_ ∷ ip ∷ port ∷ more) table =
    let number = atoi port in
    (
      table,
      some (
          if Parsed.valid number
          then key_answer (table_or [] (get_nodes_list cx.up cx.order max_sample_nodes table)) ip
              (Parsed.value number)
          else codes "ERROR:Invalid port\n"),
    )
get_key cx _ table = (table, some invalid)

unfoldable pub quit : Context → List Bytes → Table → Table × Option Bytes
quit cx (_ ∷ id ∷ more) table = (table_or table (remove_node cx.up id table), none)
quit cx _ table = (table, none)

-- The switch on the first part.
unfoldable pub run_command : Context → Bytes → List Bytes → Table → Table × Option Bytes
unfolding init update_key get_key quit list_text
run_command cx cmd parts table =
    if cmd == codes "INIT"
    then init cx parts table
    else if cmd == codes "UPDATE_KEY"
    then update_key cx parts table
    else if cmd == codes "GET_LIST"
    then (table, some (list_text (get_nodes_list cx.up cx.order max_sample_nodes table)))
    else if cmd == codes "GET_KEY"
    then get_key cx parts table
    else if cmd == codes "QUIT"
    then quit cx parts table
    else (table, some (codes "ERROR:Unknown command\n"))

unfoldable pub run_parts : Context → List Bytes → Table → Table × Option Bytes
run_parts cx [] table = (table, none)
run_parts cx (cmd ∷ parts) table = run_command cx cmd (cmd ∷ parts) table

unfoldable pub handle_connection : Context → Bytes → Table → Table × Option Bytes
unfolding run_parts
handle_connection cx line table = run_parts cx (split (trim_space line) b':') table
