-- ===== src/Directory/Service.antt =====
-- The process of the directory server: `main`, `acceptConnections` and `showNodes` of
-- node_server/List_Serveur/serveur.go, with `InitTable` of node_server/data/SQLManager.go. The
-- connections and the goroutine of `TestPing` interleave: an event is what one of them does between
-- two statements on the database.
pub mod Effects
pub mod Invariants
pub mod Names
pub mod Origin
pub mod Ticks
use dor.Base.{
  Bool, true, false, Option, none, some, List, [], ◌∷◌, ◌++◌, map, if◌then◌else◌, ◌==◌, nat_eq,
  Bytes, bytes_eq, length, ◌>>=◌, ◌>>◌, Result, server_error, ok, err, int_eq,
}
use dor.Strings.{nat_text, itoa, codes, trim_space, to_upper}
use dor.Directory.Table.{NodeInfo, Table, exec, get_nodes_list, clear_table}
use dor.Directory.Server.{Context, max_sample_nodes, table_or, handle_connection}
use dor.Directory.Ping.{ping_node}

-- What `main` finds: whether the certificate loads, the port is free, the file opens, and the
-- statements of `InitTable` and of `ClearTable` work.
pub record Startup : Type 0 where
  pub certificate : Bool
  pub listens : Bool
  pub connects : Bool
  pub inits : Bool
  pub clears : Bool

-- The rows, the listed nodes that the current tick has still to probe, and whether `main` runs.
pub record Service : Type 0 where
  pub table : Table
  pub listed : List NodeInfo
  pub running : Bool

-- `CREATE TABLE IF NOT EXISTS nodes`, on a file that holds the table or does not.
unfoldable pub init_table : Bool → Option Table → Result Table
init_table up none = exec up []
init_table up (some old) = exec up old

-- The return of `main` for a failed step, and the next one otherwise.
abbrev unless_failed {ℓ} : {A : Type ℓ} → Bool → Result A → Result A
unless_failed true next = next
unless_failed false next = err server_error

unfoldable pub start_server : Startup → Option Table → Result Service
unfolding init_table
start_server s file = unless_failed s.certificate (
    unless_failed s.listens (
      unless_failed s.connects (do
        old ← init_table s.inits file
        table ← clear_table s.clears old
        ok (record { table = table; listed = []; running = true }))))

-- `  . %s - Addr: %s:%d, Key: %s, [Sa:%d Sn:%d]`
unfoldable pub node_line : NodeInfo → Bytes
node_line n =
    codes "  . "
    ++ (n.name
        ++ (codes " - Addr: "
            ++ (n.ip
                ++ (codes ":"
                    ++ (itoa n.port
                        ++ (codes ", Key: "
                            ++ (n.public_key
                                ++ (codes ", [Sa:"
                                    ++ (itoa n.availability_score
                                        ++ (codes " Sn:"
                                            ++ (itoa n.network_score ++ codes "]")))))))))))

-- The lines between the title and the total.
unfoldable pub shown_lines : List NodeInfo → List Bytes
unfolding node_line
shown_lines [] = codes "  (aucun)" ∷ []
shown_lines (n ∷ nodes) = map node_line (n ∷ nodes)

-- The lines of `showNodes`; an error of the database is its one line.
unfoldable pub show_nodes : Result (List NodeInfo) → List Bytes
unfolding shown_lines
show_nodes (ok nodes) =
    (codes "=== Noeuds connect" ++ (195 ∷ 169 ∷ codes "s ==="))
    ∷ (shown_lines nodes ++ ((codes "Total: " ++ nat_text (length nodes)) ∷ []))
show_nodes _ = codes "Error:" ∷ []

-- What a line of the console asks of `main`.
pub data ConsoleCommand : Type 0 where
  list_nodes : ConsoleCommand
  shut_server : ConsoleCommand
  unknown_command : ConsoleCommand

unfoldable pub console_command : Bytes → ConsoleCommand
console_command line =
    let input = to_upper (trim_space line) in
    if input == codes "LIST"
    then list_nodes
    else if input == codes "QUIT"
    then shut_server
    else unknown_command

-- A connection with its line; a tick, with the flag and the order of its query; the probe of the
-- next listed node, with the flag of its statement and whether the node answered; a line of the
-- console.
pub data ServerEvent : Type 0 where
  connected : Context → Bytes → ServerEvent
  ticked : Bool → (Table → Table) → ServerEvent
  probed : Bool → Bool → ServerEvent
  typed : Bytes → ServerEvent

-- The query of a tick; the ticker has no second tick at once while nodes are left to probe.
unfoldable pub tick : Bool → (Table → Table) → Service → Service
tick up order s = record {
  table = s.table;
  listed = elim s.listed [
    | [] ↦ table_or [] (get_nodes_list up order max_sample_nodes s.table)
    | n ∷ nodes ↦ n ∷ nodes
  ];
  running = s.running;
}

abbrev pub probe_next : Bool → Bool → List NodeInfo → Service → Service
probe_next up reachable [] s = s
probe_next up reachable (n ∷ nodes) s = record {
  table = ping_node up reachable n s.table;
  listed = nodes;
  running = s.running;
}

abbrev pub obey : ConsoleCommand → Service → Service
obey shut_server s = record { table = s.table; listed = s.listed; running = false }
obey _ s = s

unfoldable pub handle_event : ServerEvent → Service → Service
unfolding tick console_command
handle_event (connected cx line) s = record {
  table = (handle_connection cx line s.table).0;
  listed = s.listed;
  running = s.running;
}
handle_event (ticked up order) s = tick up order s
handle_event (probed up reachable) s = probe_next up reachable s.listed s
handle_event (typed line) s = obey (console_command line) s

-- After `main` has returned nothing runs.
unfoldable pub run_service : List ServerEvent → Service → Service
unfolding handle_event
run_service [] s = s
run_service (e ∷ events) s =
    let rest = run_service events (handle_event e s) in if s.running then rest else s
