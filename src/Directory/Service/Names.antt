-- ===== src/Directory/Service/Names.antt =====
-- What the directory server promises: a map from names to rows.
use mathlib.Core.Path.{fun_ext}
use dor.Base.{
  ◌≡◌, refl, ap, ◌∙◌, Bool, true, false, List, [], ◌∷◌, ◌++◌, map, arith, if◌then◌else◌, ◌==◌,
  eq_iff, nat_eq, Bytes, bytes_eq, int_eq,
}
use dor.Directory.Table.{NodeInfo, Table, update, delete_name, with_key, with_score}
use dor.Directory.Service.{
  Service, ServerEvent, connected, ticked, probed, typed, ConsoleCommand, list_nodes, shut_server,
  unknown_command, obey, console_command, tick, probe_next, handle_event, run_service,
}
use dor.Directory.Service.Effects.{
  Effect, adds, rekeys, rescores, drops, nothing, apply, line_effect, probe_effect, ping_node-apply,
  handle_connection-apply,
}

-- The rows of a name, in the order in which they came.
abbrev pub rows_of : Bytes → Table → List NodeInfo
rows_of name [] = []
rows_of name (n ∷ table) =
    let rest = rows_of name table in if n.name == name then n ∷ rest else rest

abbrev pub Registry : Type 0
Registry = Bytes → List NodeInfo

abbrev pub registry_of : Table → Registry
registry_of table name = rows_of name table

-- The effects on the map: only the rows of the name that the effect names are touched.
unfoldable pub enact : Effect → Registry → Registry
enact (adds n) reg name = if n.name == name then reg name ++ (n ∷ []) else reg name
enact (rekeys who key) reg name = if who == name then map (with_key key) (reg name) else reg name
enact (rescores who score) reg name =
    if who == name then map (with_score score) (reg name) else reg name
enact (drops who) reg name = if who == name then [] else reg name
enact nothing reg name = reg name

rows_of-append :
    (name : Bytes) (table : Table) (n : NodeInfo)
    → rows_of name (table ++ (n ∷ []))
      ≡ (if n.name == name then rows_of name table ++ (n ∷ []) else rows_of name table)
rows_of-append name [] n = ground arith
rows_of-append name (m ∷ table) n = ground (arith, rows_of-append name table n)

rows_of-delete_name :
    (who name : Bytes) (table : Table)
    → rows_of name (delete_name who table) ≡ (if who == name then [] else rows_of name table)
unfolding delete_name
rows_of-delete_name who name [] = ground arith
rows_of-delete_name who name (m ∷ table) = ground (
  arith,
  rows_of-delete_name who name table,
  eq_iff m.name who,
  eq_iff m.name name,
  eq_iff who name,
)

module _ (f : NodeInfo → NodeInfo) (same_name : (n : NodeInfo) → (f n).name ≡ n.name) where
  rows_of-update :
      (who name : Bytes) (table : Table)
      → rows_of name (update f who table)
        ≡ (if who == name then map f (rows_of name table) else rows_of name table)
  unfolding update
  rows_of-update who name [] = ground arith
  rows_of-update who name (m ∷ table) = ground (
    arith,
    rows_of-update who name table,
    same_name m,
    eq_iff m.name who,
    eq_iff m.name name,
    eq_iff who name,
  )

rows_of-apply :
    (e : Effect) (table : Table) (name : Bytes)
    → rows_of name (apply e table) ≡ enact e (registry_of table) name
unfolding apply enact
rows_of-apply (adds n) table name = rows_of-append name table n
rows_of-apply (rekeys who key) table name = rows_of-update (with_key key) (λ n. refl) who name table
rows_of-apply (rescores who score) table name =
    rows_of-update (with_score score) (λ n. refl) who name table
rows_of-apply (drops who) table name = rows_of-delete_name who name table
rows_of-apply nothing table name = refl

-- The effect of an event.
abbrev pub event_effect : ServerEvent → Service → Effect
event_effect (connected cx line) s = line_effect cx line
event_effect (ticked up order) s = nothing
event_effect (probed up reachable) s = elim s.listed [
  | [] ↦ nothing
  | n ∷ nodes ↦ probe_effect up reachable n
]
event_effect (typed line) s = nothing

obey-table : (c : ConsoleCommand) (s : Service) → (obey c s).table ≡ s.table
obey-table list_nodes s = refl
obey-table shut_server s = refl
obey-table unknown_command s = refl

probe_next-table :
    (up reachable : Bool) (listed : List NodeInfo) (s : Service)
    → (probe_next up reachable listed s).table
      ≡ apply (elim listed [ [] ↦ nothing | n ∷ nodes ↦ probe_effect up reachable n ]) s.table
unfolding apply
probe_next-table up reachable [] s = refl
probe_next-table up reachable (n ∷ nodes) s = ping_node-apply up reachable n s.table

handle_event-apply :
    (e : ServerEvent) (s : Service) → (handle_event e s).table ≡ apply (event_effect e s) s.table
unfolding handle_event tick apply
handle_event-apply (connected cx line) s = handle_connection-apply cx s.table line
handle_event-apply (ticked up order) s = refl
handle_event-apply (probed up reachable) s = probe_next-table up reachable s.listed s
handle_event-apply (typed line) s = obey-table (console_command line) s

-- The effects of the events until `main` returns.
abbrev pub effects : List ServerEvent → Service → List Effect
effects [] s = []
effects (e ∷ events) s =
    let rest = effects events (handle_event e s) in
    if s.running then event_effect e s ∷ rest else []

abbrev pub enact_all : List Effect → Registry → Registry
enact_all [] reg = reg
enact_all (e ∷ es) reg = enact_all es (enact e reg)

if-agree :
    (name : Bytes) (b : Bool) (s t : Service) (es : List Effect)
    → registry_of s.table name ≡ enact_all es (registry_of t.table) name
    → registry_of (if b then s else t).table name
      ≡ enact_all (if b then es else []) (registry_of t.table) name
if-agree name true s t es h = h
if-agree name false s t es h = refl

-- The map of the server after any events, in whatever order they interleave and whichever
-- statements fail, is the map before with the effects of the events enacted one after the other.
pub run_service-refines :
    (events : List ServerEvent) (s : Service) (name : Bytes)
    → registry_of (run_service events s).table name
      ≡ enact_all (effects events s) (registry_of s.table) name
unfolding run_service
run_service-refines [] s name = refl
run_service-refines (e ∷ events) s name =
    let s' = handle_event e s in
    let one : registry_of s'.table ≡ enact (event_effect e s) (registry_of s.table) =
      fun_ext (λ m.
        ap (rows_of m) (handle_event-apply e s) ∙ rows_of-apply (event_effect e s) s.table m) in
    if-agree name s.running (run_service events s') s (event_effect e s ∷ effects events s')
      (run_service-refines events s' name ∙ ap (λ reg. enact_all (effects events s') reg name) one)
