-- ===== src/Directory/Service/Invariants.antt =====
-- What holds of every row of the directory server, whatever interleaves.
use dor.Base.{
  ◌≡◌, refl, sym, subst, Bool, true, false, Option, none, some, List, [], ◌∷◌, arith, if_elim, All,
  All-append, All-map, All-Permᴰ, ok, ltb_ℤ, pos,
}
use dor.Directory.Table.{NodeInfo, Table, with_key, with_score, get_nodes_list, clear_table}
use dor.Directory.Server.{max_sample_nodes, table_or}
use dor.Directory.Ping.Rows.{
  update-All, delete_name-All, take-All, improved-InRange, InRange, degraded-InRange,
}
use dor.Directory.Service.{
  Service, ServerEvent, connected, ticked, probed, typed, ConsoleCommand, list_nodes, shut_server,
  unknown_command, obey, console_command, tick, probe_next, handle_event, run_service, Startup,
  start_server, init_table,
}
use dor.Directory.Service.Effects.{
  Effect, adds, rekeys, rescores, drops, nothing, apply, line_effect, probe_effect, ping_node-apply,
  handle_connection-apply, line_effect_elim,
}
use mathlib.Core.List.{Permᴰ}
use dor.Directory.Ping.{degraded}

module _ (P : NodeInfo → Type 0) where
  -- What an effect writes has the property.
  abbrev pub Keeps : Effect → Type 0
  Keeps (adds n) = P n
  Keeps (rekeys name key) = (m : NodeInfo) → P m → m.name ≡ name → P (with_key key m)
  Keeps (rescores name score) = (m : NodeInfo) → P m → m.name ≡ name → P (with_score score m)
  Keeps (drops name) = Unit
  Keeps nothing = Unit

  pub apply-All : (e : Effect) (table : Table) → Keeps e → All P table → All P (apply e table)
  unfolding apply
  apply-All (adds n) table keeps h = All-append P table (n ∷ []) h (keeps, tt)
  apply-All (rekeys name key) table keeps h = update-All P (with_key key) name table keeps h
  apply-All (rescores name score) table keeps h = update-All P (with_score score) name table keeps h
  apply-All (drops name) table keeps h = delete_name-All P name table h
  apply-All nothing table keeps h = h

  -- A line that keeps the property, or a query that lists rows of the table.
  abbrev pub IsSafe : ServerEvent → Type 0
  IsSafe (connected cx line) = Keeps (line_effect cx line)
  IsSafe (ticked up order) = (t : Table) → Permᴰ t (order t)
  IsSafe (probed up reachable) = Unit
  IsSafe (typed line) = Unit

  abbrev pub Holds : Service → Type 0
  Holds s = All P s.table × All P s.listed

  module _
      (probes : (up reachable : Bool) (n : NodeInfo)
        → P n
        → Keeps (probe_effect up reachable n)) where
    query-All :
        (up : Bool) (order : Table → Table) (table : Table)
        → ((t : Table) → Permᴰ t (order t))
        → All P table
        → All P (table_or [] (get_nodes_list up order max_sample_nodes table))
    unfolding get_nodes_list
    query-All true order table perm h =
        take-All P max_sample_nodes (order table) (All-Permᴰ P (perm table) h)
    query-All false order table perm h = tt

    tick-Holds :
        (up : Bool) (order : Table → Table) (listed : List NodeInfo) (table : Table)
        (running : Bool)
        → ((t : Table) → Permᴰ t (order t))
        → All P table
        → All P listed
        → Holds (tick up order (record { table = table; listed = listed; running = running }))
    unfolding tick
    tick-Holds up order [] table running perm h k = (h, query-All up order table perm h)
    tick-Holds up order (n ∷ nodes) table running perm h k = (h, k)

    probe_next-Holds :
        (up reachable : Bool) (listed : List NodeInfo) (s : Service)
        → All P s.table
        → All P listed
        → All P s.listed
        → Holds (probe_next up reachable listed s)
    probe_next-Holds up reachable [] s h k l = (h, l)
    probe_next-Holds up reachable (n ∷ nodes) s h (k, ks) l = (
      rw (ping_node-apply up reachable n s.table)
          (apply-All (probe_effect up reachable n) s.table (probes up reachable n k) h),
      ks,
    )

    obey-Holds : (c : ConsoleCommand) (s : Service) → Holds s → Holds (obey c s)
    obey-Holds list_nodes s h = h
    obey-Holds shut_server s h = h
    obey-Holds unknown_command s h = h

    handle_event-Holds :
        (e : ServerEvent) (s : Service) → IsSafe e → Holds s → Holds (handle_event e s)
    unfolding handle_event
    handle_event-Holds (connected cx line) s safe (h, k) = (
      rw (handle_connection-apply cx s.table line) (apply-All (line_effect cx line) s.table safe h),
      k,
    )
    handle_event-Holds (ticked up order) s safe (h, k) =
        tick-Holds up order s.listed s.table s.running safe h k
    handle_event-Holds (probed up reachable) s safe (h, k) =
        probe_next-Holds up reachable s.listed s h k k
    handle_event-Holds (typed line) s safe h = obey-Holds (console_command line) s h

    pub run_service-Holds :
        (events : List ServerEvent) (s : Service)
        → All IsSafe events
        → Holds s
        → Holds (run_service events s)
    unfolding run_service
    run_service-Holds [] s safe h = h
    run_service-Holds (e ∷ events) s (safe, more) h =
        if_elim Holds s.running (run_service events (handle_event e s)) s
          (λ r. run_service-Holds events (handle_event e s) more (handle_event-Holds e s safe h))
          (λ r. h)

-- The server starts without rows.
pub start_server_lem :
    (startup : Startup) (file : Option Table) (s : Service)
    → start_server startup file ≡ ok s
    → (s.table ≡ []) × (s.listed ≡ [])
unfolding start_server init_table clear_table
start_server_lem startup none s h = (ground (arith, h), ground (arith, h))
start_server_lem startup (some old) s h = (ground (arith, h), ground (arith, h))

pub start_server-Holds :
    (P : NodeInfo → Type 0) (startup : Startup) (file : Option Table) (s : Service)
    → start_server startup file ≡ ok s
    → Holds P s
start_server-Holds P startup file s h =
    let (no_rows, no_probes) = start_server_lem startup file s h in
    (subst (All P) (sym no_rows) tt, subst (All P) (sym no_probes) tt)

-- A line that registers a node gives it an availability score between 5 and 100, and a query
-- returns rows of the table.
abbrev pub IsFair : ServerEvent → Type 0
IsFair (connected cx line) =
    (n : NodeInfo) → line_effect cx line ≡ adds n → InRange n.availability_score
IsFair (ticked up order) = (t : Table) → Permᴰ t (order t)
IsFair (probed up reachable) = Unit
IsFair (typed line) = Unit

abbrev pub ScoreInRange : NodeInfo → Type 0
ScoreInRange n = InRange n.availability_score

probe_effect-Keeps :
    (up reachable : Bool) (n : NodeInfo)
    → ScoreInRange n
    → Keeps ScoreInRange (probe_effect up reachable n)
probe_effect-Keeps false reachable n h = tt
probe_effect-Keeps true true n h =
    if_elim (Keeps ScoreInRange) (ltb_ℤ n.availability_score (pos 100)) _ _
      (λ l m r same. improved-InRange n.availability_score h) (λ l. tt)
probe_effect-Keeps true false n h =
    if_elim (Keeps ScoreInRange) (ltb_ℤ (degraded n.availability_score) (pos 5)) _ _ (λ l. tt)
      (λ l m r same. degraded-InRange n.availability_score h l)

-- Of what a line can do, only a registration can break the range.
IsFair-Keeps : (e : ServerEvent) → IsFair e → IsSafe ScoreInRange e
IsFair-Keeps (connected cx line) fair =
    line_effect_elim (λ e. ((n : NodeInfo) → e ≡ adds n → ScoreInRange n) → Keeps ScoreInRange e) cx
      (λ n f. f n refl) (λ name key f m h same. h) (λ name f. tt) (λ f. tt) line fair
IsFair-Keeps (ticked up order) fair = fair
IsFair-Keeps (probed up reachable) fair = tt
IsFair-Keeps (typed line) fair = tt

-- However connections, ticks, probes and the console interleave, and whichever statements fail: if
-- each line that registers a node gives it an availability score between 5 and 100, and each query
-- returns rows of the table, then every row keeps its score in that range from the start of the
-- server on.
pub run_service-InRange :
    (startup : Startup) (file : Option Table) (s : Service) (events : List ServerEvent)
    → start_server startup file ≡ ok s
    → All IsFair events
    → All ScoreInRange (run_service events s).table
run_service-InRange startup file s events started fair =
    (run_service-Holds ScoreInRange probe_effect-Keeps events s
      (All-map IsFair (IsSafe ScoreInRange) IsFair-Keeps events fair)
      (start_server-Holds ScoreInRange startup file s started)).0
