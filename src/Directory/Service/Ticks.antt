-- ===== src/Directory/Service/Ticks.antt =====
-- A tick that nothing interrupts.
use dor.Base.{ℕ, suc, ◌≤◌, ◌≡◌, refl, ap, ◌∙◌, Bool, true, false, List, [], ◌∷◌, length, take}
use dor.Directory.Table.{NodeInfo, Table, get_nodes_list}
use dor.Directory.Server.{max_sample_nodes, table_or}
use dor.Directory.Ping.{ping_nodes, ping_listed, test_ping}
use dor.Directory.Ping.Judged.{aged, HasDistinctNames}
use dor.Directory.Ping.Rounds.{test_ping-aged}
use mathlib.Core.List.{Permᴰ}
use dor.Directory.Service.{Service, ServerEvent, ticked, probed, tick, handle_event, run_service}

-- The probes of the nodes that a query returned.
abbrev pub probe_events : (ℕ → Bool) → (NodeInfo → Bool) → ℕ → List NodeInfo → List ServerEvent
probe_events ups reach i [] = []
probe_events ups reach i (n ∷ nodes) =
    probed (ups i) (reach n) ∷ probe_events ups reach (suc i) nodes

abbrev pub tick_events : (ℕ → Bool) → (Table → Table) → (NodeInfo → Bool) → Table → List ServerEvent
tick_events ups order reach table =
    ticked (ups 0) order
    ∷ probe_events ups reach 1 (table_or [] (get_nodes_list (ups 0) order max_sample_nodes table))

abbrev pub idle_with : Table → Service
idle_with table = record { table = table; listed = []; running = true }

probe_events-ping_nodes :
    (ups : ℕ → Bool) (reach : NodeInfo → Bool) (i : ℕ) (nodes : List NodeInfo) (table : Table)
    → run_service
        (probe_events ups reach i nodes)
        (record { table = table; listed = nodes; running = true })
      ≡ idle_with (ping_nodes ups reach i nodes table)
unfolding run_service handle_event ping_nodes
probe_events-ping_nodes ups reach i [] table = refl
probe_events-ping_nodes ups reach i (n ∷ nodes) table =
    probe_events-ping_nodes ups reach (suc i) nodes _

-- When the query of a tick and the probes of the nodes that it listed run with nothing in between,
-- the process does what `test_ping` does in one go, and nothing is left to probe.
pub run_service-eq-test_ping :
    (ups : ℕ → Bool) (order : Table → Table) (reach : NodeInfo → Bool) (table : Table)
    → run_service (tick_events ups order reach table) (idle_with table)
      ≡ idle_with (test_ping ups order reach table)
unfolding run_service handle_event tick test_ping ping_listed get_nodes_list
run_service-eq-test_ping ups order reach table = go (ups 0)
  where
    go :
        (up : Bool)
        → run_service
            (probe_events ups reach 1
              (table_or [] (get_nodes_list up order max_sample_nodes table)))
            (tick up order (idle_with table))
          ≡ idle_with (ping_listed ups reach table (get_nodes_list up order max_sample_nodes table))
    go true = probe_events-ping_nodes ups reach 1 (take max_sample_nodes (order table)) table
    go false = refl

-- A tick of the process that nothing interrupts and whose statements all work, on at most 500 rows
-- with distinct names that the query lists in any order: each row is judged by its own probe, and
-- nothing is left to probe. A row that answered goes up by 5 if it is below 100, to at most 100; one
-- that did not is halved, and goes if that is below 5. No other field and no other row changes.
pub run_service-aged :
    (order : Table → Table) (reach : NodeInfo → Bool) (table : Table)
    → Permᴰ table (order table)
    → HasDistinctNames table
    → length table ≤ max_sample_nodes
    → run_service (tick_events (λ _. true) order reach table) (idle_with table)
      ≡ idle_with (aged reach table)
run_service-aged order reach table perm distinct few =
    run_service-eq-test_ping (λ _. true) order reach table
    ∙ ap idle_with (test_ping-aged reach order table perm distinct few)
