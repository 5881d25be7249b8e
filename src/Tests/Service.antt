-- ===== src/Tests/Service.antt =====
-- The process of the directory server at concrete inputs.
use dor.Base.{
  ◌≡◌, refl, sym, ◌∙◌, subst, true, false, some, List, [], ◌∷◌, reverse, arith, All, ok, pos,
}
use dor.Strings.{atoi, split, codes, is_space, trim_space}
use dor.Directory.Table.{NodeInfo, clear_table}
use dor.Directory.Service.{
  Service, Startup, ServerEvent, connected, ticked, probed, typed, start_server, run_service,
}
use dor.Directory.Service.Effects.{
  adds, rekeys, line_effect, fields_effect, init_effect, rekey_effect,
}
use dor.Directory.Service.Invariants.{ScoreInRange, run_service-InRange}
use dor.Directory.Service.Origin.{CameBy, run_service-CameBy}
use dor.Directory.Service.Names.{registry_of, effects, enact_all, run_service-refines}
use dor.Directory.Service.Ticks.{tick_events, idle_with, run_service-aged}
use dor.Directory.Ping.Judged.{aged}
use dor.Tests.Server.{backwards, backwards-Permᴰ, only_alice, table_two}

abbrev works : Startup
works = record { certificate = true; listens = true; connects = true; inits = true; clears = true }

abbrev fresh : Service
fresh = record { table = []; listed = []; running = true }

-- A file with old rows.
fresh_start : start_server works (some table_two) ≡ ok fresh
unfolding start_server clear_table
fresh_start = refl

-- A node joins while a tick runs, is probed with no answer, and sends a new key.
abbrev busy_day : List ServerEvent
busy_day =
    connected backwards (codes "INIT:carol:9000:Q0M=:50:50\n")
    ∷ ticked true (λ t. reverse t)
    ∷ connected backwards (codes "UPDATE_KEY:carol:RE0=\n")
    ∷ probed true false
    ∷ typed (codes "list")
    ∷ []

abbrev carol : NodeInfo
carol = record {
  uuid = codes "u3";
  name = codes "carol";
  ip = codes "10.0.0.3";
  port = pos 9000;
  public_key = codes "Q0M=";
  availability_score = pos 50;
  network_score = pos 50;
}

carol_joins : line_effect backwards (codes "INIT:carol:9000:Q0M=:50:50\n") ≡ adds carol
unfolding line_effect fields_effect init_effect split trim_space is_space atoi
carol_joins = refl

carol_renews :
    line_effect backwards (codes "UPDATE_KEY:carol:RE0=\n") ≡ rekeys (codes "carol") (codes "RE0=")
unfolding line_effect fields_effect rekey_effect split trim_space is_space
carol_renews = refl

carol-IsFair : (n : NodeInfo) → adds carol ≡ adds n → ScoreInRange n
carol-IsFair n e = let same : carol ≡ n = cc in subst ScoreInRange same (omega arith, omega arith)

renewal_adds_no : (n : NodeInfo) → ¬ (rekeys (codes "carol") (codes "RE0=") ≡ adds n)
renewal_adds_no n e = cc

run_service-InRange_example : All ScoreInRange (run_service busy_day fresh).table
run_service-InRange_example =
    run_service-InRange works (some table_two) fresh busy_day fresh_start (
      (λ n e. carol-IsFair n (sym carol_joins ∙ e)),
      (
        backwards-Permᴰ,
        ((λ n e. absurd (renewal_adds_no n (sym carol_renews ∙ e))), (tt, (tt, tt))),
      ),
    )

run_service-CameBy_example : All (CameBy busy_day) (run_service busy_day fresh).table
run_service-CameBy_example =
    run_service-CameBy works (some table_two) fresh busy_day fresh_start
      (tt, (backwards-Permᴰ, (tt, (tt, (tt, tt)))))

run_service-refines_example :
    registry_of (run_service busy_day fresh).table (codes "carol")
    ≡ enact_all (effects busy_day fresh) (registry_of []) (codes "carol")
run_service-refines_example = run_service-refines busy_day fresh (codes "carol")

-- Alice answers, bob does not.
run_service-aged_example :
    run_service
      (tick_events (λ i. true) (λ t. reverse t) only_alice table_two)
      (idle_with table_two)
    ≡ idle_with (aged only_alice table_two)
run_service-aged_example =
    run_service-aged (λ t. reverse t) only_alice table_two (backwards-Permᴰ table_two)
      (((λ e. ground (arith, e)), tt), (tt, tt)) (omega arith)
