-- ===== src/Directory/Service/Origin.antt =====
-- Where the rows of the directory server come from.
use dor.Base.{
  ◌≡◌, refl, Bool, true, false, Option, List, if_elim, Bytes, All, IsMember, All-map-IsMember, ok,
  ltb_ℤ, pos,
}
use dor.Directory.Table.{NodeInfo, Table}
use dor.Directory.Server.{Context}
use dor.Directory.Ping.{degraded}
use dor.Directory.Service.{
  Service, ServerEvent, connected, ticked, probed, typed, run_service, Startup, start_server,
}
use dor.Directory.Service.Effects.{adds, line_effect, probe_effect, line_effect_elim}
use dor.Directory.Service.Invariants.{Keeps, IsSafe, run_service-Holds, start_server-Holds}
use mathlib.Core.List.{Permᴰ}

-- A line among the events registered the node; its key and its availability score may be new.
abbrev pub CameBy : List ServerEvent → NodeInfo → Type 0
CameBy events n =
    (cx : Context) × (line : Bytes) × (m : NodeInfo) × IsMember (connected cx line) events
    × (line_effect cx line ≡ adds m)
    × (n.name ≡ m.name)
    × (n.ip ≡ m.ip)
    × (n.port ≡ m.port)
    × (n.network_score ≡ m.network_score)

-- A query returns rows of the table.
abbrev pub ListsRows : ServerEvent → Type 0
ListsRows (ticked up order) = (t : Table) → Permᴰ t (order t)
ListsRows _ = Unit

module _ (events : List ServerEvent) where
  probe_effect-CameBy :
      (up reachable : Bool) (n : NodeInfo)
      → CameBy events n
      → Keeps (CameBy events) (probe_effect up reachable n)
  probe_effect-CameBy false reachable n h = tt
  probe_effect-CameBy true true n h =
      if_elim (Keeps (CameBy events)) (ltb_ℤ n.availability_score (pos 100)) _ _ (λ l m c same. c)
        (λ l. tt)
  probe_effect-CameBy true false n h =
      if_elim (Keeps (CameBy events)) (ltb_ℤ (degraded n.availability_score) (pos 5)) _ _ (λ l. tt)
        (λ l m c same. c)

  ListsRows-IsSafe : (e : ServerEvent) → IsMember e events → ListsRows e → IsSafe (CameBy events) e
  ListsRows-IsSafe (connected cx line) member lists =
      line_effect_elim (λ e. line_effect cx line ≡ e → Keeps (CameBy events) e) cx
        (λ n same. (cx, line, n, member, same, refl, refl, refl, refl))
        (λ name key same m came at. came) (λ name same. tt) (λ same. tt) line refl
  ListsRows-IsSafe (ticked up order) member lists = lists
  ListsRows-IsSafe (probed up reachable) member lists = tt
  ListsRows-IsSafe (typed line) member lists = tt

-- However the events interleave and whichever statements fail: each row of the server, from its
-- start on, was registered by a line among the events, with the name, the address, the port and the
-- network score that it has now. No row of an earlier run of the server is left, and no probe, no
-- update and no command of the console makes one.
pub run_service-CameBy :
    (startup : Startup) (file : Option Table) (s : Service) (events : List ServerEvent)
    → start_server startup file ≡ ok s
    → All ListsRows events
    → All (CameBy events) (run_service events s).table
run_service-CameBy startup file s events started lists =
    (run_service-Holds (CameBy events) (probe_effect-CameBy events) events s
      (All-map-IsMember ListsRows (IsSafe (CameBy events)) events (ListsRows-IsSafe events) lists)
      (start_server-Holds (CameBy events) startup file s started)).0
