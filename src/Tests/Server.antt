-- ===== src/Tests/Server.antt =====
-- The directory server at concrete inputs.
use dor.Base.{
  ◌≡◌, refl, ap, ◌≢◌, Bool, true, some, [], ◌∷◌, ◌++◌, reverse, arith, ◌==◌, eq_iff, nat_eq,
  bytes_beq, bytes_eq, All, int_eq, pos,
}
use dor.Strings.{atoi, codes}
use dor.Directory.Table.{NodeInfo, Table}
use dor.Directory.Server.{Context, registered, init, get_key, list_line}
use dor.Directory.Server.Registry.{init-get_key}
use dor.Directory.Candidates.{candidates}
use dor.Directory.Candidates.RoundTrip.{IsListable, relays_of, candidates-list_line}
use dor.Directory.Ping.Eviction.{ticks, ticks-evict}
use mathlib.Core.List.Permᴰ
use mathlib.Core.List.{Permᴰ}

abbrev pub alice : NodeInfo
alice = record {
  uuid = codes "u1";
  name = codes "alice";
  ip = codes "10.0.0.1";
  port = pos 9000;
  public_key = codes "QUE=";
  availability_score = pos 70;
  network_score = pos 40;
}

abbrev bob : NodeInfo
bob = record alice { uuid = codes "u2"; name = codes "bob"; port = pos 9001 }

abbrev pub table_two : Table
table_two = alice ∷ bob ∷ []

-- The database works and returns the last row first.
abbrev pub backwards : Context
backwards = record {
  up = true;
  order = λ t. reverse t;
  node_addr = [];
  remote_host = codes "10.0.0.3";
  new_uuid = codes "u3";
}

pub backwards-Permᴰ : (t : Table) → Permᴰ t (reverse t)
backwards-Permᴰ t = Permᴰ.symm (Permᴰ.reverse t)

init-get_key_example :
    let node =
      registered backwards
        (codes "carol")
        (codes "9000")
        (codes "Q0M=")
        (codes "50")
        (codes "50") in
    let (table', reply) =
      init backwards
        (codes "INIT" ∷ codes "carol" ∷ codes "9000" ∷ codes "Q0M=" ∷ codes "50" ∷ codes "50" ∷ [])
        table_two in
    get_key backwards (codes "GET_KEY" ∷ node.ip ∷ codes "9000" ∷ []) table'
    ≡ (table', some (codes "KEY:" ++ (codes "Q0M=" ++ codes "\n")))
unfolding atoi
init-get_key_example =
    init-get_key backwards backwards table_two (codes "INIT") (codes "GET_KEY") (codes "carol")
      (codes "9000") (codes "Q0M=") (codes "50") (codes "50") refl refl backwards-Permᴰ
      (omega arith) refl
      (
        (λ e e'. ground (arith, (eq_iff (codes "10.0.0.1") (codes "10.0.0.3")).1 e)),
        ((λ e e'. ground (arith, (eq_iff (codes "10.0.0.1") (codes "10.0.0.3")).1 e)), tt),
      )

alice-IsListable : IsListable alice
alice-IsListable = record {
  name_bar = omega arith;
  name_comma = omega arith;
  ip_bar = omega arith;
  ip_comma = omega arith;
  key_comma = omega arith;
}

bob-IsListable : IsListable bob
bob-IsListable = record {
  name_bar = omega arith;
  name_comma = omega arith;
  ip_bar = omega arith;
  ip_comma = omega arith;
  key_comma = omega arith;
}

candidates-list_line_example :
    candidates (codes "10.0.0.3:1") (codes "10.0.0.1:9000") (list_line table_two)
    ≡ relays_of (codes "10.0.0.3:1") (codes "10.0.0.1:9000") table_two
candidates-list_line_example =
    candidates-list_line (codes "10.0.0.3:1") (codes "10.0.0.1:9000") alice (bob ∷ [])
      (alice-IsListable, (bob-IsListable, tt))

abbrev pub only_alice : NodeInfo → Bool
only_alice n = n.name == codes "alice"

ticks-evict_example :
    All (λ n. n.name ≢ codes "bob") (ticks (λ k t. reverse t) (λ k. only_alice) 4 table_two)
ticks-evict_example =
    ticks-evict (codes "bob") (λ k t. reverse t) (λ k. only_alice) (λ i. backwards-Permᴰ)
      (λ i n e. ground (arith, ap (λ s. bytes_beq s (codes "alice")) e)) 3 table_two (omega arith)
      (ground arith)
