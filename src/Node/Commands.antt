-- ===== src/Node/Commands.antt =====
-- `runCLI` of node_server/node/cli.go and `processCmd` of node_server/node/web.go: what a line that
-- the user types, or a command that the browser posts, makes the node do.
pub mod Console
pub mod Browser
pub mod Agreement
pub mod Sending
pub mod Fetch
pub mod Perform
use dor.Base.{ℕ, zero, suc, List, [], ◌∷◌, ◌++◌, Bytes, ℤ, pos, negsuc}
use dor.Strings.{itoa, atoi, split_max, codes, trim_space}
use dor.Node.Fragments.{send_parts}

-- One call of `SendWithRetry`, from the try 0.
pub record Job : Type 0 where
  pub dest_addr : Bytes
  pub message : Bytes
  pub frag : Bytes
  pub num_relays : ℤ
  pub max_retries : ℤ

-- One call of `SendWithRetrySuper`, from the try 0 and with no failed node.
pub record SuperJob : Type 0 where
  pub dest_addr : Bytes
  pub message : Bytes
  pub num_hops : ℤ
  pub group_size : ℤ
  pub max_retries : ℤ

-- What a command does. `send_onion` builds an onion for a route without a return route, and sends it
-- to the first address; the jobs are goroutines. FETCH of the console stops at every error of the
-- connection, that of the browser at an error of the dial only; QUIT of the console stops the node
-- and ends the process, that of the browser stops the node only.
pub data Action : Type 0 where
  ignored : Action
  fetch_checked : Bytes → Action
  fetch_unchecked : Bytes → Action
  send_onion : Bytes → List Bytes → Action
  send_jobs : List Job → Action
  super_jobs : List SuperJob → Action
  show_list : Action
  regenerate : Action
  quit_process : Action
  stop_node : Action
  bad_format : Action
  bad_number : Action
  unknown : Action

-- The rounds of `for i := 0; i < nbrMsg; i++`.
unfoldable pub rounds : ℤ → ℕ
rounds (pos n) = n
rounds (negsuc n) = 0

-- `fmt.Sprintf("bench-msg-%d", i)`
unfoldable pub bench_message : Bytes → ℕ → Bytes
bench_message prefix i = prefix ++ itoa (pos i)

unfoldable pub bench_jobs : Bytes → ℤ → ℤ → ℕ → ℕ → List Job
unfolding bench_message
bench_jobs dest relays retries i zero = []
bench_jobs dest relays retries i (suc n) =
    record {
      dest_addr = dest;
      message = bench_message (codes "bench-msg-") i;
      frag = [];
      num_relays = relays;
      max_retries = retries;
    }
    ∷ bench_jobs dest relays retries (suc i) n

unfoldable pub sbench_jobs : Bytes → ℤ → ℤ → ℤ → ℕ → ℕ → List SuperJob
unfolding bench_message
sbench_jobs dest hops group retries i zero = []
sbench_jobs dest hops group retries i (suc n) =
    record {
      dest_addr = dest;
      message = bench_message (codes "sbench-msg-") i;
      num_hops = hops;
      group_size = group;
      max_retries = retries;
    }
    ∷ sbench_jobs dest hops group retries (suc i) n

-- The case BENCH, the same in both; an argument that is no number is 0 or the nearest integer.
unfoldable pub do_bench : List Bytes → Action
unfolding rounds bench_jobs
do_bench (nbr ∷ relays ∷ retries ∷ ip ∷ port ∷ []) = send_jobs (
    bench_jobs (ip ++ (b':' ∷ port)) (atoi relays).value (atoi retries).value 0
      (rounds (atoi nbr).value))
do_bench _ = bad_format

-- The case SBENCH, the same in both.
unfoldable pub do_sbench : List Bytes → Action
unfolding rounds sbench_jobs
do_sbench (nbr ∷ group ∷ relays ∷ retries ∷ ip ∷ port ∷ []) = super_jobs (
    sbench_jobs (ip ++ (b':' ∷ port)) (atoi relays).value (atoi group).value (atoi retries).value 0
      (rounds (atoi nbr).value))
do_sbench _ = bad_format

-- The route in front of the last comma, with the spaces around its addresses taken off.
unfoldable pub trimmed : List Bytes → List Bytes
trimmed [] = []
trimmed (addr ∷ addrs) = trim_space addr ∷ trimmed addrs

-- The command and what is behind its colon.
unfoldable pub command_parts : Bytes → Bytes × Bytes
command_parts input = elim (split_max 1 input b':') [
  | [] ↦ ([], [])
  | cmd ∷ more ↦ elim more [ [] ↦ (cmd, []) | args ∷ rest ↦ (cmd, args) ]
]
