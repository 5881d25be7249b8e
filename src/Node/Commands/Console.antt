-- ===== src/Node/Commands/Console.antt =====
-- The switch of `runCLI` of node_server/node/cli.go.
use dor.Base.{
  suc, none, some, List, [], ◌∷◌, ◌++◌, if◌then◌else◌, ◌==◌, nat_eq, Bytes, bytes_eq, take, drop,
  int_eq, ℤ, pos,
}
use dor.Strings.{atoi, split, split_max, codes, trim_space, to_upper, last_index}
use dor.Node.Fragments.{send_parts}
use dor.Node.Commands.{
  Action, ignored, fetch_checked, send_onion, send_jobs, super_jobs, show_list, regenerate,
  quit_process, bad_format, bad_number, unknown, do_bench, do_sbench, trimmed, command_parts, Job,
}

-- The case MSG, on the parts of its args.
unfoldable pub cli_msg : List Bytes → Action
cli_msg (ip ∷ port ∷ message ∷ []) = send_onion message ((ip ++ (b':' ∷ port)) ∷ [])
cli_msg _ = bad_format

-- The case RELAY.
unfoldable pub cli_relay : Bytes → Action
unfolding trimmed
cli_relay args = elim (last_index args b',') [
  | none ↦ bad_format
  | some i ↦ send_onion (drop (suc i) args) (trimmed (split (take i args) b','))
]

-- The jobs for the parts of a message.
unfoldable pub cli_jobs : Bytes → ℤ → List (Bytes × Bytes) → List Job
cli_jobs dest relays [] = []
cli_jobs dest relays ((message, frag) ∷ parts) =
    record {
      dest_addr = dest;
      message = message;
      frag = frag;
      num_relays = relays;
      max_retries = pos 3;
    }
    ∷ cli_jobs dest relays parts

-- The case SEND; `frag_id` is the identifier that `GenerateMsgID` makes for a long message.
unfoldable pub cli_send : Bytes → List Bytes → Action
unfolding cli_jobs send_parts
cli_send frag_id (nbr ∷ ip ∷ port ∷ message ∷ []) =
    let relays = atoi nbr in
    if relays.valid
    then send_jobs (cli_jobs (ip ++ (b':' ∷ port)) relays.value (send_parts frag_id message))
    else bad_number
cli_send frag_id _ = bad_format

-- The case SSEND.
unfoldable pub cli_ssend : List Bytes → Action
cli_ssend (group ∷ relays ∷ ip ∷ port ∷ message ∷ []) = super_jobs (
    record {
      dest_addr = ip ++ (b':' ∷ port);
      message = message;
      num_hops = (atoi relays).value;
      group_size = (atoi group).value;
      max_retries = pos 3;
    }
    ∷ [])
cli_ssend _ = bad_format

-- The switch, on the command in capitals.
unfoldable pub cli_switch : Bytes → Bytes → Bytes → Action
unfolding cli_msg cli_relay cli_send cli_ssend
cli_switch frag_id cmd args =
    if cmd == codes "FETCH"
    then fetch_checked args
    else if cmd == codes "MSG"
    then cli_msg (split_max 2 args b':')
    else if cmd == codes "RELAY"
    then cli_relay args
    else if cmd == codes "SEND"
    then cli_send frag_id (split_max 3 args b':')
    else if cmd == codes "BENCH"
    then do_bench (split_max 4 args b':')
    else if cmd == codes "LIST"
    then show_list
    else if cmd == codes "REGEN"
    then regenerate
    else if cmd == codes "SSEND"
    then cli_ssend (split_max 4 args b':')
    else if cmd == codes "SBENCH"
    then do_sbench (split_max 5 args b':')
    else if cmd == codes "QUIT"
    then quit_process
    else unknown

-- One round of the loop, for a line of the console.
unfoldable pub run_cli : Bytes → Bytes → Action
unfolding cli_switch command_parts
run_cli frag_id line =
    let input = trim_space line in
    let (cmd, args) = command_parts input in
    if input == [] then ignored else cli_switch frag_id (to_upper cmd) args
