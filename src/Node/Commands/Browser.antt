-- ===== src/Node/Commands/Browser.antt =====
-- The switch of `processCmd` of node_server/node/web.go.
use dor.Base.{
  suc, none, some, List, [], ◌∷◌, ◌++◌, if◌then◌else◌, ◌==◌, nat_eq, Bytes, bytes_eq, take, drop,
  int_eq, pos,
}
use dor.Strings.{atoi, split, split_max, codes, trim_space, to_upper, last_index}
use dor.Node.Commands.{
  Action, ignored, fetch_unchecked, send_onion, send_jobs, super_jobs, show_list, regenerate,
  stop_node, bad_format, bad_number, unknown, do_bench, do_sbench, trimmed, command_parts,
}

-- In the mode `auth` the node's identifier stands in front of the message.
unfoldable pub stamp : Bytes → Bytes → Bytes → Bytes
stamp mode id message =
    if mode == codes "auth" then codes "AUTH:" ++ (id ++ (b':' ∷ message)) else message

-- The case MSG, on the parts of its args.
unfoldable pub web_msg : Bytes → Bytes → List Bytes → Action
unfolding stamp
web_msg mode id (ip ∷ port ∷ message ∷ []) =
    send_onion (stamp mode id message) ((ip ++ (b':' ∷ port)) ∷ [])
web_msg mode id _ = bad_format

-- The case RELAY.
unfoldable pub web_relay : Bytes → Bytes → Bytes → Action
unfolding stamp trimmed
web_relay mode id args = elim (last_index args b',') [
  | none ↦ bad_format
  | some i ↦ send_onion (stamp mode id (drop (suc i) args)) (trimmed (split (take i args) b','))
]

-- The case SEND: the message is one job, whatever its length.
unfoldable pub web_send : Bytes → Bytes → List Bytes → Action
unfolding stamp
web_send mode id (nbr ∷ ip ∷ port ∷ message ∷ []) =
    let relays = atoi nbr in
    if relays.valid
    then send_jobs (
        record {
          dest_addr = ip ++ (b':' ∷ port);
          message = stamp mode id message;
          frag = [];
          num_relays = relays.value;
          max_retries = pos 3;
        }
        ∷ [])
    else bad_number
web_send mode id _ = bad_format

-- The case SSEND.
unfoldable pub web_ssend : Bytes → Bytes → List Bytes → Action
unfolding stamp
web_ssend mode id (group ∷ relays ∷ ip ∷ port ∷ message ∷ []) = super_jobs (
    record {
      dest_addr = ip ++ (b':' ∷ port);
      message = stamp mode id message;
      num_hops = (atoi relays).value;
      group_size = (atoi group).value;
      max_retries = pos 3;
    }
    ∷ [])
web_ssend mode id _ = bad_format

-- The switch, on the command in capitals.
unfoldable pub web_switch : Bytes → Bytes → Bytes → Bytes → Action
unfolding web_msg web_relay web_send web_ssend
web_switch mode id cmd args =
    if cmd == codes "FETCH"
    then fetch_unchecked args
    else if cmd == codes "MSG"
    then web_msg mode id (split_max 2 args b':')
    else if cmd == codes "RELAY"
    then web_relay mode id args
    else if cmd == codes "SEND"
    then web_send mode id (split_max 3 args b':')
    else if cmd == codes "SSEND"
    then web_ssend mode id (split_max 4 args b':')
    else if cmd == codes "BENCH"
    then do_bench (split_max 4 args b':')
    else if cmd == codes "SBENCH"
    then do_sbench (split_max 5 args b':')
    else if cmd == codes "LIST"
    then show_list
    else if cmd == codes "REGEN"
    then regenerate
    else if cmd == codes "QUIT"
    then stop_node
    else unknown

-- A command that is posted, with the node's identifier.
unfoldable pub process_cmd : Bytes → Bytes → Bytes → Action
unfolding web_switch command_parts
process_cmd id mode input =
    let (cmd, args) = command_parts input in
    if input == [] then ignored else web_switch mode id (to_upper (trim_space cmd)) args

-- `makeHandleCmd`, on the fields of the request's body.
unfoldable pub handle_cmd : Bytes → Bytes → Bytes → Action
unfolding process_cmd
handle_cmd id cmd mode = process_cmd id (trim_space mode) (trim_space cmd)
