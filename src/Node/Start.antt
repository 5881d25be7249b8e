-- ===== src/Node/Start.antt =====
-- `NewNode` and `main` of node_server/node/main.go, and the addresses of `startWebUI` and the list of
-- `makeHandleNodes` of node_server/node/web.go.
pub mod Joins
use dor.Base.{
  Bool, Option, none, some, List, [], ◌∷◌, ◌++◌, if◌then◌else◌, ◌==◌, nat_eq, Bytes, bytes_eq,
  ◌>>=◌, ◌>>◌, Result, ok, int_eq, ℤ, pos,
}
use dor.Strings.{itoa, atoi, codes, has_prefix}
use dor.Model.Crypto.{Crypto}
use dor.Model.Node.{Node}
use dor.Model.Membership.{Identity, join_server_list, get_scores_from_profile, fetch_nodes_list}

-- The arguments and the environment of the process.
pub record Settings : Type 0 where
  pub args : List Bytes
  pub node_id : Bytes
  pub server_addr : Bytes
  pub port : Bytes
  pub network_profile : Bytes
  pub enable_web : Bytes
  pub web_port : Bytes
  pub web_bind : Bytes

-- The name from the command line, unless it is a flag, or from NODE_ID.
unfoldable pub chosen_id : List Bytes → Bytes → Bytes
chosen_id (program ∷ name ∷ more) env = if has_prefix name (codes "--") then env else name
chosen_id _ env = env

abbrev pub or_default : Bytes → Bytes → Bytes
or_default value fallback = if value == [] then fallback else value

-- What `net.Listen` is given; the port 0 is any free one.
abbrev pub listen_addr : Bytes → Bytes
listen_addr port = codes "0.0.0.0:" ++ or_default port (codes "0")

-- A node that runs: what the directory server knows of it, its maps, and the server's address.
pub record RunningNode (c : Crypto) : Type 0 where
  pub identity : Identity c
  pub maps : Node
  pub server : Bytes

-- No entry in any map: the nil ones are made at their first write.
abbrev pub empty_maps : Node
empty_maps = record {
  pending_acks = [];
  channels = λ ch. [];
  pending_relays = [];
  frag_buf = [];
  frag_total = [];
  seen_msgs = [];
  received_msgs = [];
}

module _ (c : Crypto) (generated : Result c.PrivateKey) (listen : Bytes → Result ℤ) where
  -- `generated` is the result of `rsa.GenerateKey`, `listen` gives the port of the listener.
  unfoldable pub new_node : Settings → Bytes → Bytes → Result (RunningNode c)
  new_node s id server = do
    private_key ← generated
    port ← listen (listen_addr s.port)
    ok (record {
      identity = record { id = id; node_ip = []; port = port; private_key = private_key };
      maps = empty_maps;
      server = server;
    })

  -- The node joins; when the server does not take it, the node runs on all the same.
  unfoldable pub join_as : Settings → (Bytes → Bytes → Result Bytes) → RunningNode c → RunningNode c
  join_as s exchange n =
      let (sa, sn) = get_scores_from_profile s.network_profile in
      record {
        identity = (join_server_list c (exchange n.server) n.identity sa sn).0;
        maps = n.maps;
        server = n.server;
      }

  -- `main`, up to the console: none is the printed usage or error.
  unfoldable pub start_main : Settings → (Bytes → Bytes → Result Bytes) → Option (RunningNode c)
  unfolding new_node join_as
  start_main s exchange =
      let id = chosen_id s.args s.node_id in
      if id == []
      then none
      else elim (new_node s id (or_default s.server_addr (codes "localhost:8080"))) [
        | ok n ↦ some (join_as s exchange n)
        | _ ↦ none
      ]

-- Whether the web interface runs, and where.
unfoldable pub web_enabled : Settings → Bool
web_enabled s = s.enable_web == codes "1"

-- A variable WEB_PORT that is no number leaves 9090.
unfoldable pub web_addr : Settings → Bytes
web_addr s =
    let parsed = atoi s.web_port in
    let port =
      if s.web_port == [] then pos 9090 else if parsed.valid then parsed.value else pos 9090 in
    or_default s.web_bind (codes "127.0.0.1") ++ (codes ":" ++ itoa port)

-- The field `list` of the answer of /nodes.
unfoldable pub nodes_field : (Bytes → Result Bytes) → Bytes
nodes_field exchange = elim (fetch_nodes_list exchange) [
  | ok list ↦ or_default list (codes "LIST:empty")
  | _ ↦ codes "LIST:empty"
]
