-- ===== src/Lib.antt =====
-- DOR is an onion router: nodes that relay messages in layers of encryption, and a directory server
-- that knows the nodes. This library models both and proves what they do.
--
-- The program's parts and the modules that model them:
--
-- - node_server/model/OnionLayer.go: Model/Layer. `OnionLayer`, its text, the parser, the identifiers.
-- - node_server/model/Broadcast.go: Model/Broadcast. One AES key for a group of RSA keys.
-- - node_server/model/Node.go: Model/Aes (the AES layer), Model/Node (the maps of a node and
--   `SendTo`), Model/Relay (NACK, ACK and RELAY), Model/Fragment (fragments of messages),
--   Model/Peel and Model/Handler (`handlerroutine`), Model/Shuffle (the shuffled next addresses),
--   Model/Membership (what a node says to the directory server).
-- - node_server/node/onion.go: Node/Onion (`encryptOnionLayers`), Node/Encapsulate
--   (`Encapsulator_func`). node_server/node/keycache.go: Node/KeyCache.
-- - node_server/node/super_send.go: Node/Super (`PickLayer`, onions for groups), Node/SendSuper
--   (`SendWithRetrySuper`). node_server/node/cluster.go: Node/Cluster (`BuildSmartClusters`).
-- - Node/Super/Delivery, Arrival and Answer put the sender, the handlers of every hop and the
--   handler at the end of the way back together; Node/Send/Acknowledged and Node/SendSuper/EndToEnd
--   put the senders in front. A hop (`HopNode`) is a key, what comes from outside, and the state of
--   the node when the onion comes.
-- - node_server/node/cli.go: Node/Fragments (`splitMessage`, the fragments of SEND),
--   Node/Commands/Console (the commands), Node/Commands/Fetch (FETCH),
--   Node/Commands/Perform (what MSG and RELAY send). node_server/node/web.go:
--   Node/Commands/Browser (`processCmd`).
-- - node_server/node/main.go: Node/Start (`NewNode`, `main`).
-- - node_server/node/telemetry.go and its calls: Node/Telemetry.
-- - The goroutine of node_server/node/send.go that waits for an answer, against the handlers of
--   node_server/model/Node.go: Node/Race, a step relation.
-- - node_server/node/send.go: Directory/Candidates (the relays that a list offers), Node/Send
--   (`SendWithRetry`).
-- - node_server/data/SQLManager.go, node_server/model/NodeInfo.go: Directory/Table.
-- - node_server/List_Serveur/serveur.go: Directory/Server (`handleConnection`), Directory/Ping
--   (`TestPing`), Directory/Registration (a node that joins, and the server), Directory/Rotation (a
--   node that renews its key), Directory/Service (`main`: connections, probes and the console in any
--   order).
-- - The log stream of node_server/node/web.go (`logBroker`, `handleLogs`): Streams.
--   dashboard/main.go: Streams/Dashboard, the event history and the streams of the pages.
--
-- Base, Strings and Encoding hold what the parts share: tests, lists, maps, results, and Go's
-- strings, strconv and base64 packages as far as the program calls them. Tests holds the examples.
--
-- How the code is modelled. A node's state is the record `Node`; a handler takes a `Run`, the state
-- with the calls of `SendTo` and the written lines so far, and gives the new one with a `Status`:
-- it returned, panicked, or waits on a full channel. Errors and panics elsewhere are the values
-- `err` and `panic` of `Result`. Whether a dial succeeds, the time, the random draws, the answers of
-- the directory server, the order of the rows of SQLite and whether its statements work are
-- arguments. RSA, AES and the key format of crypto/x509 are the record `Crypto`, and what is
-- assumed of them is `CryptoLaws`. Strings are lists of bytes, and integers are 64-bit values
-- where they are parsed and printed.
--
-- Fuel and bounds. `splitMessage` runs on fuel, the length of the message, which suffices because
-- each round cuts a byte off. `nat_text` has one round more than the number; a decimal number has
-- no more digits than that. `send_with_retry` and `send_with_retry_super` run on the number of
-- tries that are left. Every other loop runs over a list or counts down.
--
-- Not modelled: interleavings other than those of Node/Race, Streams and Directory/Service, TLS and
-- sockets, the timers, the reading and printing of the console, the pages and the HTTP glue of the web
-- interface, and the posting of telemetry: they move bytes to a display or hold no state of the
-- protocol.
pub mod Base
pub mod Strings
pub mod Encoding
pub mod Model
pub mod Node
pub mod Directory
pub mod Streams
pub mod Tests
