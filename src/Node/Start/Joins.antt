-- ===== src/Node/Start/Joins.antt =====
-- A node that starts, and the directory server that it joins.
use dor.Base.{
  ◌≡◌, false, [], if◌then◌else◌, ◌==◌, nat_eq, Bytes, bytes_eq, Result, ok, err, panic, int_eq, ℤ,
}
use dor.Strings.{codes, has_prefix, trim_space}
use dor.Model.Crypto.{Crypto, CryptoLaws}
use dor.Model.Membership.{Identity}
use dor.Directory.Table.{Table}
use dor.Directory.Server.{Context}
use dor.Node.Start.{Settings, RunningNode, chosen_id, or_default, empty_maps}

-- What the server may answer that is no acknowledgement; none is a connection that failed.
abbrev pub IsRefusal : Result Bytes → Type 0
IsRefusal (ok line) = has_prefix (trim_space line) (codes "INIT_ACK") ≡ false
IsRefusal (err e) = Unit
IsRefusal panic = ⊥

-- The address of a connected node, as the server takes it.
abbrev pub seen_addr : Context → Bytes
seen_addr cx = if cx.node_addr == [] then cx.remote_host else cx.node_addr

-- What the random generator, the network and the settings give.
module _ (c : Crypto) (laws : CryptoLaws c) (private_key : c.PrivateKey) (listen : Bytes → Result ℤ)
    (port : ℤ) (s : Settings) where
  abbrev pub started_as : Identity c
  started_as = record {
    id = chosen_id s.args s.node_id;
    node_ip = [];
    port = port;
    private_key = private_key;
  }

  abbrev pub running_as : Identity c → RunningNode c
  running_as n = record {
    identity = n;
    maps = empty_maps;
    server = or_default s.server_addr (codes "localhost:8080");
  }
