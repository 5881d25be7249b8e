-- ===== src/Tests/Start.antt =====
-- A node that starts, at concrete inputs.
use dor.Base.{[], ◌∷◌, Bytes, Result, server_error, ok, err, ℤ, pos}
use dor.Strings.{codes}
use dor.Node.Start.{Settings}

abbrev phone : Settings
phone = record {
  args = codes "node" ∷ codes "dave" ∷ [];
  node_id = [];
  server_addr = [];
  port = codes "9003";
  network_profile = codes "smartphone_4G";
  enable_web = [];
  web_port = [];
  web_bind = [];
}

abbrev listens_there : Bytes → Result ℤ
listens_there addr = ok (pos 9003)

-- No answer, and one that is no acknowledgement.
abbrev silent_server : Bytes → Bytes → Result Bytes
silent_server addr line = err server_error

abbrev full : Bytes
full = codes "ERROR:full\n"
