-- ===== src/Model/Membership.antt =====
-- `JoinServerList`, `RegenerateKeys`, `Stop` and `GetNodesList` of node_server/model/Node.go: what a
-- node says to the directory server. A dialled connection is a function from the written line to
-- the line that is read back; none is a connection that could not be made.
use dor.Base.{
  List, ◌∷◌, ◌++◌, if◌then◌else◌, ◌==◌, nat_eq, Bytes, bytes_eq, ◌>>=◌, Result, server_error, ok,
  err, panic, int_eq, ℤ, pos,
}
use dor.Strings.{itoa, split_max, codes, has_prefix, trim_space}
use dor.Encoding.{encode}
use dor.Model.Crypto.{Crypto}

-- The part of a node that the directory server knows: `ID`, `NodeIP`, `Port` and the key pair.
pub record Identity (c : Crypto) : Type 0 where
  pub id : Bytes
  pub node_ip : Bytes
  pub port : ℤ
  pub private_key : c.PrivateKey

-- `INIT:%s:%d:%s:%d:%d`
unfoldable pub init_line : (c : Crypto) → Identity c → ℤ → ℤ → Bytes
init_line c n sa sn =
    codes "INIT:"
    ++ (n.id
        ++ (b':'
            ∷ (itoa n.port
                ++ (b':'
                    ∷ (encode (c.marshal_pkix (c.public_of n.private_key))
                        ++ (b':' ∷ (itoa sa ++ (b':' ∷ (itoa sn ++ codes "\n")))))))))

-- The address that the server saw, from the third part of the answer.
unfoldable pub node_ip_of : Bytes → List Bytes → Bytes
node_ip_of old (word ∷ name ∷ host ∷ more) = host
node_ip_of old _ = old

unfoldable pub read_ack : (c : Crypto) → Identity c → Bytes → Identity c × Result (Unit {0})
unfolding node_ip_of
read_ack c n response =
    if has_prefix response (codes "INIT_ACK")
    then (
      record {
        id = n.id;
        node_ip = node_ip_of n.node_ip (split_max 2 response b':');
        port = n.port;
        private_key = n.private_key;
      },
      ok tt,
    )
    else (n, err server_error)

unfoldable pub join_server_list :
    (c : Crypto) → (Bytes → Result Bytes) → Identity c → ℤ → ℤ → Identity c × Result (Unit {0})
join_server_list c exchange n sa sn = elim (exchange (init_line c n sa sn)) [
  | ok line ↦ read_ack c n (trim_space line)
  | err e ↦ (n, err e)
  | panic ↦ (n, panic)
]

-- `UPDATE_KEY:%s:%s`, with the new public key.
unfoldable pub update_line : (c : Crypto) → Bytes → c.PublicKey → Bytes
update_line c id new_public =
    codes "UPDATE_KEY:" ++ (id ++ (b':' ∷ (encode (c.marshal_pkix new_public) ++ codes "\n")))

-- The new key pair is in place before the server is told; if it cannot be told, the old key stays
-- in its table.
unfoldable pub regenerate_keys :
    (c : Crypto)
    → (Bytes → Result (Unit {0}))
    → c.PrivateKey
    → Identity c
    → Identity c × Result (Unit {0})
regenerate_keys c write new_private n = (
  record { id = n.id; node_ip = n.node_ip; port = n.port; private_key = new_private },
  write (update_line c n.id (c.public_of new_private)),
)

-- The line of `Stop`.
unfoldable pub quit_line : (c : Crypto) → Identity c → Bytes
quit_line c n = codes "QUIT:" ++ (n.id ++ codes "\n")

-- `Node.GetNodesList`
unfoldable pub fetch_nodes_list : (Bytes → Result Bytes) → Result Bytes
fetch_nodes_list exchange = do response ← exchange (codes "GET_LIST\n"); ok (trim_space response)

-- `GetScoresFromProfile` of node_server/node/onion.go: the scores that `main` joins with.
unfoldable pub get_scores_from_profile : Bytes → ℤ × ℤ
get_scores_from_profile profile =
    if profile == codes "server"
    then (pos 100, pos 100)
    else if profile == codes "laptop_WIFI7"
    then (pos 60, pos 85)
    else if profile == codes "smartphone_4G"
    then (pos 30, pos 75)
    else if profile == codes "smartphone_2G"
    then (pos 20, pos 10)
    else (pos 15, pos 15)
