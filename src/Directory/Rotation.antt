-- ===== src/Directory/Rotation.antt =====
-- A node that renews its key pair (`RegenerateKeys` of node_server/model/Node.go), the directory server
-- that is told, and a node that then asks for the key (`FetchKeyFromServer` of
-- node_server/node/keycache.go).
use dor.Base.{
  suc, ◌≤◌, ◌≡◌, refl, sym, ap, ◌∙◌, inl, inr, true, some, [], ◌∷◌, ◌++◌, append_assoc, arith,
  if_elim, ◌==◌, eq_iff, nat_eq, Bytes, bytes_eq, length, take, All, Lacks, IsMember,
  IsMember-Permᴰ, length-Permᴰ, take-all, All-Permᴰ, Result, ok, int_eq, ℤ,
}
use dor.Strings.{
  itoa, split, split-field, split-single, split_max_pair, codes, is_space, trim_space,
}
use dor.Strings.Decimal.RoundTrip.{IsInt64, atoi-itoa, itoa-Lacks}
use dor.Strings.Trim.{
  EndsInInk, EndsInInk-cons, EndsInInk-append, All-EndsInInk, itoa-EndsInInk, trim_space-line,
}
use dor.Encoding.{encode}
use dor.Encoding.RoundTrip.{encode-Lacks, encode-IsInk, decode-encode}
use dor.Model.Crypto.{Crypto, CryptoLaws}
use dor.Model.Membership.{Identity, update_line, regenerate_keys}
use dor.Node.KeyCache.{fetch_key_from_server, key_of_parts}
use dor.Directory.Table.{NodeInfo, Table, update, with_key, get_nodes_list}
use dor.Directory.Server.{
  Context, max_sample_nodes, handle_connection, run_parts, run_command, get_key,
}
use dor.Directory.Server.Registry.{HasKey, key_answer_lem}
use dor.Directory.Registration.{serve, answer_of}
use dor.Directory.Service.Effects.{
  rekeys, apply, line_effect, fields_effect, rekey_effect, handle_connection-apply,
}
use mathlib.Core.List.{Permᴰ}

-- The rows at an address are those of one name.
abbrev pub IsNamed : Bytes → ℤ → Bytes → NodeInfo → Type 0
IsNamed ip port name m = m.ip ≡ ip → m.port ≡ port → m.name ≡ name

update-HasKey :
    (ip : Bytes) (port : ℤ) (name key : Bytes) (table : Table)
    → All (IsNamed ip port name) table
    → All (HasKey ip port key) (update (with_key key) name table)
unfolding update
update-HasKey ip port name key [] named = tt
update-HasKey ip port name key (m ∷ table) (named, more) = (
  if_elim (HasKey ip port key) (m.name == name) _ _ (λ e at_ip at_port. refl)
      (λ e at_ip at_port. absurd (ground (arith, e, eq_iff m.name name, named at_ip at_port))),
  update-HasKey ip port name key table more,
)

update-IsMember :
    (name key : Bytes) (table : Table) (n : NodeInfo)
    → IsMember n table
    → n.name ≡ name
    → IsMember (with_key key n) (update (with_key key) name table)
unfolding update
update-IsMember name key [] n there same = absurd there
update-IsMember name key (m ∷ table) n (inl e) same =
    inl (rw ((eq_iff m.name name).1 (ap NodeInfo.name (sym e) ∙ same)) (ap (with_key key) e))
update-IsMember name key (m ∷ table) n (inr there) same =
    inr (update-IsMember name key table n there same)

length-update :
    (f : NodeInfo → NodeInfo) (name : Bytes) (table : Table)
    → length (update f name table) ≡ length table
unfolding update
length-update f name [] = refl
length-update f name (m ∷ table) = ap suc (length-update f name table)

module _ (c : Crypto) (laws : CryptoLaws c) (k : c.PublicKey) where
  abbrev pub key_field : Bytes
  key_field = encode (c.marshal_pkix k)

  key_field-EndsInInk : EndsInInk (b':' ∷ key_field)
  unfolding is_space
  key_field-EndsInInk =
      All-EndsInInk (b':' ∷ key_field) (λ e. ground (arith, e))
        (refl, encode-IsInk _ (laws.pkix_bytes k))

  key_field-Lacks : Lacks b':' key_field
  key_field-Lacks = encode-Lacks b':' _ (λ d. omega (arith, d)) (laws.pkix_bytes k)

  -- The effect of the line.
  update_line-rekeys :
      (cx : Context) (id : Bytes)
      → cx.up ≡ true
      → Lacks b':' id
      → line_effect cx (update_line c id k) ≡ rekeys id key_field
  unfolding line_effect fields_effect rekey_effect update_line is_space
  update_line-rekeys cx id up no_colon =
      let rest = codes "PDATE_KEY" ++ (b':' ∷ (id ++ (b':' ∷ key_field))) in
      let trimmed : trim_space (update_line c id k) ≡ b'U' ∷ rest =
        ap trim_space (simp append_assoc refl)
        ∙ trim_space-line b'U' rest refl (
            EndsInInk-append (codes "UPDATE_KEY:") _ (EndsInInk-append id _ key_field-EndsInInk)) in
      let parts : split (b'U' ∷ rest) b':' ≡ codes "UPDATE_KEY" ∷ id ∷ key_field ∷ [] =
        rw (split-field b':' (codes "UPDATE_KEY") (id ++ (b':' ∷ key_field)) (omega arith)) (
          rw (split-field b':' id key_field no_colon)
            (rw (split-single b':' key_field key_field-Lacks) refl)) in
      rw (up, trimmed, parts) refl

  -- The answer to a request for the key of an address, by a server whose rows at the address all
  -- have this key.
  get_key-answer :
      (cx : Context) (table : Table) (ip : Bytes) (port : ℤ) (n : NodeInfo)
      → cx.up ≡ true
      → ((t : Table) → Permᴰ t (cx.order t))
      → length table ≤ max_sample_nodes
      → Lacks b':' ip
      → IsInt64 port
      → All (HasKey ip port key_field) table
      → IsMember n table
      → n.ip ≡ ip
      → n.port ≡ port
      → handle_connection cx (codes "GET_KEY:" ++ ((ip ++ (b':' ∷ itoa port)) ++ codes "\n")) table
        ≡ (table, some (codes "KEY:" ++ (key_field ++ codes "\n")))
  unfolding handle_connection run_parts run_command get_key get_nodes_list is_space
  get_key-answer cx table ip port n up order few no_colon fits known member at_ip at_port =
      let rest = codes "ET_KEY" ++ (b':' ∷ (ip ++ (b':' ∷ itoa port))) in
      let trimmed : trim_space (codes "GET_KEY:" ++ ((ip ++ (b':' ∷ itoa port)) ++ codes "\n"))
          ≡ b'G' ∷ rest =
        trim_space-line b'G' rest refl (
          EndsInInk-append (codes "GET_KEY:") _
            (EndsInInk-append ip _ (EndsInInk-cons b':' _ (itoa-EndsInInk port)))) in
      let parts : split (b'G' ∷ rest) b':' ≡ codes "GET_KEY" ∷ ip ∷ itoa port ∷ [] =
        rw (split-field b':' (codes "GET_KEY") (ip ++ (b':' ∷ itoa port)) (omega arith)) (
          rw (split-field b':' ip (itoa port) no_colon)
            (rw (split-single b':' (itoa port) (itoa-Lacks b':' port (omega arith))) refl)) in
      let listed : take max_sample_nodes (cx.order table) ≡ cx.order table =
        take-all max_sample_nodes (cx.order table)
          (omega (arith, length-Permᴰ (order table), few)) in
      let answer =
        key_answer_lem (cx.order table) ip port key_field n
          (All-Permᴰ (HasKey ip port key_field) (order table) known)
          (IsMember-Permᴰ n (order table) member) at_ip at_port in
      rw (trimmed, parts, up, atoi-itoa port fits, listed, answer) refl

  -- What `FetchKeyFromServer` makes of this answer.
  fetch_key-answer :
      (exchange : Bytes → Result Bytes) (addr : Bytes)
      → exchange (codes "GET_KEY:" ++ (addr ++ codes "\n"))
        ≡ ok (codes "KEY:" ++ (key_field ++ codes "\n"))
      → fetch_key_from_server c exchange addr ≡ ok k
  unfolding fetch_key_from_server key_of_parts is_space
  fetch_key-answer exchange addr e =
      let trimmed : trim_space (codes "KEY:" ++ (key_field ++ codes "\n"))
          ≡ codes "KEY" ++ (b':' ∷ key_field) =
        trim_space-line b'K' (codes "EY:" ++ key_field) refl
          (EndsInInk-append (codes "KEY") _ key_field-EndsInInk) in
      rw
        (
          e,
          trimmed,
          split_max_pair b':' (codes "KEY") key_field (omega arith),
          decode-encode _ (laws.pkix_bytes k),
          laws.parse-marshal k,
        )
        refl

-- A node of the table renews its key pair and writes a line to the server, while the server's database works,
-- its name holds no colon, every row at its address has its name, and at most 500 nodes are in the
-- table. Then whoever asks the server for the key of its address, in whatever order the rows come,
-- gets the new public key, and the node holds the private key to it.
pub regenerate_keys-fetch_key_from_server :
    (c : Crypto) (laws : CryptoLaws c) (n : Identity c) (new_private : c.PrivateKey)
    (write : Bytes → Result (Unit {0})) (cx later : Context) (table : Table) (m : NodeInfo)
    → cx.up ≡ true
    → later.up ≡ true
    → ((t : Table) → Permᴰ t (later.order t))
    → length table ≤ max_sample_nodes
    → Lacks b':' n.id
    → Lacks b':' m.ip
    → IsInt64 m.port
    → IsMember m table
    → m.name ≡ n.id
    → All (IsNamed m.ip m.port n.id) table
    → let (renewed, result) = regenerate_keys c write new_private n in
      let line = update_line c n.id (c.public_of renewed.private_key) in
      let told = (handle_connection cx line table).0 in
      (result ≡ write line)
      × (fetch_key_from_server c (serve later told) (m.ip ++ (b':' ∷ itoa m.port))
          ≡ ok (c.public_of renewed.private_key))
      × (renewed.private_key ≡ new_private)
unfolding regenerate_keys apply
regenerate_keys-fetch_key_from_server c laws n new_private write cx later table m up up' order few
      no_colon plain fits member same named =
    let k = c.public_of new_private in
    let key = key_field c laws k in
    let table' = update (with_key key) n.id table in
    let told : (handle_connection cx (update_line c n.id k) table).0 ≡ table' =
      handle_connection-apply cx table (update_line c n.id k)
      ∙ ap (λ e. apply e table) (update_line-rekeys c laws k cx n.id up no_colon) in
    let answer =
      get_key-answer c laws k later table' m.ip m.port (with_key key m) up' order
        (omega (arith, length-update (with_key key) n.id table, few)) plain fits
        (update-HasKey m.ip m.port n.id key table named)
        (update-IsMember n.id key table m member same) refl refl in
    (
      refl,
      ap (λ t. fetch_key_from_server c (serve later t) (m.ip ++ (b':' ∷ itoa m.port))) told
          ∙ fetch_key-answer c laws k (serve later table') (m.ip ++ (b':' ∷ itoa m.port))
              (ap (λ a. answer_of a.1) answer),
      refl,
    )
