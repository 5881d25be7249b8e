-- ===== src/Directory/Registration.antt =====
-- A node that joins (node_server/model/Node.go) and the directory server that answers it
-- (node_server/List_Serveur/serveur.go).
use dor.Base.{
  ◌≡◌, refl, ap, ◌∙◌, ◌≢◌, true, Option, none, some, [], ◌∷◌, ◌++◌, append_assoc, arith,
  if◌then◌else◌, ◌==◌, nat_eq, Bytes, bytes_eq, All, Lacks, Result, server_error, ok, err, int_eq,
  ℤ,
}
use dor.Strings.{
  itoa, split, split_max, split-field, split-single, split_max-field, codes, is_space, trim_space,
}
use dor.Strings.Decimal.RoundTrip.{IsInt64, atoi-itoa, itoa-Lacks}
use dor.Strings.Trim.{
  IsInk, EndsInInk-append, EndsInInk-cons, All-EndsInInk, itoa-EndsInInk, trim_space-line,
}
use dor.Encoding.{encode}
use dor.Encoding.RoundTrip.{encode-Lacks}
use dor.Model.Crypto.{Crypto, CryptoLaws}
use dor.Directory.Ping.Rows.{InRange}
use dor.Model.Membership.{
  get_scores_from_profile, Identity, init_line, join_server_list, read_ack, node_ip_of,
}
use dor.Directory.Table.{NodeInfo, Table, add_node}
use dor.Directory.Server.{Context, init, init_ack, run_command, handle_connection}

-- The line that the node reads: a server that writes none closes the connection.
abbrev pub answer_of : Option Bytes → Result Bytes
answer_of none = err server_error
answer_of (some line) = ok line

-- The connection to the server: the line goes in, its answer comes out.
abbrev pub serve : Context → Table → Bytes → Result Bytes
serve cx table line = answer_of (handle_connection cx line table).1

module _ (c : Crypto) (n : Identity c) (sa sn : ℤ) where
  abbrev pub key_text : Bytes
  key_text = encode (c.marshal_pkix (c.public_of n.private_key))

  -- The line without its line feed.
  abbrev pub init_text : Bytes
  init_text =
      codes "INIT"
      ++ (b':'
          ∷ (n.id
              ++ (b':'
                  ∷ (itoa n.port
                      ++ (b':' ∷ (key_text ++ (b':' ∷ (itoa sa ++ (b':' ∷ itoa sn)))))))))

  -- The row of the node.
  abbrev pub row : Context → NodeInfo
  row cx = record {
    uuid = cx.new_uuid;
    name = n.id;
    ip = if cx.node_addr == [] then cx.remote_host else cx.node_addr;
    port = n.port;
    public_key = key_text;
    availability_score = sa;
    network_score = sn;
  }

  pub init_text-parts :
      CryptoLaws c
      → Lacks b':' n.id
      → split init_text b':' ≡ codes "INIT" ∷ n.id ∷ itoa n.port ∷ key_text ∷ itoa sa ∷ itoa sn ∷ []
  init_text-parts laws no_colon =
      let digits : (z : ℤ) → Lacks b':' (itoa z) = λ z. itoa-Lacks b':' z (omega arith) in
      let key : Lacks b':' key_text =
        encode-Lacks b':' _ (λ d. omega (arith, d)) (laws.pkix_bytes (c.public_of n.private_key)) in
      rw (split-field b':' (codes "INIT") _ (omega arith)) (
        rw
          (split-field b':' n.id
            (itoa n.port ++ (b':' ∷ (key_text ++ (b':' ∷ (itoa sa ++ (b':' ∷ itoa sn)))))) no_colon)
          (rw
            (split-field b':' (itoa n.port) (key_text ++ (b':' ∷ (itoa sa ++ (b':' ∷ itoa sn))))
              (digits n.port))
            (rw (split-field b':' key_text (itoa sa ++ (b':' ∷ itoa sn)) key) (
              rw (split-field b':' (itoa sa) (itoa sn) (digits sa))
                (rw (split-single b':' (itoa sn) (digits sn)) refl)))))

  pub trim_space-init_line : trim_space (init_line c n sa sn) ≡ init_text
  unfolding init_line is_space
  trim_space-init_line =
      let rest =
        codes "NIT"
        ++ (b':'
            ∷ (n.id
                ++ (b':'
                    ∷ (itoa n.port
                        ++ (b':' ∷ (key_text ++ (b':' ∷ (itoa sa ++ (b':' ∷ itoa sn))))))))) in
      let ends = EndsInInk-append (codes "INIT:") _ (
        EndsInInk-append n.id _ (
          EndsInInk-cons b':' _ (
            EndsInInk-append (itoa n.port) _ (
              EndsInInk-cons b':' _ (
                EndsInInk-append key_text _ (
                  EndsInInk-cons b':' _ (
                    EndsInInk-append (itoa sa) _
                      (EndsInInk-cons b':' _ (itoa-EndsInInk sn))))))))) in
      ap trim_space (simp append_assoc refl) ∙ trim_space-line b'I' rest refl ends

  trim_space-init_ack :
      (cx : Context)
      → (row cx).ip ≢ []
      → All IsInk (row cx).ip
      → trim_space (init_ack (row cx)) ≡ codes "INIT_ACK" ++ (b':' ∷ (n.id ++ (b':' ∷ (row cx).ip)))
  unfolding is_space
  trim_space-init_ack cx ne ink =
      let rest = codes "NIT_ACK" ++ (b':' ∷ (n.id ++ (b':' ∷ (row cx).ip))) in
      let ends =
        EndsInInk-append (codes "INIT_ACK:") _
          (EndsInInk-append n.id _ (EndsInInk-cons b':' _ (All-EndsInInk (row cx).ip ne ink))) in
      ap trim_space (simp append_assoc refl) ∙ trim_space-line b'I' rest refl ends

  handle_connection-init_line :
      (cx : Context) (table : Table)
      → CryptoLaws c
      → Lacks b':' n.id
      → IsInt64 n.port
      → IsInt64 sa
      → IsInt64 sn
      → cx.up ≡ true
      → handle_connection cx (init_line c n sa sn) table
        ≡ (table ++ row cx ∷ [], some (init_ack (row cx)))
  unfolding handle_connection run_command init add_node
  handle_connection-init_line cx table laws no_colon port fits fits' up =
      rw
        (
          trim_space-init_line,
          init_text-parts laws no_colon,
          up,
          atoi-itoa n.port port,
          atoi-itoa sa fits,
          atoi-itoa sn fits',
        )
        refl

  read_ack-init_ack :
      (cx : Context)
      → Lacks b':' n.id
      → (row cx).ip ≢ []
      → All IsInk (row cx).ip
      → read_ack c n (trim_space (init_ack (row cx))) ≡ (record n { node_ip = (row cx).ip }, ok tt)
  unfolding read_ack node_ip_of
  read_ack-init_ack cx no_colon ne ink =
      rw
        (
          trim_space-init_ack cx ne ink,
          split_max-field b':' 1 (codes "INIT_ACK") (n.id ++ (b':' ∷ (row cx).ip)) (omega arith),
        )
        (rw (split_max-field b':' 0 n.id (row cx).ip no_colon) (unfold split_max in refl))

  -- A node whose name holds no colon joins a server whose database works and that saw an address
  -- that is not empty and holds no space: the server adds a row with its name, port, key and scores
  -- and that address, and the node takes the address as its own.
  pub join_server_list-handle_connection :
      (cx : Context) (table : Table)
      → CryptoLaws c
      → Lacks b':' n.id
      → IsInt64 n.port
      → IsInt64 sa
      → IsInt64 sn
      → cx.up ≡ true
      → (row cx).ip ≢ []
      → All IsInk (row cx).ip
      → ((handle_connection cx (init_line c n sa sn) table).0 ≡ table ++ row cx ∷ [])
        × (join_server_list c (serve cx table) n sa sn
            ≡ (record n { node_ip = (row cx).ip }, ok tt))
  unfolding join_server_list
  join_server_list-handle_connection cx table laws no_colon port fits fits' up ne ink =
      let served = handle_connection-init_line cx table laws no_colon port fits fits' up in
      (ap (λ p. p.0) served, rw (join_server_list, served) (read_ack-init_ack cx no_colon ne ink))

-- The scores of every profile are in the range that the ticks of the server keep.
pub get_scores_from_profile-InRange :
    (profile : Bytes)
    → InRange (get_scores_from_profile profile).0 × InRange (get_scores_from_profile profile).1
unfolding get_scores_from_profile
get_scores_from_profile-InRange profile = ground arith
