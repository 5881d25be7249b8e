-- ===== src/Node/Commands/Perform/Direct.antt =====
-- A direct message: from the line that the user types to the node that gets it.
use dor.Base.{
  ℕ, ◌+◌, ◌≤◌, ◌<◌, ◌≡◌, refl, sym, ◌∙◌, inl, true, false, none, some, List, [], ◌∷◌, ◌++◌, arith,
  eq_refl, nat_eq, Bytes, bytes_eq, length, All-append, Lacks, IsBytes, lookup, Result, ok, int_eq,
}
use dor.Strings.{split_max, split_max-field, codes, trim_space, to_upper}
use dor.Model.Crypto.{Crypto, CryptoLaws, Fresh, IsFresh}
use dor.Model.Aes.{encrypt_aes_lem}
use dor.Model.Layer.{OnionLayer, onionlayer_to_string, generate_msg_id}
use dor.Model.Layer.Ids.{generate_msg_id-plain}
use dor.Model.Layer.RoundTrip.{string_to_onion_layer-onionlayer_to_string}
use dor.Model.Broadcast.RoundTrip.{broadcast_decrypt-broadcast_encrypt}
use dor.Model.Peel.{peel}
use dor.Model.Node.{Run, Env, finished, send_to}
use dor.Model.Handler.{handlerroutine}
use dor.Node.KeyCache
use dor.Node.KeyCache.{KeyCache, CachedKey, is_expired}
use dor.Node.Onion.{encrypt_for_node, encrypt_onion_layers, build_layers, wrap_loop, key_of}
use dor.Node.Onion.Groups.{encrypt_for_node-eq-broadcast_encrypt}
use dor.Node.Encapsulate.{
  cached_key, needs_fetch, refresh_key, refresh_keys, return_part, build_onions, encapsulator_func,
}
use dor.Node.Super.{final_layer, nack_ids}
use dor.Node.Super.Peels.{IsSendable}
use dor.Node.Super.Arrival.{final_layer-IsSendable, handle_onion-opened}
use dor.Node.Super.Delivery.{final_layer-delivered}
use dor.Node.Commands.{send_onion}
use dor.Node.Commands.Console.{run_cli, cli_switch, cli_msg}
use dor.Node.Commands.Sending.{command_parts-field}
use dor.Node.Commands.Fetch.{cli_fetch}
use dor.Node.Commands.Fetch.Answer.{answered, pubkey_line, fetch-handlerroutine}
use dor.Node.Commands.Perform.{hand_over, perform_onion}
use dor.Node.Commands.Perform.Wire.{onion_text, handlerroutine-onion_text}

-- The innermost layer of a message without a return onion.
abbrev pub direct_layer : List ℕ → Bytes → OnionLayer
direct_layer ns message = final_layer (generate_msg_id [] ns) [] [] [] message

direct_layer-IsSendable :
    (ns : List ℕ) (message : Bytes) → IsBytes message → IsSendable (direct_layer ns message)
direct_layer-IsSendable ns message bytes =
    final_layer-IsSendable (generate_msg_id [] ns) [] [] message
      (generate_msg_id-plain ns, ((tt, tt), ((tt, tt), tt))) bytes

module _ (c : Crypto) (laws : CryptoLaws c) where
  -- One node's encryption.
  abbrev body_of : Fresh → Bytes → Bytes
  body_of f plaintext = f.nonce ++ c.gcm_seal f.key f.nonce plaintext

  encrypt_for_node_lem :
      (f : Fresh) (plaintext : Bytes) (k : c.PublicKey)
      → IsFresh f
      → 98 ≤ c.modulus_size k
      → (enc_key : Bytes) × (c.oaep_encrypt k (f.seed 0) f.key ≡ some enc_key)
        × (encrypt_for_node c f plaintext k ≡ ok (onion_text enc_key (body_of f plaintext)))
  unfolding encrypt_for_node
  encrypt_for_node_lem f plaintext k good fits =
      let (t, made) = laws.oaep_accepts k (f.seed 0) f.key (omega (arith, good.key_length)) in
      (t, made, rw (encrypt_aes_lem c f plaintext good) (rw (made) refl))

  body_of-IsBytes :
      (f : Fresh) (plaintext : Bytes)
      → IsFresh f
      → IsBytes plaintext
      → IsBytes (body_of f plaintext)
  body_of-IsBytes f plaintext good bytes =
      All-append (λ b. b < 256) f.nonce (c.gcm_seal f.key f.nonce plaintext) good.nonce_bytes
        (laws.gcm_bytes f.key f.nonce plaintext bytes)

  -- The node opens the layer that was encrypted for it.
  peel-direct_layer :
      (f : Fresh) (l : OnionLayer) (sk : c.PrivateKey) (text : Bytes)
      → IsFresh f
      → IsSendable l
      → encrypt_for_node c f (onionlayer_to_string l) (c.public_of sk) ≡ ok text
      → peel c sk text ≡ ok l
  unfolding peel
  peel-direct_layer f l sk text good sendable made =
      rw
        (broadcast_decrypt-broadcast_encrypt c laws f good sk (onionlayer_to_string l)
          (c.public_of sk ∷ []) text sendable.bytes (inl refl)
          (sym (encrypt_for_node-eq-broadcast_encrypt c f (onionlayer_to_string l) (c.public_of sk))
            ∙ made))
        (string_to_onion_layer-onionlayer_to_string l sendable.printable)

  module _ (exchange : Bytes → Result Bytes) (clock : ℕ → ℕ)
      (forward_fresh return_fresh : ℕ → Fresh) (draws : ℕ → List ℕ) where
    module _ (cache : KeyCache c.PublicKey) (v : CachedKey c.PublicKey) (dest : Bytes)
        (found : KeyCache.get cache dest ≡ some v) (valid : is_expired (clock 0) v ≡ false) where
      -- A known key is not fetched.
      refresh_keys-known : refresh_keys c exchange clock 0 cache (dest ∷ []) ≡ (cache, ok tt)
      unfolding refresh_keys refresh_key needs_fetch
      refresh_keys-known = ground (arith, found, valid)

      module _ (sender_addr message text : Bytes)
          (made : encrypt_for_node c
              (forward_fresh 0)
              (onionlayer_to_string (direct_layer (draws 0) message))
              v.key
            ≡ ok text) where
        -- The onion for one node is its encryption.
        encrypt_onion_layers-direct :
            (nacks : List Bytes)
            → encrypt_onion_layers c
                (cached_key c cache)
                forward_fresh
                (dest ∷ [])
                sender_addr
                nacks
                (direct_layer (draws 0) message)
              ≡ ok text
        unfolding encrypt_onion_layers build_layers wrap_loop key_of cached_key
        encrypt_onion_layers-direct nacks = ground (arith, found, made)

        build_onions-direct :
            build_onions c forward_fresh return_fresh draws
              (cached_key c cache)
              message
              []
              (dest ∷ [])
              none
              sender_addr
            ≡ ok (text, generate_msg_id [] (draws 0), generate_msg_id (codes "nack") (draws 1))
        unfolding build_onions return_part nack_ids
        build_onions-direct = ground (arith, encrypt_onion_layers-direct (nack_ids draws 1 1))

        encapsulator_func-direct :
            encapsulator_func c exchange clock forward_fresh return_fresh draws cache message []
              (dest ∷ [])
              none
              sender_addr
            ≡ (
              cache,
              ok (text, generate_msg_id [] (draws 0), generate_msg_id (codes "nack") (draws 1)),
            )
        unfolding encapsulator_func
        encapsulator_func-direct = ground (arith, refresh_keys-known, build_onions-direct)

perform_onion-direct :
    (c : Crypto) (exchange : Bytes → Result Bytes) (clock : ℕ → ℕ)
    (forward_fresh return_fresh : ℕ → Fresh) (draws : ℕ → List ℕ) (env : Env)
    (cache : KeyCache c.PublicKey) (node_addr message dest text msg_id first_nack : Bytes)
    → encapsulator_func c exchange clock forward_fresh return_fresh draws cache message []
        (dest ∷ [])
        none
        node_addr
      ≡ (cache, ok (text, msg_id, first_nack))
    → env.dial 0 dest text ≡ true
    → perform_onion c exchange clock forward_fresh return_fresh draws env cache node_addr message
        (dest ∷ [])
      ≡ (cache, ok (record { addr = dest; message = text; delivered = true } ∷ []))
unfolding perform_onion hand_over send_to
perform_onion-direct c exchange clock forward_fresh return_fresh draws env cache node_addr message
      dest text msg_id first_nack built up =
    ground (arith, built, up)

is_expired_soon :
    {K : Type 0} (k : K) (now later : ℕ)
    → later ≤ now + 30
    → is_expired later (record { key = k; expires_at = now + 30 }) ≡ false
unfolding is_expired
is_expired_soon k now later h = ground arith

-- `MSG:<ip>:<port>:<message>`
abbrev pub msg_line : Bytes → Bytes → Bytes → Bytes
msg_line ip port message = codes "MSG:" ++ (ip ++ (b':' ∷ (port ++ (b':' ∷ message))))

run_cli-msg_line :
    (frag_id ip port message : Bytes)
    → Lacks b':' ip
    → Lacks b':' port
    → trim_space (msg_line ip port message) ≡ msg_line ip port message
    → run_cli frag_id (msg_line ip port message) ≡ send_onion message ((ip ++ (b':' ∷ port)) ∷ [])
unfolding run_cli cli_switch to_upper cli_msg
run_cli-msg_line frag_id ip port message no_colon no_mark bare =
    rw
      (
        bare,
        command_parts-field (codes "MSG") (ip ++ (b':' ∷ (port ++ (b':' ∷ message)))) (omega arith),
        split_max-field b':' 1 ip (port ++ (b':' ∷ message)) no_colon,
        split_max-field b':' 0 port message no_mark,
      )
      (unfold split_max in refl)

-- The user of one node has the key of another in the cache since a FETCH that its own answer served
-- at most 30 seconds ago, and types MSG with its address, without spaces around the line. The other
-- node is up, has a key of at least 98 bytes whose ciphertexts are no shorter than four bytes, and
-- has not seen the new identifier. Then one line is handed to that address, the cache stays, and the
-- other node's handler, when it reads this line, notes the message and returns.
pub fetch_then_msg :
    (c : Crypto) (laws : CryptoLaws c) (exchange : Bytes → Result Bytes) (clock : ℕ → ℕ)
    (forward_fresh return_fresh : ℕ → Fresh) (good : IsFresh (forward_fresh 0)) (draws : ℕ → List ℕ)
    (env other_env : Env) (sk : c.PrivateKey) (r : Run) (now : ℕ) (cache : KeyCache c.PublicKey)
    (frag_id node_addr ip port message : Bytes)
    → Lacks b':' ip
    → Lacks b':' port
    → IsBytes message
    → trim_space (msg_line ip port message) ≡ msg_line ip port message
    → clock 0 ≤ now + 30
    → 98 ≤ c.modulus_size (c.public_of sk)
    → ((seed key t : Bytes)
        → c.oaep_encrypt (c.public_of sk) seed key ≡ some t
        → length key ≡ 32
        → 4 ≤ length t)
    → ((message : Bytes) → env.dial 0 (ip ++ (b':' ∷ port)) message ≡ true)
    → lookup (generate_msg_id [] (draws 0)) r.node.seen_msgs ≡ none
    → let dest = ip ++ (b':' ∷ port) in
      let fetched = cli_fetch c now cache dest (answered (pubkey_line c sk)) in
      (onion : Bytes) × (r' : Run) × (run_cli frag_id (msg_line ip port message)
        ≡ send_onion message (dest ∷ []))
      × (perform_onion c exchange clock forward_fresh return_fresh draws env fetched node_addr
            message
            (dest ∷ [])
          ≡ (fetched, ok (record { addr = dest; message = onion; delivered = true } ∷ [])))
      × (handlerroutine c sk other_env (onion ++ codes "\n") r ≡ (finished, r'))
      × (r'.node.received_msgs ≡ r.node.received_msgs ++ (message ∷ []))
fetch_then_msg c laws exchange clock forward_fresh return_fresh good draws env other_env sk r now
      cache frag_id node_addr ip port message no_colon no_mark bytes bare soon fits long up unseen =
    let dest = ip ++ (b':' ∷ port) in
    let fetched = cli_fetch c now cache dest (answered (pubkey_line c sk)) in
    let v : CachedKey c.PublicKey = record { key = c.public_of sk; expires_at = now + 30 } in
    let l = direct_layer (draws 0) message in
    let f = forward_fresh 0 in
    let sendable = direct_layer-IsSendable (draws 0) message bytes in
    let (enc_key, wrapped, made) =
      encrypt_for_node_lem c laws f (onionlayer_to_string l) (c.public_of sk) good fits in
    let body = body_of c laws f (onionlayer_to_string l) in
    let text = onion_text enc_key body in
    let known : KeyCache.get fetched dest ≡ some v =
      (fetch-handlerroutine c laws sk other_env r now cache dest dest).2 ∙ rw (eq_refl dest) refl in
    let built =
      encapsulator_func-direct c laws exchange clock forward_fresh return_fresh draws fetched v dest
        known (is_expired_soon (c.public_of sk) now (clock 0) soon) node_addr message text made in
    let (r', done, got) =
      final_layer-delivered other_env (generate_msg_id [] (draws 0)) [] [] message r unseen in
    (
      text,
      r',
      run_cli-msg_line frag_id ip port message no_colon no_mark bare,
      perform_onion-direct c exchange clock forward_fresh return_fresh draws env fetched node_addr
          message dest text _ _ built (up text),
      handlerroutine-onion_text c sk other_env enc_key body r
            (laws.oaep_bytes (c.public_of sk) (f.seed 0) f.key enc_key wrapped)
            (body_of-IsBytes c laws f (onionlayer_to_string l) good sendable.bytes)
            (long (f.seed 0) f.key enc_key wrapped good.key_length)
          ∙ handle_onion-opened c sk other_env text r l
              (peel-direct_layer c laws f l sk text good sendable made)
          ∙ done,
      got,
    )
