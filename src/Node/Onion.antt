-- ===== src/Node/Onion.antt =====
-- node_server/node/onion.go: the layers of an onion, built from the innermost outwards.
pub mod Groups
use dor.Base.{
  ℕ, zero, suc, Option, none, some, List, [], ◌++◌, Bytes, length, ◌>>=◌, index, Result, rsa_error,
  ok, panic,
}
use dor.Strings.{codes}
use dor.Encoding.{encode}
use dor.Model.Crypto.{Crypto, Fresh, or_err}
use dor.Model.Aes.{encrypt_aes}
use dor.Model.Layer.{OnionLayer, onionlayer_to_string, relay_type}

module _ (c : Crypto) where
  unfoldable pub encrypt_for_node : Fresh → Bytes → c.PublicKey → Result Bytes
  encrypt_for_node f plaintext pub_key = do
    enc_plaintext ← encrypt_aes c f.key f.nonce plaintext
    enc_key ← or_err rsa_error (c.oaep_encrypt pub_key (f.seed 0) f.key)
    ok (encode enc_key ++ (codes ":" ++ encode enc_plaintext))

-- `prevNode` of the round for node `i`.
unfoldable pub prev_node : Bytes → List Bytes → ℕ → Result Bytes
prev_node sender_addr route zero = ok sender_addr
prev_node sender_addr route (suc i) = index route i

-- The literal of the round for node `i`.
unfoldable pub relay_layer : Bytes → Bytes → Bytes → Bytes → Bytes → OnionLayer
relay_layer this_nack next_nack next prev data_field = record {
  type = relay_type;
  msg_id = this_nack ++ (codes ":" ++ next_nack);
  next = next;
  from = prev;
  payload = data_field;
  frag = [];
  message = [];
}

-- Work that starts at index `len - 1`, which panics on an empty route.
abbrev pub at_last : ℕ → (ℕ → Result Bytes) → Result Bytes
at_last zero f = panic
at_last (suc last) f = f last

module _ (c : Crypto) (public_keys : Bytes → Option c.PublicKey) where
  -- `publicKeys.get(addr)` and the use of its `Key`: a missing key is a nil pointer, on which
  -- `rsa.EncryptOAEP` panics.
  unfoldable pub key_of : Bytes → Result c.PublicKey
  key_of addr = elim (public_keys addr) [ none ↦ panic | some k ↦ ok k ]

  module _ (fresh : ℕ → Fresh) (route : List Bytes) (sender_addr : Bytes)
      (nack_array : List Bytes) where
    -- One round of the loop, for node `i`: the layer around `current_payload`, encrypted.
    unfoldable pub wrap_layer : ℕ → Bytes → Result Bytes
    wrap_layer i current_payload = do
      prev ← prev_node sender_addr route i
      this_nack ← index nack_array i
      next_nack ← index nack_array (suc i)
      next ← index route (suc i)
      addr ← index route i
      node_key ← key_of addr
      encrypt_for_node c (fresh i)
          (onionlayer_to_string (relay_layer this_nack next_nack next prev current_payload))
          node_key

    -- `for i := len(route) - 2; i >= 0; i--`; the argument is the number of rounds left.
    unfoldable pub wrap_loop : ℕ → Bytes → Result Bytes
    wrap_loop zero current_payload = ok current_payload
    wrap_loop (suc i) current_payload = do p ← wrap_layer i current_payload; wrap_loop i p

    -- The innermost layer is for the last node, whose index is `last`.
    unfoldable pub build_layers : OnionLayer → ℕ → Result Bytes
    build_layers inner_layer last = do
      addr ← index route last
      last_key ← key_of addr
      p ← encrypt_for_node c (fresh last) (onionlayer_to_string inner_layer) last_key
      wrap_loop last p

    unfoldable pub encrypt_onion_layers : OnionLayer → Result Bytes
    encrypt_onion_layers inner_layer = at_last (length route) (build_layers inner_layer)
