-- ===== src/Model/Broadcast.antt =====
-- node_server/model/Broadcast.go: address lists, and encryption for every member of a group. The
-- proofs are in the modules below this one.
pub mod Addresses
pub mod Members
pub mod RoundTrip
use dor.Base.{
  ℕ, suc, Option, none, some, List, [], ◌∷◌, ◌++◌, Bytes, ◌>>=◌, Result, invalid_format,
  base64_error, no_matching_key, no_public_key, rsa_error, ok, err,
}
use dor.Strings.{split, split_max, join, codes}
use dor.Encoding.{encode, decode}
use dor.Model.Crypto.{Crypto, Fresh, or_err}
use dor.Model.Aes.{encrypt_aes, decrypt_aes}

unfoldable pub parse_addresses : Bytes → List Bytes
parse_addresses [] = []
parse_addresses (c ∷ s) = split (c ∷ s) b','

unfoldable pub join_addresses : List Bytes → Bytes
join_addresses addrs = join addrs (codes ",")

module _ (c : Crypto) where
  -- The loop of `BroadcastEncrypt` over the keys; `i` counts the rounds.
  unfoldable pub wrap_keys : Fresh → ℕ → List c.PublicKey → Result (List Bytes)
  wrap_keys f i [] = ok []
  wrap_keys f i (pk ∷ pks) = do
    enc_key ← or_err rsa_error (c.oaep_encrypt pk (f.seed i) f.key)
    rest ← wrap_keys f (suc i) pks
    ok (encode enc_key ∷ rest)

  unfoldable pub broadcast_encrypt : Fresh → Bytes → List c.PublicKey → Result Bytes
  broadcast_encrypt f plaintext [] = err no_public_key
  broadcast_encrypt f plaintext (pk ∷ pks) = do
    enc_payload ← encrypt_aes c f.key f.nonce plaintext
    enc_keys ← wrap_keys f 0 (pk ∷ pks)
    ok (join enc_keys (codes ";") ++ (codes ":" ++ encode enc_payload))

  -- What one round of the loop of `BroadcastDecrypt` gets from a part of the key list.
  unfoldable pub open_key : c.PrivateKey → Bytes → Option Bytes
  open_key sk part = elim (decode part) [ none ↦ none | some enc_key ↦ c.oaep_decrypt sk enc_key ]

  -- The loop: the first part that the private key opens.
  unfoldable pub first_key : c.PrivateKey → List Bytes → Option Bytes
  first_key sk [] = none
  first_key sk (part ∷ parts) = elim (open_key sk part) [
    | some key ↦ some key
    | none ↦ first_key sk parts
  ]

  unfoldable pub decrypt_parts : c.PrivateKey → List Bytes → Result Bytes
  decrypt_parts sk (keys ∷ body ∷ []) = do
    enc_payload ← or_err base64_error (decode body)
    aes_key ← or_err no_matching_key (first_key sk (split keys b';'))
    decrypt_aes c aes_key enc_payload
  decrypt_parts sk _ = err invalid_format

  unfoldable pub broadcast_decrypt : Bytes → c.PrivateKey → Result Bytes
  broadcast_decrypt message sk = decrypt_parts sk (split_max 1 message b':')
