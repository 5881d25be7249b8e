-- ===== src/Model/Aes.antt =====
-- `EncryptAES` and `DecryptAES` of node_server/model/Node.go.
use dor.Base.{
  ℕ, ◌<◌, ◌≡◌, Bool, true, ◌||◌, ◌++◌, arith, ltb, if◌then◌else◌, ◌==◌, nat_eq, Bytes, bytes_eq,
  length, take, drop, length-append, take_front, drop_front, Result, key_size, cipher_error, ok,
  err, panic, int_eq,
}
use dor.Model.Crypto.{Crypto, CryptoLaws, Fresh, IsFresh, or_err}

-- `aesgcm.NonceSize()`
abbrev pub nonce_size : ℕ
nonce_size = 12

-- The test of `aes.NewCipher`.
unfoldable pub valid_key_size : ℕ → Bool
valid_key_size n = n == 16 || (n == 24 || n == 32)

module _ (c : Crypto) where
  -- The nonce is drawn by the caller: `aesgcm.Seal(nonce, nonce, plaintext, nil)` appends to it.
  unfoldable pub encrypt_aes : Bytes → Bytes → Bytes → Result Bytes
  unfolding valid_key_size
  encrypt_aes key nonce plaintext =
      if valid_key_size (length key)
      then ok (nonce ++ c.gcm_seal key nonce plaintext)
      else err key_size

  -- `ciphertext[:nonceSize]` panics on a text shorter than a nonce.
  unfoldable pub decrypt_aes : Bytes → Bytes → Result Bytes
  unfolding valid_key_size
  decrypt_aes key ciphertext =
      if valid_key_size (length key)
      then if ltb (length ciphertext) nonce_size
        then panic
        else or_err cipher_error
            (c.gcm_open key (take nonce_size ciphertext) (drop nonce_size ciphertext))
      else err key_size

  pub encrypt_aes_lem :
      (f : Fresh) (plaintext : Bytes)
      → IsFresh f
      → encrypt_aes f.key f.nonce plaintext ≡ ok (f.nonce ++ c.gcm_seal f.key f.nonce plaintext)
  unfolding encrypt_aes
  encrypt_aes_lem f plaintext h = rw h.key_length

  -- Text that was sealed under a 32-byte key is opened under it.
  pub decrypt_aes_sealed :
      CryptoLaws c
      → (f : Fresh) (plaintext : Bytes) → IsFresh f
      → decrypt_aes f.key (f.nonce ++ c.gcm_seal f.key f.nonce plaintext) ≡ ok plaintext
  unfolding decrypt_aes
  decrypt_aes_sealed laws f plaintext h =
      let sealed = c.gcm_seal f.key f.nonce plaintext in
      ground (
        arith,
        h.key_length,
        length-append f.nonce sealed,
        take_front nonce_size f.nonce sealed h.nonce_length,
        drop_front nonce_size f.nonce sealed h.nonce_length,
        laws.gcm_opens f.key f.nonce plaintext,
      )

  -- A valid key and a text of less than twelve bytes: the slice expression panics.
  pub decrypt_aes_short :
      (key ciphertext : Bytes)
      → valid_key_size (length key) ≡ true
      → length ciphertext < nonce_size
      → decrypt_aes key ciphertext ≡ panic
  unfolding decrypt_aes
  decrypt_aes_short key ciphertext h short = ground arith
