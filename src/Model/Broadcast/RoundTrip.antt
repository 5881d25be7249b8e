-- ===== src/Model/Broadcast/RoundTrip.antt =====
-- Who can open a broadcast text: every member of the group, and nobody else.
use dor.Base.{
  ℕ, suc, ◌≤◌, ◌<◌, ◌≡◌, refl, ap, ◌∙◌, ◌≢◌, List, [], ◌∷◌, ◌++◌, arith, Bytes, All, All-append,
  All-map, IsBytes, IsMember, ◌>>=◌, >>=-eq-ok, no_matching_key, ok, err,
}
use dor.Strings.{join, split-join, split_max_pair, codes}
use dor.Encoding.{encode}
use dor.Encoding.RoundTrip.{decode-encode, IsBase64, encode-IsBase64}
use dor.Model.Crypto.{Crypto, CryptoLaws, Fresh, IsFresh, or_err}
use dor.Model.Aes.{encrypt_aes, decrypt_aes, encrypt_aes_lem, decrypt_aes_sealed}
use dor.Model.Broadcast.{wrap_keys, broadcast_encrypt, first_key, decrypt_parts, broadcast_decrypt}
use dor.Model.Broadcast.Members.{
  wrap_keys_cons, wrap_keys-All, first_key_member, first_key_stranger,
}

join-All :
    (P : ℕ → Type 0) (sep : Bytes) (parts : List Bytes)
    → All P sep
    → All (All P) parts
    → All P (join parts sep)
unfolding join
join-All P sep [] hs h = tt
join-All P sep (p ∷ []) hs (hp, _) = hp
join-All P sep (p ∷ q ∷ ps) hs (hp, h) =
    All-append P p (sep ++ join (q ∷ ps) sep) hp
      (All-append P sep (join (q ∷ ps) sep) hs (join-All P sep (q ∷ ps) hs h))

base64_ne : (b : ℕ) → ¬ IsBase64 b → (c : ℕ) → IsBase64 c → c ≢ b
base64_ne b h c d e = h (rw e at d)

module _ (c : Crypto) (laws : CryptoLaws c) (f : Fresh) (fresh : IsFresh f) where
  -- The bytes that the AES layer writes.
  sealed : Bytes → Bytes
  sealed plaintext = f.nonce ++ c.gcm_seal f.key f.nonce plaintext

  sealed-IsBytes : (plaintext : Bytes) → IsBytes plaintext → IsBytes (sealed plaintext)
  unfolding sealed
  sealed-IsBytes plaintext h =
      All-append (λ b. b < 256) f.nonce (c.gcm_seal f.key f.nonce plaintext) fresh.nonce_bytes
        (laws.gcm_bytes f.key f.nonce plaintext h)

  -- A text is the list of keys, a colon and the payload.
  text_shape :
      (plaintext : Bytes) (pks : List c.PublicKey) (text : Bytes)
      → broadcast_encrypt c f plaintext pks ≡ ok text
      → (part : Bytes) × (parts : List Bytes) × (wrap_keys c f 0 pks ≡ ok (part ∷ parts))
        × (join (part ∷ parts) (codes ";") ++ b':' ∷ encode (sealed plaintext) ≡ text)
  unfolding broadcast_encrypt sealed
  text_shape plaintext [] text h = cc
  text_shape plaintext (pk ∷ pks) text h =
      let (payload, e1, h1) = >>=-eq-ok (encrypt_aes c f.key f.nonce plaintext) _ h in
      let (all_parts, e2, h2) = >>=-eq-ok (wrap_keys c f 0 (pk ∷ pks)) _ h1 in
      let (t, rest, made, more, e3) = wrap_keys_cons c laws f 0 pk pks all_parts e2 in
      (encode t, rest, rw e3 e2, cc (h2, e3, e1, encrypt_aes_lem c f plaintext fresh))

  -- What a holder of a key computes on a text of that shape.
  decrypt_text :
      (sk : c.PrivateKey) (plaintext : Bytes) (pks : List c.PublicKey) (part : Bytes)
      (parts : List Bytes)
      → IsBytes plaintext
      → wrap_keys c f 0 pks ≡ ok (part ∷ parts)
      → broadcast_decrypt c (join (part ∷ parts) (codes ";") ++ b':' ∷ encode (sealed plaintext)) sk
        ≡ (or_err no_matching_key (first_key c sk (part ∷ parts)) >>= λ key.
            decrypt_aes c key (sealed plaintext))
  unfolding broadcast_decrypt
  decrypt_text sk plaintext pks part parts bytes wrapped =
      let no_colon =
        wrap_keys-All c laws (λ x. x ≢ b':') (base64_ne b':' (omega arith)) f 0 pks (part ∷ parts)
          wrapped in
      let no_semi =
        wrap_keys-All c laws (λ x. x ≢ b';') (base64_ne b';' (omega arith)) f 0 pks (part ∷ parts)
          wrapped in
      let keys = join (part ∷ parts) (codes ";") in
      let body = encode (sealed plaintext) in
      ap (decrypt_parts c sk) (
        split_max_pair b':' keys body
          (join-All (λ x. x ≢ b':') (codes ";") (part ∷ parts) (omega arith, tt) no_colon))
      ∙ unfold decrypt_parts in
        rw (decode-encode (sealed plaintext) (sealed-IsBytes plaintext bytes))
          (rw (split-join b';' part parts no_semi) refl)

  -- Every member of the group reads the plaintext, which is made of bytes, back from the text
  -- that the encryption returned.
  pub broadcast_decrypt-broadcast_encrypt :
      (sk : c.PrivateKey) (plaintext : Bytes) (pks : List c.PublicKey) (text : Bytes)
      → IsBytes plaintext
      → IsMember (c.public_of sk) pks
      → broadcast_encrypt c f plaintext pks ≡ ok text
      → broadcast_decrypt c text sk ≡ ok plaintext
  broadcast_decrypt-broadcast_encrypt sk plaintext pks text bytes member h =
      let (part, parts, wrapped, shape) = text_shape plaintext pks text h in
      rw (← shape) (
        decrypt_text sk plaintext pks part parts bytes wrapped
        ∙ rw (first_key_member c laws f sk 0 pks (part ∷ parts) member wrapped)
            (unfold sealed in decrypt_aes_sealed c laws f plaintext fresh))

  -- Who is no member of the group gets the error of a missing key from the text that the
  -- encryption of a plaintext of bytes returned.
  pub broadcast_decrypt_stranger :
      (sk : c.PrivateKey) (plaintext : Bytes) (pks : List c.PublicKey) (text : Bytes)
      → IsBytes plaintext
      → ¬ IsMember (c.public_of sk) pks
      → broadcast_encrypt c f plaintext pks ≡ ok text
      → broadcast_decrypt c text sk ≡ err no_matching_key
  broadcast_decrypt_stranger sk plaintext pks text bytes member h =
      let (part, parts, wrapped, shape) = text_shape plaintext pks text h in
      rw (← shape) (
        decrypt_text sk plaintext pks part parts bytes wrapped
        ∙ rw (first_key_stranger c laws f sk 0 pks (part ∷ parts) member wrapped) refl)

  -- A text is made of base64 characters, semicolons and colons.
  pub broadcast_encrypt-All :
      (P : ℕ → Type 0) (base : (b : ℕ) → IsBase64 b → P b) (plaintext : Bytes)
      (pks : List c.PublicKey) (text : Bytes)
      → P b';'
      → P b':'
      → IsBytes plaintext
      → broadcast_encrypt c f plaintext pks ≡ ok text
      → All P text
  broadcast_encrypt-All P base plaintext pks text semi colon bytes h =
      let (part, parts, wrapped, shape) = text_shape plaintext pks text h in
      let keys = join (part ∷ parts) (codes ";") in
      let body = encode-IsBase64 (sealed plaintext) (sealed-IsBytes plaintext bytes) in
      rw (← shape) (
        All-append P keys (b':' ∷ encode (sealed plaintext))
          (join-All P (codes ";") (part ∷ parts) (semi, tt)
            (wrap_keys-All c laws P base f 0 pks (part ∷ parts) wrapped))
          (colon, All-map IsBase64 P base (encode (sealed plaintext)) body))

  wrap_keys_total :
      (i : ℕ) (pks : List c.PublicKey)
      → All (λ k. 98 ≤ c.modulus_size k) pks
      → (parts : List Bytes) × (wrap_keys c f i pks ≡ ok parts)
  unfolding wrap_keys
  wrap_keys_total i [] h = ([], refl)
  wrap_keys_total i (pk ∷ pks) (fits, h) =
      let (t, made) = laws.oaep_accepts pk (f.seed i) f.key (omega (arith, fresh.key_length)) in
      let (rest, more) = wrap_keys_total (suc i) pks h in (encode t ∷ rest, rw made (rw more refl))

  -- Encryption succeeds for every non-empty group whose keys take a 32-byte message.
  pub broadcast_encrypt_total :
      (plaintext : Bytes) (pk : c.PublicKey) (pks : List c.PublicKey)
      → All (λ k. 98 ≤ c.modulus_size k) (pk ∷ pks)
      → (text : Bytes) × (broadcast_encrypt c f plaintext (pk ∷ pks) ≡ ok text)
  unfolding broadcast_encrypt
  broadcast_encrypt_total plaintext pk pks fits =
      let (parts, wrapped) = wrap_keys_total 0 (pk ∷ pks) fits in
      (
        join parts (codes ";") ++ (codes ":" ++ encode (sealed plaintext)),
        rw (encrypt_aes_lem c f plaintext fresh) (rw wrapped (unfold sealed in refl)),
      )
