-- ===== src/Model/Broadcast/Members.antt =====
-- The key list of a broadcast text: who finds the session key in it.
use dor.Base.{
  ℕ, suc, ◌≡◌, refl, ◌∙◌, subst, inl, inr, none, some, List, [], ◌∷◌, arith, Option-cases, Bytes,
  All, All-map, IsMember, >>=-eq-ok, ok-injective, rsa_error, ok,
}
use dor.Encoding.{encode}
use dor.Encoding.RoundTrip.{encode-IsBase64, decode-encode, IsBase64}
use dor.Model.Crypto.{Crypto, CryptoLaws, Fresh, or_err, or_err-eq-ok}
use dor.Model.Broadcast.{wrap_keys, open_key, first_key}

module _ (c : Crypto) (laws : CryptoLaws c) where
  -- What a successful round of the loop over the keys has done.
  pub wrap_keys_cons :
      (f : Fresh) (i : ℕ) (pk : c.PublicKey) (pks : List c.PublicKey) (parts : List Bytes)
      → wrap_keys c f i (pk ∷ pks) ≡ ok parts
      → (t : Bytes) × (rest : List Bytes) × (c.oaep_encrypt pk (f.seed i) f.key ≡ some t)
        × (wrap_keys c f (suc i) pks ≡ ok rest)
        × (encode t ∷ rest ≡ parts)
  unfolding wrap_keys
  wrap_keys_cons f i pk pks parts h =
      let (t, made, h1) = >>=-eq-ok (or_err rsa_error (c.oaep_encrypt pk (f.seed i) f.key)) _ h in
      let (rest, more, h2) = >>=-eq-ok (wrap_keys c f (suc i) pks) _ h1 in
      (t, rest, or_err-eq-ok rsa_error _ made, more, ok-injective h2)

  wrap_keys_nil :
      (f : Fresh) (i : ℕ) (parts : List Bytes) → wrap_keys c f i [] ≡ ok parts → [] ≡ parts
  unfolding wrap_keys
  wrap_keys_nil f i parts h = ok-injective h

  -- The parts of the key list are base64 text.
  pub wrap_keys-All :
      (P : ℕ → Type 0) (base : (b : ℕ) → IsBase64 b → P b) (f : Fresh) (i : ℕ)
      (pks : List c.PublicKey) (parts : List Bytes)
      → wrap_keys c f i pks ≡ ok parts
      → All (All P) parts
  wrap_keys-All P base f i [] parts h = subst (All (All P)) (wrap_keys_nil f i parts h) tt
  wrap_keys-All P base f i (pk ∷ pks) parts h =
      let (t, rest, made, more, e) = wrap_keys_cons f i pk pks parts h in
      let bytes = laws.oaep_bytes pk (f.seed i) f.key t made in
      rw (← e) (
        All-map IsBase64 P base (encode t) (encode-IsBase64 t bytes),
        wrap_keys-All P base f (suc i) pks rest more,
      )

  -- The part made for `pk` opens to the session key or not at all.
  open_key-encode :
      (f : Fresh) (sk : c.PrivateKey) (pk : c.PublicKey) (i : ℕ) (t : Bytes)
      → c.oaep_encrypt pk (f.seed i) f.key ≡ some t
      → (open_key c sk (encode t) ≡ c.oaep_decrypt sk t)
  unfolding open_key
  open_key-encode f sk pk i t made =
      rw (decode-encode t (laws.oaep_bytes pk (f.seed i) f.key t made), open_key)

  own_key :
      (f : Fresh) (sk : c.PrivateKey) (pk : c.PublicKey) (i : ℕ) (t : Bytes)
      → c.public_of sk ≡ pk
      → c.oaep_encrypt pk (f.seed i) f.key ≡ some t
      → c.oaep_decrypt sk t ≡ some f.key
  own_key f sk pk i t e made = laws.oaep_opens sk (f.seed i) f.key t (rw e made)

  first_key_hit :
      (sk : c.PrivateKey) (part : Bytes) (parts : List Bytes) (k : Bytes)
      → open_key c sk part ≡ some k
      → first_key c sk (part ∷ parts) ≡ some k
  unfolding first_key
  first_key_hit sk part parts k h = ground arith

  first_key_miss :
      (sk : c.PrivateKey) (part : Bytes) (parts : List Bytes)
      → open_key c sk part ≡ none
      → first_key c sk (part ∷ parts) ≡ first_key c sk parts
  unfolding first_key
  first_key_miss sk part parts h = ground arith

  -- A member gets the session key, whatever stands before its own part.
  pub first_key_member :
      (f : Fresh) (sk : c.PrivateKey) (i : ℕ) (pks : List c.PublicKey) (parts : List Bytes)
      → IsMember (c.public_of sk) pks
      → wrap_keys c f i pks ≡ ok parts
      → first_key c sk parts ≡ some f.key
  first_key_member f sk i [] parts m h = absurd m
  first_key_member f sk i (pk ∷ pks) parts m h =
      let (t, rest, made, more, e) = wrap_keys_cons f i pk pks parts h in
      let opened = open_key-encode f sk pk i t made in
      let later =
        λ (n : IsMember (c.public_of sk) pks). first_key_member f sk (suc i) pks rest n more in
      rw (← e) (elim (Option-cases (c.oaep_decrypt sk t)) [
        | inl closed ↦
            first_key_miss sk (encode t) rest (opened ∙ closed)
            ∙ elim m [ inl own ↦ cc (own_key f sk pk i t own made) | inr n ↦ later n ]
        | inr (k, got) ↦
            let own = laws.oaep_only pk sk (f.seed i) f.key t k made got in
            first_key_hit sk (encode t) rest f.key (opened ∙ own_key f sk pk i t own made)
      ])

  -- Nobody else gets a key.
  pub first_key_stranger :
      (f : Fresh) (sk : c.PrivateKey) (i : ℕ) (pks : List c.PublicKey) (parts : List Bytes)
      → ¬ IsMember (c.public_of sk) pks
      → wrap_keys c f i pks ≡ ok parts
      → first_key c sk parts ≡ none
  first_key_stranger f sk i [] parts m h =
      rw (← wrap_keys_nil f i parts h) (unfold first_key in refl)
  first_key_stranger f sk i (pk ∷ pks) parts m h =
      let (t, rest, made, more, e) = wrap_keys_cons f i pk pks parts h in
      let opened = open_key-encode f sk pk i t made in
      rw (← e) (elim (Option-cases (c.oaep_decrypt sk t)) [
        | inl closed ↦
            first_key_miss sk (encode t) rest (opened ∙ closed)
            ∙ first_key_stranger f sk (suc i) pks rest (λ n. m (inr n)) more
        | inr (k, got) ↦ absurd (m (inl (laws.oaep_only pk sk (f.seed i) f.key t k made got)))
      ])
