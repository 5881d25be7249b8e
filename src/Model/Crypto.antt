-- ===== src/Model/Crypto.antt =====
-- What the program calls of crypto/rsa, crypto/aes, crypto/cipher and crypto/x509: an interface, and
-- the documented behaviour of its operations as a record of laws. Random bytes are arguments.
use dor.Base.{ℕ, ◌+◌, ◌≤◌, ◌≡◌, Option, none, some, Bytes, length, IsBytes, Error, Result, ok, err}

pub record Crypto : Type 1 where
  pub PublicKey : Type 0
  pub PrivateKey : Type 0
  -- The field `PublicKey` of an `rsa.PrivateKey`.
  pub public_of : PrivateKey → PublicKey
  -- The length of the modulus in bytes.
  pub modulus_size : PublicKey → ℕ
  -- `rsa.EncryptOAEP(sha256.New(), rand.Reader, key, message, nil)`; the second argument is the seed.
  pub oaep_encrypt : PublicKey → Bytes → Bytes → Option Bytes
  pub oaep_decrypt : PrivateKey → Bytes → Option Bytes
  -- `Seal` and `Open` of AES in Galois counter mode: key, nonce, text.
  pub gcm_seal : Bytes → Bytes → Bytes → Bytes
  pub gcm_open : Bytes → Bytes → Bytes → Option Bytes
  -- `x509.ParsePKIXPublicKey` and the type assertion to an RSA key; `x509.MarshalPKIXPublicKey`.
  pub parse_pkix : Bytes → Option PublicKey
  pub marshal_pkix : PublicKey → Bytes

pub record CryptoLaws (c : Crypto) : Type 0 where
  -- A message fits if two hashes and two bytes more fit into the modulus.
  pub oaep_accepts :
      (k : c.PublicKey) (seed m : Bytes)
      → length m + 66 ≤ c.modulus_size k
      → (t : Bytes) × (c.oaep_encrypt k seed m ≡ some t)
  pub oaep_bytes :
      (k : c.PublicKey) (seed m t : Bytes) → c.oaep_encrypt k seed m ≡ some t → IsBytes t
  pub oaep_opens :
      (k : c.PrivateKey) (seed m t : Bytes)
      → c.oaep_encrypt (c.public_of k) seed m ≡ some t
      → c.oaep_decrypt k t ≡ some m
  -- What was encrypted for one key is decrypted under no other.
  pub oaep_only :
      (k : c.PublicKey) (own : c.PrivateKey) (seed m t m' : Bytes)
      → c.oaep_encrypt k seed m ≡ some t
      → c.oaep_decrypt own t ≡ some m'
      → c.public_of own ≡ k
  pub gcm_bytes : (k n m : Bytes) → IsBytes m → IsBytes (c.gcm_seal k n m)
  pub gcm_opens : (k n m : Bytes) → c.gcm_open k n (c.gcm_seal k n m) ≡ some m
  pub pkix_bytes : (k : c.PublicKey) → IsBytes (c.marshal_pkix k)
  pub parse-marshal : (k : c.PublicKey) → c.parse_pkix (c.marshal_pkix k) ≡ some k

-- The random bytes of one encryption: the AES key, the nonce, and a seed for each recipient.
pub record Fresh : Type 0 where
  pub key : Bytes
  pub nonce : Bytes
  pub seed : ℕ → Bytes

-- `make([]byte, 32)` and `make([]byte, aesgcm.NonceSize())`, filled by `io.ReadFull`.
pub record IsFresh (f : Fresh) : Type 0 where
  pub key_length : length f.key ≡ 32
  pub nonce_length : length f.nonce ≡ 12
  pub nonce_bytes : IsBytes f.nonce

-- An error value where the operation has none to return.
abbrev pub or_err {ℓ} : {A : Type ℓ} → Error → Option A → Result A
or_err e none = err e
or_err e (some a) = ok a

pub or_err-eq-ok {ℓ} :
    {A : Type ℓ} (e : Error) (o : Option A) {a : A} → or_err e o ≡ ok a → o ≡ some a
or_err-eq-ok e none h = cc
or_err-eq-ok e (some b) h = cc
