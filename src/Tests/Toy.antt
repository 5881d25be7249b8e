-- ===== src/Tests/Toy.antt =====
-- Cryptography that can be run: a key is a number, a text for a key is the key and the message in
-- unary, and a sealed text is the text behind a mark. It meets every law, so the laws can hold.
use dor.Base.{
  ℕ, zero, suc, ◌+◌, ◌≡◌, refl, ap, ◌∙◌, subst, Option, none, some, List, [], ◌∷◌, arith, leb, eqb,
  if◌then◌else◌, Bytes, length, IsBytes,
}
use dor.Model.Crypto.{Crypto, CryptoLaws, Fresh, IsFresh}

-- A number as ones in front of a zero.
abbrev pub ones : ℕ → Bytes → Bytes
ones zero s = 0 ∷ s
ones (suc n) s = 1 ∷ ones n s

abbrev pub write : List ℕ → Bytes
write [] = []
write (n ∷ ns) = ones n (write ns)

-- The numbers behind `n` ones.
abbrev read : ℕ → Bytes → List ℕ
read n [] = []
read n (zero ∷ s) = n ∷ read 0 s
read n (suc b ∷ s) = read (suc n) s

read-ones : (n k : ℕ) (s : Bytes) → read k (ones n s) ≡ (n + k) ∷ read 0 s
read-ones zero k s = ap (λ j. j ∷ read 0 s) (omega arith)
read-ones (suc n) k s = read-ones n (suc k) s ∙ ap (λ j. j ∷ read 0 s) (omega arith)

read-write : (ns : List ℕ) → read 0 (write ns) ≡ ns
read-write [] = refl
read-write (n ∷ ns) =
    read-ones n 0 (write ns)
    ∙ (ap (λ j. j ∷ read 0 (write ns)) (omega arith) ∙ ap (λ t. n ∷ t) (read-write ns))

ones-IsBytes : (n : ℕ) (s : Bytes) → IsBytes s → IsBytes (ones n s)
ones-IsBytes zero s h = (omega arith, h)
ones-IsBytes (suc n) s h = (omega arith, ones-IsBytes n s h)

write-IsBytes : (ns : List ℕ) → IsBytes (write ns)
write-IsBytes [] = tt
write-IsBytes (n ∷ ns) = ones-IsBytes n (write ns) (write-IsBytes ns)

abbrev pub toy_encrypt : ℕ → Bytes → Bytes → Option Bytes
toy_encrypt k seed m = if leb (length m + 66) 256 then some (write (k ∷ m)) else none

abbrev opened : ℕ → List ℕ → Option Bytes
opened own [] = none
opened own (k ∷ m) = if eqb own k then some m else none

abbrev toy_decrypt : ℕ → Bytes → Option Bytes
toy_decrypt own t = opened own (read 0 t)

abbrev unsealed : Bytes → Option Bytes
unsealed [] = none
unsealed (mark ∷ m) = some m

abbrev first_number : List ℕ → Option ℕ
first_number [] = none
first_number (k ∷ ks) = some k

abbrev pub toy : Crypto
toy = record {
  PublicKey = ℕ;
  PrivateKey = ℕ;
  public_of = λ k. k;
  modulus_size = λ k. 256;
  oaep_encrypt = toy_encrypt;
  oaep_decrypt = toy_decrypt;
  gcm_seal = λ k n m. 7 ∷ m;
  gcm_open = λ k n t. unsealed t;
  parse_pkix = λ s. first_number (read 0 s);
  marshal_pkix = λ k. write (k ∷ []);
}

encrypt-eq-some : (k : ℕ) (seed m t : Bytes) → toy_encrypt k seed m ≡ some t → write (k ∷ m) ≡ t
encrypt-eq-some k seed m t h = ground (arith, h)

toy_decrypt-encrypt :
    (own k : ℕ) (seed m t : Bytes)
    → toy_encrypt k seed m ≡ some t
    → toy_decrypt own t ≡ opened own (k ∷ m)
toy_decrypt-encrypt own k seed m t h =
    rw (← encrypt-eq-some k seed m t h) (ap (opened own) (read-write (k ∷ m)))

pub toy_laws : CryptoLaws toy
toy_laws = record {
  oaep_accepts = λ k seed m fits. (write (k ∷ m), ground (arith, fits));
  oaep_bytes = λ k seed m t h. subst IsBytes (encrypt-eq-some k seed m t h) (write-IsBytes (k ∷ m));
  oaep_opens = λ k seed m t h. toy_decrypt-encrypt k k seed m t h ∙ ground arith;
  oaep_only =
      λ k own seed m t m' made h. ground (arith, toy_decrypt-encrypt own k seed m t made, h);
  gcm_bytes = λ k n m h. (omega arith, h);
  gcm_opens = λ k n m. refl;
  pkix_bytes = λ k. write-IsBytes (k ∷ []);
  parse-marshal = λ k. ap first_number (read-write (k ∷ []));
}

-- Random bytes that are all zero.
abbrev zeros : ℕ → Bytes
zeros zero = []
zeros (suc n) = 0 ∷ zeros n

abbrev pub fresh_toy : Fresh
fresh_toy = record { key = zeros 32; nonce = zeros 12; seed = λ i. [] }

pub fresh_toy-IsFresh : IsFresh fresh_toy
fresh_toy-IsFresh = record { key_length = refl; nonce_length = refl; nonce_bytes = omega arith }
