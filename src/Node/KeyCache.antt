-- ===== src/Node/KeyCache.antt =====
-- node_server/node/keycache.go: the cache of public keys, and the request that fills it.
use dor.Base.{
  ℕ, Bool, Option, List, [], ◌∷◌, ◌++◌, ltb, if◌then◌else◌, ◌==◌, nat_eq, Bytes, bytes_eq, Dict,
  lookup, insert, ◌>>=◌, Result, invalid_format, base64_error, rsa_error, server_error, err, int_eq,
}
use dor.Strings.{split_max, codes, has_prefix, trim_space}
use dor.Encoding.{decode}
use dor.Model.Crypto.{Crypto, or_err}

-- Instants are numbers of seconds.
pub record CachedKey (K : Type 0) : Type 0 where
  pub key : K
  pub expires_at : ℕ

abbrev pub KeyCache : Type 0 → Type 0
KeyCache K = Dict Bytes (CachedKey K)

module _ {K : Type 0} where
  unfoldable pub get : KeyCache K → Bytes → Option (CachedKey K)
  get cache k = lookup k cache

  unfoldable pub set : KeyCache K → Bytes → CachedKey K → KeyCache K
  set cache k v = insert k v cache

  -- `now.After(v.ExpiresAt)`
  unfoldable pub is_expired : ℕ → CachedKey K → Bool
  is_expired now v = ltb v.expires_at now

  -- One tick of `cleanCache`.
  unfoldable pub clean_cache : ℕ → KeyCache K → KeyCache K
  unfolding is_expired
  clean_cache now [] = []
  clean_cache now ((k, v) ∷ m) =
      let rest = clean_cache now m in if is_expired now v then rest else (k, v) ∷ rest

-- The checks of `FetchKeyFromServer` on the parts of the response.
unfoldable pub key_of_parts : (c : Crypto) → List Bytes → Result c.PublicKey
key_of_parts c (word ∷ body ∷ []) =
    if word == codes "KEY"
    then (do
      public_bytes ← or_err base64_error (decode body)
      or_err rsa_error (c.parse_pkix public_bytes))
    else err invalid_format
key_of_parts c _ = err invalid_format

-- `exchange` sends a line to the directory server and reads the line that it answers.
unfoldable pub fetch_key_from_server :
    (c : Crypto) → (Bytes → Result Bytes) → Bytes → Result c.PublicKey
unfolding key_of_parts
fetch_key_from_server c exchange addr = do
  line ← exchange (codes "GET_KEY:" ++ (addr ++ codes "\n"))
  let response = trim_space line
  if has_prefix response (codes "ERROR:")
      then err server_error
      else key_of_parts c (split_max 1 response b':')
