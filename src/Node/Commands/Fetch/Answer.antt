-- ===== src/Node/Commands/Fetch/Answer.antt =====
-- FETCH and the node that it asks.
use dor.Base.{
  ℕ, ◌+◌, ◌≡◌, refl, ap, ◌∙◌, true, some, [], ◌∷◌, ◌++◌, if◌then◌else◌, ◌==◌, nat_eq, Bytes,
  bytes_eq, lookup-insert, int_eq,
}
use dor.Strings.{codes, is_space, trim_left, trim_space}
use dor.Strings.Trim.{trim_space-ink}
use dor.Encoding.{encode, decoded_bytes}
use dor.Encoding.RoundTrip.{decoded_bytes-encode, encode-IsInk}
use dor.Model.Crypto.{Crypto, CryptoLaws}
use dor.Model.Node.{Run, Env, finished}
use dor.Model.Handler.{handlerroutine, get_pubkey, handle_line}
use dor.Node.KeyCache
use dor.Node.KeyCache.{KeyCache, CachedKey}
use dor.Node.Commands.Fetch.{Exchange, pubkey_request, keep_key, cli_fetch, web_fetch}

-- The exchange in which the asked node's line arrives whole.
abbrev pub answered : Bytes → Exchange
answered line = record { dialled = true; written = true; text = line; complete = true }

-- The answer of a node to the request.
abbrev pub pubkey_line : (c : Crypto) → c.PrivateKey → Bytes
pubkey_line c private_key = encode (c.marshal_pkix (c.public_of private_key)) ++ codes "\n"

handlerroutine-pubkey_request :
    (c : Crypto) (private_key : c.PrivateKey) (env : Env) (r : Run)
    → handlerroutine c private_key env pubkey_request r
      ≡ (finished, record r { replies = r.replies ++ (pubkey_line c private_key ∷ []) })
unfolding handlerroutine handle_line get_pubkey trim_space trim_left is_space
handlerroutine-pubkey_request c private_key env r = refl

keep_key_parsed :
    (c : Crypto) (now : ℕ) (cache : KeyCache c.PublicKey) (addr text : Bytes) (k : c.PublicKey)
    → c.parse_pkix (decoded_bytes (trim_space text)) ≡ some k
    → keep_key c now cache addr text
      ≡ KeyCache.set cache addr (record { key = k; expires_at = now + 30 })
unfolding keep_key
keep_key_parsed c now cache addr text k h = rw (h, keep_key) refl

parse-pubkey_line :
    (c : Crypto) (private_key : c.PrivateKey)
    → CryptoLaws c
    → c.parse_pkix (decoded_bytes (trim_space (pubkey_line c private_key)))
      ≡ some (c.public_of private_key)
parse-pubkey_line c private_key laws =
    let der = c.marshal_pkix (c.public_of private_key) in
    let bytes = laws.pkix_bytes (c.public_of private_key) in
    ap (λ s. c.parse_pkix (decoded_bytes s)) (trim_space-ink (encode der) (encode-IsInk der bytes))
    ∙ (ap c.parse_pkix (decoded_bytes-encode der bytes)
        ∙ laws.parse-marshal (c.public_of private_key))

-- A node that is asked with FETCH answers with one line and changes nothing of itself. When this
-- line arrives, the console and the browser keep the node's own public key under the address that
-- was asked, for 30 seconds, and every other entry of the cache as it was.
pub fetch-handlerroutine :
    (c : Crypto) (laws : CryptoLaws c) (private_key : c.PrivateKey) (env : Env) (r : Run) (now : ℕ)
    (cache : KeyCache c.PublicKey) (addr asked : Bytes)
    → let line = pubkey_line c private_key in
      (handlerroutine c private_key env pubkey_request r
        ≡ (finished, record r { replies = r.replies ++ (line ∷ []) }))
      × (web_fetch c now cache addr (answered line) ≡ cli_fetch c now cache addr (answered line))
      × (KeyCache.get (cli_fetch c now cache addr (answered line)) asked ≡ (
          if addr == asked
          then some (record { key = c.public_of private_key; expires_at = now + 30 })
          else KeyCache.get cache asked))
unfolding cli_fetch web_fetch KeyCache.get KeyCache.set
fetch-handlerroutine c laws private_key env r now cache addr asked = (
  handlerroutine-pubkey_request c private_key env r,
  refl,
  rw
      (keep_key_parsed c now cache addr (pubkey_line c private_key) (c.public_of private_key)
        (parse-pubkey_line c private_key laws))
      (lookup-insert addr asked (record { key = c.public_of private_key; expires_at = now + 30 })
        cache),
)
