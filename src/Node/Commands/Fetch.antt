-- ===== src/Node/Commands/Fetch.antt =====
-- The command FETCH of node_server/node/cli.go and of node_server/node/web.go: a node is asked for its
-- public key, which is kept for 30 seconds.
pub mod Answer
use dor.Base.{ℕ, ◌+◌, Bool, ◌&&◌, none, some, if◌then◌else◌, Bytes, set}
use dor.Strings.{codes, trim_space}
use dor.Encoding.{decoded_bytes}
use dor.Model.Crypto.{Crypto}
use dor.Node.KeyCache
use dor.Node.KeyCache.{KeyCache, CachedKey}

-- What became of a connection: whether it could be made and written to, the text that was read up
-- to a line feed or the end, and whether the line feed came.
pub record Exchange : Type 0 where
  pub dialled : Bool
  pub written : Bool
  pub text : Bytes
  pub complete : Bool

abbrev pub pubkey_request : Bytes
pubkey_request = codes "GET_PUBKEY\n"

module _ (c : Crypto) (now : ℕ) (cache : KeyCache c.PublicKey) (addr : Bytes) where
  -- What follows the reading: the error of the decoding is dropped, and a key that is no RSA key is.
  unfoldable pub keep_key : Bytes → KeyCache c.PublicKey
  keep_key text = elim (c.parse_pkix (decoded_bytes (trim_space text))) [
    | none ↦ cache
    | some k ↦ KeyCache.set cache addr (record { key = k; expires_at = now + 30 })
  ]

  -- The case FETCH of the console, which stops at every error.
  unfoldable pub cli_fetch : Exchange → KeyCache c.PublicKey
  cli_fetch x = if x.dialled && (x.written && x.complete) then keep_key x.text else cache

  -- That of the browser, which looks at the error of the dial only.
  unfoldable pub web_fetch : Exchange → KeyCache c.PublicKey
  web_fetch x = if x.dialled then keep_key x.text else cache
