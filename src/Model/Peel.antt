-- ===== src/Model/Peel.antt =====
-- The two steps of `handlerroutine` of node_server/model/Node.go that open an onion layer.
use dor.Base.{Bytes, ◌>>=◌, Result}
use dor.Model.Crypto.{Crypto}
use dor.Model.Broadcast.{broadcast_decrypt}
use dor.Model.Layer.{OnionLayer, string_to_onion_layer}

-- Decrypt the line with the private key, then parse the plaintext.
unfoldable pub peel : (c : Crypto) → c.PrivateKey → Bytes → Result OnionLayer
peel c sk line = do decrypted ← broadcast_decrypt c line sk; string_to_onion_layer decrypted
