-- ===== src/Model/Handler/Crash.antt =====
-- Lines on which the handler panics, which ends the whole process.
use dor.Base.{
  ◌<◌, ◌≡◌, ◌≢◌, none, some, [], ◌∷◌, ◌++◌, arith, eq_iff, nat_eq, Bytes, bytes_eq, length, Lacks,
  lookup, panic, int_eq,
}
use dor.Strings.{split, split_max-single, split_max_pair}
use dor.Encoding.{decode}
use dor.Model.Crypto.{Crypto}
use dor.Model.Aes.{decrypt_aes_short, valid_key_size, nonce_size}
use dor.Model.Layer.{OnionLayer, final_type}
use dor.Model.Broadcast.{first_key, decrypt_parts, broadcast_decrypt}
use dor.Model.Peel.{peel}
use dor.Model.Node.{Run, panicked, Env, seen_msg}
use dor.Model.Fragment.{frag_fields, receive_fragment, receive_message}
use dor.Model.Handler.{handle_final, dispatch, handle_layer}

-- A FINAL layer that the node has not seen, and whose `Frag` is not empty and holds no colon, makes
-- the handler panic.
pub handle_layer_bad_frag :
    (env : Env) (layer : OnionLayer) (r : Run)
    → layer.type ≡ final_type
    → lookup layer.msg_id r.node.seen_msgs ≡ none
    → layer.frag ≢ []
    → Lacks b':' layer.frag
    → (handle_layer env layer r).0 ≡ panicked
unfolding handle_layer seen_msg dispatch handle_final receive_message receive_fragment frag_fields
handle_layer_bad_frag env layer r final new some_frag no_colon = ground (
  arith,
  eq_iff layer.frag [],
  split_max-single b':' 1 layer.frag no_colon,
  eq_iff layer.type final_type,
)

-- A line whose key list gives the node a 32-byte session key, and whose payload is shorter than a
-- nonce, makes the decryption panic.
pub peel_short :
    (c : Crypto) (sk : c.PrivateKey) (keys body payload key : Bytes)
    → Lacks b':' keys
    → decode body ≡ some payload
    → first_key c sk (split keys b';') ≡ some key
    → length key ≡ 32
    → length payload < nonce_size
    → peel c sk (keys ++ b':' ∷ body) ≡ panic
unfolding peel broadcast_decrypt decrypt_parts
peel_short c sk keys body payload key no_colon decoded opened size short = ground (
  arith,
  split_max_pair b':' keys body no_colon,
  decrypt_aes_short c key payload (unfold valid_key_size in ground arith) short,
)
