-- ===== src/Node/Commands/Perform.antt =====
-- What MSG and RELAY of node_server/node/cli.go and web.go do once their arguments are read: an onion
-- without a return route is built and handed to the first address.
pub mod Wire
pub mod Direct
use dor.Base.{ℕ, none, List, [], ◌∷◌, Bytes, Result, ok, err, panic}
use dor.Model.Crypto.{Crypto, Fresh}
use dor.Model.Node.{Attempt, Env, send_to}
use dor.Node.KeyCache.{KeyCache}
use dor.Node.Encapsulate.{encapsulator_func}

-- The calls of `SendTo`: none when the onion could not be built.
unfoldable pub hand_over : Env → List Bytes → Result (Bytes × Bytes × Bytes) → Result (List Attempt)
hand_over env route (err e) = ok []
hand_over env route panic = panic
hand_over env [] (ok built) = panic
hand_over env (addr ∷ route) (ok (onion, msg_id, first_nack)) = ok (send_to env addr onion []).1

module _ (c : Crypto) (exchange : Bytes → Result Bytes) (clock : ℕ → ℕ)
    (forward_fresh return_fresh : ℕ → Fresh) (draws : ℕ → List ℕ) (env : Env) where
  -- With the cache that the building leaves behind.
  unfoldable pub perform_onion :
      KeyCache c.PublicKey
      → Bytes
      → Bytes
      → List Bytes
      → KeyCache c.PublicKey × Result (List Attempt)
  unfolding hand_over
  perform_onion cache node_addr message route =
      let (cache', built) =
        encapsulator_func c exchange clock forward_fresh return_fresh draws cache message [] route
          none node_addr in
      (cache', hand_over env route built)
