-- ===== src/Model/Relay/Acks.antt =====
-- How the answer to a message of the node itself reaches the sender that waits for it.
use dor.Base.{
  ℕ, ◌≡◌, ◌≢◌, Bool, true, false, none, some, [], ◌∷◌, arith, if◌then◌else◌, ◌==◌, eq_iff, eq_refl,
  nat_eq, Bytes, bytes_eq, lookup, lookup-delete, int_eq,
}
use dor.Model.Layer.{OnionLayer}
use dor.Model.Node.{Run, finished, blocked, Env, notify}
use dor.Model.Relay.{resolve, handle_ack, handle_nack}

module _ (id : Bytes) (ch : ℕ) (value : Bool) (r : Run) where
  abbrev resolved : Run
  resolved = (resolve id ch value r).1

  -- An empty channel gets the answer, and the identifier is forgotten. Every other identifier stays
  -- registered, also one that shares the channel.
  pub resolve_empty :
      r.node.channels ch ≡ []
      → ((resolve id ch value r).0 ≡ finished)
        × (resolved.node.channels ch ≡ value ∷ [])
        × ((j : Bytes)
            → lookup j resolved.node.pending_acks
              ≡ (if id == j then none else lookup j r.node.pending_acks))
        × (resolved.sent ≡ r.sent)
  unfolding resolve notify
  resolve_empty h = (
    ground arith,
    ground (arith, eq_refl ch),
    λ j. ground (arith, lookup-delete id j r.node.pending_acks),
    ground arith,
  )

  -- On a channel whose answer nobody has taken the handler waits with the lock held.
  pub resolve_full : (v : Bool) → r.node.channels ch ≡ v ∷ [] → resolve id ch value r ≡ (blocked, r)
  unfolding resolve notify
  resolve_full v h = ground arith

-- The sender of a message registers two identifiers with one channel: that of the message and the
-- first NACK identifier. An ACK tells the channel `true` and forgets the first one only: the NACK
-- identifier stays in `PendingACKs`.
pub handle_ack_leak :
    (layer : OnionLayer) (nack_id : Bytes) (ch : ℕ) (r : Run)
    → lookup layer.msg_id r.node.pending_acks ≡ some ch
    → lookup nack_id r.node.pending_acks ≡ some ch
    → layer.msg_id ≢ nack_id
    → r.node.channels ch ≡ []
    → let r' = (handle_ack layer r).1 in
      (r'.node.channels ch ≡ true ∷ [])
      × (lookup layer.msg_id r'.node.pending_acks ≡ none)
      × (lookup nack_id r'.node.pending_acks ≡ some ch)
unfolding handle_ack resolve notify
handle_ack_leak layer nack_id ch r own other apart empty = ground (
  arith,
  eq_refl ch,
  eq_refl layer.msg_id,
  eq_iff layer.msg_id nack_id,
  lookup-delete layer.msg_id layer.msg_id r.node.pending_acks,
  lookup-delete layer.msg_id nack_id r.node.pending_acks,
)

-- A NACK for a registered identifier whose channel is empty tells the channel `false` and forgets
-- the identifier, whatever relays the node knows, and is not passed on.
pub handle_nack_own :
    (env : Env) (id : Bytes) (ch : ℕ) (r : Run)
    → lookup id r.node.pending_acks ≡ some ch
    → r.node.channels ch ≡ []
    → let r' = (handle_nack env id r).1 in
      (r'.node.channels ch ≡ false ∷ [])
      × (lookup id r'.node.pending_acks ≡ none)
      × (r'.node.pending_relays ≡ r.node.pending_relays)
      × (r'.sent ≡ r.sent)
unfolding handle_nack resolve notify
handle_nack_own env id ch r own empty =
    ground (arith, eq_refl ch, eq_refl id, lookup-delete id id r.node.pending_acks)
