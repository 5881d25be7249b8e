-- ===== src/Node/Race/Handlers.antt =====
-- The steps of the race are what the registration, the handlers and the removal do to a node.
use dor.Base.{
  ℕ, ◌≡◌, refl, ap, ◌∙◌, ◌≢◌, Bool, true, false, Option, none, some, List, [], ◌∷◌, arith,
  if◌then◌else◌, ◌==◌, eq_iff, eq_refl, nat_eq, Bytes, bytes_eq, lookup, insert, delete,
  lookup-insert, lookup-delete, int_eq,
}
use dor.Model.Layer.{OnionLayer}
use dor.Model.Node.{Node, Run, Status, finished, blocked, Env, notify}
use dor.Model.Relay.{resolve, handle_ack, handle_nack}
use dor.Node.Send.{register, unregister}
use dor.Node.Race.{
  Answer, ack, nack, told_by, release_msg, release_nack, Slot, by_msg, by_nack, Waiter, race, Step,
  deliver_msg, deliver_nack, block_msg, block_nack,
}
use dor.Model.Relay.Acks.{resolve_empty}

abbrev pub registered : Slot → Bool → Bool → Bool
registered by_msg a k = a
registered by_nack a k = k

module _ (msg_id nack_id : Bytes) (ch : ℕ) where
  abbrev entry : Bool → Option ℕ
  entry true = some ch
  entry false = none

  -- What a node holds for the message.
  abbrev pub Shows : Bool → Bool → List Bool → Node → Type 0
  Shows a k buf n =
      (lookup msg_id n.pending_acks ≡ entry a)
      × (lookup nack_id n.pending_acks ≡ entry k)
      × (n.channels ch ≡ buf)

  abbrev pub id_of : Slot → Bytes
  id_of by_msg = msg_id
  id_of by_nack = nack_id

  -- The entries that are left when one was used up.
  abbrev pub msg_left : Slot → Bool → Bool
  msg_left by_msg a = false
  msg_left by_nack a = a

  abbrev pub nack_left : Slot → Bool → Bool
  nack_left by_msg k = k
  nack_left by_nack k = false

  -- The node when the goroutine has emptied the channel.
  abbrev pub drained : Run → Run
  drained r = record r {
    node = record r.node { channels = λ c. if c == ch then [] else r.node.channels c };
  }

  -- The handler is through: the channel holds its value, and its entry is used up.
  abbrev pub Gives : Bool → Bool → Slot → Answer → Status × Run → Type 0
  Gives a k slot v (status, r) =
      (status ≡ finished) × Shows (msg_left slot a) (nack_left slot k) (told_by v ∷ []) r.node

  -- A handler that finds the entry does what the race says. In an empty channel it gives its
  -- value. On a full one it blocks with the node as it was, and gives its value when the goroutine
  -- has emptied it.
  abbrev pub Moves :
      Bool → Bool → List Bool → Waiter → Slot → Answer → (Run → Status × Run) → Run → Type 0
  Moves a k [] w slot v handler r =
      Gives a k slot v (handler r)
      × Step (race a k [] w none)
          (race (msg_left slot a) (nack_left slot k) (told_by v ∷ []) w none)
  Moves a k (b ∷ bs) w slot v handler r =
      (handler r ≡ (blocked, r))
      × Step (race a k (b ∷ bs) w none) (race a k (b ∷ bs) w (some (slot, v)))
      × Gives a k slot v (handler (drained r))
      × Step (race a k [] w (some (slot, v)))
          (race (msg_left slot a) (nack_left slot k) (told_by v ∷ []) w none)

  module _ (distinct : msg_id ≢ nack_id) where
    pub register-Shows : (n : Node) → Shows true true [] (register msg_id nack_id ch n)
    unfolding register
    register-Shows n = (
      ground (
        arith,
        lookup-insert nack_id msg_id ch (insert msg_id ch n.pending_acks),
        lookup-insert msg_id msg_id ch n.pending_acks,
        eq_iff nack_id msg_id,
        eq_refl msg_id,
        distinct,
      ),
      ground (
        arith,
        lookup-insert nack_id nack_id ch (insert msg_id ch n.pending_acks),
        eq_refl nack_id,
      ),
      ground (arith, eq_refl ch),
    )

    pub unregister-Shows :
        (a k : Bool) (buf : List Bool) (n : Node)
        → Shows a k buf n
        → Shows false false buf (unregister msg_id nack_id n)
    unfolding unregister
    unregister-Shows a k buf n (ha, hk, hb) = (
      ground (
        arith,
        lookup-delete nack_id msg_id (delete msg_id n.pending_acks),
        lookup-delete msg_id msg_id n.pending_acks,
        eq_refl msg_id,
      ),
      ground (arith, lookup-delete nack_id nack_id (delete msg_id n.pending_acks), eq_refl nack_id),
      hb,
    )

    resolve_waits :
        (id : Bytes) (v b : Bool) (bs : List Bool) (r : Run)
        → r.node.channels ch ≡ b ∷ bs
        → resolve id ch v r ≡ (blocked, r)
    unfolding resolve notify
    resolve_waits id v b bs r h = ground arith

    resolve-Gives :
        (slot : Slot) (v : Answer) (a k : Bool) (r : Run)
        → Shows a k [] r.node
        → Gives a k slot v (resolve (id_of slot) ch (told_by v) r)
    resolve-Gives by_msg v a k r (ha, hk, hb) =
        let (over, told, looked, sent) = resolve_empty msg_id ch (told_by v) r hb in
        (
          over,
          (
            ground (arith, looked msg_id, eq_refl msg_id),
            ground (arith, looked nack_id, eq_iff msg_id nack_id, distinct, hk),
            told,
          ),
        )
    resolve-Gives by_nack v a k r (ha, hk, hb) =
        let (over, told, looked, sent) = resolve_empty nack_id ch (told_by v) r hb in
        (
          over,
          (
            ground (arith, looked msg_id, eq_iff nack_id msg_id, distinct, ha),
            ground (arith, looked nack_id, eq_refl nack_id),
            told,
          ),
        )

    drained-Shows :
        (a k : Bool) (buf : List Bool) (r : Run)
        → Shows a k buf r.node
        → Shows a k [] (drained r).node
    drained-Shows a k buf r (ha, hk, hb) = (ha, hk, ground (arith, eq_refl ch))

    deliver-Step :
        (slot : Slot) (v : Answer) (a k : Bool) (w : Waiter)
        → registered slot a k ≡ true
        → Step
            (race a k [] w none)
            (race (msg_left slot a) (nack_left slot k) (told_by v ∷ []) w none)
    deliver-Step by_msg v true k w here = deliver_msg k w v
    deliver-Step by_nack v a true w here = deliver_nack a w v
    deliver-Step by_msg v false k w here = cc
    deliver-Step by_nack v a false w here = cc

    block-Step :
        (slot : Slot) (v : Answer) (a k b : Bool) (bs : List Bool) (w : Waiter)
        → registered slot a k ≡ true
        → Step (race a k (b ∷ bs) w none) (race a k (b ∷ bs) w (some (slot, v)))
    block-Step by_msg v true k b bs w here = block_msg k b bs w v
    block-Step by_nack v a true b bs w here = block_nack a b bs w v
    block-Step by_msg v false k b bs w here = cc
    block-Step by_nack v a false b bs w here = cc

    release-Step :
        (slot : Slot) (v : Answer) (a k : Bool) (w : Waiter)
        → Step
            (race a k [] w (some (slot, v)))
            (race (msg_left slot a) (nack_left slot k) (told_by v ∷ []) w none)
    release-Step by_msg v a k w = release_msg a k w v
    release-Step by_nack v a k w = release_nack a k w v

    -- A handler that resolves the entry wherever it is there moves as the race does.
    resolve-Moves :
        (slot : Slot) (v : Answer) (a k : Bool) (buf : List Bool) (w : Waiter)
        (handler : Run → Status × Run) (r : Run)
        → ((q : Run)
            → lookup (id_of slot) q.node.pending_acks ≡ some ch
            → handler q ≡ resolve (id_of slot) ch (told_by v) q)
        → lookup (id_of slot) r.node.pending_acks ≡ some ch
        → Shows a k buf r.node
        → registered slot a k ≡ true
        → Moves a k buf w slot v handler r
    resolve-Moves slot v a k [] w handler r resolves there shows here =
        (rw (resolves r there) (resolve-Gives slot v a k r shows), deliver-Step slot v a k w here)
    resolve-Moves slot v a k (b ∷ bs) w handler r resolves there shows here = (
      resolves r there ∙ resolve_waits (id_of slot) (told_by v) b bs r shows.2,
      block-Step slot v a k b bs w here,
      rw (resolves (drained r) there)
          (resolve-Gives slot v a k (drained r) (drained-Shows a k (b ∷ bs) r shows)),
      release-Step slot v a k w,
    )

    handle_nack-found :
        (env : Env) (id : Bytes) (r : Run)
        → lookup id r.node.pending_acks ≡ some ch
        → handle_nack env id r ≡ resolve id ch false r
    unfolding handle_nack
    handle_nack-found env id r h = rw (handle_nack, h) refl

    handle_ack-found :
        (layer : OnionLayer) (r : Run)
        → lookup layer.msg_id r.node.pending_acks ≡ some ch
        → handle_ack layer r ≡ resolve layer.msg_id ch true r
    unfolding handle_ack
    handle_ack-found layer r h = rw (handle_ack, h) refl

    found :
        (slot : Slot) (a k : Bool) (buf : List Bool) (n : Node)
        → Shows a k buf n
        → registered slot a k ≡ true
        → lookup (id_of slot) n.pending_acks ≡ some ch
    found by_msg true k buf n (ha, hk, hb) here = ha
    found by_nack a true buf n (ha, hk, hb) here = hk
    found by_msg false k buf n shows here = cc
    found by_nack a false buf n shows here = cc

    -- While an entry of the message is there, the handler of a NACK line for its identifier and that
    -- of an ACK layer do what the race says. In an empty channel the first gives `false`, the second
    -- `true`, and the entry is used up; on a full channel each blocks with nothing changed, and does
    -- the same when the channel has been emptied.
    pub handlers-Moves :
        (slot : Slot) (a k : Bool) (buf : List Bool) (w : Waiter) (env : Env) (layer : OnionLayer)
        (r : Run)
        → Shows a k buf r.node
        → registered slot a k ≡ true
        → layer.msg_id ≡ id_of slot
        → Moves a k buf w slot nack (handle_nack env (id_of slot)) r
          × Moves a k buf w slot ack (handle_ack layer) r
    handlers-Moves slot a k buf w env layer r shows here same =
        let there = found slot a k buf r.node shows here in
        (
          resolve-Moves slot nack a k buf w (handle_nack env (id_of slot)) r
              (λ q at. handle_nack-found env (id_of slot) q at) there shows here,
          resolve-Moves slot ack a k buf w (handle_ack layer) r
              (λ q at. handle_ack-found layer q (rw (same) at) ∙ ap (λ i. resolve i ch true q) same)
              there shows here,
        )
