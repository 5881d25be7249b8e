-- ===== src/Node/Race.antt =====
-- The goroutine of `SendWithRetry` and `SendWithRetrySuper` (node_server/node/send.go and
-- super_send.go) that waits for an answer, and the handlers of node_server/model/Node.go that give
-- one: every order in which they can run. They share two entries of `PendingACKs`, one channel that
-- holds one value, and the lock `Mu`.
pub mod Progress
pub mod Handlers
use dor.Base.{Bool, true, false, Option, none, some, List, [], ◌∷◌}

-- The entries of one message: under its identifier, and under its first NACK identifier.
pub data Slot : Type 0 where
  by_msg : Slot
  by_nack : Slot

-- What gives an answer: the case ACK of the handler, or a NACK line. Either may come for either
-- entry.
pub data Answer : Type 0 where
  ack : Answer
  nack : Answer

-- `ch <- true` and `ch <- false`.
abbrev pub told_by : Answer → Bool
told_by ack = true
told_by nack = false

-- Where the goroutine is: before its `select`, after a value, after the 8 seconds, and at its end,
-- which is a return or, behind `cleaned`, the next try.
pub data Waiter : Type 0 where
  waiting : Waiter
  received : Bool → Waiter
  expired : Waiter
  acknowledged : Waiter
  cleaned : Waiter

-- Whether the entries are there, the buffer of the channel, the goroutine, and the handler that
-- waits at `ch <- value` with `Mu` held, with the entry and what it answers.
pub data Race : Type 0 where
  race : Bool → Bool → List Bool → Waiter → Option (Slot × Answer) → Race

-- A handler that finds an entry and room in the buffer runs from `Mu.Lock` to `Mu.Unlock` in one
-- step: nothing else can touch the entries then, and the goroutine only takes from the buffer.
pub data Step : Race → Race → Type 0 where
  deliver_msg :
      (k : Bool) (w : Waiter) (v : Answer)
      → Step (race true k [] w none) (race false k (told_by v ∷ []) w none)
  deliver_nack :
      (a : Bool) (w : Waiter) (v : Answer)
      → Step (race a true [] w none) (race a false (told_by v ∷ []) w none)
  block_msg :
      (k b : Bool) (bs : List Bool) (w : Waiter) (v : Answer)
      → Step (race true k (b ∷ bs) w none) (race true k (b ∷ bs) w (some (by_msg, v)))
  block_nack :
      (a b : Bool) (bs : List Bool) (w : Waiter) (v : Answer)
      → Step (race a true (b ∷ bs) w none) (race a true (b ∷ bs) w (some (by_nack, v)))
  release_msg :
      (a k : Bool) (w : Waiter) (v : Answer)
      → Step (race a k [] w (some (by_msg, v))) (race false k (told_by v ∷ []) w none)
  release_nack :
      (a k : Bool) (w : Waiter) (v : Answer)
      → Step (race a k [] w (some (by_nack, v))) (race a false (told_by v ∷ []) w none)
  receive :
      (a k b : Bool) (bs : List Bool) (h : Option (Slot × Answer))
      → Step (race a k (b ∷ bs) waiting h) (race a k bs (received b) h)
  expire :
      (a k : Bool) (buf : List Bool) (h : Option (Slot × Answer))
      → Step (race a k buf waiting h) (race a k buf expired h)
  accept :
      (a k : Bool) (buf : List Bool) (h : Option (Slot × Answer))
      → Step (race a k buf (received true) h) (race a k buf acknowledged h)
  clear_nack :
      (a k : Bool) (buf : List Bool)
      → Step (race a k buf (received false) none) (race false false buf cleaned none)
  clear_timeout :
      (a k : Bool) (buf : List Bool)
      → Step (race a k buf expired none) (race false false buf cleaned none)

-- What can come about after the registration.
pub data Reach : Race → Type 0 where
  start : Reach (race true true [] waiting none)
  later : {s t : Race} → Reach s → Step s t → Reach t
