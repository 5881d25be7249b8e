-- ===== src/Tests/Race.antt =====
-- The goroutine that waits and the handlers at concrete inputs.
use dor.Base.{refl, ◌≢◌, ◌⊎◌, true, false, some, [], ◌∷◌, arith}
use dor.Strings.{codes}
use dor.Model.Node.{Run}
use dor.Model.Relay.{handle_ack, handle_nack}
use dor.Node.Super.{ack_layer}
use dor.Node.Send.{register}
use dor.Node.Race.{
  ack, nack, by_nack, waiting, expired, Race, race, Step, deliver_msg, block_nack, Reach, start,
  later,
}
use dor.Node.Race.Progress.{IsSettled, IsDeadlocked, Reach-progress, timeout_deadlock}
use dor.Node.Race.Handlers.{Moves, register-Shows, handlers-Moves}
use dor.Tests.Handlers.{idle, offline}

-- The ACK is in the channel, and the handler of a NACK waits.
Reach-progress_example :
    ((t : Race) × Step (race false true (true ∷ []) waiting (some (by_nack, nack))) t)
    ⊎ (IsSettled (race false true (true ∷ []) waiting (some (by_nack, nack)))
        ⊎ IsDeadlocked (race false true (true ∷ []) waiting (some (by_nack, nack))))
Reach-progress_example =
    Reach-progress
      (later (later start (deliver_msg true waiting ack)) (block_nack false true [] waiting nack))

timeout_deadlock_example :
    Reach (race false true (true ∷ []) expired (some (by_nack, nack)))
    × IsDeadlocked (race false true (true ∷ []) expired (some (by_nack, nack)))
    × ((t : Race) → ¬ Step (race false true (true ∷ []) expired (some (by_nack, nack))) t)
timeout_deadlock_example = timeout_deadlock ack nack

m_not_n : codes "m" ≢ codes "n"
m_not_n e = ground (arith, e)

abbrev told : Run
told = record { node = register (codes "m") (codes "n") 0 idle; sent = []; replies = [] }

handlers-Moves_example :
    Moves
      (codes "m")
      (codes "n")
      0
      true
      true
      []
      waiting
      by_nack
      nack
      (handle_nack offline (codes "n"))
      told
    × Moves
        (codes "m")
        (codes "n")
        0
        true
        true
        []
        waiting
        by_nack
        ack
        (handle_ack (ack_layer (codes "n")))
        told
unfolding ack_layer
handlers-Moves_example =
    handlers-Moves (codes "m") (codes "n") 0 m_not_n by_nack true true [] waiting offline
      (ack_layer (codes "n")) told (register-Shows (codes "m") (codes "n") 0 m_not_n idle) refl refl
