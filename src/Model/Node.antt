-- ===== src/Model/Node.antt =====
-- The state of a node and its way to send: `Node`, `Nackstruct`, `seenMsg` and `SendTo` of
-- node_server/model/Node.go.
pub mod Sends
pub mod Reached
use dor.Base.{
  ℕ, Bool, true, false, Option, none, some, List, [], ◌∷◌, ◌++◌, if◌then◌else◌, ◌==◌, nat_eq, Bytes,
  bytes_eq, length, Dict, lookup, insert, int_eq, ℤ,
}
use dor.Strings.{codes}

pub record Nackstruct : Type 0 where
  pub prev_nack_id : Bytes
  pub prev_node_addr : Bytes

-- The maps of `Node`. A channel is a number; `channels` holds what is in its buffer.
pub record Node : Type 0 where
  pub pending_acks : Dict Bytes ℕ
  pub channels : ℕ → List Bool
  pub pending_relays : Dict Bytes Nackstruct
  pub frag_buf : Dict Bytes (Dict ℤ Bytes)
  pub frag_total : Dict Bytes ℤ
  pub seen_msgs : Dict Bytes ℕ
  pub received_msgs : List Bytes

-- One call of `SendTo`, and whether it returned nil.
pub record Attempt : Type 0 where
  pub addr : Bytes
  pub message : Bytes
  pub delivered : Bool

-- What one run of the handler leaves behind: the node, its calls of `SendTo` in order, and the
-- lines that it wrote to its own connection.
pub record Run : Type 0 where
  pub node : Node
  pub sent : List Attempt
  pub replies : List Bytes

-- How a handler ends: it returns, it panics, which ends the process, or it waits forever on a full
-- channel with the lock `Mu` held.
pub data Status : Type 0 where
  finished : Status
  panicked : Status
  blocked : Status

-- What the handler gets from outside: the result of the k-th call of `SendTo` by its address and
-- message, the time, and the draws of the k-th shuffle.
pub record Env : Type 0 where
  pub dial : ℕ → Bytes → Bytes → Bool
  pub now : ℕ
  pub draws : ℕ → ℕ

unfoldable pub send_to : Env → Bytes → Bytes → List Attempt → Bool × List Attempt
send_to env addr message sent =
    let delivered = env.dial (length sent) addr message in
    (delivered, sent ++ record { addr = addr; message = message; delivered = delivered } ∷ [])

-- The loops `for _, addr := range addrs { if n.SendTo(addr, message) == nil { …; break } }`.
unfoldable pub send_first : Env → Bytes → List Bytes → List Attempt → Bool × List Attempt
send_first env message [] sent = (false, sent)
send_first env message (addr ∷ addrs) sent =
    let (delivered, sent') = send_to env addr message sent in
    let rest = send_first env message addrs sent' in if delivered then (true, sent') else rest

abbrev pub nack_line : Bytes → Bytes
nack_line id = codes "NACK:" ++ id

-- `ch <- value` on a channel whose buffer holds one value; `none` if it is full.
unfoldable pub notify : Node → ℕ → Bool → Option Node
notify n ch value = elim (n.channels ch) [
  | [] ↦ some (record n { channels = λ k. if k == ch then value ∷ [] else n.channels k })
  | _ ↦ none
]

unfoldable pub seen_msg : Env → Bytes → Node → Bool × Node
seen_msg env msg_id n = elim (lookup msg_id n.seen_msgs) [
  | some t ↦ (true, n)
  | none ↦ (false, record n { seen_msgs = insert msg_id env.now n.seen_msgs })
]
