-- ===== src/Node/Send.antt =====
-- `SendWithRetry` of node_server/node/send.go: choose relays, build the onion, send it, wait for an
-- answer, and try again.
pub mod Bounds
pub mod Routes
pub mod Waits
pub mod Acknowledged
use dor.Base.{
  ℕ, zero, suc, ◌⊎◌, inl, inr, Bool, true, false, Option, none, some, List, [], ◌∷◌, ◌++◌, reverse,
  if◌then◌else◌, ◌==◌, nat_eq, Bytes, bytes_eq, length, take, insert, delete, Result, ok, err,
  panic, ltb_ℤ, int_eq, ℤ, pos, negsuc,
}
use dor.Model.Crypto.{Crypto, Fresh}
use dor.Model.Shuffle.{shuffle}
use dor.Model.Node.{Node, Attempt, Env, send_to}
use dor.Node.KeyCache.{KeyCache}
use dor.Node.Encapsulate.{encapsulator_func}
use dor.Directory.Candidates.{candidates}
use dor.Strings.{codes}

-- How a send ends; the number is `currentTry`.
pub data Outcome : Type 0 where
  abandoned : Outcome
  no_list : Outcome
  no_nodes : Outcome
  no_relays : Outcome
  not_encapsulated : Outcome
  acknowledged : ℕ → Outcome
  timed_out : ℕ → Outcome
  crashed : Outcome

-- What a try needs once the relays are chosen: `numRelays`, `route` and `returnRoute`.
pub record Plan : Type 0 where
  pub num_relays : ℕ
  pub route : List Bytes
  pub return_route : List Bytes

-- The state that a send changes: the node, the key cache, and the calls of `SendTo` so far.
pub record Sender (K : Type 0) : Type 0 where
  pub node : Node
  pub cache : KeyCache K
  pub sent : List Attempt

-- What the `k`-th try gets from outside: the answer of `GetNodesList`, the draws of the shuffle, the
-- random bytes and the clock of `Encapsulator_func`, the new channel, the outcome of `SendTo`, and
-- what comes out of the channel: true for an ACK, false for a NACK, none for the timeout.
pub record World : Type 0 where
  pub list : ℕ → Result Bytes
  pub draws : ℕ → ℕ → ℕ
  pub exchange : Bytes → Result Bytes
  pub clock : ℕ → ℕ → ℕ
  pub forward_fresh : ℕ → ℕ → Fresh
  pub return_fresh : ℕ → ℕ → Fresh
  pub ids : ℕ → ℕ → List ℕ
  pub channel : ℕ → ℕ
  pub env : ℕ → Env
  pub answer : ℕ → Option Bool

-- `if numRelays > len(candidates) { numRelays = len(candidates) }`
unfoldable pub clamp : ℤ → ℕ → ℤ
clamp num_relays available = if ltb_ℤ (pos available) num_relays then pos available else num_relays

-- The first relays of the shuffled candidates; a negative count is a slice out of range.
unfoldable pub choose : Bytes → Bytes → (ℕ → ℕ) → List Bytes → ℤ → Outcome ⊎ Plan
choose node_addr dest_addr draws offered (pos zero) = inl no_relays
choose node_addr dest_addr draws offered (negsuc n) = inl crashed
choose node_addr dest_addr draws offered (pos (suc n)) =
    let relays = take (suc n) (shuffle draws offered) in
    inr (record {
      num_relays = suc n;
      route = relays ++ dest_addr ∷ [];
      return_route = reverse relays ++ node_addr ∷ [];
    })

-- From the list to the plan.
unfoldable pub plan : Bytes → Bytes → (ℕ → ℕ) → ℤ → Result Bytes → Outcome ⊎ Plan
plan node_addr dest_addr draws num_relays (ok list) =
    let offered = candidates node_addr dest_addr list in
    if list == codes "LIST:empty"
    then inl no_nodes
    else choose node_addr dest_addr draws offered (clamp num_relays (length offered))
plan node_addr dest_addr draws num_relays _ = inl no_list

-- `PendingACKs` gets both identifiers, with one new channel.
unfoldable pub register : Bytes → Bytes → ℕ → Node → Node
register msg_id first_nack ch n = record n {
  pending_acks = insert first_nack ch (insert msg_id ch n.pending_acks);
  channels = λ k. if k == ch then [] else n.channels k;
}

unfoldable pub unregister : Bytes → Bytes → Node → Node
unregister msg_id first_nack n = record n {
  pending_acks = delete first_nack (delete msg_id n.pending_acks);
}

module _ (c : Crypto) (w : World) (node_addr dest_addr message frag : Bytes) where
  -- `retry` is the recursive call, from the state that the failed try leaves.
  module _ (k : ℕ) (retry : Sender c.PublicKey → Outcome × Sender c.PublicKey) where
    -- The goroutine that waits on the channel.
    unfoldable pub await :
        Bytes → Bytes → Option Bool → Sender c.PublicKey → Outcome × Sender c.PublicKey
    await msg_id first_nack (some true) s = (acknowledged k, s)
    await msg_id first_nack (some false) s =
        retry (record s { node = unregister msg_id first_nack s.node })
    await msg_id first_nack none s =
        (timed_out k, record s { node = unregister msg_id first_nack s.node })

    -- The registration and the call of `SendTo` for the first address of the route.
    unfoldable pub transmit :
        List Bytes → Bytes → Bytes → Bytes → Sender c.PublicKey → Outcome × Sender c.PublicKey
    transmit [] onion msg_id first_nack s = (crashed, s)
    transmit (hop ∷ hops) onion msg_id first_nack s =
        let n = register msg_id first_nack (w.channel k) s.node in
        let (delivered, sent) = send_to (w.env k) hop onion s.sent in
        if delivered
        then await msg_id first_nack (w.answer k)
            (record { node = n; cache = s.cache; sent = sent })
        else retry (record { node = unregister msg_id first_nack n; cache = s.cache; sent = sent })

    -- The result of `Encapsulator_func`.
    unfoldable pub launch :
        List Bytes
        → Result (Bytes × Bytes × Bytes)
        → Sender c.PublicKey
        → Outcome × Sender c.PublicKey
    unfolding transmit
    launch route (ok (onion, msg_id, first_nack)) s = transmit route onion msg_id first_nack s
    launch route (err e) s = (not_encapsulated, s)
    launch route panic s = (crashed, s)

    unfoldable pub follow : Plan → Sender c.PublicKey → Outcome × Sender c.PublicKey
    unfolding launch
    follow p s =
        let (cache', built) =
          encapsulator_func c w.exchange (w.clock k) (w.forward_fresh k) (w.return_fresh k)
            (w.ids k) s.cache message frag p.route (some p.return_route) node_addr in
        launch p.route built (record s { cache = cache' })

  unfoldable pub by_plan :
      ℕ
      → (ℤ → Sender c.PublicKey → Outcome × Sender c.PublicKey)
      → Outcome ⊎ Plan
      → Sender c.PublicKey
      → Outcome × Sender c.PublicKey
  unfolding follow
  by_plan k retry (inl o) s = (o, s)
  by_plan k retry (inr p) s = follow k (retry (pos p.num_relays)) p s

  -- `tries` is `maxRetries - currentTry` and `k` is `currentTry`.
  unfoldable pub send_with_retry : ℕ → ℕ → ℤ → Sender c.PublicKey → Outcome × Sender c.PublicKey
  unfolding by_plan
  send_with_retry zero k num_relays s = (abandoned, s)
  send_with_retry (suc tries) k num_relays s =
      by_plan k (λ num s'. send_with_retry tries (suc k) num s')
        (plan node_addr dest_addr (w.draws k) num_relays (w.list k)) s
