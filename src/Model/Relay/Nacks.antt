-- ===== src/Model/Relay/Nacks.antt =====
-- What a relay does with a layer, and with the NACK that comes back for it.
use dor.Base.{
  ◌≡◌, refl, ap, ◌∙◌, Bool, true, false, none, some, List, ◌∷◌, ◌++◌, arith, eq_refl, nat_eq, Bytes,
  bytes_eq, Lacks, lookup, insert, lookup-insert, lookup-delete, int_eq,
}
use dor.Model.Layer.{OnionLayer}
use dor.Model.Broadcast.{parse_addresses}
use dor.Model.Shuffle.{shuffle}
use dor.Model.Node.{Run, Env, send_first, nack_line, Attempt, Nackstruct}
use dor.Strings.{split_max_pair, contains}
use dor.Model.Relay.{handle_relay, relay_parts, relay_to, propagate_nack, handle_nack}

module _ (env : Env) (layer : OnionLayer) (tosend toreceive : Bytes) (r : Run) where
  -- The attempts to forward the payload.
  abbrev forwarding : Bool × List Attempt
  forwarding = send_first env layer.payload (shuffle env.draws (parse_addresses layer.next)) r.sent

  abbrev relayed : Run
  relayed = (relay_to env layer tosend toreceive r).1

  -- A next hop answered: the relay waits for a NACK under `toreceive`, and remembers where the
  -- layer came from and the identifier to answer with; it has sent nothing else.
  pub relay_to_delivered :
      forwarding.0 ≡ true
      → (lookup toreceive relayed.node.pending_relays
          ≡ some (record { prev_nack_id = tosend; prev_node_addr = layer.from }))
        × (relayed.sent ≡ forwarding.1)
  unfolding relay_to
  relay_to_delivered h =
      let entry : Nackstruct = record { prev_nack_id = tosend; prev_node_addr = layer.from } in
      ground
        (arith, h, eq_refl toreceive, lookup-insert toreceive toreceive entry r.node.pending_relays)

  -- No next hop answered: nothing is remembered, and a NACK goes back to where the layer came from.
  pub relay_to_failed :
      forwarding.0 ≡ false
      → (lookup toreceive relayed.node.pending_relays ≡ none)
        × (relayed.sent
            ≡ (send_first env (nack_line tosend) (parse_addresses layer.from) forwarding.1).1)
  unfolding relay_to
  relay_to_failed h =
      let entry : Nackstruct = record { prev_nack_id = tosend; prev_node_addr = layer.from } in
      ground (
        arith,
        h,
        eq_refl toreceive,
        lookup-delete toreceive toreceive (insert toreceive entry r.node.pending_relays),
      )

-- A NACK under an identifier that a relay waits for, and that is not one of its own messages, is
-- answered once: the NACK with the identifier of the hop before goes to where the layer came from,
-- and the entry is gone.
pub handle_nack_relayed :
    (env : Env) (id : Bytes) (entry : Nackstruct) (r : Run)
    → lookup id r.node.pending_acks ≡ none
    → lookup id r.node.pending_relays ≡ some entry
    → (lookup id (handle_nack env id r).1.node.pending_relays ≡ none)
      × ((handle_nack env id r).1.sent
          ≡ (send_first env
              (nack_line entry.prev_nack_id)
              (parse_addresses entry.prev_node_addr)
              r.sent).1)
      × ((handle_nack env id r).1.node.pending_acks ≡ r.node.pending_acks)
unfolding handle_nack propagate_nack
handle_nack_relayed env id entry r foreign waiting =
    ground (arith, eq_refl id, lookup-delete id id r.node.pending_relays)

-- A NACK under an identifier that nothing waits for is not answered.
pub handle_nack_unknown :
    (env : Env) (id : Bytes) (r : Run)
    → lookup id r.node.pending_acks ≡ none
    → lookup id r.node.pending_relays ≡ none
    → (handle_nack env id r).1.sent ≡ r.sent
unfolding handle_nack propagate_nack
handle_nack_unknown env id r foreign unknown = ground arith

pending_acks-relay_to :
    (env : Env) (layer : OnionLayer) (tosend toreceive : Bytes) (r : Run)
    → (relay_to env layer tosend toreceive r).1.node.pending_acks ≡ r.node.pending_acks
unfolding relay_to
pending_acks-relay_to env layer tosend toreceive r = ground arith

handle_relay-relay_to :
    (env : Env) (layer : OnionLayer) (tosend toreceive : Bytes) (r : Run)
    → layer.msg_id ≡ tosend ++ (b':' ∷ toreceive)
    → Lacks b':' tosend
    → contains layer.next b':' ≡ true
    → handle_relay env layer r ≡ relay_to env layer tosend toreceive r
unfolding handle_relay relay_parts
handle_relay-relay_to env layer tosend toreceive r id no_colon port =
    rw (port, id, split_max_pair b':' tosend toreceive no_colon) refl

-- The way back of a failure through one relay: a RELAY layer under `tosend:toreceive`, whose next
-- addresses have a port, was forwarded to a node that took it, and the hop behind answers with the
-- NACK `toreceive`, which is none of the relay's own. The relay sends the NACK `tosend` to where the
-- layer came from. A second NACK `toreceive` is not answered.
pub relay_then_nack :
    (env env' env'' : Env) (layer : OnionLayer) (tosend toreceive : Bytes) (r : Run)
    → layer.msg_id ≡ tosend ++ (b':' ∷ toreceive)
    → Lacks b':' tosend
    → contains layer.next b':' ≡ true
    → (send_first env layer.payload (shuffle env.draws (parse_addresses layer.next)) r.sent).0
      ≡ true
    → lookup toreceive r.node.pending_acks ≡ none
    → let relayed = (handle_relay env layer r).1 in
      let nacked = (handle_nack env' toreceive relayed).1 in
      (nacked.sent
        ≡ (send_first env' (nack_line tosend) (parse_addresses layer.from) relayed.sent).1)
      × ((handle_nack env'' toreceive nacked).1.sent ≡ nacked.sent)
relay_then_nack env env' env'' layer tosend toreceive r id no_colon port delivered foreign =
    let relayed = (relay_to env layer tosend toreceive r).1 in
    let (waiting, _) = relay_to_delivered env layer tosend toreceive r delivered in
    let own =
      ap (lookup toreceive) (pending_acks-relay_to env layer tosend toreceive r) ∙ foreign in
    let entry : Nackstruct = record { prev_nack_id = tosend; prev_node_addr = layer.from } in
    let (gone, answer, same) = handle_nack_relayed env' toreceive entry relayed own waiting in
    let nacked = (handle_nack env' toreceive relayed).1 in
    rw (handle_relay-relay_to env layer tosend toreceive r id no_colon port)
      (answer, handle_nack_unknown env'' toreceive nacked (ap (lookup toreceive) same ∙ own) gone)
