-- ===== src/Model/Handler/Replay.antt =====
-- A RELAY or FINAL layer is handled once.
use dor.Base.{
  ◌≡◌, refl, subst, ◌⊎◌, inl, inr, List, [], ◌∷◌, arith, Bool-cases, Option-cases, ◌==◌, eq_refl,
  nat_eq, Bytes, bytes_eq, lookup, insert, lookup-insert, >>=-eq-ok, ok-injective, Result, ok,
  int_eq, ℤ,
}
use dor.Model.Layer.{OnionLayer, relay_type, final_type}
use dor.Model.Node.{Node, Run, finished, Env, seen_msg, notify}
use dor.Model.Relay.{handle_relay, relay_parts, relay_to, handle_ack, resolve}
use dor.Model.Fragment.{
  receive_message, store_fragment, place_fragment, deliver, receive_fragment, frag_fields,
}
use dor.Model.Handler.{send_ack, handle_final, dispatch, handle_layer}
use dor.Strings.{split_max}

seen-parts :
    (env : Env) (layer : OnionLayer) (parts : List Bytes) (r : Run)
    → (relay_parts env layer parts r).1.node.seen_msgs ≡ r.node.seen_msgs
unfolding relay_parts relay_to
seen-parts env layer (a ∷ b ∷ []) r = ground arith
seen-parts env layer _ r = refl

seen-relay :
    (env : Env) (layer : OnionLayer) (r : Run)
    → (handle_relay env layer r).1.node.seen_msgs ≡ r.node.seen_msgs
unfolding handle_relay
seen-relay env layer r = ground (arith, seen-parts env layer (split_max 1 layer.msg_id b':') r)

seen-ack : (layer : OnionLayer) (r : Run) → (handle_ack layer r).1.node.seen_msgs ≡ r.node.seen_msgs
unfolding handle_ack resolve notify
seen-ack layer r = ground arith

seen-store :
    (f : Bytes) (idx total : ℤ) (m : Bytes) (n : Node)
    → (store_fragment f idx total m n).seen_msgs ≡ n.seen_msgs
unfolding store_fragment place_fragment deliver
seen-store f idx total m n = ground arith

seen-fragment :
    (layer : OnionLayer) (n n' : Node)
    → receive_fragment layer n ≡ ok n'
    → n'.seen_msgs ≡ n.seen_msgs
unfolding receive_fragment
seen-fragment layer n n' h =
    let (fields, e, stored) = >>=-eq-ok (frag_fields layer.frag) _ h in
    subst (λ m. m.seen_msgs ≡ n.seen_msgs) (ok-injective stored)
      (seen-store fields.0 fields.1 fields.2 layer.message n)

seen-receive :
    (layer : OnionLayer) (n n' : Node)
    → receive_message layer n ≡ ok n'
    → n'.seen_msgs ≡ n.seen_msgs
unfolding receive_message deliver
seen-receive layer n n' h = elim (Bool-cases (layer.frag == [])) [
  | inl e ↦ ground arith
  | inr e ↦ seen-fragment layer n n' (ground arith)
]

seen-final :
    (env : Env) (layer : OnionLayer) (r : Run)
    → (handle_final env layer r).1.node.seen_msgs ≡ r.node.seen_msgs
unfolding handle_final send_ack
seen-final env layer r = by_result (receive_message layer r.node) refl
  where
    by_result :
        (o : Result Node)
        → receive_message layer r.node ≡ o
        → (handle_final env layer r).1.node.seen_msgs ≡ r.node.seen_msgs
    by_result (ok n) e = ground (arith, seen-receive layer r.node n e)
    by_result _ e = ground arith

pub seen-dispatch :
    (env : Env) (layer : OnionLayer) (r : Run)
    → (dispatch env layer r).1.node.seen_msgs ≡ r.node.seen_msgs
unfolding dispatch
seen-dispatch env layer r =
    ground (arith, seen-relay env layer r, seen-final env layer r, seen-ack layer r)

-- A RELAY or FINAL layer that comes again, while its identifier is remembered, is dropped: the
-- second run of the handler changes nothing of the node and sends nothing, whatever happened in
-- the first run.
pub handle_layer_twice :
    (env env' : Env) (layer : OnionLayer) (r : Run)
    → (layer.type ≡ relay_type) ⊎ (layer.type ≡ final_type)
    → handle_layer env' layer (handle_layer env layer r).1
      ≡ (finished, (handle_layer env layer r).1)
unfolding handle_layer seen_msg
handle_layer_twice env env' layer r once =
    elim (Option-cases (lookup layer.msg_id r.node.seen_msgs)) [
      | inl new ↦
          let n = record r.node { seen_msgs = insert layer.msg_id env.now r.node.seen_msgs } in
          ground (
            arith,
            seen-dispatch env layer (record r { node = n }),
            lookup-insert layer.msg_id layer.msg_id env.now r.node.seen_msgs,
            eq_refl layer.msg_id,
          )
      | inr (t, old) ↦ ground arith
    ]
