-- ===== src/Node/Super/Silent.antt =====
-- What a recipient sends: the FINAL layers that the builders make leave it no way to report a failure.
use dor.Base.{
  ◌≡◌, refl, ◌∙◌, ◌≢◌, inl, inr, Bool, true, false, not, ◌&&◌, ◌||◌, List, [], ◌++◌, arith,
  Bool-cases, ◌==◌, eq_iff, nat_eq, Bytes, bytes_eq, Result, ok, err, panic, int_eq,
}
use dor.Model.Layer.{OnionLayer}
use dor.Model.Broadcast.{parse_addresses}
use dor.Model.Shuffle.{shuffle}
use dor.Model.Node.{Node, Run, Env, Attempt, seen_msg}
use dor.Model.Node.Sends.{Tried, send_first-Tried}
use dor.Model.Fragment.{receive_message}
use dor.Model.Handler.{handle_final, send_ack, dispatch, handle_layer}
use dor.Model.Handler.Final.{send_ack_no_from}
use dor.Node.Super.{final_layer}

-- The text was offered to these addresses up to the first that answered, or nothing was sent.
abbrev pub Offers : Bool → Bytes → List Bytes → List Attempt → List Attempt → Type 0
Offers false m addrs sent sent' = sent' ≡ sent
Offers true m addrs sent sent' =
    (b : Bool) × (calls : List Attempt) × (sent' ≡ sent ++ calls) × Tried m addrs b calls

abbrev pub is_ok : {A : Type 0} → Result A → Bool
is_ok (ok x) = true
is_ok _ = false

module _ (env : Env) (msg_id next payload frag message : Bytes) where
  abbrev layer : OnionLayer
  layer = final_layer msg_id next payload frag message

  abbrev pub offered : List Bytes
  offered = shuffle env.draws (parse_addresses next)

  -- There is a return onion, and somebody to give it to.
  abbrev pub has_return : Bool
  has_return = not (next == [] || payload == [])

  -- The layer is new, and its fragment, if any, can be read.
  abbrev pub is_taken : Run → Bool
  is_taken r =
      let (seen, n) = seen_msg env msg_id r.node in not seen && is_ok (receive_message layer n)

  send_ack_silent :
      (r : Run) → (next == [] || payload == []) ≡ true → (send_ack env layer r).sent ≡ r.sent
  unfolding send_ack final_layer
  send_ack_silent r e = rw (send_ack, e) refl

  send_ack-Offers_some :
      (r : Run)
      → next ≢ []
      → payload ≢ []
      → Offers true payload offered r.sent (send_ack env layer r).sent
  unfolding final_layer
  send_ack-Offers_some r some_hop some_onion =
      let (calls, log, tried) = send_first-Tried env payload offered r.sent in
      (_, calls, send_ack_no_from env layer r refl some_hop some_onion ∙ log, tried)

  send_ack-Offers : (r : Run) → Offers has_return payload offered r.sent (send_ack env layer r).sent
  send_ack-Offers r = elim (Bool-cases (next == [] || payload == [])) [
    | inl e ↦ rw (e) (send_ack_silent r e)
    | inr e ↦ rw (e) (
        send_ack-Offers_some r (λ h. ground (arith, e, (eq_iff next []).1 h))
          (λ h. ground (arith, e, (eq_iff payload []).1 h)))
  ]

  handle_final-Offers :
      (r : Run)
      → Offers
          (is_ok (receive_message layer r.node) && has_return)
          payload
          offered
          r.sent
          (handle_final env layer r).1.sent
  unfolding handle_final
  handle_final-Offers r = by_result (receive_message layer r.node) refl
    where
      by_result :
          (o : Result Node)
          → receive_message layer r.node ≡ o
          → Offers
              (is_ok (receive_message layer r.node) && has_return)
              payload
              offered
              r.sent
              (handle_final env layer r).1.sent
      by_result (ok n) e = rw (handle_final, e) (send_ack-Offers (record r { node = n }))
      by_result (err x) e = rw (handle_final, e) refl
      by_result panic e = rw (handle_final, e) refl

  dispatch-handle_final : (r : Run) → dispatch env layer r ≡ handle_final env layer r
  unfolding dispatch final_layer
  dispatch-handle_final r = refl

  -- Whatever a FINAL layer holds that a builder of onions makes, with a fragment or without, and
  -- whoever answers: if the layer is new, its fragment can be read, and it has a return onion and
  -- addresses for it, then the handler offers the onion to the shuffled addresses up to the first
  -- that takes it. Otherwise it sends nothing. If no address takes the onion, nobody is told.
  pub handle_layer-Offers :
      (r : Run)
      → Offers (is_taken r && has_return) payload offered r.sent (handle_layer env layer r).1.sent
  unfolding handle_layer final_layer
  handle_layer-Offers r = elim (Bool-cases (seen_msg env msg_id r.node).0) [
    | inl seen ↦ rw (handle_layer, seen) refl
    | inr seen ↦
        let noted = record r { node = (seen_msg env msg_id r.node).1 } in
        rw (handle_layer, seen) (rw (dispatch-handle_final noted) (handle_final-Offers noted))
  ]
