-- ===== src/Model/Handler/Tells.antt =====
-- What the handler of an onion may put into a channel.
use dor.Base.{
  ℕ, ◌≡◌, refl, sym, ap, ◌∙◌, ◌⊎◌, inl, inr, Bool, true, ◌||◌, List, [], ◌∷◌, arith, Bool-cases,
  Option-cases, ◌==◌, nat_eq, Bytes, bytes_eq, Dict, lookup, >>=-eq-ok, ok-injective, Result, ok,
  err, panic, int_eq, ℤ,
}
use dor.Model.Crypto.{Crypto}
use dor.Model.Peel.{peel}
use dor.Model.Layer.{OnionLayer, relay_type, final_type, ack_type}
use dor.Model.Fragment.{
  receive_message, receive_fragment, store_fragment, place_fragment, deliver, frag_fields,
}
use dor.Model.Node.{Node, Run, Env, seen_msg, notify}
use dor.Model.Relay.{handle_relay, relay_parts, relay_to, handle_ack, resolve}
use dor.Model.Handler.{handle_final, send_ack, dispatch, handle_layer, handle_onion}
use dor.Strings.{split_max, contains}

place_fragment-channels :
    (frag_id : Bytes) (total : ℤ) (buf : Dict ℤ Bytes) (totals : Dict Bytes ℤ) (n : Node)
    → (place_fragment frag_id total buf totals n).channels ≡ n.channels
unfolding place_fragment deliver
place_fragment-channels frag_id total buf totals n = ground arith

store_fragment-channels :
    (frag_id : Bytes) (idx total : ℤ) (message : Bytes) (n : Node)
    → (store_fragment frag_id idx total message n).channels ≡ n.channels
unfolding store_fragment
store_fragment-channels frag_id idx total message n =
    elim (Option-cases (lookup frag_id n.frag_buf)) [
      | inl e ↦ rw (store_fragment, e) (place_fragment-channels frag_id total _ _ n)
      | inr (known, e) ↦ rw (store_fragment, e) (place_fragment-channels frag_id total _ _ n)
    ]

relay_to-channels :
    (env : Env) (layer : OnionLayer) (tosend toreceive : Bytes) (r : Run)
    → (relay_to env layer tosend toreceive r).1.node.channels ≡ r.node.channels
unfolding relay_to
relay_to-channels env layer tosend toreceive r = ground arith

relay_parts-channels :
    (env : Env) (layer : OnionLayer) (parts : List Bytes) (r : Run)
    → (relay_parts env layer parts r).1.node.channels ≡ r.node.channels
unfolding relay_parts
relay_parts-channels env layer [] r = refl
relay_parts-channels env layer (p ∷ []) r = refl
relay_parts-channels env layer (tosend ∷ toreceive ∷ []) r =
    relay_to-channels env layer tosend toreceive r
relay_parts-channels env layer (p ∷ q ∷ o ∷ more) r = refl

handle_relay-channels :
    (env : Env) (layer : OnionLayer) (r : Run)
    → (handle_relay env layer r).1.node.channels ≡ r.node.channels
unfolding handle_relay
handle_relay-channels env layer r = elim (Bool-cases (contains layer.next b':')) [
  | inl e ↦ rw (e) (relay_parts-channels env layer (split_max 1 layer.msg_id b':') r)
  | inr e ↦ rw (e) refl
]

send_ack-channels :
    (env : Env) (layer : OnionLayer) (r : Run)
    → (send_ack env layer r).node.channels ≡ r.node.channels
unfolding send_ack
send_ack-channels env layer r = ground arith

receive_fragment-channels :
    (layer : OnionLayer) (n n' : Node) → receive_fragment layer n ≡ ok n' → n'.channels ≡ n.channels
unfolding receive_fragment
receive_fragment-channels layer n n' h =
    let (fields, parsed, stored) = >>=-eq-ok (frag_fields layer.frag) _ h in
    ap (λ (m : Node). m.channels) (sym (ok-injective stored))
    ∙ store_fragment-channels fields.0 fields.1 fields.2 layer.message n

receive_message-channels :
    (layer : OnionLayer) (n n' : Node) → receive_message layer n ≡ ok n' → n'.channels ≡ n.channels
unfolding receive_message deliver
receive_message-channels layer n n' h = elim (Bool-cases (layer.frag == [])) [
  | inl e ↦
      let whole : receive_message layer n ≡ ok (deliver layer.message n) =
        rw (receive_message, e) refl in
      ap (λ (m : Node). m.channels) (ok-injective (sym h ∙ whole))
  | inr e ↦
      let piece : receive_message layer n ≡ receive_fragment layer n =
        rw (receive_message, e) refl in
      receive_fragment-channels layer n n' (sym piece ∙ h)
]

handle_final-channels :
    (env : Env) (layer : OnionLayer) (r : Run)
    → (handle_final env layer r).1.node.channels ≡ r.node.channels
unfolding handle_final
handle_final-channels env layer r = by_result (receive_message layer r.node) refl
  where
    by_result :
        (o : Result Node)
        → receive_message layer r.node ≡ o
        → (handle_final env layer r).1.node.channels ≡ r.node.channels
    by_result (ok n) e =
        rw (handle_final, e)
          (send_ack-channels env layer (record r { node = n })
            ∙ receive_message-channels layer r.node n e)
    by_result (err x) e = rw (handle_final, e) refl
    by_result panic e = rw (handle_final, e) refl

-- An empty channel is still empty, or holds `true`.
abbrev pub IsHopeful : ℕ → Run → Type 0
IsHopeful ch r = (r.node.channels ch ≡ []) ⊎ (r.node.channels ch ≡ true ∷ [])

unchanged :
    (ch : ℕ) (r r' : Run)
    → r.node.channels ch ≡ []
    → r'.node.channels ≡ r.node.channels
    → IsHopeful ch r'
unchanged ch r r' empty same = inl (ap (λ (f : ℕ → List Bool). f ch) same ∙ empty)

resolve-IsHopeful :
    (id : Bytes) (ch other : ℕ) (r : Run)
    → r.node.channels ch ≡ []
    → IsHopeful ch (resolve id other true r).1
unfolding resolve notify
resolve-IsHopeful id ch other r empty = by_buffer (r.node.channels other) refl
  where
    by_buffer :
        (buf : List Bool) → r.node.channels other ≡ buf → IsHopeful ch (resolve id other true r).1
    by_buffer [] full = elim (Bool-cases (ch == other)) [
      | inl e ↦ inr (ground (arith, full, e))
      | inr e ↦ inl (ground (arith, full, e, empty))
    ]
    by_buffer (v ∷ buf) full = inl (ground (arith, full, empty))

handle_ack-IsHopeful :
    (layer : OnionLayer) (ch : ℕ) (r : Run)
    → r.node.channels ch ≡ []
    → IsHopeful ch (handle_ack layer r).1
unfolding handle_ack
handle_ack-IsHopeful layer ch r empty =
    elim (Option-cases (lookup layer.msg_id r.node.pending_acks)) [
      | inl e ↦ rw (handle_ack, e) (inl empty)
      | inr (other, e) ↦ rw (handle_ack, e) (resolve-IsHopeful layer.msg_id ch other r empty)
    ]

dispatch-IsHopeful :
    (env : Env) (layer : OnionLayer) (ch : ℕ) (r : Run)
    → r.node.channels ch ≡ []
    → IsHopeful ch (dispatch env layer r).1
unfolding dispatch
dispatch-IsHopeful env layer ch r empty = elim (Bool-cases (layer.type == relay_type)) [
  | inl e ↦
      rw (dispatch, e)
        (unchanged ch r (handle_relay env layer r).1 empty (handle_relay-channels env layer r))
  | inr e ↦ elim (Bool-cases (layer.type == final_type)) [
    | inl e' ↦
        rw (dispatch, e, e')
          (unchanged ch r (handle_final env layer r).1 empty (handle_final-channels env layer r))
    | inr e' ↦ elim (Bool-cases (layer.type == ack_type)) [
      | inl e'' ↦ rw (dispatch, e, e', e'') (handle_ack-IsHopeful layer ch r empty)
      | inr e'' ↦ rw (dispatch, e, e', e'') (inl empty)
    ]
  ]
]

seen_msg-channels :
    (env : Env) (id : Bytes) (n : Node) → (seen_msg env id n).1.channels ≡ n.channels
unfolding seen_msg
seen_msg-channels env id n = ground arith

handle_layer-IsHopeful :
    (env : Env) (layer : OnionLayer) (ch : ℕ) (r : Run)
    → r.node.channels ch ≡ []
    → IsHopeful ch (handle_layer env layer r).1
unfolding handle_layer
handle_layer-IsHopeful env layer ch r empty =
    let n = (seen_msg env layer.msg_id r.node).1 in
    let same = seen_msg-channels env layer.msg_id r.node in
    let still : n.channels ch ≡ [] = ap (λ (f : ℕ → List Bool). f ch) same ∙ empty in
    elim (Bool-cases (layer.type == relay_type || layer.type == final_type)) [
      | inr e ↦ rw (handle_layer, e) (dispatch-IsHopeful env layer ch r empty)
      | inl e ↦ elim (Bool-cases (seen_msg env layer.msg_id r.node).0) [
        | inl seen ↦ rw (handle_layer, e, seen) (inl empty)
        | inr seen ↦
            rw (handle_layer, e, seen)
              (dispatch-IsHopeful env layer ch (record r { node = n }) still)
      ]
    ]

-- No onion tells a channel of the node that its message failed: after the handler, a channel that
-- was empty is empty or holds `true`.
pub handle_onion-IsHopeful :
    (c : Crypto) (sk : c.PrivateKey) (env : Env) (text : Bytes) (ch : ℕ) (r : Run)
    → r.node.channels ch ≡ []
    → IsHopeful ch (handle_onion c sk env text r).1
unfolding handle_onion
handle_onion-IsHopeful c sk env text ch r empty = by_layer (peel c sk text) refl
  where
    by_layer :
        (o : Result OnionLayer) → peel c sk text ≡ o → IsHopeful ch (handle_onion c sk env text r).1
    by_layer (ok layer) e = rw (handle_onion, e) (handle_layer-IsHopeful env layer ch r empty)
    by_layer (err x) e = rw (handle_onion, e) (inl empty)
    by_layer panic e = rw (handle_onion, e) (inl empty)
