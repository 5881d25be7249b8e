-- ===== src/Model/Handler/Eviction.antt =====
-- The goroutine of `StartNode` (node_server/model/Node.go) that forgets old identifiers, beside the
-- handler that drops what it has seen.
use dor.Base.{
  ℕ, ◌+◌, ◌-◌, ◌≤◌, ◌≡◌, ◌⊎◌, inl, inr, none, some, List, [], ◌∷◌, arith, ltb, if◌then◌else◌,
  Bool-cases, ◌==◌, eq_refl, nat_eq, Bytes, bytes_eq, All, Dict, lookup, insert, lookup-insert,
  int_eq,
}
use dor.Model.Layer.{OnionLayer, relay_type, final_type}
use dor.Model.Node.{Run, finished, Env, seen_msg}
use dor.Model.Handler.{handle_layer}
use dor.Model.Handler.Replay.{seen-dispatch}

-- One round of the goroutine: `time.Since(t) > 30*time.Second`, in seconds.
unfoldable pub evict_seen : ℕ → Dict Bytes ℕ → Dict Bytes ℕ
evict_seen now [] = []
evict_seen now ((id, t) ∷ seen) =
    let rest = evict_seen now seen in if ltb 30 (now - t) then rest else (id, t) ∷ rest

-- The rounds at these times, one after the other.
unfoldable pub evict_rounds : List ℕ → Run → Run
unfolding evict_seen
evict_rounds [] r = r
evict_rounds (now ∷ times) r =
    evict_rounds times
      (record r { node = record r.node { seen_msgs = evict_seen now r.node.seen_msgs } })

lookup-evict_seen :
    (now t : ℕ) (id : Bytes) (seen : Dict Bytes ℕ)
    → lookup id seen ≡ some t
    → now ≤ t + 30
    → lookup id (evict_seen now seen) ≡ some t
unfolding lookup evict_seen
lookup-evict_seen now t id [] h young = cc
lookup-evict_seen now t id ((j, u) ∷ seen) h young = elim (Bool-cases (j == id)) [
  | inl e ↦ let same : u ≡ t = ground (arith, e, h) in ground (arith, e, same, young)
  | inr e ↦ ground (arith, e, lookup-evict_seen now t id seen (ground (arith, e, h)) young)
]

lookup-evict_rounds :
    (times : List ℕ) (t : ℕ) (id : Bytes) (r : Run)
    → lookup id r.node.seen_msgs ≡ some t
    → All (λ now. now ≤ t + 30) times
    → lookup id (evict_rounds times r).node.seen_msgs ≡ some t
unfolding evict_rounds
lookup-evict_rounds [] t id r h young = h
lookup-evict_rounds (now ∷ times) t id r h (le, young) =
    lookup-evict_rounds times t id _ (lookup-evict_seen now t id r.node.seen_msgs h le) young

handle_layer-remembers :
    (env : Env) (layer : OnionLayer) (r : Run)
    → (layer.type ≡ relay_type) ⊎ (layer.type ≡ final_type)
    → lookup layer.msg_id r.node.seen_msgs ≡ none
    → lookup layer.msg_id (handle_layer env layer r).1.node.seen_msgs ≡ some env.now
unfolding handle_layer seen_msg
handle_layer-remembers env layer r once new =
    let n = record r.node { seen_msgs = insert layer.msg_id env.now r.node.seen_msgs } in
    ground (
      arith,
      seen-dispatch env layer (record r { node = n }),
      lookup-insert layer.msg_id layer.msg_id env.now r.node.seen_msgs,
      eq_refl layer.msg_id,
    )

handle_layer-known :
    (env : Env) (layer : OnionLayer) (t : ℕ) (r : Run)
    → (layer.type ≡ relay_type) ⊎ (layer.type ≡ final_type)
    → lookup layer.msg_id r.node.seen_msgs ≡ some t
    → handle_layer env layer r ≡ (finished, r)
unfolding handle_layer seen_msg
handle_layer-known env layer t r once known = ground arith

-- A RELAY or FINAL layer that was new is dropped when it comes again, whichever rounds of the
-- goroutine that forgets old identifiers ran in between, if none ran later than 30 seconds after the
-- layer was first seen.
pub handle_layer-evict_rounds :
    (env env' : Env) (layer : OnionLayer) (r : Run) (times : List ℕ)
    → (layer.type ≡ relay_type) ⊎ (layer.type ≡ final_type)
    → lookup layer.msg_id r.node.seen_msgs ≡ none
    → All (λ now. now ≤ env.now + 30) times
    → handle_layer env' layer (evict_rounds times (handle_layer env layer r).1)
      ≡ (finished, evict_rounds times (handle_layer env layer r).1)
handle_layer-evict_rounds env env' layer r times once new young =
    handle_layer-known env' layer env.now (evict_rounds times (handle_layer env layer r).1) once (
      lookup-evict_rounds times env.now layer.msg_id (handle_layer env layer r).1
        (handle_layer-remembers env layer r once new) young)
