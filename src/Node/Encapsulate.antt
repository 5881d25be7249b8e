-- ===== src/Node/Encapsulate.antt =====
-- `Encapsulator_func` of node_server/node/onion.go: fetch the keys, then build both onions.
pub mod Exposure
pub mod Groups
pub mod Keys
use dor.Base.{
  ℕ, suc, ◌+◌, Bool, true, Option, none, some, List, [], ◌∷◌, ◌++◌, reverse, if◌then◌else◌, Bytes,
  length, set, ◌>>=◌, index, ◌>>◌, Result, ok, err, panic,
}
use dor.Model.Crypto.{Crypto, Fresh}
use dor.Model.Layer.{generate_msg_id}
use dor.Node.KeyCache
use dor.Node.KeyCache.{KeyCache, CachedKey, is_expired, fetch_key_from_server}
use dor.Node.Onion.{encrypt_onion_layers}
use dor.Node.Super.{nack_ids, ack_layer, final_layer}

module _ (c : Crypto) where
  -- The key of an address, as the onion's builder reads it.
  unfoldable pub cached_key : KeyCache c.PublicKey → Bytes → Option c.PublicKey
  cached_key cache addr = elim (KeyCache.get cache addr) [ none ↦ none | some v ↦ some v.key ]

  -- What `!ok || time.Now().After(cached.ExpiresAt)` asks.
  unfoldable pub needs_fetch : ℕ → Option (CachedKey c.PublicKey) → Bool
  needs_fetch now none = true
  needs_fetch now (some v) = is_expired now v

  module _ (exchange : Bytes → Result Bytes) (clock : ℕ → ℕ) where
    -- One round of the loop over the nodes, which reads the clock for its node.
    unfoldable pub refresh_key : ℕ → KeyCache c.PublicKey → Bytes → Result (KeyCache c.PublicKey)
    refresh_key i cache addr =
        if needs_fetch (clock i) (KeyCache.get cache addr)
        then (do
          k ← fetch_key_from_server c exchange addr
          ok (KeyCache.set cache addr (record { key = k; expires_at = clock i + 30 })))
        else ok cache

    -- The loop, with the cache that is left behind when a fetch fails.
    unfoldable pub refresh_keys :
        ℕ → KeyCache c.PublicKey → List Bytes → KeyCache c.PublicKey × Result (Unit {0})
    refresh_keys i cache [] = (cache, ok tt)
    refresh_keys i cache (addr ∷ addrs) = elim (refresh_key i cache addr) [
      | ok cache' ↦ refresh_keys (suc i) cache' addrs
      | err e ↦ (cache, err e)
      | panic ↦ (cache, panic)
    ]

  module _ (forward_fresh return_fresh : ℕ → Fresh) (draws : ℕ → List ℕ)
      (public_keys : Bytes → Option c.PublicKey) where
    -- `firstReturnHop` and `returnOnion`; `none` is the nil route. The last address of the return
    -- route is given as the address of the sender, and the identifiers are used backwards.
    unfoldable pub return_part : Bytes → List Bytes → Option (List Bytes) → Result (Bytes × Bytes)
    return_part msg_id nacks none = ok ([], [])
    return_part msg_id nacks (some []) = ok ([], [])
    return_part msg_id nacks (some (a ∷ addrs)) = do
      last ← index (a ∷ addrs) (length addrs)
      onion ←
          encrypt_onion_layers c public_keys return_fresh (a ∷ addrs) last (reverse nacks)
            (ack_layer msg_id)
      ok (a, onion)

    -- What follows the loop: the onion, the identifier of the message, the first NACK identifier.
    unfoldable pub build_onions :
        Bytes → Bytes → List Bytes → Option (List Bytes) → Bytes → Result (Bytes × Bytes × Bytes)
    build_onions message frag route return_route sender_addr =
        let msg_id = generate_msg_id [] (draws 0) in
        let nacks = nack_ids draws 1 (length route) in
        do
          (first_hop, onion) ← return_part msg_id nacks return_route
          p ←
              encrypt_onion_layers c public_keys forward_fresh route sender_addr nacks
                (final_layer msg_id first_hop onion frag message)
          first_nack ← index nacks 0
          ok (p, msg_id, first_nack)

  abbrev pub all_nodes : List Bytes → Option (List Bytes) → List Bytes
  all_nodes route none = route
  all_nodes route (some return_route) = route ++ return_route

  unfoldable pub encapsulator_func :
      (Bytes → Result Bytes)
      → (ℕ → ℕ)
      → (ℕ → Fresh)
      → (ℕ → Fresh)
      → (ℕ → List ℕ)
      → KeyCache c.PublicKey
      → Bytes
      → Bytes
      → List Bytes
      → Option (List Bytes)
      → Bytes
      → KeyCache c.PublicKey × Result (Bytes × Bytes × Bytes)
  encapsulator_func exchange clock forward_fresh return_fresh draws cache message frag route
        return_route sender_addr =
      let (cache', fetched) = refresh_keys exchange clock 0 cache (all_nodes route return_route) in
      (
        cache',
        (do
          fetched
          build_onions forward_fresh return_fresh draws (cached_key cache') message frag route
              return_route sender_addr),
      )
