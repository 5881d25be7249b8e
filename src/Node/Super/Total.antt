-- ===== src/Node/Super/Total.antt =====
-- The builder of an onion for groups returns an onion.
use dor.Base.{
  ℕ, zero, suc, ◌≤◌, ◌<◌, ◌≡◌, refl, List, [], ◌∷◌, arith, Bytes, length, All, All-get_elem?, index,
  index-eq-ok, ok,
}
use dor.Model.Crypto.{Crypto, CryptoLaws, Fresh, IsFresh}
use dor.Model.Layer.{OnionLayer, onionlayer_to_string}
use dor.Model.Broadcast.{broadcast_encrypt, join_addresses}
use dor.Model.Broadcast.RoundTrip.{broadcast_encrypt_total}
use dor.Node.Onion.{relay_layer, at_last}
use dor.Node.Super.{
  LayerGroup, prev_group, wrap_group, wrap_groups, build_groups, encrypt_onion_layers_group,
}

pub index_total {ℓ} :
    {A : Type ℓ} (xs : List A) (i : ℕ) → i < length xs → (x : A) × (index xs i ≡ ok x)
index_total [] i h = absurd (omega (arith, h))
index_total (x ∷ xs) zero h = (x, refl)
index_total (x ∷ xs) (suc i) h = index_total xs i (omega (arith, h))

-- The group has a key, and an AES key fits into what each of its keys can encrypt.
abbrev pub CanRead : (c : Crypto) → LayerGroup c.PublicKey → Type 0
CanRead c g = (1 ≤ length g.pub_keys) × All (λ k. 98 ≤ c.modulus_size k) g.pub_keys

module _ (c : Crypto) (laws : CryptoLaws c) (fresh : ℕ → Fresh) (good : (i : ℕ) → IsFresh (fresh i))
    (route : List (LayerGroup c.PublicKey)) (sender_addr : Bytes) (nacks : List Bytes)
    (readable : All (CanRead c) route) (one_each : length nacks ≡ length route) where
  group_total :
      (i j : ℕ) (plaintext : Bytes)
      → i < length route
      → (g : LayerGroup c.PublicKey) × (index route i ≡ ok g)
        × ((text : Bytes) × (broadcast_encrypt c (fresh j) plaintext g.pub_keys ≡ ok text))
  group_total i j plaintext h =
      let (g, at) = index_total route i h in
      (
        g,
        at,
        by_keys g.pub_keys (All-get_elem? (CanRead c) route i (index-eq-ok route i at) readable),
      )
    where
      by_keys :
          (keys : List c.PublicKey)
          → (1 ≤ length keys) × All (λ k. 98 ≤ c.modulus_size k) keys
          → (text : Bytes) × (broadcast_encrypt c (fresh j) plaintext keys ≡ ok text)
      by_keys [] (some_key, fits) = absurd (omega (arith, some_key))
      by_keys (k ∷ keys) (some_key, fits) =
          broadcast_encrypt_total c laws (fresh j) (good j) plaintext k keys fits

  prev_group_total :
      (i : ℕ) → i < length route → (prev : Bytes) × (prev_group sender_addr route i ≡ ok prev)
  unfolding prev_group
  prev_group_total zero h = (sender_addr, refl)
  prev_group_total (suc i) h =
      let (g, at) = index_total route i (omega (arith, h)) in (join_addresses g.addrs, rw (at) refl)

  wrap_group_total :
      (i : ℕ) (p : Bytes)
      → suc i < length route
      → (text : Bytes) × (wrap_group c fresh route sender_addr nacks i p ≡ ok text)
  unfolding wrap_group
  wrap_group_total i p h =
      let (prev, at_prev) = prev_group_total i (omega (arith, h)) in
      let (n0, at_n0) = index_total nacks i (omega (arith, h, one_each)) in
      let (n1, at_n1) = index_total nacks (suc i) (omega (arith, h, one_each)) in
      let (next, at_next) = index_total route (suc i) h in
      let (g, at, (text, made)) =
        group_total i i
          (onionlayer_to_string (relay_layer n0 n1 (join_addresses next.addrs) prev p))
          (omega (arith, h)) in
      (text, rw (at_prev) (rw (at_n0) (rw (at_n1) (rw (at_next) (rw (at) made)))))

  wrap_groups_total :
      (i : ℕ) (p : Bytes)
      → i < length route
      → (text : Bytes) × (wrap_groups c fresh route sender_addr nacks i p ≡ ok text)
  unfolding wrap_groups
  wrap_groups_total zero p h = (p, refl)
  wrap_groups_total (suc i) p h =
      let (q, made) = wrap_group_total i p h in
      let (text, rest) = wrap_groups_total i q (omega (arith, h)) in (text, rw (made) rest)

  -- On a route that is not empty, with a NACK identifier for each hop and RSA keys of at least 98
  -- bytes, an onion is made.
  pub encrypt_onion_layers_group_total :
      (inner : OnionLayer)
      → 1 ≤ length route
      → (text : Bytes) × (encrypt_onion_layers_group c fresh route sender_addr nacks inner
          ≡ ok text)
  unfolding encrypt_onion_layers_group build_groups
  encrypt_onion_layers_group_total inner some_hop = by_length (length route) refl some_hop
    where
      by_length :
          (n : ℕ)
          → n ≡ length route
          → 1 ≤ n
          → (text : Bytes) × (at_last n (build_groups c fresh route sender_addr nacks inner)
              ≡ ok text)
      by_length zero e h = absurd (omega (arith, h))
      by_length (suc i) e h =
          let (g, at, (p, made)) =
            group_total i i (onionlayer_to_string inner) (omega (arith, e)) in
          let (text, rest) = wrap_groups_total i p (omega (arith, e)) in
          (text, rw (at) (rw (made) rest))
