-- ===== src/Node/Onion/Groups.antt =====
-- An onion of single nodes is an onion of groups of one node each.
use dor.Base.{
  ℕ, zero, suc, ◌≡◌, refl, sym, ap, ◌∙◌, inl, inr, Option, some, List, [], ◌∷◌, map, arith,
  Option-cases, Bytes, length, get_elem?, All, All-get_elem?, get_elem?-map, length-map, ◌>>=◌,
  index, >>=-congr,
}
use dor.Strings.{join}
use dor.Model.Crypto.{Crypto, Fresh}
use dor.Model.Layer.{OnionLayer, onionlayer_to_string}
use dor.Model.Broadcast.{broadcast_encrypt, wrap_keys, join_addresses}
use dor.Node.Onion.{
  encrypt_for_node, prev_node, relay_layer, key_of, wrap_layer, wrap_loop, encrypt_onion_layers,
  at_last, build_layers,
}
use dor.Node.Super.{
  LayerGroup, prev_group, wrap_group, wrap_groups, build_groups, encrypt_onion_layers_group,
}

-- Encryption for a node is encryption for the group of this node alone.
pub encrypt_for_node-eq-broadcast_encrypt :
    (c : Crypto) (f : Fresh) (plaintext : Bytes) (k : c.PublicKey)
    → encrypt_for_node c f plaintext k ≡ broadcast_encrypt c f plaintext (k ∷ [])
unfolding encrypt_for_node broadcast_encrypt wrap_keys join
encrypt_for_node-eq-broadcast_encrypt c f plaintext k = ground arith

abbrev pub single : {K : Type 0} → (Bytes → K) → Bytes → LayerGroup K
single key addr = record { addrs = addr ∷ []; pub_keys = key addr ∷ [] }

module _ (c : Crypto) (public_keys : Bytes → Option c.PublicKey) (key : Bytes → c.PublicKey)
    (fresh : ℕ → Fresh) (route : List Bytes) (sender_addr : Bytes) (nacks : List Bytes)
    (known : All (λ a. public_keys a ≡ some (key a)) route) where
  prev_node-eq :
      (i : ℕ) → prev_node sender_addr route i ≡ prev_group sender_addr (map (single key) route) i
  unfolding prev_node prev_group join_addresses join
  prev_node-eq zero = refl
  prev_node-eq (suc i) = ground (arith, get_elem?-map (single key) route i)

  abbrev groups : List (LayerGroup c.PublicKey)
  groups = map (single key) route

  known_key : (i : ℕ) (a : Bytes) → get_elem? route i ≡ some a → public_keys a ≡ some (key a)
  known_key i a e = All-get_elem? (λ b. public_keys b ≡ some (key b)) route i e known

  -- The part of a round behind the reads of the previous node and of the identifiers.
  round-eq :
      (i : ℕ) (p prev n0 n1 : Bytes)
      → (index route (suc i) >>= λ next. index route i >>= λ addr.
          key_of c public_keys addr >>= λ k.
          encrypt_for_node c (fresh i) (onionlayer_to_string (relay_layer n0 n1 next prev p)) k)
        ≡ (index groups (suc i) >>= λ next. index groups i >>= λ group.
            broadcast_encrypt c
              (fresh i)
              (onionlayer_to_string (relay_layer n0 n1 (join_addresses next.addrs) prev p))
              group.pub_keys)
  unfolding key_of join_addresses join
  round-eq i p prev n0 n1 =
      let get_i = get_elem?-map (single key) route i in
      let get_next = get_elem?-map (single key) route (suc i) in
      elim (Option-cases (get_elem? route (suc i))) [
        | inl e ↦ ground (arith, get_next)
        | inr (next, e) ↦ elim (Option-cases (get_elem? route i)) [
          | inl e' ↦ ground (arith, get_i, get_next)
          | inr (addr, e') ↦ ground (
            arith,
            get_i,
            get_next,
            known_key i addr e',
            encrypt_for_node-eq-broadcast_encrypt c (fresh i)
                (onionlayer_to_string (relay_layer n0 n1 next prev p)) (key addr),
          )
        ]
      ]

  wrap_layer-eq :
      (i : ℕ) (p : Bytes)
      → wrap_layer c public_keys fresh route sender_addr nacks i p
        ≡ wrap_group c fresh groups sender_addr nacks i p
  unfolding wrap_layer wrap_group
  wrap_layer-eq i p = rw (prev_node-eq i) (
      >>=-congr (prev_group sender_addr groups i) _ _ λ prev.
        >>=-congr (index nacks i) _ _
          λ n0. >>=-congr (index nacks (suc i)) _ _ λ n1. round-eq i p prev n0 n1)

  wrap_loop-eq :
      (i : ℕ) (p : Bytes)
      → wrap_loop c public_keys fresh route sender_addr nacks i p
        ≡ wrap_groups c fresh groups sender_addr nacks i p
  unfolding wrap_loop wrap_groups
  wrap_loop-eq zero p = refl
  wrap_loop-eq (suc i) p =
      rw (wrap_layer-eq i p)
        (>>=-congr (wrap_group c fresh groups sender_addr nacks i p) _ _ λ q. wrap_loop-eq i q)

  build_layers-eq :
      (inner : OnionLayer) (i : ℕ)
      → build_layers c public_keys fresh route sender_addr nacks inner i
        ≡ build_groups c fresh groups sender_addr nacks inner i
  unfolding build_layers build_groups key_of
  build_layers-eq inner i =
      let get_i = get_elem?-map (single key) route i in
      elim (Option-cases (get_elem? route i)) [
        | inl e ↦ ground (arith, get_i)
        | inr (addr, e) ↦ ground (
          arith,
          get_i,
          known_key i addr e,
          encrypt_for_node-eq-broadcast_encrypt c (fresh i) (onionlayer_to_string inner) (key addr),
          >>=-congr (broadcast_encrypt c (fresh i) (onionlayer_to_string inner) (key addr ∷ []))
              (wrap_loop c public_keys fresh route sender_addr nacks i)
              (wrap_groups c fresh groups sender_addr nacks i) (wrap_loop-eq i),
        )
      ]

  at_last-eq :
      (inner : OnionLayer) (n : ℕ)
      → at_last n (build_layers c public_keys fresh route sender_addr nacks inner)
        ≡ at_last n (build_groups c fresh groups sender_addr nacks inner)
  at_last-eq inner zero = refl
  at_last-eq inner (suc i) = build_layers-eq inner i

  -- `encryptOnionLayers` is `encryptOnionLayersGroup` on groups of one node, if all keys are known.
  pub encrypt_onion_layers-eq-groups :
      (inner : OnionLayer)
      → encrypt_onion_layers c public_keys fresh route sender_addr nacks inner
        ≡ encrypt_onion_layers_group c fresh groups sender_addr nacks inner
  unfolding encrypt_onion_layers encrypt_onion_layers_group
  encrypt_onion_layers-eq-groups inner =
      at_last-eq inner (length route)
      ∙ ap (λ n. at_last n (build_groups c fresh groups sender_addr nacks inner))
          (sym (length-map (single key) route))
