-- ===== src/Node/Encapsulate/Groups.antt =====
-- The onion and the return onion of single nodes are those of groups of one node each.
use dor.Base.{
  ℕ, ◌≡◌, refl, ap, inl, inr, Option, none, some, List, [], ◌∷◌, map, reverse, arith, Option-cases,
  Bytes, length, get_elem?, All, get_elem?-map, length-map, ◌>>=◌, index, >>=-congr, ok,
}
use dor.Model.Crypto.{Crypto, Fresh}
use dor.Model.Layer.{generate_msg_id}
use dor.Model.Broadcast.{join_addresses}
use dor.Node.Onion.Groups.{single, encrypt_onion_layers-eq-groups}
use dor.Node.Super
use dor.Node.Super.{
  LayerGroup, ack_layer, final_layer, nack_ids, encrypt_onion_layers_group, encapsulator_func_super,
}
use dor.Node.Encapsulate.{all_nodes, return_part, build_onions}
use dor.Strings.{join}

module _ (c : Crypto) (forward_fresh return_fresh : ℕ → Fresh) (draws : ℕ → List ℕ)
    (public_keys : Bytes → Option c.PublicKey) (key : Bytes → c.PublicKey) where
  abbrev pub grouped : Option (List Bytes) → Option (List (LayerGroup c.PublicKey))
  grouped none = none
  grouped (some back) = some (map (single key) back)

  return_part-eq-groups :
      (msg_id : Bytes) (nacks back : List Bytes)
      → All (λ a. public_keys a ≡ some (key a)) back
      → return_part c forward_fresh return_fresh draws public_keys msg_id nacks (some back)
        ≡ Super.return_part c forward_fresh return_fresh draws msg_id nacks
            (some (map (single key) back))
  unfolding return_part Super.return_part join_addresses join
  return_part-eq-groups msg_id nacks [] known = refl
  return_part-eq-groups msg_id nacks (a ∷ addrs) known =
      let route = a ∷ addrs in
      let at = get_elem?-map (single key) route (length addrs) in
      rw (length-map (single key) addrs) (elim (Option-cases (get_elem? route (length addrs))) [
        | inl e ↦ ground (arith, e, at)
        | inr (last, e) ↦ ground (
          arith,
          e,
          at,
          encrypt_onion_layers-eq-groups c public_keys key return_fresh route last (reverse nacks)
              known (ack_layer msg_id),
        )
      ])

  -- The same for a way back that may be nil.
  back_part-eq-groups :
      (msg_id : Bytes) (nacks : List Bytes) (back : Option (List Bytes))
      → All (λ a. public_keys a ≡ some (key a)) (all_nodes c [] back)
      → return_part c forward_fresh return_fresh draws public_keys msg_id nacks back
        ≡ Super.return_part c forward_fresh return_fresh draws msg_id nacks (grouped back)
  back_part-eq-groups msg_id nacks none known = unfold return_part Super.return_part in refl
  back_part-eq-groups msg_id nacks (some back) known = return_part-eq-groups msg_id nacks back known

  -- `Encapsulator_func` on a message in one piece, that is with an empty Frag, makes what
  -- `Encapsulator_func_super` makes for groups of one node each, once the keys of both routes are in
  -- the cache; the way back may be nil.
  pub build_onions-eq-groups :
      (message : Bytes) (route : List Bytes) (back : Option (List Bytes)) (sender_addr : Bytes)
      → All (λ a. public_keys a ≡ some (key a)) route
      → All (λ a. public_keys a ≡ some (key a)) (all_nodes c [] back)
      → build_onions c forward_fresh return_fresh draws public_keys message [] route back
          sender_addr
        ≡ encapsulator_func_super c forward_fresh return_fresh draws message
            (map (single key) route)
            (grouped back)
            sender_addr
  unfolding build_onions encapsulator_func_super
  build_onions-eq-groups message route back sender_addr known known_back =
      let msg_id = generate_msg_id [] (draws 0) in
      let nacks = nack_ids draws 1 (length route) in
      rw (length-map (single key) route, back_part-eq-groups msg_id nacks back known_back)
        (>>=-congr
          (Super.return_part c forward_fresh return_fresh draws msg_id nacks (grouped back)) _ _
          λ first.
            ap (λ m. m >>= λ p. index nacks 0 >>= λ first_nack. ok (p, msg_id, first_nack))
              (encrypt_onion_layers-eq-groups c public_keys key forward_fresh route sender_addr
                nacks known (final_layer msg_id first.0 first.1 [] message)))
