-- ===== src/Node/Encapsulate/Exposure.antt =====
-- What the first hop of the return route reads.
use dor.Base.{
  ℕ, suc, ◌≤◌, ◌≡◌, refl, sym, ap, ◌∙◌, subst, inl, Option, some, List, [], ◌∷◌, map, reverse,
  arith, Bytes, length, get_elem?, All, All-get_elem?, IsMember, All-Permᴰ, >>=-eq-ok, ok-injective,
  index, index-eq-ok, ok,
}
use dor.Model.Crypto.{Crypto, CryptoLaws, Fresh, IsFresh}
use dor.Model.Layer.{OnionLayer}
use dor.Model.Broadcast.{join_addresses}
use dor.Model.Broadcast.Addresses.{IsAddress}
use dor.Model.Peel.{peel}
use dor.Node.Onion.Groups.{single, encrypt_onion_layers-eq-groups}
use dor.Node.Super.{LayerGroup, ack_layer, prev_group}
use dor.Node.Super.Peels.{Peels, IsField, encrypt_onion_layers_group-Peels}
use dor.Node.Super.Return.{ack_layer-IsSendable}
use dor.Node.Encapsulate.{return_part, encrypt_onion_layers}
use mathlib.Core.List.Permᴰ
use dor.Node.Onion.{relay_layer}

address-IsField : (a : Bytes) → IsAddress a → IsField a
address-IsField a h = (h.no_bar, h.bytes)

single-addresses :
    {K : Type 0} (key : Bytes → K) (route : List Bytes)
    → All IsAddress route
    → All (λ g. All IsAddress g.addrs) (map (single key) route)
single-addresses key [] h = tt
single-addresses key (a ∷ route) (h, hs) = ((h, tt), single-addresses key route hs)

module _ (c : Crypto) (laws : CryptoLaws c) (forward_fresh return_fresh : ℕ → Fresh)
    (good : (i : ℕ) → IsFresh (return_fresh i)) (draws : ℕ → List ℕ)
    (public_keys : Bytes → Option c.PublicKey) (key : Bytes → c.PublicKey) where
  -- The first of at least two hops reads the address that the builder was given as the sender's.
  first_hop_reads :
      (route : List (LayerGroup c.PublicKey)) (sender_addr : Bytes) (nacks : List Bytes)
      (inner : OnionLayer) (i : ℕ) (text : Bytes) (g : LayerGroup c.PublicKey) (sk : c.PrivateKey)
      → i ≡ 0
      → 2 ≤ length route
      → get_elem? route 0 ≡ some g
      → IsMember (c.public_of sk) g.pub_keys
      → Peels c route sender_addr nacks inner i text
      → (layer : OnionLayer) × (peel c sk text ≡ ok layer) × (layer.from ≡ sender_addr)
  unfolding relay_layer prev_group
  first_hop_reads route sender_addr nacks inner i text g sk e long at_g member
        (Peels.last group end at_group opens) =
      absurd (omega (arith, e, long, end))
  first_hop_reads route sender_addr nacks inner i text g sk e long at_g member
        (Peels.hop group next prev n0 n1 rest at_group at_next at_prev get0 get1 opens more) =
      let same : group ≡ g = cc (at_g, subst (λ j. get_elem? route j ≡ some group) e at_group) in
      let from : ok sender_addr ≡ ok prev =
        subst (λ j. prev_group sender_addr route j ≡ ok prev) e at_prev in
      (
        relay_layer n0 n1 (join_addresses next.addrs) prev rest,
        opens sk (subst (λ h. IsMember (c.public_of sk) h.pub_keys) (sym same) member),
        sym (ok-injective from),
      )

  -- When the return onion is made, for a route of at least two valid addresses whose keys are all
  -- known, then its first hop reads the address of the last one, which is the sender of the
  -- message, as the node before it; the identifiers are fields of a layer.
  pub return_part-exposes :
      (msg_id : Bytes) (nacks : List Bytes) (a b : Bytes) (rest : List Bytes)
      (sender first_hop onion : Bytes) (sk : c.PrivateKey)
      → All (λ x. public_keys x ≡ some (key x)) (a ∷ b ∷ rest)
      → All IsAddress (a ∷ b ∷ rest)
      → IsField msg_id
      → All IsField nacks
      → index (a ∷ b ∷ rest) (suc (length rest)) ≡ ok sender
      → c.public_of sk ≡ key a
      → return_part c forward_fresh return_fresh draws public_keys msg_id nacks
          (some (a ∷ b ∷ rest))
        ≡ ok (first_hop, onion)
      → (first_hop ≡ a)
        × ((layer : OnionLayer) × (peel c sk onion ≡ ok layer) × (layer.from ≡ sender))
  unfolding return_part
  return_part-exposes msg_id nacks a b rest sender first_hop onion sk known addresses id_field
        nack_fields at_sender own made =
      let route = a ∷ b ∷ rest in
      let (last, at_last, h1) = >>=-eq-ok (index route (suc (length rest))) _ made in
      let (text, built, h2) =
        >>=-eq-ok
          (encrypt_onion_layers c public_keys return_fresh route last (reverse nacks)
            (ack_layer msg_id))
          _ h1 in
      let same : last ≡ sender = cc (at_last, at_sender) in
      let pair : (a, text) ≡ (first_hop, onion) = ok-injective h2 in
      let as_groups =
        sym (
          encrypt_onion_layers-eq-groups c public_keys key return_fresh route last (reverse nacks)
            known (ack_layer msg_id))
        ∙ built in
      let (peels, _) =
        encrypt_onion_layers_group-Peels c laws return_fresh good (map (single key) route) last
          (reverse nacks) (single-addresses key route addresses)
          (address-IsField last (
            All-get_elem? IsAddress route (suc (length rest))
              (index-eq-ok route (suc (length rest)) at_last) addresses))
          (All-Permᴰ IsField (Permᴰ.symm (Permᴰ.reverse nacks)) nack_fields) (ack_layer msg_id) text
          (ack_layer-IsSendable msg_id id_field) as_groups in
      let (layer, opened, from) =
        first_hop_reads (map (single key) route) last (reverse nacks) (ack_layer msg_id) 0 text
          (single key a) sk refl (omega arith) refl (inl own) peels in
      (
        sym (ap (λ (p : Bytes × Bytes). p.0) pair),
        (
          layer,
          subst (λ t. peel c sk t ≡ ok layer) (ap (λ (p : Bytes × Bytes). p.1) pair) opened,
          from ∙ same,
        ),
      )
