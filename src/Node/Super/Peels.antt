-- ===== src/Node/Super/Peels.antt =====
-- What the hops of a route see when they open an onion one after the other.
use dor.Base.{
  ℕ, zero, suc, ◌<◌, ◌≡◌, refl, subst, ◌≢◌, some, List, ◌∷◌, arith, Bytes, length, get_elem?, All,
  All-append, All-get_elem?, Lacks, IsBytes, IsMember, >>=-eq-ok, ok-injective, index, index-eq-ok,
  ok,
}
use dor.Model.Crypto.{Crypto, CryptoLaws, Fresh, IsFresh}
use dor.Model.Layer.{OnionLayer, onionlayer_to_string}
use dor.Model.Layer.RoundTrip.{IsPrintable, string_to_onion_layer-onionlayer_to_string}
use dor.Model.Broadcast.{broadcast_encrypt, join_addresses}
use dor.Model.Broadcast.Addresses.{IsAddress, join_addresses-Lacks_bar, join_addresses-IsBytes}
use dor.Model.Broadcast.RoundTrip.{broadcast_decrypt-broadcast_encrypt, broadcast_encrypt-All}
use dor.Model.Peel.{peel}
use dor.Node.Onion.{relay_layer, at_last}
use dor.Node.Super.{
  LayerGroup, prev_group, wrap_group, wrap_groups, build_groups, encrypt_onion_layers_group,
}

-- A layer whose print is parsed back, and whose fields are bytes.
pub record IsSendable (l : OnionLayer) : Type 0 where
  pub printable : IsPrintable l
  pub bytes : IsBytes (onionlayer_to_string l)

-- Every member of the group reads this layer out of the text.
abbrev pub Opens : (c : Crypto) → LayerGroup c.PublicKey → Bytes → OnionLayer → Type 0
Opens c group text layer =
    (sk : c.PrivateKey) → IsMember (c.public_of sk) group.pub_keys → peel c sk text ≡ ok layer

-- The onion `text`, seen from hop `i`: the hop reads the address of the next hop, that of the
-- hop before it, its two NACK identifiers and the text for the next hop; the last hop reads the
-- inner layer.
pub data Peels (c : Crypto) (route : List (LayerGroup c.PublicKey)) (sender_addr : Bytes)
    (nacks : List Bytes) (inner : OnionLayer) : ℕ → Bytes → Type 0 where
  last :
      {i : ℕ} {text : Bytes} (group : LayerGroup c.PublicKey)
      → suc i ≡ length route
      → get_elem? route i ≡ some group
      → Opens c group text inner
      → Peels c route sender_addr nacks inner i text
  hop :
      {i : ℕ} {text : Bytes} (group next : LayerGroup c.PublicKey) (prev n0 n1 rest : Bytes)
      → get_elem? route i ≡ some group
      → get_elem? route (suc i) ≡ some next
      → prev_group sender_addr route i ≡ ok prev
      → get_elem? nacks i ≡ some n0
      → get_elem? nacks (suc i) ≡ some n1
      → Opens c group text (relay_layer n0 n1 (join_addresses next.addrs) prev rest)
      → Peels c route sender_addr nacks inner (suc i) rest
      → Peels c route sender_addr nacks inner i text

-- Text that may stand in a field of a layer.
abbrev pub IsField : Bytes → Type 0
IsField s = Lacks b'|' s × IsBytes s

pub onionlayer_to_string-IsBytes :
    (l : OnionLayer)
    → IsBytes l.type
    → IsBytes l.msg_id
    → IsBytes l.next
    → IsBytes l.from
    → IsBytes l.payload
    → IsBytes l.frag
    → IsBytes l.message
    → IsBytes (onionlayer_to_string l)
unfolding onionlayer_to_string
onionlayer_to_string-IsBytes l h0 h1 h2 h3 h4 h5 h6 =
    let P = λ (x : ℕ). x < 256 in
    All-append P l.type _ h0 (
      omega arith,
      All-append P l.msg_id _ h1 (
        omega arith,
        All-append P l.next _ h2 (
          omega arith,
          All-append P l.from _ h3 (
            omega arith,
            All-append P l.payload _ h4 (omega arith, All-append P l.frag _ h5 (omega arith, h6)),
          ),
        ),
      ),
    )

relay_layer-IsSendable :
    (n0 n1 next prev rest : Bytes)
    → IsField n0
    → IsField n1
    → IsField next
    → IsField prev
    → IsField rest
    → IsSendable (relay_layer n0 n1 next prev rest)
unfolding relay_layer
relay_layer-IsSendable n0 n1 next prev rest (l0, b0) (l1, b1) (ln, bn) (lp, bp) (lr, br) = record {
  printable = record {
    type = omega arith;
    msg_id = All-append (λ x. x ≢ b'|') n0 (b':' ∷ n1) l0 (omega arith, l1);
    next = ln;
    from = lp;
    payload = lr;
    frag = tt;
  };
  bytes =
      onionlayer_to_string-IsBytes _ (omega arith)
        (All-append (λ x. x < 256) n0 (b':' ∷ n1) b0 (omega arith, b1)) bn bp br tt tt;
}

module _ (c : Crypto) (laws : CryptoLaws c) (fresh : ℕ → Fresh)
    (good : (i : ℕ) → IsFresh (fresh i)) where
  group-Opens :
      (i : ℕ) (group : LayerGroup c.PublicKey) (l : OnionLayer) (text : Bytes)
      → IsSendable l
      → broadcast_encrypt c (fresh i) (onionlayer_to_string l) group.pub_keys ≡ ok text
      → Opens c group text l
  unfolding peel
  group-Opens i group l text h made sk member =
      rw
        (broadcast_decrypt-broadcast_encrypt c laws (fresh i) (good i) sk _ group.pub_keys text
          h.bytes member made)
        (string_to_onion_layer-onionlayer_to_string l h.printable)

  text-IsField :
      (i : ℕ) (l : OnionLayer) (keys : List c.PublicKey) (text : Bytes)
      → IsSendable l
      → broadcast_encrypt c (fresh i) (onionlayer_to_string l) keys ≡ ok text
      → IsField text
  text-IsField i l keys text h made = (
    broadcast_encrypt-All c laws (fresh i) (good i) (λ b. b ≢ b'|') (λ b d. d.5) _ keys text
        (omega arith) (omega arith) h.bytes made,
    broadcast_encrypt-All c laws (fresh i) (good i) (λ b. b < 256) (λ b d. omega arith) _ keys text
        (omega arith) (omega arith) h.bytes made,
  )

  module _ (route : List (LayerGroup c.PublicKey)) (sender_addr : Bytes) (nacks : List Bytes)
      (addresses : All (λ g. All IsAddress g.addrs) route) (sender : IsField sender_addr)
      (nack_fields : All IsField nacks) where
    group-IsField :
        (i : ℕ) (g : LayerGroup c.PublicKey)
        → index route i ≡ ok g
        → IsField (join_addresses g.addrs)
    group-IsField i g h =
        let as_ok = All-get_elem? _ route i (index-eq-ok route i h) addresses in
        (join_addresses-Lacks_bar g.addrs as_ok, join_addresses-IsBytes g.addrs as_ok)

    prev_group-IsField :
        (i : ℕ) (prev : Bytes) → prev_group sender_addr route i ≡ ok prev → IsField prev
    unfolding prev_group
    prev_group-IsField zero prev h = subst IsField (ok-injective h) sender
    prev_group-IsField (suc i) prev h =
        let (g, at, e) = >>=-eq-ok (index route i) _ h in
        subst IsField (ok-injective e) (group-IsField i g at)

    -- One more round of the loop puts one more hop in front.
    wrap_group-Peels :
        (inner : OnionLayer) (i : ℕ) (p text : Bytes)
        → wrap_group c fresh route sender_addr nacks i p ≡ ok text
        → IsField p
        → Peels c route sender_addr nacks inner (suc i) p
        → Peels c route sender_addr nacks inner i text × IsField text
    unfolding wrap_group
    wrap_group-Peels inner i p text h field peels =
        let (prev, at_prev, h1) = >>=-eq-ok (prev_group sender_addr route i) _ h in
        let (n0, at_n0, h2) = >>=-eq-ok (index nacks i) _ h1 in
        let (n1, at_n1, h3) = >>=-eq-ok (index nacks (suc i)) _ h2 in
        let (next, at_next, h4) = >>=-eq-ok (index route (suc i)) _ h3 in
        let (group, at_group, made) = >>=-eq-ok (index route i) _ h4 in
        let get0 = index-eq-ok nacks i at_n0 in
        let get1 = index-eq-ok nacks (suc i) at_n1 in
        let l = relay_layer n0 n1 (join_addresses next.addrs) prev p in
        let sendable =
          relay_layer-IsSendable n0 n1 (join_addresses next.addrs) prev p
            (All-get_elem? IsField nacks i get0 nack_fields)
            (All-get_elem? IsField nacks (suc i) get1 nack_fields)
            (group-IsField (suc i) next at_next) (prev_group-IsField i prev at_prev) field in
        (
          Peels.hop group next prev n0 n1 p (index-eq-ok route i at_group)
              (index-eq-ok route (suc i) at_next) at_prev get0 get1
              (group-Opens i group l text sendable made) peels,
          text-IsField i l group.pub_keys text sendable made,
        )

    wrap_groups-Peels :
        (inner : OnionLayer) (i : ℕ) (p text : Bytes)
        → wrap_groups c fresh route sender_addr nacks i p ≡ ok text
        → IsField p
        → Peels c route sender_addr nacks inner i p
        → Peels c route sender_addr nacks inner 0 text × IsField text
    unfolding wrap_groups
    wrap_groups-Peels inner zero p text h field peels =
        subst (λ t. Peels c route sender_addr nacks inner 0 t × IsField t) (ok-injective h)
          (peels, field)
    wrap_groups-Peels inner (suc i) p text h field peels =
        let (q, made, rest) = >>=-eq-ok (wrap_group c fresh route sender_addr nacks i p) _ h in
        let (more, q_field) = wrap_group-Peels inner i p q made field peels in
        wrap_groups-Peels inner i q text rest q_field more

    build_groups-Peels :
        (inner : OnionLayer) (i : ℕ) (text : Bytes)
        → IsSendable inner
        → suc i ≡ length route
        → build_groups c fresh route sender_addr nacks inner i ≡ ok text
        → Peels c route sender_addr nacks inner 0 text × IsField text
    unfolding build_groups
    build_groups-Peels inner i text h end made =
        let (group, at_group, h1) = >>=-eq-ok (index route i) _ made in
        let (p, e, h2) =
          >>=-eq-ok (broadcast_encrypt c (fresh i) (onionlayer_to_string inner) group.pub_keys) _
            h1 in
        wrap_groups-Peels inner i p text h2 (text-IsField i inner group.pub_keys p h e)
          (Peels.last group end (index-eq-ok route i at_group) (group-Opens i group inner p h e))

    -- When the builder returns an onion, for addresses without separators, a sender and NACK
    -- identifiers that are fields of a layer, and an inner layer that can be printed, then the hops
    -- of the route open it one after the other: each reads the layer that was made for it, and the
    -- last one reads the inner layer. The onion fits into a field of a layer.
    pub encrypt_onion_layers_group-Peels :
        (inner : OnionLayer) (text : Bytes)
        → IsSendable inner
        → encrypt_onion_layers_group c fresh route sender_addr nacks inner ≡ ok text
        → Peels c route sender_addr nacks inner 0 text × IsField text
    unfolding encrypt_onion_layers_group
    encrypt_onion_layers_group-Peels inner text h = by_length (length route) refl
      where
        by_length :
            (n : ℕ)
            → n ≡ length route
            → at_last n (build_groups c fresh route sender_addr nacks inner) ≡ ok text
            → Peels c route sender_addr nacks inner 0 text × IsField text
        by_length zero e made = cc
        by_length (suc i) e made = build_groups-Peels inner i text h e made
