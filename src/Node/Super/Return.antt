-- ===== src/Node/Super/Return.antt =====
-- The return onion: it is made, it can be opened up to the ACK, and it fits into a layer.
use dor.Base.{
  ℕ, zero, suc, ◌≡◌, refl, ap, ◌∙◌, ◌≢◌, some, List, [], ◌∷◌, reverse, arith, Bytes, length,
  get_elem?, All, All-get_elem?, Lacks, IsMember, length-reverse, All-reverse, index-eq-ok,
  invalid_format, ok, err,
}
use dor.Model.Layer.Ids.{nack_id-plain}
use dor.Model.Layer.{OnionLayer, generate_msg_id}
use dor.Model.Crypto.{Crypto, CryptoLaws, Fresh, IsFresh}
use dor.Model.Broadcast.{join_addresses, broadcast_decrypt, decrypt_parts}
use dor.Model.Broadcast.Addresses.{IsAddress, join_addresses-Lacks_bar, join_addresses-IsBytes}
use dor.Model.Peel.{peel}
use dor.Node.Super.{LayerGroup, ack_layer, nack_ids, return_part, codes}
use dor.Node.Super.Peels.{
  Peels, last, hop, Opens, IsField, IsSendable, onionlayer_to_string-IsBytes,
  encrypt_onion_layers_group-Peels,
}
use dor.Node.Super.Total.{CanRead, index_total, encrypt_onion_layers_group_total}
use dor.Strings.{split_max, codes}

pub length-nack_ids : (draws : ℕ → List ℕ) (start n : ℕ) → length (nack_ids draws start n) ≡ n
unfolding nack_ids
length-nack_ids draws start zero = refl
length-nack_ids draws start (suc n) = ap suc (length-nack_ids draws (suc start) n)

nack_ids-All :
    (P : Bytes → Type 0)
    → ((ns : List ℕ) → P (generate_msg_id (codes "nack") ns))
    → (draws : ℕ → List ℕ) (start n : ℕ) → All P (nack_ids draws start n)
unfolding nack_ids
nack_ids-All P each draws start zero = tt
nack_ids-All P each draws start (suc n) =
    (each (draws start), nack_ids-All P each draws (suc start) n)

pub nack_ids-IsField : (draws : ℕ → List ℕ) (start n : ℕ) → All IsField (nack_ids draws start n)
nack_ids-IsField =
    nack_ids-All IsField (λ ns. let (no_colon, no_bar, bytes) = nack_id-plain ns in (no_bar, bytes))

pub nack_ids-Lacks_colon :
    (draws : ℕ → List ℕ) (start n : ℕ) → All (Lacks b':') (nack_ids draws start n)
nack_ids-Lacks_colon = nack_ids-All (Lacks b':') (λ ns. (nack_id-plain ns).0)

abbrev first_byte : Bytes → ℕ
first_byte [] = 0
first_byte (x ∷ s) = x

-- The identifier of a message is not that of a NACK.
pub msg_id-ne-nack_id : (ds es : List ℕ) → generate_msg_id [] ds ≢ generate_msg_id (codes "nack") es
unfolding generate_msg_id
msg_id-ne-nack_id ds es e = omega (arith, ap first_byte e)

peel_empty : (c : Crypto) (sk : c.PrivateKey) → peel c sk [] ≡ err invalid_format
unfolding peel broadcast_decrypt decrypt_parts split_max
peel_empty c sk = refl

-- What a member of the group opens is not empty.
Opens-not-empty :
    (c : Crypto) (group : LayerGroup c.PublicKey) (sk : c.PrivateKey) (text : Bytes)
    (l : OnionLayer)
    → IsMember (c.public_of sk) group.pub_keys
    → Opens c group text l
    → text ≢ []
Opens-not-empty c group sk text l member opens e =
    let opened = opens sk member in
    let refused : peel c sk text ≡ err invalid_format = rw (e) (peel_empty c sk) in cc

pub Peels-not-empty :
    (c : Crypto) (route : List (LayerGroup c.PublicKey)) (sender_addr : Bytes) (nacks : List Bytes)
    (inner : OnionLayer) (i : ℕ) (sk : c.PrivateKey) (text : Bytes)
    → ((g : LayerGroup c.PublicKey)
        → get_elem? route i ≡ some g
        → IsMember (c.public_of sk) g.pub_keys)
    → Peels c route sender_addr nacks inner i text
    → text ≢ []
Peels-not-empty c route sender_addr nacks inner i sk text member (last group end at opens) =
    Opens-not-empty c group sk text _ (member group at) opens
Peels-not-empty c route sender_addr nacks inner i sk text member
      (hop group next prev n0 n1 rest at at_next at_prev get0 get1 opens more) =
    Opens-not-empty c group sk text _ (member group at) opens

pub ack_layer-IsSendable : (msg_id : Bytes) → IsField msg_id → IsSendable (ack_layer msg_id)
unfolding ack_layer
ack_layer-IsSendable msg_id (no_bar, bytes) = record {
  printable = record {
    type = omega arith;
    msg_id = no_bar;
    next = tt;
    from = tt;
    payload = tt;
    frag = tt;
  };
  bytes = onionlayer_to_string-IsBytes _ (omega arith) bytes tt tt tt tt tt;
}

pub listed-IsField : (addrs : List Bytes) → All IsAddress addrs → IsField (join_addresses addrs)
listed-IsField addrs h = (join_addresses-Lacks_bar addrs h, join_addresses-IsBytes addrs h)

module _ (c : Crypto) (laws : CryptoLaws c) (forward_fresh return_fresh : ℕ → Fresh)
    (good : (i : ℕ) → IsFresh (forward_fresh i)) (good_back : (i : ℕ) → IsFresh (return_fresh i))
    (draws : ℕ → List ℕ) where
  -- The return onion is made, and the hops of the way back can open it up to the ACK.
  pub return_part-Peels :
      (msg_id : Bytes) (nacks : List Bytes) (first : LayerGroup c.PublicKey)
      (later : List (LayerGroup c.PublicKey))
      → length nacks ≡ length (first ∷ later)
      → All IsField nacks
      → IsField msg_id
      → All (CanRead c) (first ∷ later)
      → All (λ g. All IsAddress g.addrs) (first ∷ later)
      → (onion sender_addr : Bytes) × (return_part c forward_fresh return_fresh draws msg_id nacks
            (some (first ∷ later))
          ≡ ok (join_addresses first.addrs, onion))
        × Peels c (first ∷ later) sender_addr (reverse nacks) (ack_layer msg_id) 0 onion
        × IsField onion
  unfolding return_part
  return_part-Peels msg_id nacks first later one_each fields field readable addresses =
      let route = first ∷ later in
      let (end, at) = index_total route (length later) (omega arith) in
      let sender_addr = join_addresses end.addrs in
      let end_listed =
        All-get_elem? (λ (g : LayerGroup c.PublicKey). All IsAddress g.addrs) route (length later)
          (index-eq-ok route (length later) at) addresses in
      let (onion, made) =
        encrypt_onion_layers_group_total c laws return_fresh good_back route sender_addr
          (reverse nacks) readable (length-reverse nacks ∙ one_each) (ack_layer msg_id)
          (omega arith) in
      let (peels, onion_field) =
        encrypt_onion_layers_group-Peels c laws return_fresh good_back route sender_addr
          (reverse nacks) addresses (listed-IsField end.addrs end_listed)
          (All-reverse IsField nacks fields) (ack_layer msg_id) onion
          (ack_layer-IsSendable msg_id field) made in
      (onion, sender_addr, rw (at) (rw (made) refl), peels, onion_field)
