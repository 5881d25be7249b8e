-- ===== src/Tests/Sender.antt =====
-- The sender's side at concrete inputs.
use dor.Base.{
  ℕ, ◌≡◌, refl, sym, ap, ◌∙◌, Option, some, List, [], ◌∷◌, ◌++◌, map, reverse, arith, nat_eq, Bytes,
  bytes_eq, length, All, lookup, insert, ◌>>=◌, ok-injective, Result, ok, int_eq,
}
use dor.Strings.{split_max, codes, is_space, trim_space}
use dor.Encoding.{encode, decode}
use dor.Tests.Toy.{toy, toy_laws, fresh_toy, fresh_toy-IsFresh}
use dor.Tests.Handlers.{idle}
use dor.Model.Layer.{OnionLayer}
use dor.Model.Broadcast.Addresses.{IsAddress}
use dor.Model.Peel.{peel}
use dor.Model.Fragment.Order.{number}
use dor.Model.Fragment.Reassembly.{Completed, receive_all}
use dor.Node.Fragments.{split_message, frag_text}
use dor.Node.Fragments.Delivery.{receive_all-split_message}
use dor.Node.KeyCache
use dor.Node.KeyCache.{fetch_key_from_server}
use dor.Node.Onion.{encrypt_onion_layers}
use dor.Node.Onion.Groups.{encrypt_onion_layers-eq-groups, single}
use dor.Node.Super.{LayerGroup, ack_layer, encrypt_onion_layers_group}
use dor.Node.Super.Peels.{Peels, IsField, encrypt_onion_layers_group-Peels}
use dor.Node.Super.Total.{encrypt_onion_layers_group_total}
use dor.Node.Encapsulate.{refresh_keys, refresh_key, needs_fetch, return_part}
use dor.Node.Encapsulate.Exposure.{return_part-exposes}
use dor.Node.Super.Return.{ack_layer-IsSendable}
use dor.Node.Encapsulate.Keys.{IsHonest, Knows, refresh_keys-Knows}
use mathlib.Core.List.Permᴰ

receive_all-split_message_example : Completed (codes "f") (codes "hello") idle (
    receive_all
      (codes "f")
      (length (split_message (codes "hello") 2))
      (reverse (number 1 (split_message (codes "hello") 2)))
      idle)
unfolding lookup
receive_all-split_message_example =
    receive_all-split_message (codes "f") (codes "hello") 2
      (reverse (number 1 (split_message (codes "hello") 2))) idle (omega arith) (λ e. ground arith)
      (Permᴰ.symm (Permᴰ.reverse (number 1 (split_message (codes "hello") 2)))) refl

abbrev first_of_two : OnionLayer
first_of_two = record {
  type = codes "FINAL";
  msg_id = codes "4f";
  next = [];
  from = [];
  payload = [];
  frag = frag_text (codes "f") 1 2;
  message = codes "he";
}

-- Two hops: one node, then a group of two.
abbrev relay_address : Bytes
relay_address = codes "10.0.0.1:9000"

abbrev last_address : Bytes
last_address = codes "10.0.0.2:9001"

abbrev two_groups : List (LayerGroup ℕ)
two_groups =
    record { addrs = relay_address ∷ []; pub_keys = 1 ∷ [] }
    ∷ record { addrs = last_address ∷ []; pub_keys = 2 ∷ 3 ∷ [] }
    ∷ []

abbrev two_nacks : List Bytes
two_nacks = codes "nack0" ∷ codes "nack1" ∷ []

relay_address-IsAddress : IsAddress relay_address
relay_address-IsAddress = record {
  not_empty = λ e. ground arith;
  no_comma = omega arith;
  no_bar = omega arith;
  bytes = omega arith;
}

last_address-IsAddress : IsAddress last_address
last_address-IsAddress = record {
  not_empty = λ e. ground arith;
  no_comma = omega arith;
  no_bar = omega arith;
  bytes = omega arith;
}

-- The onion of an ACK for the two hops.
ack_onion :
    (text : Bytes) × (encrypt_onion_layers_group toy
        (λ i. fresh_toy)
        two_groups
        (codes "s:1")
        two_nacks
        (ack_layer (codes "m"))
      ≡ ok text)
ack_onion =
    encrypt_onion_layers_group_total toy toy_laws (λ i. fresh_toy) (λ i. fresh_toy-IsFresh)
      two_groups (codes "s:1") two_nacks (omega arith) refl (ack_layer (codes "m")) (omega arith)

encrypt_onion_layers_group-Peels_example :
    Peels toy two_groups (codes "s:1") two_nacks (ack_layer (codes "m")) 0 ack_onion.0
    × IsField ack_onion.0
encrypt_onion_layers_group-Peels_example =
    encrypt_onion_layers_group-Peels toy toy_laws (λ i. fresh_toy) (λ i. fresh_toy-IsFresh)
      two_groups (codes "s:1") two_nacks
      ((relay_address-IsAddress, tt), ((last_address-IsAddress, tt), tt)) (omega arith)
      (omega arith) (ack_layer (codes "m")) ack_onion.0
      (ack_layer-IsSendable (codes "m") (omega arith)) ack_onion.1

-- Every node has the key 5, and the directory server knows it.
abbrev key_five : Bytes → Option ℕ
key_five a = some 5

abbrev two_addresses : List Bytes
two_addresses = relay_address ∷ last_address ∷ []

single_onion :
    (text : Bytes) × (encrypt_onion_layers toy key_five
        (λ i. fresh_toy)
        two_addresses
        last_address
        (reverse two_nacks)
        (ack_layer (codes "m"))
      ≡ ok text)
single_onion =
    let (text, made) =
      encrypt_onion_layers_group_total toy toy_laws (λ i. fresh_toy) (λ i. fresh_toy-IsFresh)
        (map (single (λ a. 5)) two_addresses) last_address (reverse two_nacks) (omega arith) refl
        (ack_layer (codes "m")) (omega arith) in
    (
      text,
      encrypt_onion_layers-eq-groups toy key_five (λ a. 5) (λ i. fresh_toy) two_addresses
            last_address (reverse two_nacks) (refl, (refl, tt)) (ack_layer (codes "m"))
          ∙ made,
    )

returned :
    return_part toy
      (λ i. fresh_toy)
      (λ i. fresh_toy)
      (λ i. [])
      key_five
      (codes "m")
      two_nacks
      (some two_addresses)
    ≡ ok (relay_address, single_onion.0)
unfolding return_part
returned = ap (λ r. r >>= λ onion. ok (relay_address, onion)) single_onion.1

return_part-exposes_example :
    (relay_address ≡ relay_address)
    × ((layer : OnionLayer) × (peel toy 5 single_onion.0 ≡ ok layer) × (layer.from ≡ last_address))
return_part-exposes_example =
    return_part-exposes toy toy_laws (λ i. fresh_toy) (λ i. fresh_toy) (λ i. fresh_toy-IsFresh)
      (λ i. []) key_five (λ a. 5) (codes "m") two_nacks relay_address last_address [] last_address
      relay_address single_onion.0 5 (refl, (refl, tt))
      (relay_address-IsAddress, (last_address-IsAddress, tt)) (omega arith) (omega arith) refl refl
      returned

abbrev exchange_five : Bytes → Result Bytes
exchange_five request = ok (codes "KEY:" ++ (encode (toy.marshal_pkix 5) ++ codes "\n"))

fetch_five : (a : Bytes) → fetch_key_from_server toy exchange_five a ≡ ok 5
unfolding fetch_key_from_server encode trim_space split_max is_space decode
fetch_five a = refl

empty-IsHonest : IsHonest toy (λ a. 5) []
unfolding KeyCache.get lookup
empty-IsHonest a v h = ground (arith, h)

refreshed :
    refresh_keys toy exchange_five (λ i. 7) 0 [] two_addresses
    ≡ ((refresh_keys toy exchange_five (λ i. 7) 0 [] two_addresses).0, ok tt)
unfolding refresh_keys refresh_key needs_fetch KeyCache.get KeyCache.set lookup insert
    fetch_key_from_server encode trim_space split_max is_space decode
refreshed = refl

refresh_keys-Knows_example :
    All
      (Knows toy (λ a. 5) (refresh_keys toy exchange_five (λ i. 7) 0 [] two_addresses).0)
      two_addresses
refresh_keys-Knows_example =
    refresh_keys-Knows toy (λ a. 5) exchange_five (λ i. 7)
      (λ a k h. sym (ok-injective (sym (fetch_five a) ∙ h))) 0 []
      (refresh_keys toy exchange_five (λ i. 7) 0 [] two_addresses).0 two_addresses empty-IsHonest
      refreshed
