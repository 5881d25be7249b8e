-- ===== src/Tests/Wire.antt =====
-- Layers and broadcast texts at concrete inputs.
use dor.Base.{◌≡◌, refl, inl, inr, List, [], ◌∷◌, arith, Bytes, no_matching_key, ok, err}
use dor.Strings.{codes}
use dor.Tests.Toy.{toy, toy_laws, fresh_toy, fresh_toy-IsFresh}
use dor.Model.Layer.{OnionLayer, onionlayer_to_string, string_to_onion_layer}
use dor.Model.Layer.RoundTrip.{IsPrintable, string_to_onion_layer-onionlayer_to_string}
use dor.Model.Broadcast.{broadcast_encrypt, broadcast_decrypt}
use dor.Model.Broadcast.Addresses.{IsAddress}
use dor.Model.Broadcast.RoundTrip.{
  broadcast_decrypt-broadcast_encrypt, broadcast_decrypt_stranger, broadcast_encrypt_total,
}

abbrev final_with_bar : OnionLayer
final_with_bar = record {
  type = codes "FINAL";
  msg_id = codes "4f";
  next = codes "10.0.0.1:9000";
  from = [];
  payload = codes "aGk=";
  frag = codes "f1:1/2";
  message = codes "a|b";
}

final_with_bar-IsPrintable : IsPrintable final_with_bar
final_with_bar-IsPrintable = record {
  type = omega arith;
  msg_id = omega arith;
  next = omega arith;
  from = tt;
  payload = omega arith;
  frag = omega arith;
}

string_to_onion_layer-onionlayer_to_string_example :
    string_to_onion_layer (onionlayer_to_string final_with_bar) ≡ ok final_with_bar
string_to_onion_layer-onionlayer_to_string_example =
    string_to_onion_layer-onionlayer_to_string final_with_bar final_with_bar-IsPrintable

abbrev two_addresses : List Bytes
two_addresses = codes "10.0.0.1:9000" ∷ codes "10.0.0.2:9001" ∷ []

first-IsAddress : IsAddress (codes "10.0.0.1:9000")
first-IsAddress = record {
  not_empty = λ e. ground arith;
  no_comma = omega arith;
  no_bar = omega arith;
  bytes = omega arith;
}

second-IsAddress : IsAddress (codes "10.0.0.2:9001")
second-IsAddress = record {
  not_empty = λ e. ground arith;
  no_comma = omega arith;
  no_bar = omega arith;
  bytes = omega arith;
}

-- The text of "hi" for the keys 1 and 2.
abbrev for_two :
    (text : Bytes) × (broadcast_encrypt toy fresh_toy (codes "hi") (1 ∷ 2 ∷ []) ≡ ok text)
for_two =
    broadcast_encrypt_total toy toy_laws fresh_toy fresh_toy-IsFresh (codes "hi") 1 (2 ∷ [])
      (omega arith)

broadcast_decrypt-broadcast_encrypt_example : broadcast_decrypt toy for_two.0 2 ≡ ok (codes "hi")
broadcast_decrypt-broadcast_encrypt_example =
    broadcast_decrypt-broadcast_encrypt toy toy_laws fresh_toy fresh_toy-IsFresh 2 (codes "hi")
      (1 ∷ 2 ∷ []) for_two.0 (omega arith) (inr (inl refl)) for_two.1

broadcast_decrypt_stranger_example : broadcast_decrypt toy for_two.0 3 ≡ err no_matching_key
broadcast_decrypt_stranger_example =
    broadcast_decrypt_stranger toy toy_laws fresh_toy fresh_toy-IsFresh 3 (codes "hi") (1 ∷ 2 ∷ [])
      for_two.0 (omega arith) (omega arith) for_two.1
