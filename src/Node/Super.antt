-- ===== src/Node/Super.antt =====
-- node_server/node/super_send.go: onions whose hops are groups of nodes.
pub mod Peels
pub mod Total
pub mod Delivery
pub mod Arrival
pub mod Return
pub mod Silent
pub mod Answer
use dor.Base.{
  ℕ, zero, suc, Option, none, some, List, [], ◌∷◌, reverse, ltb, if◌then◌else◌, Bytes, length, take,
  drop, ◌>>=◌, index, ◌>>◌, Result, ok,
}
use dor.Strings.{codes}
use dor.Model.Crypto.{Crypto, Fresh}
use dor.Model.Layer.{OnionLayer, onionlayer_to_string, generate_msg_id, final_type, ack_type}
use dor.Model.Broadcast.{broadcast_encrypt, join_addresses}
use dor.Node.Onion.{relay_layer, at_last}

pub record LayerGroup (K : Type 0) : Type 0 where
  pub addrs : List Bytes
  pub pub_keys : List K

-- A group of the first nodes, and the nodes and keys that are left.
unfoldable pub pick_layer :
    {K : Type 0} → List Bytes → List K → ℕ → LayerGroup K × List Bytes × List K
pick_layer addrs keys group_size =
    let size = if ltb (length addrs) group_size then length addrs else group_size in
    (record { addrs = take size addrs; pub_keys = take size keys }, drop size addrs, drop size keys)

-- `prev` of the round for group `i`.
unfoldable pub prev_group : {K : Type 0} → Bytes → List (LayerGroup K) → ℕ → Result Bytes
prev_group sender_addr route zero = ok sender_addr
prev_group sender_addr route (suc i) = do g ← index route i; ok (join_addresses g.addrs)

module _ (c : Crypto) (fresh : ℕ → Fresh) where
  module _ (route : List (LayerGroup c.PublicKey)) (sender_addr : Bytes)
      (nack_array : List Bytes) where
    -- One round of the loop, for group `i`.
    unfoldable pub wrap_group : ℕ → Bytes → Result Bytes
    wrap_group i current_payload = do
      prev ← prev_group sender_addr route i
      this_nack ← index nack_array i
      next_nack ← index nack_array (suc i)
      next ← index route (suc i)
      group ← index route i
      broadcast_encrypt c (fresh i)
          (onionlayer_to_string
            (relay_layer this_nack next_nack (join_addresses next.addrs) prev current_payload))
          group.pub_keys

    -- `for i := len(route) - 2; i >= 0; i--`; the argument is the number of rounds left.
    unfoldable pub wrap_groups : ℕ → Bytes → Result Bytes
    wrap_groups zero current_payload = ok current_payload
    wrap_groups (suc i) current_payload = do p ← wrap_group i current_payload; wrap_groups i p

    -- The innermost layer is for the last group, whose index is `last`.
    unfoldable pub build_groups : OnionLayer → ℕ → Result Bytes
    build_groups inner_layer last = do
      group ← index route last
      p ← broadcast_encrypt c (fresh last) (onionlayer_to_string inner_layer) group.pub_keys
      wrap_groups last p

    unfoldable pub encrypt_onion_layers_group : OnionLayer → Result Bytes
    encrypt_onion_layers_group inner_layer = at_last (length route) (build_groups inner_layer)

-- The identifiers of one onion, from the digits that `GenerateMsgID` draws: the first draw is for
-- the message, the others are for the NACKs.
unfoldable pub nack_ids : (ℕ → List ℕ) → ℕ → ℕ → List Bytes
nack_ids draws start zero = []
nack_ids draws start (suc n) =
    generate_msg_id (codes "nack") (draws start) ∷ nack_ids draws (suc start) n

unfoldable pub ack_layer : Bytes → OnionLayer
ack_layer msg_id = record {
  type = ack_type;
  msg_id = msg_id;
  next = [];
  from = [];
  payload = [];
  frag = [];
  message = [];
}

-- Without a return route `next` and `data_field` are empty, as in the other literal of the source.
unfoldable pub final_layer : Bytes → Bytes → Bytes → Bytes → Bytes → OnionLayer
final_layer msg_id next data_field frag message = record {
  type = final_type;
  msg_id = msg_id;
  next = next;
  from = [];
  payload = data_field;
  frag = frag;
  message = message;
}

module _ (c : Crypto) (forward_fresh return_fresh : ℕ → Fresh) (draws : ℕ → List ℕ) where
  -- `firstReturnHop` and `returnOnion`; `none` is the nil route. The last group of the return
  -- route stands for the sender, and the identifiers are used backwards.
  unfoldable pub return_part :
      Bytes → List Bytes → Option (List (LayerGroup c.PublicKey)) → Result (Bytes × Bytes)
  return_part msg_id nacks none = ok ([], [])
  return_part msg_id nacks (some []) = ok ([], [])
  return_part msg_id nacks (some (g ∷ gs)) = do
    last ← index (g ∷ gs) (length gs)
    onion ←
        encrypt_onion_layers_group c return_fresh (g ∷ gs) (join_addresses last.addrs)
          (reverse nacks) (ack_layer msg_id)
    ok (join_addresses g.addrs, onion)

  -- The onion, the identifier of the message, and the first NACK identifier.
  unfoldable pub encapsulator_func_super :
      Bytes
      → List (LayerGroup c.PublicKey)
      → Option (List (LayerGroup c.PublicKey))
      → Bytes
      → Result (Bytes × Bytes × Bytes)
  encapsulator_func_super message route return_route sender_addr =
      let msg_id = generate_msg_id [] (draws 0) in
      let nacks = nack_ids draws 1 (length route) in
      do
        (first_hop, onion) ← return_part msg_id nacks return_route
        p ←
            encrypt_onion_layers_group c forward_fresh route sender_addr nacks
              (final_layer msg_id first_hop onion [] message)
        first_nack ← index nacks 0
        ok (p, msg_id, first_nack)
