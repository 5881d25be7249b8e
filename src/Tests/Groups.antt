-- ===== src/Tests/Groups.antt =====
-- Clusters and sending over groups at concrete inputs.
use dor.Base.{
  ℕ, ◌<◌, ◌≡◌, refl, ◌≢◌, ◌⊎◌, none, List, [], ◌∷◌, map, arith, Bytes, length, All, ok, ◌+ℤ◌, ℤ,
  pos,
}
use dor.Strings.{nat_text, itoa, codes}
use dor.Directory.Table.{NodeInfo}
use dor.Node.Super.{LayerGroup}
use dor.Model.Shuffle.{swap}
use dor.Encoding.{decode}
use dor.Node.Cluster.{
  pick_offset, parse_public_key, total_score, node_address, available_nodes, build_smart_clusters,
}
use dor.Node.Cluster.Members.{Member, NoneEmpty, keyed, group_of}
use dor.Node.Cluster.Complete.{build_smart_clusters-Perm}
use dor.Tests.Toy.{toy, fresh_toy}
use mathlib.Core.List.{Perm, flatten, filter_map}
use mathlib.Core.List.Perm
use dor.Node.SendSuper.Tries.{Logged}
use dor.Node.SendSuper.{SuperWorld, send_with_retry_super}
use dor.Node.Send.{Sender}
use dor.Node.Send.Routes.{IsRelay}
use dor.Tests.Handlers.{idle, offline}
use dor.Node.SendSuper.Avoids.{send_with_retry_super-Tries}

abbrev at_port : Bytes → ℕ → NodeInfo
at_port name port = record {
  uuid = name;
  name = name;
  ip = codes "10.0.0.1";
  port = pos port;
  public_key = codes "AQEBAQEA";
  availability_score = pos 70;
  network_score = pos 40;
}

abbrev three_nodes : List NodeInfo
three_nodes =
    at_port (codes "alice") 9000 ∷ at_port (codes "bob") 9001 ∷ at_port (codes "carol") 9002 ∷ []

-- Bob is blacklisted; alice and carol get a cluster each.
build_smart_clusters-Perm_example :
    (mss : List (List (Member toy))) × (score : ℤ) × (build_smart_clusters toy
        (λ nodes. nodes)
        (λ i. 99)
        (λ i j. 0)
        three_nodes
        2
        (codes "10.0.0.1:9001" ∷ [])
      ≡ ok (map (group_of toy) mss, score))
    × (length mss ≡ 2)
    × Perm
        (flatten mss)
        (filter_map (keyed toy) (available_nodes (codes "10.0.0.1:9001" ∷ []) three_nodes))
    × (NoneEmpty toy mss
        ⊎ (length
              (filter_map (keyed toy) (available_nodes (codes "10.0.0.1:9001" ∷ []) three_nodes))
            < 2))
build_smart_clusters-Perm_example =
    build_smart_clusters-Perm toy (λ nodes. nodes) (λ nodes. Perm.refl nodes) (λ i. 99) (λ i j. 0)
      three_nodes 2 (codes "10.0.0.1:9001" ∷ []) (omega arith)

abbrev pub group_at : Bytes → LayerGroup ℕ
group_at addr = record { addrs = addr ∷ []; pub_keys = 5 ∷ [] }

built :
    build_smart_clusters toy
      (λ nodes. nodes)
      (λ i. 99)
      (λ i j. 0)
      three_nodes
      2
      (codes "10.0.0.1:9001" ∷ [])
    ≡ ok (group_at (codes "10.0.0.1:9000") ∷ group_at (codes "10.0.0.1:9002") ∷ [], pos 220)
unfolding build_smart_clusters itoa nat_text swap pick_offset parse_public_key decode total_score
    ◌+ℤ◌
built = refl

no_dave : All (λ n. node_address n ≢ codes "10.0.0.1:9003") three_nodes
unfolding node_address itoa nat_text
no_dave = ((λ e. ground (arith, e)), ((λ e. ground (arith, e)), ((λ e. ground (arith, e)), tt)))

abbrev pub three_relays : Bytes
three_relays =
    codes
      "LIST:a|10.0.0.1|9000|AQEBAQEA|70|40,b|10.0.0.1|9001|AQEBAQEA|70|40,c|10.0.0.1|9002|AQEBAQEA|70|40"

-- No relay can be reached.
abbrev pub no_luck : SuperWorld ℕ
no_luck = record {
  list = λ k. ok three_relays;
  now = λ k i. 7;
  sort = λ k nodes. nodes;
  rolls = λ k i. 0;
  draws = λ k i j. 0;
  exchange = λ k request. ok (codes "KEY:AQEBAQEA\n");
  forward_fresh = λ k i. fresh_toy;
  return_fresh = λ k i. fresh_toy;
  ids = λ k i. [];
  public_key = λ k. 5;
  channel = λ k. k;
  env = λ k. offline;
  answer = λ k. none;
}

abbrev pub super_sender : Sender ℕ
super_sender = record { node = idle; cache = []; sent = [] }

send_with_retry_super-Tries_example :
    Logged toy
      (IsRelay (codes "10.0.0.1:9004") (codes "10.0.0.1:9003"))
      2
      []
      []
      (send_with_retry_super toy no_luck
        (codes "10.0.0.1:9004")
        (codes "10.0.0.1:9003")
        (codes "hi")
        2
        0
        (pos 3)
        []
        super_sender).1.sent
send_with_retry_super-Tries_example =
    send_with_retry_super-Tries toy (codes "10.0.0.1:9004") (codes "10.0.0.1:9003") no_luck
      (codes "hi") (λ k nodes. Perm.refl nodes) 2 0 (pos 3) [] super_sender
