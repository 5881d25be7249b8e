-- ===== src/Tests/Retry.antt =====
-- Sending with retries at concrete inputs.
use dor.Base.{ℕ, ◌≤◌, ◌≡◌, refl, inr, none, [], ◌∷◌, Bytes, length, ok, pos}
use dor.Strings.{split, split_max, codes, trim_prefix}
use dor.Tests.Toy.{toy, fresh_toy}
use dor.Tests.Handlers.{idle, offline}
use dor.Directory.Candidates.{candidates, candidates_of, keep_candidate, entry_addr}
use dor.Model.Shuffle.{shuffle, shuffle_from, swap}
use dor.Node.Send.{Plan, Sender, World, clamp, choose, plan, send_with_retry}
use dor.Node.Send.Bounds.{send_with_retry-bound}
use dor.Node.Send.Routes.{IsRoundTrip, plan-IsRoundTrip}

abbrev one_node : Bytes
one_node = codes "LIST:alice|10.0.0.1|9000|QUE=|70|40,bob|10.0.0.2|9001|QUI=|70|40"

abbrev pub by_alice : Plan
by_alice = record {
  num_relays = 1;
  route = codes "10.0.0.1:9000" ∷ codes "10.0.0.2:9001" ∷ [];
  return_route = codes "10.0.0.1:9000" ∷ codes "10.0.0.3:9002" ∷ [];
}

planned :
    plan (codes "10.0.0.3:9002") (codes "10.0.0.2:9001") (λ i. 0) (pos 4) (ok one_node)
    ≡ inr by_alice
unfolding plan choose clamp candidates candidates_of keep_candidate entry_addr split split_max
    trim_prefix shuffle shuffle_from swap
planned = refl

plan-IsRoundTrip_example : IsRoundTrip (codes "10.0.0.3:9002") (codes "10.0.0.2:9001") by_alice
plan-IsRoundTrip_example =
    plan-IsRoundTrip (codes "10.0.0.3:9002") (codes "10.0.0.2:9001") (λ i. 0) (pos 4) (ok one_node)
      by_alice planned

-- The node behind alice's address is down, and the directory server gives a key to everyone.
abbrev pub unlucky : World
unlucky = record {
  list = λ k. ok one_node;
  draws = λ k i. 0;
  exchange = λ request. ok (codes "KEY:AQEBAQEA\n");
  clock = λ k i. 7;
  forward_fresh = λ k i. fresh_toy;
  return_fresh = λ k i. fresh_toy;
  ids = λ k i. [];
  channel = λ k. k;
  env = λ k. offline;
  answer = λ k. none;
}

abbrev pub sender : Sender ℕ
sender = record { node = idle; cache = []; sent = [] }

send_with_retry-bound_example :
    length
      (send_with_retry toy unlucky
        (codes "10.0.0.3:9002")
        (codes "10.0.0.2:9001")
        (codes "hi")
        []
        3
        0
        (pos 1)
        sender).1.sent
    ≤ 3
send_with_retry-bound_example =
    send_with_retry-bound toy unlucky (codes "10.0.0.3:9002") (codes "10.0.0.2:9001") (codes "hi")
      [] 3 0 (pos 1) sender
