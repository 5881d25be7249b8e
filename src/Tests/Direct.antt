-- ===== src/Tests/Direct.antt =====
-- FETCH and then MSG at concrete inputs.
use dor.Base.{
  ℕ, zero, suc, ◌≤◌, ◌≡◌, refl, subst, true, some, List, [], ◌∷◌, ◌++◌, arith, nat_eq, Bytes,
  bytes_eq, length, lookup, server_error, ok, err, int_eq,
}
use dor.Strings.{codes, is_space, trim_space}
use dor.Model.Node.{Run, finished}
use dor.Model.Handler.{handlerroutine}
use dor.Node.Commands.{send_onion}
use dor.Node.Commands.Console.{run_cli}
use dor.Node.Commands.Fetch.{cli_fetch}
use dor.Node.Commands.Fetch.Answer.{answered, pubkey_line}
use dor.Node.Commands.Perform.{perform_onion}
use dor.Node.Commands.Perform.Direct.{msg_line, fetch_then_msg}
use dor.Tests.Handlers.{idle, online, offline}
use dor.Tests.Toy.{toy, toy_laws, fresh_toy, fresh_toy-IsFresh, write, ones}

length-ones : (n : ℕ) (s : Bytes) → suc (length s) ≤ length (ones n s)
length-ones zero s = omega arith
length-ones (suc n) s = omega (arith, length-ones n s)

length-write : (ns : List ℕ) → length ns ≤ length (write ns)
length-write [] = omega arith
length-write (n ∷ ns) = omega (arith, length-ones n (write ns), length-write ns)

toy_long :
    (k : ℕ) (seed key t : Bytes)
    → toy.oaep_encrypt k seed key ≡ some t
    → length key ≡ 32
    → 4 ≤ length t
toy_long k seed key t made size =
    let same : write (k ∷ key) ≡ t = ground (arith, made, size) in
    subst (λ s. 4 ≤ length s) same (omega (arith, length-write (k ∷ key), size))

-- The node that is asked, and that gets the message.
abbrev silent_node : Run
silent_node = record { node = idle; sent = []; replies = [] }

abbrev ten_digits : ℕ → List ℕ
ten_digits i = 1 ∷ 2 ∷ 3 ∷ []

bare_line :
    trim_space (msg_line (codes "10.0.0.1") (codes "9000") (codes "hi"))
    ≡ msg_line (codes "10.0.0.1") (codes "9000") (codes "hi")
unfolding trim_space is_space
bare_line = refl

fetch_then_msg_example :
    let dest = codes "10.0.0.1:9000" in
    let fetched = cli_fetch toy 7 [] dest (answered (pubkey_line toy 4)) in
    (onion : Bytes) × (r' : Run) × (run_cli
        (codes "f")
        (msg_line (codes "10.0.0.1") (codes "9000") (codes "hi"))
      ≡ send_onion (codes "hi") (dest ∷ []))
    × (perform_onion toy
          (λ line. err server_error)
          (λ i. 20)
          (λ i. fresh_toy)
          (λ i. fresh_toy)
          ten_digits
          online
          fetched
          (codes "s:1")
          (codes "hi")
          (dest ∷ [])
        ≡ (fetched, ok (record { addr = dest; message = onion; delivered = true } ∷ [])))
    × (handlerroutine toy 4 offline (onion ++ codes "\n") silent_node ≡ (finished, r'))
    × (r'.node.received_msgs ≡ codes "hi" ∷ [])
unfolding lookup
fetch_then_msg_example =
    fetch_then_msg toy toy_laws (λ line. err server_error) (λ i. 20) (λ i. fresh_toy)
      (λ i. fresh_toy) fresh_toy-IsFresh ten_digits online offline 4 silent_node 7 [] (codes "f")
      (codes "s:1") (codes "10.0.0.1") (codes "9000") (codes "hi") (omega arith) (omega arith)
      (omega arith) bare_line (omega arith) (omega arith) (toy_long (toy.public_of 4))
      (λ message. refl) refl
