-- ===== src/Tests/Console.antt =====
-- Commands of the console and of the browser at concrete inputs.
use dor.Base.{◌≡◌, refl, List, [], ◌∷◌, arith, Bytes, All, Lacks, pos}
use dor.Strings.{nat_text, itoa, split_max, codes, is_space, trim_space, to_upper}
use dor.Model.Fragment.Order.{concat}
use dor.Node.Commands.{Job, send_jobs, send_onion, command_parts}
use dor.Node.Commands.Console.{run_cli}
use dor.Node.Commands.Browser.{process_cmd, handle_cmd}
use dor.Node.Commands.Agreement.{in_browser, process_cmd-eq-run_cli}
use dor.Node.Commands.Sending.{send_line, texts, IsJobFor, run_cli-send_line}

abbrev hello : Bytes
hello = codes "SEND:2:10.0.0.2:9001:hello"

hello_bare : trim_space hello ≡ hello
unfolding trim_space is_space
hello_bare = refl

hello_name : trim_space (command_parts hello).0 ≡ (command_parts hello).0
unfolding trim_space is_space command_parts split_max
hello_name = refl

process_cmd-eq-run_cli_example :
    process_cmd (codes "alice") [] hello ≡ in_browser (run_cli (codes "frag-1") hello)
process_cmd-eq-run_cli_example =
    process_cmd-eq-run_cli (codes "frag-1") (codes "alice") [] hello (λ e. ground (arith, e))
      (omega arith) hello_bare hello_name

no_colon_ip : Lacks b':' (codes "a.b")
no_colon_ip = ((λ e. ground (arith, e)), ((λ e. ground (arith, e)), ((λ e. ground (arith, e)), tt)))

no_colon_port : Lacks b':' (codes "80")
no_colon_port = ((λ e. ground (arith, e)), ((λ e. ground (arith, e)), tt))

short_bare :
    trim_space (send_line (pos 2) (codes "a.b") (codes "80") (codes "hi"))
    ≡ send_line (pos 2) (codes "a.b") (codes "80") (codes "hi")
unfolding trim_space is_space itoa nat_text
short_bare = refl

run_cli-send_line_example :
    (jobs : List Job) × (run_cli
        (codes "frag-1")
        (send_line (pos 2) (codes "a.b") (codes "80") (codes "hi"))
      ≡ send_jobs jobs)
    × (concat (texts jobs) ≡ codes "hi")
    × All (IsJobFor (codes "a.b:80") (pos 2)) jobs
run_cli-send_line_example =
    run_cli-send_line (codes "frag-1") (pos 2) (codes "a.b") (codes "80") (codes "hi")
      (omega arith, omega arith) no_colon_ip no_colon_port short_bare

-- In the mode `auth` the browser's message is not the console's.
stamped :
    handle_cmd (codes "alice") (codes " MSG:a.b:80:hi ") (codes "auth")
    ≡ send_onion (codes "AUTH:alice:hi") (codes "a.b:80" ∷ [])
unfolding handle_cmd trim_space is_space to_upper split_max
stamped = refl
