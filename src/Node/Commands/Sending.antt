-- ===== src/Node/Commands/Sending.antt =====
-- The command SEND of the console: from the line to the calls of `SendWithRetry`.
use dor.Base.{
  ℕ, suc, ◌≤◌, ◌≡◌, refl, ap, ◌∙◌, inl, inr, List, [], ◌∷◌, ◌++◌, append-nil, arith, leb,
  Bool-cases, Bytes, length, All, Lacks, ℤ, pos,
}
use dor.Strings.{itoa, split_max, split_max-field, split_max_pair, codes, trim_space, to_upper}
use dor.Strings.Decimal.RoundTrip.{IsInt64, atoi-itoa, itoa-Lacks}
use dor.Model.Fragment.Order.{concat}
use dor.Node.Fragments.{send_parts, split_message, fragments_from, frag_chunk_size}
use dor.Node.Fragments.Delivery.{IsChunk, split_message_lem}
use dor.Node.Commands.{Job, send_jobs, command_parts}
use dor.Node.Commands.Console.{cli_jobs, cli_send, cli_switch, run_cli}

-- `SEND:<number of relays>:<ip>:<port>:<message>`
abbrev pub send_line : ℤ → Bytes → Bytes → Bytes → Bytes
send_line relays ip port message =
    codes "SEND:" ++ (itoa relays ++ (b':' ∷ (ip ++ (b':' ∷ (port ++ (b':' ∷ message))))))

abbrev pub texts : List Job → List Bytes
texts [] = []
texts (j ∷ js) = j.message ∷ texts js

-- A job for this destination over this many relays, with a message that is not cut further.
abbrev pub IsJobFor : Bytes → ℤ → Job → Type 0
IsJobFor dest relays j =
    (j.dest_addr ≡ dest)
    × (j.num_relays ≡ relays)
    × (j.max_retries ≡ pos 3)
    × (length j.message ≤ frag_chunk_size)

-- The jobs for some parts.
jobs_lem :
    (dest : Bytes) (relays : ℤ) (frag_id : Bytes) (i total : ℕ) (chunks : List Bytes)
    → All (IsChunk frag_chunk_size) chunks
    → (texts (cli_jobs dest relays (fragments_from frag_id i total chunks)) ≡ chunks)
      × All (IsJobFor dest relays) (cli_jobs dest relays (fragments_from frag_id i total chunks))
unfolding cli_jobs fragments_from
jobs_lem dest relays frag_id i total [] h = (refl, tt)
jobs_lem dest relays frag_id i total (chunk ∷ chunks) ((some_byte, le), hs) =
    let (same, jobs) = jobs_lem dest relays frag_id (suc i) total chunks hs in
    (ap (λ t. chunk ∷ t) same, ((refl, refl, refl, le), jobs))

send_parts_lem :
    (dest : Bytes) (relays : ℤ) (frag_id message : Bytes)
    → (concat (texts (cli_jobs dest relays (send_parts frag_id message))) ≡ message)
      × All (IsJobFor dest relays) (cli_jobs dest relays (send_parts frag_id message))
unfolding send_parts cli_jobs
send_parts_lem dest relays frag_id message =
    elim (Bool-cases (leb (length message) frag_chunk_size)) [
      | inl e ↦ rw (e) (append-nil message, ((refl, refl, refl, ground (arith, e)), tt))
      | inr e ↦
          let (whole, chunks) = split_message_lem message frag_chunk_size (omega arith) in
          let (same, jobs) =
            jobs_lem dest relays frag_id 0 (length (split_message message frag_chunk_size))
              (split_message message frag_chunk_size) chunks in
          rw (e) (ap concat same ∙ whole, jobs)
    ]

cli_send-fields :
    (frag_id : Bytes) (relays : ℤ) (ip port message : Bytes)
    → IsInt64 relays
    → Lacks b':' ip
    → Lacks b':' port
    → cli_send frag_id
        (split_max 3 (itoa relays ++ (b':' ∷ (ip ++ (b':' ∷ (port ++ (b':' ∷ message)))))) b':')
      ≡ send_jobs (cli_jobs (ip ++ (b':' ∷ port)) relays (send_parts frag_id message))
unfolding cli_send
cli_send-fields frag_id relays ip port message fits no_colon no_mark =
    rw
      (split_max-field b':' 2 (itoa relays) (ip ++ (b':' ∷ (port ++ (b':' ∷ message))))
        (itoa-Lacks b':' relays (omega arith)))
      (rw (split_max-field b':' 1 ip (port ++ (b':' ∷ message)) no_colon) (
        rw (split_max-field b':' 0 port message no_mark)
          (unfold split_max in rw (atoi-itoa relays fits) refl)))

pub command_parts-field :
    (cmd args : Bytes) → Lacks b':' cmd → command_parts (cmd ++ (b':' ∷ args)) ≡ (cmd, args)
unfolding command_parts
command_parts-field cmd args h = rw (command_parts, split_max_pair b':' cmd args h) refl

send_Lacks : Lacks b':' (codes "SEND")
send_Lacks = (
  (λ e. ground (arith, e)),
  ((λ e. ground (arith, e)), ((λ e. ground (arith, e)), ((λ e. ground (arith, e)), tt))),
)

-- A SEND line with an address without colons, a 64-bit number and no spaces around the line starts
-- jobs for that address, that number of relays and three tries; the messages of the jobs make up the
-- message, and none is longer than 4096 bytes.
pub run_cli-send_line :
    (frag_id : Bytes) (relays : ℤ) (ip port message : Bytes)
    → IsInt64 relays
    → Lacks b':' ip
    → Lacks b':' port
    → trim_space (send_line relays ip port message) ≡ send_line relays ip port message
    → (jobs : List Job) × (run_cli frag_id (send_line relays ip port message) ≡ send_jobs jobs)
      × (concat (texts jobs) ≡ message)
      × All (IsJobFor (ip ++ (b':' ∷ port)) relays) jobs
unfolding run_cli cli_switch to_upper
run_cli-send_line frag_id relays ip port message fits no_colon no_mark bare =
    let args = itoa relays ++ (b':' ∷ (ip ++ (b':' ∷ (port ++ (b':' ∷ message))))) in
    let (whole, jobs) = send_parts_lem (ip ++ (b':' ∷ port)) relays frag_id message in
    (
      cli_jobs (ip ++ (b':' ∷ port)) relays (send_parts frag_id message),
      rw (bare, command_parts-field (codes "SEND") args send_Lacks)
          (cli_send-fields frag_id relays ip port message fits no_colon no_mark),
      whole,
      jobs,
    )
