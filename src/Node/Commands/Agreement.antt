-- ===== src/Node/Commands/Agreement.antt =====
-- The console and the browser: `runCLI` and `processCmd` on the same command.
use dor.Base.{
  ℕ, zero, suc, ◌≤◌, ◌≡◌, refl, sym, subst, ◌≢◌, inl, inr, true, false, List, [], ◌∷◌, arith, leb,
  Bool-cases, Option-cases, ◌==◌, eq_iff, nat_eq, Bytes, bytes_eq, length, drop, All, All-map,
  int_eq,
}
use dor.Strings.{atoi, push, split_max, codes, trim_space, to_upper, last_index}
use dor.Node.Fragments.{send_parts, frag_chunk_size}
use dor.Node.Commands.{
  Action, fetch_checked, fetch_unchecked, quit_process, stop_node, do_bench, do_sbench,
  command_parts,
}
use dor.Node.Commands.Console.{
  cli_msg, cli_relay, cli_jobs, cli_send, cli_ssend, cli_switch, run_cli,
}
use dor.Node.Commands.Browser.{
  stamp, web_msg, web_relay, web_send, web_ssend, web_switch, process_cmd,
}

-- What the browser does where the console does this: it differs for FETCH and QUIT.
abbrev pub in_browser : Action → Action
in_browser (fetch_checked addr) = fetch_unchecked addr
in_browser quit_process = stop_node
in_browser other = other

do_bench-in_browser : (parts : List Bytes) → do_bench parts ≡ in_browser (do_bench parts)
unfolding do_bench
do_bench-in_browser [] = refl
do_bench-in_browser (a ∷ []) = refl
do_bench-in_browser (a ∷ b ∷ []) = refl
do_bench-in_browser (a ∷ b ∷ c ∷ []) = refl
do_bench-in_browser (a ∷ b ∷ c ∷ d ∷ []) = refl
do_bench-in_browser (a ∷ b ∷ c ∷ d ∷ e ∷ []) = refl
do_bench-in_browser (a ∷ b ∷ c ∷ d ∷ e ∷ f ∷ rest) = refl

do_sbench-in_browser : (parts : List Bytes) → do_sbench parts ≡ in_browser (do_sbench parts)
unfolding do_sbench
do_sbench-in_browser [] = refl
do_sbench-in_browser (a ∷ []) = refl
do_sbench-in_browser (a ∷ b ∷ []) = refl
do_sbench-in_browser (a ∷ b ∷ c ∷ []) = refl
do_sbench-in_browser (a ∷ b ∷ c ∷ d ∷ []) = refl
do_sbench-in_browser (a ∷ b ∷ c ∷ d ∷ e ∷ []) = refl
do_sbench-in_browser (a ∷ b ∷ c ∷ d ∷ e ∷ f ∷ []) = refl
do_sbench-in_browser (a ∷ b ∷ c ∷ d ∷ e ∷ f ∷ g ∷ rest) = refl

-- A part of a text is not longer than the text.
push-short :
    (c n : ℕ) (ps : List Bytes)
    → All (λ p. length p ≤ n) ps
    → All (λ p. length p ≤ suc n) (push c ps)
push-short c n [] h = (omega arith, tt)
push-short c n (p ∷ ps) (h, hs) = (
  omega (arith, h),
  All-map (λ p. length p ≤ n) (λ p. length p ≤ suc n) (λ q le. omega (arith, le)) ps hs,
)

split_max-short : (k : ℕ) (s : Bytes) (sep : ℕ) → All (λ p. length p ≤ length s) (split_max k s sep)
unfolding split_max
split_max-short zero s sep = (omega arith, tt)
split_max-short (suc k) [] sep = (omega arith, tt)
split_max-short (suc k) (c ∷ s) sep = elim (Bool-cases (c == sep)) [
  | inl e ↦ rw (e) (
    omega arith,
    All-map (λ p. length p ≤ length s) (λ p. length p ≤ suc (length s)) (λ q le. omega (arith, le))
        (split_max k s sep) (split_max-short k s sep),
  )
  | inr e ↦
      rw (e) (push-short c (length s) (split_max (suc k) s sep) (split_max-short (suc k) s sep))
]

module _ (frag_id id mode : Bytes) (plain : mode ≢ codes "auth") where
  stamp_plain : (message : Bytes) → stamp mode id message ≡ message
  unfolding stamp
  stamp_plain message = ground (arith, plain, eq_iff mode (codes "auth"))

  web_msg-eq-cli_msg : (parts : List Bytes) → web_msg mode id parts ≡ in_browser (cli_msg parts)
  unfolding web_msg cli_msg
  web_msg-eq-cli_msg [] = refl
  web_msg-eq-cli_msg (ip ∷ []) = refl
  web_msg-eq-cli_msg (ip ∷ port ∷ []) = refl
  web_msg-eq-cli_msg (ip ∷ port ∷ message ∷ []) = rw (stamp_plain message) refl
  web_msg-eq-cli_msg (ip ∷ port ∷ message ∷ more ∷ rest) = refl

  web_relay-eq-cli_relay : (args : Bytes) → web_relay mode id args ≡ in_browser (cli_relay args)
  unfolding web_relay cli_relay
  web_relay-eq-cli_relay args = elim (Option-cases (last_index args b',')) [
    | inl e ↦ rw (web_relay, cli_relay, e) refl
    | inr (i, e) ↦ rw (web_relay, cli_relay, e, stamp_plain (drop (suc i) args)) refl
  ]

  web_send-eq-cli_send :
      (parts : List Bytes)
      → All (λ p. length p ≤ frag_chunk_size) parts
      → web_send mode id parts ≡ in_browser (cli_send frag_id parts)
  unfolding web_send cli_send cli_jobs send_parts
  web_send-eq-cli_send [] h = refl
  web_send-eq-cli_send (nbr ∷ []) h = refl
  web_send-eq-cli_send (nbr ∷ ip ∷ []) h = refl
  web_send-eq-cli_send (nbr ∷ ip ∷ port ∷ []) h = refl
  web_send-eq-cli_send (nbr ∷ ip ∷ port ∷ message ∷ []) (h0, (h1, (h2, (short, h3)))) =
      let one : leb (length message) frag_chunk_size ≡ true = ground (arith, short) in
      elim (Bool-cases (atoi nbr).valid) [
        | inl e ↦ rw (stamp_plain message, one, e) refl
        | inr e ↦ rw (stamp_plain message, one, e) refl
      ]
  web_send-eq-cli_send (nbr ∷ ip ∷ port ∷ message ∷ more ∷ rest) h = refl

  web_ssend-eq-cli_ssend :
      (parts : List Bytes) → web_ssend mode id parts ≡ in_browser (cli_ssend parts)
  unfolding web_ssend cli_ssend
  web_ssend-eq-cli_ssend [] = refl
  web_ssend-eq-cli_ssend (group ∷ []) = refl
  web_ssend-eq-cli_ssend (group ∷ relays ∷ []) = refl
  web_ssend-eq-cli_ssend (group ∷ relays ∷ ip ∷ []) = refl
  web_ssend-eq-cli_ssend (group ∷ relays ∷ ip ∷ port ∷ []) = refl
  web_ssend-eq-cli_ssend (group ∷ relays ∷ ip ∷ port ∷ message ∷ []) = rw (stamp_plain message) refl
  web_ssend-eq-cli_ssend (group ∷ relays ∷ ip ∷ port ∷ message ∷ more ∷ rest) = refl

-- A case for a name, and a case for the other names.
by_name : (P : Bytes → Type 0) (cmd name : Bytes) → P name → ((cmd == name) ≡ false → P cmd) → P cmd
by_name P cmd name hit miss = elim (Bool-cases (cmd == name)) [
  | inl e ↦ subst P (sym ((eq_iff cmd name).0 e)) hit
  | inr e ↦ miss e
]

module _ (frag_id id mode : Bytes) (plain : mode ≢ codes "auth") (args : Bytes)
    (short : length args ≤ frag_chunk_size) where
  abbrev Agree : Bytes → Type 0
  Agree cmd = web_switch mode id cmd args ≡ in_browser (cli_switch frag_id cmd args)

  web_switch-eq-cli_switch : (cmd : Bytes) → Agree cmd
  unfolding web_switch cli_switch
  web_switch-eq-cli_switch cmd = by_name Agree cmd (codes "FETCH") refl (λ f1.
      by_name Agree cmd (codes "MSG")
        (web_msg-eq-cli_msg frag_id id mode plain (split_max 2 args b':'))
        (λ f2.
          by_name Agree cmd (codes "RELAY") (web_relay-eq-cli_relay frag_id id mode plain args)
            (λ f3.
              by_name Agree cmd (codes "SEND")
                (web_send-eq-cli_send frag_id id mode plain (split_max 3 args b':') (
                  All-map (λ p. length p ≤ length args) (λ p. length p ≤ frag_chunk_size)
                    (λ p le. omega (arith, le, short)) (split_max 3 args b':')
                    (split_max-short 3 args b':')))
                (λ f4.
                  by_name Agree cmd (codes "SSEND")
                    (web_ssend-eq-cli_ssend frag_id id mode plain (split_max 4 args b':'))
                    (λ f5.
                      by_name Agree cmd (codes "BENCH")
                        (do_bench-in_browser (split_max 4 args b':'))
                        (λ f6.
                          by_name Agree cmd (codes "SBENCH")
                            (do_sbench-in_browser (split_max 5 args b':'))
                            (λ f7. by_name Agree cmd (codes "LIST") refl (λ f8.
                              by_name Agree cmd (codes "REGEN") refl (λ f9.
                                by_name Agree cmd (codes "QUIT") refl (λ f10.
                                  rw (f1, f2, f3, f4, f5, f6, f7, f8, f9, f10) refl))))))))))

command_parts-short : (input : Bytes) → length (command_parts input).1 ≤ length input
unfolding command_parts
command_parts-short input = go (split_max 1 input b':') (split_max-short 1 input b':')
  where
    go :
        (ps : List Bytes)
        → All (λ p. length p ≤ length input) ps
        → length
            (elim ps as (λ x. Bytes × Bytes) [
              | [] ↦ ([], [])
              | cmd ∷ more ↦ elim more [ [] ↦ (cmd, []) | args ∷ rest ↦ (cmd, args) ]
            ]).1
          ≤ length input
    go [] h = omega arith
    go (cmd ∷ []) h = omega arith
    go (cmd ∷ args ∷ rest) (h, (le, hs)) = le

-- A command of at most 4096 bytes, without spaces around it or its name, does the same on the
-- console as in the browser, unless the browser's mode is `auth`, but for two commands: FETCH, which
-- the console breaks off at errors of the connection that the browser does not look at, and QUIT,
-- which ends the process on the console only.
pub process_cmd-eq-run_cli :
    (frag_id id mode input : Bytes)
    → mode ≢ codes "auth"
    → length input ≤ frag_chunk_size
    → trim_space input ≡ input
    → trim_space (command_parts input).0 ≡ (command_parts input).0
    → process_cmd id mode input ≡ in_browser (run_cli frag_id input)
unfolding process_cmd run_cli
process_cmd-eq-run_cli frag_id id mode input plain short bare name_bare =
    elim (Bool-cases (input == [])) [
      | inl e ↦ rw (bare, e) refl
      | inr e ↦
          rw (bare, name_bare, e)
            (web_switch-eq-cli_switch frag_id id mode plain (command_parts input).1
              (omega (arith, short, command_parts-short input)) (to_upper (command_parts input).0))
    ]
