-- ===== src/Directory/Service/Effects.antt =====
-- The statements of one line and of one probe, apart from how they are reached.
use dor.Base.{
  ◌≡◌, Bool, not, Option, List, [], ◌∷◌, ◌++◌, arith, if◌then◌else◌, if_elim, ◌==◌, eq_iff, nat_eq,
  Bytes, bytes_eq, ltb_ℤ, int_eq, ℤ, pos,
}
use dor.Strings.{split, codes, trim_space}
use dor.Directory.Table.{
  NodeInfo, Table, update, delete_name, with_key, with_score, remove_node,
  update_availability_score, update_node_key, add_node,
}
use dor.Directory.Server.{
  Context, registered, get_key, init, handle_connection, run_command, quit, update_key, run_parts,
}
use dor.Directory.Ping.{ping_node, improved, degraded}

-- At most one row comes, or the rows of one name change or go.
pub data Effect : Type 0 where
  adds : NodeInfo → Effect
  rekeys : Bytes → Bytes → Effect
  rescores : Bytes → ℤ → Effect
  drops : Bytes → Effect
  nothing : Effect

unfoldable pub apply : Effect → Table → Table
apply (adds n) table = table ++ (n ∷ [])
apply (rekeys name key) table = update (with_key key) name table
apply (rescores name score) table = update (with_score score) name table
apply (drops name) table = delete_name name table
apply nothing table = table

-- What the protocol says of the fields of a line.
unfoldable pub init_effect : Context → List Bytes → Effect
init_effect cx (name ∷ port ∷ key ∷ sa ∷ sn ∷ more) = adds (registered cx name port key sa sn)
init_effect cx _ = nothing

unfoldable pub rekey_effect : List Bytes → Effect
rekey_effect (name ∷ key ∷ more) = rekeys name key
rekey_effect _ = nothing

quit_effect : List Bytes → Effect
quit_effect (name ∷ more) = drops name
quit_effect _ = nothing

unfoldable pub fields_effect : Context → List Bytes → Effect
unfolding init_effect rekey_effect quit_effect
fields_effect cx [] = nothing
fields_effect cx (cmd ∷ args) =
    if cmd == codes "INIT"
    then init_effect cx args
    else if cmd == codes "UPDATE_KEY"
    then rekey_effect args
    else if cmd == codes "QUIT"
    then quit_effect args
    else nothing

unfoldable pub line_effect : Context → Bytes → Effect
line_effect cx line = if cx.up then fields_effect cx (split (trim_space line) b':') else nothing

abbrev pub probe_effect : Bool → Bool → NodeInfo → Effect
probe_effect up reachable n =
    if not up
    then nothing
    else if reachable
    then if ltb_ℤ n.availability_score (pos 100)
      then rescores n.name (improved n.availability_score)
      else nothing
    else if ltb_ℤ (degraded n.availability_score) (pos 5)
    then drops n.name
    else rescores n.name (degraded n.availability_score)

pub ping_node-apply :
    (up reachable : Bool) (n : NodeInfo) (table : Table)
    → ping_node up reachable n table ≡ apply (probe_effect up reachable n) table
unfolding ping_node apply remove_node update_availability_score
ping_node-apply up reachable n table = ground arith

-- A handler and its effect, when the database works and when it does not.
module _ (cx : Context) (table : Table) where
  abbrev Does : Table × Option Bytes → Effect → Type 0
  Does outcome e = outcome.0 ≡ apply (if cx.up then e else nothing) table

  init-Does :
      (cmd : Bytes) (args : List Bytes) → Does (init cx (cmd ∷ args) table) (init_effect cx args)
  unfolding init init_effect add_node apply
  init-Does cmd [] = ground arith
  init-Does cmd (a ∷ []) = ground arith
  init-Does cmd (a ∷ b ∷ []) = ground arith
  init-Does cmd (a ∷ b ∷ c ∷ []) = ground arith
  init-Does cmd (a ∷ b ∷ c ∷ d ∷ []) = ground arith
  init-Does cmd (name ∷ port ∷ key ∷ sa ∷ sn ∷ more) = ground arith

  update_key-Does :
      (cmd : Bytes) (args : List Bytes)
      → Does (update_key cx (cmd ∷ args) table) (rekey_effect args)
  unfolding update_key rekey_effect update_node_key apply
  update_key-Does cmd [] = ground arith
  update_key-Does cmd (a ∷ []) = ground arith
  update_key-Does cmd (name ∷ key ∷ more) = ground arith

  quit-Does :
      (cmd : Bytes) (args : List Bytes) → Does (quit cx (cmd ∷ args) table) (quit_effect args)
  unfolding quit quit_effect remove_node apply
  quit-Does cmd [] = ground arith
  quit-Does cmd (name ∷ more) = ground arith

  get_key-Does : (cmd : Bytes) (args : List Bytes) → Does (get_key cx (cmd ∷ args) table) nothing
  unfolding get_key apply
  get_key-Does cmd [] = ground arith
  get_key-Does cmd (a ∷ []) = ground arith
  get_key-Does cmd (ip ∷ port ∷ more) = ground arith

  run_command-Does :
      (cmd : Bytes) (args : List Bytes)
      → Does (run_command cx cmd (cmd ∷ args) table) (fields_effect cx (cmd ∷ args))
  unfolding run_command fields_effect apply
  run_command-Does cmd args = ground (
    arith,
    init-Does cmd args,
    update_key-Does cmd args,
    get_key-Does cmd args,
    quit-Does cmd args,
    eq_iff cmd (codes "GET_LIST"),
    eq_iff cmd (codes "GET_KEY"),
  )

  run_parts-Does : (parts : List Bytes) → Does (run_parts cx parts table) (fields_effect cx parts)
  unfolding run_parts fields_effect apply
  run_parts-Does [] = ground arith
  run_parts-Does (cmd ∷ args) = run_command-Does cmd args

  pub handle_connection-apply :
      (line : Bytes) → (handle_connection cx line table).0 ≡ apply (line_effect cx line) table
  unfolding handle_connection line_effect
  handle_connection-apply line = run_parts-Does (split (trim_space line) b':')

-- What holds of each effect that a line can have.
module _ {ℓ} (Q : Effect → Type ℓ) (cx : Context) (added : (n : NodeInfo) → Q (adds n))
    (rekeyed : (name key : Bytes) → Q (rekeys name key)) (dropped : (name : Bytes) → Q (drops name))
    (idle : Q nothing) where
  init_effect_elim : (args : List Bytes) → Q (init_effect cx args)
  unfolding init_effect
  init_effect_elim [] = idle
  init_effect_elim (a ∷ []) = idle
  init_effect_elim (a ∷ b ∷ []) = idle
  init_effect_elim (a ∷ b ∷ c ∷ []) = idle
  init_effect_elim (a ∷ b ∷ c ∷ d ∷ []) = idle
  init_effect_elim (name ∷ port ∷ key ∷ sa ∷ sn ∷ more) = added (registered cx name port key sa sn)

  rekey_effect_elim : (args : List Bytes) → Q (rekey_effect args)
  unfolding rekey_effect
  rekey_effect_elim [] = idle
  rekey_effect_elim (a ∷ []) = idle
  rekey_effect_elim (name ∷ key ∷ more) = rekeyed name key

  quit_effect_elim : (args : List Bytes) → Q (quit_effect args)
  unfolding quit_effect
  quit_effect_elim [] = idle
  quit_effect_elim (name ∷ more) = dropped name

  fields_effect_elim : (parts : List Bytes) → Q (fields_effect cx parts)
  unfolding fields_effect
  fields_effect_elim [] = idle
  fields_effect_elim (cmd ∷ args) =
      if_elim Q (cmd == codes "INIT") _ _ (λ e. init_effect_elim args)
        (λ e.
          if_elim Q (cmd == codes "UPDATE_KEY") _ _ (λ e'. rekey_effect_elim args)
            (λ e'.
              if_elim Q (cmd == codes "QUIT") _ _ (λ e''. quit_effect_elim args) (λ e''. idle)))

  pub line_effect_elim : (line : Bytes) → Q (line_effect cx line)
  unfolding line_effect
  line_effect_elim line =
      if_elim Q cx.up _ _ (λ e. fields_effect_elim (split (trim_space line) b':')) (λ e. idle)
