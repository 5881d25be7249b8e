-- ===== src/Directory/Ping/Rounds.antt =====
-- What a tick of `TestPing` makes of each row, when the names in the table are distinct.
use dor.Base.{
  ℕ, suc, ◌≤◌, ◌≡◌, refl, sym, ap, ◌∙◌, subst, ◌≢◌, inl, inr, Bool, true, false, [], ◌∷◌,
  append-nil, arith, if◌then◌else◌, Bool-cases, ◌==◌, eq_iff, eq_refl, nat_eq, Bytes, bytes_eq,
  length, All, All-map, IsMember, IsMember-Permᴰ, length-Permᴰ, take-all, ltb_ℤ, int_eq, half_ℤ, ℤ,
  pos,
}
use dor.Directory.Table.{
  get_nodes_list, NodeInfo, Table, remove_node, update_availability_score, update, delete_name,
  with_score,
}
use dor.Directory.Ping.{
  ping_node, improved, ping_nodes, test_ping, ping_listed, get_nodes_list, max_sample_nodes,
}
use dor.Directory.Ping.Judged.{
  judged, each, aged, HasDistinctNames, HasDistinctNames-Permᴰ, each-each, each-congr, each_self,
  All-all, members, All-member,
}
use mathlib.Core.List.{Permᴰ}

-- What the probe of `n` with this outcome does to the row `m`.
abbrev probe_of : Bool → NodeInfo → NodeInfo → Table
probe_of up n m = if m.name == n.name then judged up n.availability_score m else m ∷ []

update-each :
    (f : NodeInfo → NodeInfo) (name : Bytes) (table : Table)
    → update f name table ≡ each (λ m. if m.name == name then f m ∷ [] else m ∷ []) table
unfolding update
update-each f name [] = refl
update-each f name (m ∷ table) = elim (Bool-cases (m.name == name)) [
  | inl e ↦ rw (e) (ap (λ t. f m ∷ t) (update-each f name table))
  | inr e ↦ rw (e) (ap (λ t. m ∷ t) (update-each f name table))
]

delete_name-each :
    (name : Bytes) (table : Table)
    → delete_name name table ≡ each (λ m. if m.name == name then [] else m ∷ []) table
unfolding delete_name
delete_name-each name [] = refl
delete_name-each name (m ∷ table) = elim (Bool-cases (m.name == name)) [
  | inl e ↦ rw (e) (delete_name-each name table)
  | inr e ↦ rw (e) (ap (λ t. m ∷ t) (delete_name-each name table))
]

kept-each :
    (name : Bytes) (table : Table)
    → table ≡ each (λ m. if m.name == name then m ∷ [] else m ∷ []) table
kept-each name [] = refl
kept-each name (m ∷ table) = elim (Bool-cases (m.name == name)) [
  | inl e ↦ rw (e) (ap (λ t. m ∷ t) (kept-each name table))
  | inr e ↦ rw (e) (ap (λ t. m ∷ t) (kept-each name table))
]

ping_node-each :
    (reached : Bool) (n : NodeInfo) (table : Table)
    → ping_node true reached n table ≡ each (probe_of reached n) table
unfolding ping_node remove_node update_availability_score
ping_node-each true n table = by_score (ltb_ℤ n.availability_score (pos 100))
  where
    by_score :
        (low : Bool)
        → (if low then update (with_score (improved n.availability_score)) n.name table else table)
          ≡ each
              (λ m.
                if m.name == n.name
                then (if low then with_score (improved n.availability_score) m ∷ [] else m ∷ [])
                else m ∷ [])
              table
    by_score true = update-each (with_score (improved n.availability_score)) n.name table
    by_score false = kept-each n.name table
ping_node-each false n table = by_score (ltb_ℤ (half_ℤ n.availability_score) (pos 5))
  where
    by_score :
        (low : Bool)
        → (if low
            then delete_name n.name table
            else update (with_score (half_ℤ n.availability_score)) n.name table)
          ≡ each
              (λ m.
                if m.name == n.name
                then (if low then [] else with_score (half_ℤ n.availability_score) m ∷ [])
                else m ∷ [])
              table
    by_score true = delete_name-each n.name table
    by_score false = update-each (with_score (half_ℤ n.availability_score)) n.name table

module _ (reach : NodeInfo → Bool) where
  -- What the probes of these nodes, one after the other, do to a row.
  abbrev probes_of : Table → NodeInfo → Table
  probes_of [] m = m ∷ []
  probes_of (n ∷ nodes) m = each (probes_of nodes) (probe_of (reach n) n m)

  ping_nodes-each :
      (i : ℕ) (nodes table : Table)
      → ping_nodes (λ _. true) reach i nodes table ≡ each (probes_of nodes) table
  unfolding ping_nodes
  ping_nodes-each i [] table =
      sym (each_self (λ m. m ∷ []) table (All-all (λ m. (m ∷ []) ≡ m ∷ []) (λ m. refl) table))
  ping_nodes-each i (n ∷ nodes) table =
      ping_nodes-each (suc i) nodes (ping_node true (reach n) n table)
      ∙ ap (each (probes_of nodes)) (ping_node-each (reach n) n table)
      ∙ each-each (probe_of (reach n) n) (probes_of nodes) table

  -- Nodes of other names leave a row alone.
  probes_of-others :
      (nodes : Table) (m : NodeInfo) → All (λ n. n.name ≢ m.name) nodes → probes_of nodes m ≡ m ∷ []
  probes_of-others [] m h = refl
  probes_of-others (n ∷ nodes) m (h, hs) =
      let apart : (m.name == n.name) ≡ false = ground (arith, eq_iff m.name n.name, h) in
      rw (apart) (rw (probes_of-others nodes m hs) refl)

  judged-name :
      (up : Bool) (score : ℤ) (m : NodeInfo) → All (λ x. x.name ≡ m.name) (judged up score m)
  judged-name true score m = elim (Bool-cases (ltb_ℤ score (pos 100))) [
    | inl e ↦ rw (e) (refl, tt)
    | inr e ↦ rw (e) (refl, tt)
  ]
  judged-name false score m = elim (Bool-cases (ltb_ℤ (half_ℤ score) (pos 5))) [
    | inl e ↦ rw (e) tt
    | inr e ↦ rw (e) (refl, tt)
  ]

  each_others :
      (nodes : Table) (m : NodeInfo) (xs : Table)
      → All (λ n. n.name ≢ m.name) nodes
      → All (λ x. x.name ≡ m.name) xs
      → each (probes_of nodes) xs ≡ xs
  each_others nodes m xs others named = each_self (probes_of nodes) xs (
      All-map (λ (x : NodeInfo). x.name ≡ m.name) (λ x. probes_of nodes x ≡ x ∷ [])
        (λ x same. probes_of-others nodes x (
          All-map (λ (n : NodeInfo). n.name ≢ m.name) (λ n. n.name ≢ x.name)
            (λ n differs again. differs (again ∙ same)) nodes others))
        xs named)

  own_probe :
      (nodes : Table) (m : NodeInfo)
      → All (λ n. n.name ≢ m.name) nodes
      → probes_of (m ∷ nodes) m ≡ judged (reach m) m.availability_score m
  own_probe nodes m others = rw (eq_refl m.name) (
      each_others nodes m (judged (reach m) m.availability_score m) others
        (judged-name (reach m) m.availability_score m))

  -- A listed row is judged by its own probe.
  probes_of-own :
      (nodes : Table) (m : NodeInfo)
      → HasDistinctNames nodes
      → IsMember m nodes
      → probes_of nodes m ≡ judged (reach m) m.availability_score m
  probes_of-own [] m distinct member = absurd member
  probes_of-own (n ∷ nodes) m (others, distinct) (inl e) =
      subst
        (λ (x : NodeInfo).
          All (λ o. o.name ≢ x.name) nodes
          → probes_of (x ∷ nodes) m ≡ judged (reach m) m.availability_score m)
        e (own_probe nodes m) others
  probes_of-own (n ∷ nodes) m (others, distinct) (inr member) =
      let differs = All-member (λ (o : NodeInfo). o.name ≢ n.name) m nodes others member in
      let apart : (m.name == n.name) ≡ false = ground (arith, eq_iff m.name n.name, differs) in
      rw (apart) (append-nil (probes_of nodes m) ∙ probes_of-own nodes m distinct member)

  -- A tick whose statements all work, on at most 500 rows with distinct names.
  pub test_ping-aged :
      (order : Table → Table) (table : Table)
      → Permᴰ table (order table)
      → HasDistinctNames table
      → length table ≤ max_sample_nodes
      → test_ping (λ _. true) order reach table ≡ aged reach table
  unfolding test_ping ping_listed get_nodes_list
  test_ping-aged order table perm distinct few =
      rw (take-all max_sample_nodes (order table) (omega (arith, few, length-Permᴰ perm))) (
        ping_nodes-each 1 (order table) table
        ∙ each-congr (probes_of (order table)) (λ m. judged (reach m) m.availability_score m) table
            (members (λ m. probes_of (order table) m ≡ judged (reach m) m.availability_score m)
              table
              (λ m member.
                probes_of-own (order table) m (HasDistinctNames-Permᴰ perm distinct)
                  (IsMember-Permᴰ m perm member))))
