-- ===== src/Directory/Ping/Eviction.antt =====
-- A node that no longer answers is evicted by the ticks of `TestPing`.
use dor.Base.{
  ℕ, zero, suc, ◌*◌, ◌≤◌, ◌≡◌, refl, sym, ap, ◌∙◌, ◌≢◌, ◌⊎◌, inl, inr, Bool, true, false, [], ◌∷◌,
  arith, Bool-cases, ◌==◌, eq_iff, nat_eq, Bytes, bytes_eq, length, take, All, All-map, IsMember,
  IsMember-Permᴰ, length-Permᴰ, take-all, All-Permᴰ, ◌≤ℤ◌, ltb_ℤ, int_eq, ℤ, pos, negsuc,
}
use dor.Directory.Table.{
  NodeInfo, Table, get_nodes_list, remove_node, update_availability_score, update, delete_name,
  with_score,
}
use dor.Directory.Server.{max_sample_nodes}
use dor.Directory.Ping.{ping_node, ping_nodes, test_ping, ping_listed, degraded, improved}
use dor.Directory.Ping.Rows.{Keeps, ping_nodes-All}
use mathlib.Core.List.{Permᴰ}

update-score :
    (name : Bytes) (s : ℤ) (table : Table)
    → All (λ m. m.name ≡ name → m.availability_score ≡ s) (update (with_score s) name table)
unfolding update
update-score name s [] = tt
update-score name s (m ∷ table) = elim (Bool-cases (m.name == name)) [
  | inl e ↦ rw (e) ((λ h. refl), update-score name s table)
  | inr e ↦
      rw (e)
        ((λ h. absurd (ground (arith, e, (eq_iff m.name name).1 h))), update-score name s table)
]

delete_name-gone :
    (name : Bytes) (table : Table) → All (λ m. m.name ≢ name) (delete_name name table)
unfolding delete_name
delete_name-gone name [] = tt
delete_name-gone name (m ∷ table) = elim (Bool-cases (m.name == name)) [
  | inl e ↦ rw (e) (delete_name-gone name table)
  | inr e ↦ rw (e) ((λ h. ground (arith, e, (eq_iff m.name name).1 h)), delete_name-gone name table)
]

update-length :
    (f : NodeInfo → NodeInfo) (name : Bytes) (table : Table)
    → length (update f name table) ≤ length table
unfolding update
update-length f name [] = omega arith
update-length f name (m ∷ table) = omega (arith, update-length f name table)

delete_name-length : (name : Bytes) (table : Table) → length (delete_name name table) ≤ length table
unfolding delete_name
delete_name-length name [] = omega arith
delete_name-length name (m ∷ table) = ground (arith, delete_name-length name table)

ping_node-length :
    (reachable : Bool) (n : NodeInfo) (table : Table)
    → length (ping_node true reachable n table) ≤ length table
unfolding ping_node remove_node update_availability_score
ping_node-length reachable n table = ground (
  arith,
  update-length (with_score (improved n.availability_score)) n.name table,
  update-length (with_score (degraded n.availability_score)) n.name table,
  delete_name-length n.name table,
)

ping_nodes-length :
    (reach : NodeInfo → Bool) (i : ℕ) (nodes table : Table)
    → length (ping_nodes (λ _. true) reach i nodes table) ≤ length table
unfolding ping_nodes
ping_nodes-length reach i [] table = omega arith
ping_nodes-length reach i (n ∷ nodes) table = omega (
  arith,
  ping_nodes-length reach (suc i) nodes (ping_node true (reach n) n table),
  ping_node-length (reach n) n table,
)

module _ (name : Bytes) (reach : NodeInfo → Bool) where
  -- A row of the name has a score below `b`.
  abbrev Below : ℕ → NodeInfo → Type 0
  Below b m = m.name ≡ name → ltb_ℤ m.availability_score (pos b) ≡ true

  -- A row of the name has a score from 5 up to `b`.
  abbrev Within : ℕ → NodeInfo → Type 0
  Within b m =
      m.name ≡ name → (pos 5 ≤ℤ m.availability_score) × (ltb_ℤ m.availability_score (pos b) ≡ true)

  -- A listed node of the name does not answer, and half its score is below `b`.
  abbrev Fails : ℕ → NodeInfo → Type 0
  Fails b n =
      n.name ≡ name → (reach n ≡ false) × (ltb_ℤ (degraded n.availability_score) (pos b) ≡ true)

  Keeps-Within : (b : ℕ) (n : NodeInfo) → Fails b n → Keeps (Within b) reach n
  Keeps-Within b n fails m within same = (
    λ e l at_name. ground (arith, e, (fails (sym same ∙ at_name)).0),
    λ e l at_name. (ground (arith, l), (fails (sym same ∙ at_name)).1),
  )

  ping_node-hit :
      (b : ℕ) (n : NodeInfo) (table : Table)
      → n.name ≡ name
      → Fails b n
      → All (Within b) (ping_node true (reach n) n table)
  unfolding ping_node remove_node update_availability_score
  ping_node-hit b n table at_name fails =
      let (e, below) = fails at_name in
      rw (e) (elim (Bool-cases (ltb_ℤ (degraded n.availability_score) (pos 5))) [
        | inl l ↦ rw (l) (
            All-map _ _ (λ m other same. absurd (other (same ∙ sym at_name))) _
              (delete_name-gone n.name table))
        | inr l ↦ rw (l) (
            All-map _ _ (λ m set same. rw (set (same ∙ sym at_name)) (ground (arith, l), below)) _
              (update-score n.name (degraded n.availability_score) table))
      ])

  -- One listed node of the name is enough.
  ping_nodes-hit :
      (b i : ℕ) (n : NodeInfo) (nodes table : Table)
      → IsMember n nodes
      → n.name ≡ name
      → All (Fails b) nodes
      → All (Within b) (ping_nodes (λ _. true) reach i nodes table)
  unfolding ping_nodes
  ping_nodes-hit b i n [] table member at_name fails = absurd member
  ping_nodes-hit b i n (x ∷ nodes) table (inl e) at_name (f, fs) =
      ping_nodes-All (Within b) reach (λ _. true) (suc i) nodes _
        (All-map _ _ (Keeps-Within b) nodes fs)
        (ping_node-hit b x table (sym (ap NodeInfo.name e) ∙ at_name) f)
  ping_nodes-hit b i n (x ∷ nodes) table (inr m) at_name (f, fs) =
      ping_nodes-hit b (suc i) n nodes _ m at_name fs

  -- Either a row has the name or none has it.
  name-cases :
      (table : Table)
      → ((n : NodeInfo) × IsMember n table × (n.name ≡ name)) ⊎ All (λ n. n.name ≢ name) table
  name-cases [] = inr tt
  name-cases (n ∷ table) = elim (Bool-cases (n.name == name)) [
    | inl e ↦ inl (n, inl refl, (eq_iff n.name name).0 e)
    | inr e ↦ elim (name-cases table) [
      | inl (m, member, same) ↦ inl (m, inr member, same)
      | inr none_has ↦ inr ((λ h. ground (arith, e, (eq_iff n.name name).1 h)), none_has)
    ]
  ]

  half_below :
      (s : ℤ) (b : ℕ) → 1 ≤ b → ltb_ℤ s (pos (2 * b)) ≡ true → ltb_ℤ (degraded s) (pos b) ≡ true
  half_below (pos k) b some_b h = ground arith
  half_below (negsuc k) b some_b h = ground arith

  -- A tick halves the bound on the scores of a name whose nodes do not answer.
  test_ping-Within :
      (order : Table → Table) (b : ℕ) (table : Table)
      → ((t : Table) → Permᴰ t (order t))
      → 1 ≤ b
      → length table ≤ max_sample_nodes
      → ((n : NodeInfo) → n.name ≡ name → reach n ≡ false)
      → All (Below (2 * b)) table
      → All (Within b) (test_ping (λ _. true) order reach table)
  unfolding test_ping ping_listed get_nodes_list
  test_ping-Within order b table perm some_b few silent below =
      rw (take-all max_sample_nodes (order table) (omega (arith, few, length-Permᴰ (perm table))))
        (elim (name-cases table) [
          | inl (n, member, at_name) ↦
              ping_nodes-hit b 1 n (order table) table (IsMember-Permᴰ n (perm table) member)
                at_name fails
          | inr none_has ↦
              ping_nodes-All (Within b) reach (λ _. true) 1 (order table) table
                (All-map _ _ (Keeps-Within b) (order table) fails)
                (All-map _ _ (λ m other same. absurd (other same)) table none_has)
        ])
    where
      fails : All (Fails b) (order table)
      fails = All-Permᴰ (Fails b) (perm table) (
          All-map _ _
            (λ m l same. (silent m same, half_below m.availability_score b some_b (l same))) table
            below)

-- Ticks of which every statement works; tick `k` is the last but `k`.
unfoldable pub ticks : (ℕ → Table → Table) → (ℕ → NodeInfo → Bool) → ℕ → Table → Table
ticks order reach zero table = table
ticks order reach (suc k) table =
    ticks order reach k (test_ping (λ _. true) (order k) (reach k) table)

-- 5 · 2 ^ k
abbrev pub eviction_bound : ℕ → ℕ
eviction_bound zero = 5
eviction_bound (suc k) = 2 * eviction_bound k

eviction_bound_pos : (k : ℕ) → 1 ≤ eviction_bound k
eviction_bound_pos zero = omega arith
eviction_bound_pos (suc k) = omega (arith, eviction_bound_pos k)

test_ping-length :
    (order : Table → Table) (reach : NodeInfo → Bool) (table : Table)
    → length (test_ping (λ _. true) order reach table) ≤ length table
unfolding test_ping ping_listed get_nodes_list
test_ping-length order reach table =
    ping_nodes-length reach 1 (take max_sample_nodes (order table)) table

module _ (name : Bytes) (order : ℕ → Table → Table) (reach : ℕ → NodeInfo → Bool)
    (perm : (i : ℕ) (t : Table) → Permᴰ t (order i t))
    (silent : (i : ℕ) (n : NodeInfo) → n.name ≡ name → reach i n ≡ false) where
  next_Within :
      (k : ℕ) (table : Table)
      → length table ≤ max_sample_nodes
      → All (Below name (reach k) (eviction_bound (suc k))) table
      → All
          (Within name (reach k) (eviction_bound k))
          (test_ping (λ _. true) (order k) (reach k) table)
  next_Within k table few below =
      test_ping-Within name (reach k) (order k) (eviction_bound k) table (perm k)
        (eviction_bound_pos k) few (silent k) below

  ticks-gone :
      (k : ℕ) (table : Table)
      → length table ≤ max_sample_nodes
      → All (Within name (reach k) (eviction_bound k)) table
      → All (λ n. n.name ≢ name) (ticks order reach k table)
  unfolding ticks
  ticks-gone zero table few within = All-map _ _ (λ m w same. ground (arith, w same)) table within
  ticks-gone (suc k) table few within =
      ticks-gone k _ (omega (arith, few, test_ping-length (order k) (reach k) table))
        (next_Within k table few (All-map _ _ (λ m w same. (w same).1) table within))

  -- If no node of a name answers during k + 1 ticks whose statements all work, the scores of the
  -- name are below 5 · 2 ^ (k + 1), and at most 500 nodes are registered, then no node of that
  -- name is left.
  pub ticks-evict :
      (k : ℕ) (table : Table)
      → length table ≤ max_sample_nodes
      → All (Below name (reach k) (eviction_bound (suc k))) table
      → All (λ n. n.name ≢ name) (ticks order reach (suc k) table)
  unfolding ticks
  ticks-evict k table few below =
      ticks-gone k _ (omega (arith, few, test_ping-length (order k) (reach k) table))
        (next_Within k table few below)
