-- ===== src/Directory/Ping/Rows.antt =====
-- What holds of every row through a tick of `TestPing`.
use dor.Base.{
  ℕ, zero, suc, ◌≡◌, inl, inr, Bool, true, false, [], ◌∷◌, arith, Bool-cases, ◌==◌, eq_iff, nat_eq,
  Bytes, bytes_eq, take, All, All-map, All-Permᴰ, ◌+ℤ◌, ◌≤ℤ◌, ltb_ℤ, int_eq, ℤ, pos, negsuc,
}
use dor.Directory.Table.{
  exec, NodeInfo, Table, get_nodes_list, remove_node, update_availability_score, update,
  delete_name, with_score,
}
use dor.Directory.Server.{max_sample_nodes, table_or}
use dor.Directory.Ping.{ping_node, ping_nodes, test_ping, ping_listed, degraded, improved}
use mathlib.Core.List.{Permᴰ}

-- Every row has the property.
pub take-All : (P : NodeInfo → Type 0) (k : ℕ) (table : Table) → All P table → All P (take k table)
take-All P zero table h = tt
take-All P (suc k) [] h = tt
take-All P (suc k) (n ∷ table) (h, hs) = (h, take-All P k table hs)

module _ (P : NodeInfo → Type 0) where
  pub update-All :
      (f : NodeInfo → NodeInfo) (name : Bytes) (table : Table)
      → ((n : NodeInfo) → P n → n.name ≡ name → P (f n))
      → All P table
      → All P (update f name table)
  unfolding update
  update-All f name [] step h = tt
  update-All f name (n ∷ table) step (h, hs) = elim (Bool-cases (n.name == name)) [
    | inl e ↦ rw (e) (step n h ((eq_iff n.name name).0 e), update-All f name table step hs)
    | inr e ↦ rw (e) (h, update-All f name table step hs)
  ]

  pub delete_name-All :
      (name : Bytes) (table : Table) → All P table → All P (delete_name name table)
  unfolding delete_name
  delete_name-All name [] h = tt
  delete_name-All name (n ∷ table) (h, hs) = elim (Bool-cases (n.name == name)) [
    | inl e ↦ rw (e) (delete_name-All name table hs)
    | inr e ↦ rw (e) (h, delete_name-All name table hs)
  ]

  table_or-All :
      (up : Bool) (table t : Table) → All P table → All P t → All P (table_or table (exec up t))
  table_or-All true table t h h' = h'
  table_or-All false table t h h' = h

  module _ (reach : NodeInfo → Bool) where
    -- The new scores that the probe of `n` can write keep the property of the rows of its name.
    abbrev pub Keeps : NodeInfo → Type 0
    Keeps n =
        (m : NodeInfo)
        → P m
        → m.name ≡ n.name
        → (reach n ≡ true
            → ltb_ℤ n.availability_score (pos 100) ≡ true
            → P (with_score (improved n.availability_score) m))
          × (reach n ≡ false
              → ltb_ℤ (degraded n.availability_score) (pos 5) ≡ false
              → P (with_score (degraded n.availability_score) m))

    -- The probe of one node keeps a property of the rows which the new scores keep.
    pub ping_node-All :
        (up : Bool) (n : NodeInfo) (table : Table)
        → Keeps n
        → All P table
        → All P (ping_node up (reach n) n table)
    unfolding ping_node remove_node update_availability_score
    ping_node-All up n table keeps h = elim (Bool-cases (reach n)) [
      | inl e ↦ rw (e) (elim (Bool-cases (ltb_ℤ n.availability_score (pos 100))) [
        | inl l ↦ rw (l) (
            table_or-All up table _ h
              (update-All _ n.name table (λ m p same. ((keeps m p same).0 e l)) h))
        | inr l ↦ rw (l) h
      ])
      | inr e ↦ rw (e) (elim (Bool-cases (ltb_ℤ (degraded n.availability_score) (pos 5))) [
        | inl l ↦ rw (l) (table_or-All up table _ h (delete_name-All n.name table h))
        | inr l ↦ rw (l) (
            table_or-All up table _ h
              (update-All _ n.name table (λ m p same. ((keeps m p same).1 e l)) h))
      ])
    ]

    pub ping_nodes-All :
        (ups : ℕ → Bool) (i : ℕ) (nodes table : Table)
        → All Keeps nodes
        → All P table
        → All P (ping_nodes ups reach i nodes table)
    unfolding ping_nodes
    ping_nodes-All ups i [] table keeps h = h
    ping_nodes-All ups i (n ∷ nodes) table (k, ks) h =
        ping_nodes-All ups (suc i) nodes _ ks (ping_node-All (ups i) n table k h)

    pub test_ping-All :
        (ups : ℕ → Bool) (order : Table → Table) (table : Table)
        → ((t : Table) → Permᴰ t (order t))
        → All Keeps table
        → All P table
        → All P (test_ping ups order reach table)
    unfolding test_ping ping_listed get_nodes_list
    test_ping-All ups order table perm keeps h = go (ups 0)
      where
        listed_keeps : All Keeps (take max_sample_nodes (order table))
        listed_keeps =
            take-All Keeps max_sample_nodes (order table) (All-Permᴰ Keeps (perm table) keeps)

        go :
            (up : Bool)
            → All P (ping_listed ups reach table (get_nodes_list up order max_sample_nodes table))
        go true = ping_nodes-All ups 1 _ table listed_keeps h
        go false = h

-- A score between 5 and 100.
abbrev pub InRange : ℤ → Type 0
InRange s = (pos 5 ≤ℤ s) × (s ≤ℤ pos 100)

pub improved-InRange : (s : ℤ) → InRange s → InRange (improved s)
unfolding ◌+ℤ◌
improved-InRange (pos k) h = ground arith
improved-InRange (negsuc k) h = ground arith

pub degraded-InRange :
    (s : ℤ) → InRange s → ltb_ℤ (degraded s) (pos 5) ≡ false → InRange (degraded s)
degraded-InRange (pos k) h high = ground arith
degraded-InRange (negsuc k) h high = ground arith

-- A tick keeps every score between 5 and 100, if each was so before, whichever nodes answer, in
-- whatever order the rows are listed, and whichever statements fail.
pub test_ping-InRange :
    (ups : ℕ → Bool) (order : Table → Table) (reach : NodeInfo → Bool) (table : Table)
    → ((t : Table) → Permᴰ t (order t))
    → All (λ n. InRange n.availability_score) table
    → All (λ n. InRange n.availability_score) (test_ping ups order reach table)
test_ping-InRange ups order reach table perm h =
    test_ping-All (λ n. InRange n.availability_score) reach ups order table perm
      (All-map _ _
        (λ n r m p same. (
          λ e l. improved-InRange n.availability_score r,
          λ e l. degraded-InRange n.availability_score r l,
        ))
        table h)
      h
