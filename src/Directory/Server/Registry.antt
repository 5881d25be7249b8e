-- ===== src/Directory/Server/Registry.antt =====
-- What a node can rely on once `INIT` or `QUIT` has been answered.
use dor.Base.{
  ◌<◌, ◌≡◌, refl, sym, ap, ◌∙◌, ◌≢◌, ◌↔◌, inl, inr, true, false, ◌&&◌, some, List, [], ◌∷◌, ◌++◌,
  arith, Bool-cases, ◌==◌, eq_iff, nat_eq, Bytes, bytes_eq, length, take, length-append, All,
  All-append, IsMember, IsMember-Permᴰ, length-Permᴰ, IsMember-append, take-all, All-Permᴰ, int_eq,
  ℤ,
}
use dor.Strings.{atoi, Parsed, codes}
use dor.Directory.Table.{NodeInfo, Table, get_nodes_list, add_node, remove_node, delete_name}
use dor.Directory.Server.{Context, max_sample_nodes, key_answer, init, get_key, quit, registered}
use mathlib.Core.List.{Permᴰ}

-- A node at this address has this key.
abbrev pub HasKey : Bytes → ℤ → Bytes → NodeInfo → Type 0
HasKey ip port key n = n.ip ≡ ip → n.port ≡ port → n.public_key ≡ key

pub key_answer_lem :
    (nodes : List NodeInfo) (ip : Bytes) (port : ℤ) (key : Bytes) (n : NodeInfo)
    → All (HasKey ip port key) nodes
    → IsMember n nodes
    → n.ip ≡ ip
    → n.port ≡ port
    → key_answer nodes ip port ≡ codes "KEY:" ++ (key ++ codes "\n")
unfolding key_answer
key_answer_lem [] ip port key n known member at_ip at_port = absurd member
key_answer_lem (m ∷ nodes) ip port key n (known, more) member at_ip at_port =
    elim (Bool-cases ((m.ip == ip) && (m.port == port))) [
      | inl here ↦
          let same =
            known ((eq_iff m.ip ip).0 (ground (arith, here)))
              ((eq_iff m.port port).0 (ground (arith, here))) in
          rw (here, same) refl
      | inr other ↦
          rw (other)
            (key_answer_lem nodes ip port key n more (elsewhere member other) at_ip at_port)
    ]
  where
    elsewhere :
        IsMember n (m ∷ nodes) → ((m.ip == ip) && (m.port == port)) ≡ false → IsMember n nodes
    elsewhere (inl e) other = absurd (ground (arith, e, eq_iff m.ip ip, eq_iff m.port port))
    elsewhere (inr found) other = found

-- While the database works: after a node has registered, with a number as its port, fewer than
-- 500 others in the table, and none of them at its address with another key, a request for the
-- key of its address is answered with its key, in whatever order the database returns the rows.
pub init-get_key :
    (cx later : Context) (table : Table) (cmd cmd' name port_text key sa sn : Bytes)
    → cx.up ≡ true
    → later.up ≡ true
    → ((t : Table) → Permᴰ t (later.order t))
    → length table < max_sample_nodes
    → Parsed.valid (atoi port_text) ≡ true
    → let node = registered cx name port_text key sa sn in
      All (HasKey node.ip node.port key) table
      → let (table', reply) = init cx (cmd ∷ name ∷ port_text ∷ key ∷ sa ∷ sn ∷ []) table in
        get_key later (cmd' ∷ node.ip ∷ port_text ∷ []) table'
        ≡ (table', some (codes "KEY:" ++ (key ++ codes "\n")))
unfolding init get_key add_node get_nodes_list
init-get_key cx later table cmd cmd' name port_text key sa sn up up' order few valid known =
    let node = registered cx name port_text key sa sn in
    let table' : Table = table ++ (node ∷ []) in
    let moved = order table' in
    let answer : key_answer (take max_sample_nodes (later.order table')) node.ip node.port
        ≡ codes "KEY:" ++ (key ++ codes "\n") =
      rw
        (take-all max_sample_nodes (later.order table')
          (omega (arith, length-append table (node ∷ []), length-Permᴰ moved, few)))
        (key_answer_lem (later.order table') node.ip node.port key node
          (All-Permᴰ _ moved (All-append _ table (node ∷ []) known ((λ e e'. refl), tt)))
          (IsMember-Permᴰ node moved (IsMember-append node table [])) refl refl) in
    rw (up, up', valid) (ap (λ a. (table', some a)) answer)

-- The step of the induction below: what holds of the rows behind the first one.
module _ (id : Bytes) (x : NodeInfo) (table rest : Table) (n : NodeInfo)
    (below : IsMember n rest ↔ (IsMember n table × (n.name ≢ id))) where
  delete_first : (x.name == id) ≡ true → IsMember n rest ↔ (IsMember n (x ∷ table) × (n.name ≢ id))
  delete_first e = (λ m. (inr (below.0 m).0, (below.0 m).1), back)
    where
      back : IsMember n (x ∷ table) × (n.name ≢ id) → IsMember n rest
      back (inl same, other) = absurd (other (ap NodeInfo.name same ∙ (eq_iff x.name id).0 e))
      back (inr there, other) = below.1 (there, other)

  keep_first :
      (x.name == id) ≡ false → IsMember n (x ∷ rest) ↔ (IsMember n (x ∷ table) × (n.name ≢ id))
  keep_first e = (forth, back)
    where
      forth : IsMember n (x ∷ rest) → IsMember n (x ∷ table) × (n.name ≢ id)
      forth (inl same) =
          (inl same, λ h. ground (arith, e, (eq_iff x.name id).1 (ap NodeInfo.name (sym same) ∙ h)))
      forth (inr m) = let (there, other) = below.0 m in (inr there, other)

      back : IsMember n (x ∷ table) × (n.name ≢ id) → IsMember n (x ∷ rest)
      back (inl same, other) = inl same
      back (inr there, other) = inr (below.1 (there, other))

delete_name-IsMember :
    (id : Bytes) (table : Table) (n : NodeInfo)
    → IsMember n (delete_name id table) ↔ (IsMember n table × (n.name ≢ id))
unfolding delete_name
delete_name-IsMember id [] n = (λ m. absurd m, λ p. p.0)
delete_name-IsMember id (x ∷ table) n =
    let below = delete_name-IsMember id table n in
    elim (Bool-cases (x.name == id)) [
      | inl e ↦ rw (e) (delete_first id x table _ n below e)
      | inr e ↦ rw (e) (keep_first id x table _ n below e)
    ]

-- While the database works, a node is registered after `QUIT` if it was before and has another
-- name: every node of the name is gone, and no other one.
pub quit_lem :
    (cx : Context) (table : Table) (cmd id : Bytes) (n : NodeInfo)
    → cx.up ≡ true
    → let (table', reply) = quit cx (cmd ∷ id ∷ []) table in
      IsMember n table' ↔ (IsMember n table × (n.name ≢ id))
unfolding quit remove_node
quit_lem cx table cmd id n up = rw (up) (delete_name-IsMember id table n)
