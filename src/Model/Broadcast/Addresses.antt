-- ===== src/Model/Broadcast/Addresses.antt =====
-- `ParseAddresses` reads back what `JoinAddresses` writes.
use dor.Base.{
  ℕ, ◌<◌, ◌≡◌, refl, ◌∙◌, ◌≢◌, List, [], ◌∷◌, ◌++◌, arith, Bytes, All, All-append, All-map, Lacks,
  IsBytes,
}
use dor.Strings.{split, join, split-join, codes}
use dor.Model.Broadcast.{parse_addresses, join_addresses}

-- An address of a node is not empty and holds none of the separators of the wire formats.
pub record IsAddress (a : Bytes) : Type 0 where
  pub not_empty : a ≢ []
  pub no_comma : Lacks b',' a
  pub no_bar : Lacks b'|' a
  pub bytes : IsBytes a

Lacks-comma : (addrs : List Bytes) → All IsAddress addrs → All (Lacks b',') addrs
Lacks-comma addrs h = All-map IsAddress (Lacks b',') (λ a v. v.no_comma) addrs h

join-ne-nil :
    (a : Bytes) (addrs : List Bytes)
    → a ≢ []
    → (c : ℕ) × (s : Bytes) × (join_addresses (a ∷ addrs) ≡ c ∷ s)
unfolding join_addresses join
join-ne-nil [] addrs h = absurd (h refl)
join-ne-nil (c ∷ s) [] h = (c, s, refl)
join-ne-nil (c ∷ s) (b ∷ addrs) h = (c, s ++ (b',' ∷ join (b ∷ addrs) (codes ",")), refl)

parse_addresses-split :
    (s : Bytes) (c : ℕ) (t : Bytes) → s ≡ c ∷ t → parse_addresses s ≡ split s b','
unfolding parse_addresses
parse_addresses-split s c t e = rw (e, parse_addresses)

-- A list of valid addresses, which are not empty and hold no comma, is read back from its join,
-- the empty list too.
pub parse_addresses-join_addresses :
    (addrs : List Bytes) → All IsAddress addrs → parse_addresses (join_addresses addrs) ≡ addrs
parse_addresses-join_addresses [] h = unfold parse_addresses join_addresses join in refl
parse_addresses-join_addresses (a ∷ addrs) h =
    let (c, s, e) = join-ne-nil a addrs (h.0).not_empty in
    parse_addresses-split _ c s e
    ∙ unfold join_addresses in split-join b',' a addrs (Lacks-comma (a ∷ addrs) h)

-- Joined addresses stay inside one field of an onion layer.
pub join_addresses-Lacks_bar :
    (addrs : List Bytes) → All IsAddress addrs → Lacks b'|' (join_addresses addrs)
unfolding join_addresses join
join_addresses-Lacks_bar [] h = tt
join_addresses-Lacks_bar (a ∷ []) (ha, _) = ha.no_bar
join_addresses-Lacks_bar (a ∷ b ∷ addrs) (ha, hs) =
    All-append (λ c. c ≢ b'|') a (b',' ∷ join (b ∷ addrs) (codes ",")) ha.no_bar
      (omega arith, join_addresses-Lacks_bar (b ∷ addrs) hs)

pub join_addresses-IsBytes :
    (addrs : List Bytes) → All IsAddress addrs → IsBytes (join_addresses addrs)
unfolding join_addresses join
join_addresses-IsBytes [] h = tt
join_addresses-IsBytes (a ∷ []) (ha, _) = ha.bytes
join_addresses-IsBytes (a ∷ b ∷ addrs) (ha, hs) =
    All-append (λ c. c < 256) a (b',' ∷ join (b ∷ addrs) (codes ",")) ha.bytes
      (omega arith, join_addresses-IsBytes (b ∷ addrs) hs)
