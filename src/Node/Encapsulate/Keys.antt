-- ===== src/Node/Encapsulate/Keys.antt =====
-- After the loop that fetches keys, the key of every node of both routes is in the cache.
use dor.Base.{
  ℕ, suc, ◌+◌, ◌≡◌, refl, subst, inl, inr, none, some, List, [], ◌∷◌, arith, Bool-cases,
  Option-cases, eq_iff, eq_refl, nat_eq, Bytes, bytes_eq, All, lookup-insert, ◌>>=◌, >>=-eq-ok,
  ok-injective, Result, ok, err, panic, int_eq,
}
use dor.Model.Crypto.{Crypto}
use dor.Node.KeyCache
use dor.Node.KeyCache.{KeyCache, CachedKey, is_expired, fetch_key_from_server}
use dor.Node.Encapsulate.{cached_key, needs_fetch, refresh_key, refresh_keys}

module _ (c : Crypto) (owner : Bytes → c.PrivateKey) where
  -- Each key in the cache is that of the node at its address.
  abbrev pub IsHonest : KeyCache c.PublicKey → Type 0
  IsHonest cache =
      (a : Bytes) (v : CachedKey c.PublicKey)
      → KeyCache.get cache a ≡ some v
      → v.key ≡ c.public_of (owner a)

  abbrev pub Knows : KeyCache c.PublicKey → Bytes → Type 0
  Knows cache a = cached_key c cache a ≡ some (c.public_of (owner a))

  Knows-get :
      (cache : KeyCache c.PublicKey) (a : Bytes) (v : CachedKey c.PublicKey)
      → IsHonest cache
      → KeyCache.get cache a ≡ some v
      → Knows cache a
  unfolding cached_key
  Knows-get cache a v honest e = ground (arith, honest a v e)

  module _ (exchange : Bytes → Result Bytes) (clock : ℕ → ℕ)
      (true_keys : (a : Bytes) (k : c.PublicKey)
        → fetch_key_from_server c exchange a ≡ ok k
        → k ≡ c.public_of (owner a)) where
    set_key :
        (cache : KeyCache c.PublicKey) (a : Bytes) (v : CachedKey c.PublicKey)
        → IsHonest cache
        → v.key ≡ c.public_of (owner a)
        → IsHonest (KeyCache.set cache a v)
          × Knows (KeyCache.set cache a v) a
          × ((b : Bytes) → Knows cache b → Knows (KeyCache.set cache a v) b)
    unfolding KeyCache.set KeyCache.get cached_key
    set_key cache a v honest e = (
      λ b w found. ground (arith, lookup-insert a b v cache, eq_iff a b, honest b w),
      ground (arith, lookup-insert a a v cache, eq_refl a),
      λ b known. ground (arith, lookup-insert a b v cache, eq_iff a b),
    )

    pub refresh_key-Knows :
        (i : ℕ) (cache cache' : KeyCache c.PublicKey) (a : Bytes)
        → IsHonest cache
        → refresh_key c exchange clock i cache a ≡ ok cache'
        → IsHonest cache' × Knows cache' a × ((b : Bytes) → Knows cache b → Knows cache' b)
    unfolding refresh_key needs_fetch
    refresh_key-Knows i cache cache' a honest h = elim (Option-cases (KeyCache.get cache a)) [
      | inl missing ↦ fetched missing
      | inr (v, e) ↦ known v e
    ]
      where
        by_fetch :
            (do
              k ← fetch_key_from_server c exchange a
              ok (KeyCache.set cache a (record { key = k; expires_at = clock i + 30 })))
              ≡ ok cache'
            → IsHonest cache' × Knows cache' a × ((b : Bytes) → Knows cache b → Knows cache' b)
        by_fetch made =
            let (k, e, stored) = >>=-eq-ok (fetch_key_from_server c exchange a) _ made in
            subst (λ m. IsHonest m × Knows m a × ((b : Bytes) → Knows cache b → Knows m b))
              (ok-injective stored) (set_key cache a _ honest (true_keys a k e))

        fetched :
            KeyCache.get cache a ≡ none
            → IsHonest cache' × Knows cache' a × ((b : Bytes) → Knows cache b → Knows cache' b)
        fetched missing = by_fetch (ground (arith, missing, h))

        known :
            (v : CachedKey c.PublicKey)
            → KeyCache.get cache a ≡ some v
            → IsHonest cache' × Knows cache' a × ((b : Bytes) → Knows cache b → Knows cache' b)
        known v e = elim (Bool-cases (is_expired (clock i) v)) [
          | inl expired ↦ by_fetch (ground (arith, e, expired, h))
          | inr fresh ↦
              subst (λ m. IsHonest m × Knows m a × ((b : Bytes) → Knows cache b → Knows m b))
                (ok-injective (ground (arith, e, fresh, h)))
                (honest, Knows-get cache a v honest e, λ b k. k)
        ]

    refresh_keys_step :
        (i : ℕ) (cache cache' : KeyCache c.PublicKey) (a : Bytes) (addrs : List Bytes)
        → refresh_keys c exchange clock i cache (a ∷ addrs) ≡ (cache', ok tt)
        → (next : KeyCache c.PublicKey) × (refresh_key c exchange clock i cache a ≡ ok next)
          × (refresh_keys c exchange clock (suc i) next addrs ≡ (cache', ok tt))
    unfolding refresh_keys
    refresh_keys_step i cache cache' a addrs h =
        step (refresh_key c exchange clock i cache a) refl h
      where
        step :
            (m : Result (KeyCache c.PublicKey))
            → refresh_key c exchange clock i cache a ≡ m
            → elim m [
              | ok next ↦ refresh_keys c exchange clock (suc i) next addrs
              | err e ↦ (cache, err e)
              | panic ↦ (cache, panic)
            ]
              ≡ (cache', ok tt)
            → (next : KeyCache c.PublicKey) × (refresh_key c exchange clock i cache a ≡ ok next)
              × (refresh_keys c exchange clock (suc i) next addrs ≡ (cache', ok tt))
        step (ok next) e found = (next, e, found)
        step (err x) e found = cc
        step panic e found = cc

    refresh_keys-keeps :
        (i : ℕ) (cache cache' : KeyCache c.PublicKey) (addrs : List Bytes) (b : Bytes)
        → IsHonest cache
        → Knows cache b
        → refresh_keys c exchange clock i cache addrs ≡ (cache', ok tt)
        → IsHonest cache' × Knows cache' b
    unfolding refresh_keys
    refresh_keys-keeps i cache cache' [] b honest known h =
        subst (λ m. IsHonest m × Knows m b) (cc (h)) (honest, known)
    refresh_keys-keeps i cache cache' (a ∷ addrs) b honest known h =
        let (next, e, later) = refresh_keys_step i cache cache' a addrs h in
        let (honest', _, keeps) = refresh_key-Knows i cache next a honest e in
        refresh_keys-keeps (suc i) next cache' addrs b honest' (keeps b known) later

    -- When the loop over the nodes returns no error, each of them has its own key in the cache,
    -- if the cache held no wrong key before and the directory server answers no request with a
    -- wrong key.
    pub refresh_keys-Knows :
        (i : ℕ) (cache cache' : KeyCache c.PublicKey) (addrs : List Bytes)
        → IsHonest cache
        → refresh_keys c exchange clock i cache addrs ≡ (cache', ok tt)
        → All (Knows cache') addrs
    refresh_keys-Knows i cache cache' [] honest h = tt
    refresh_keys-Knows i cache cache' (a ∷ addrs) honest h =
        let (next, e, later) = refresh_keys_step i cache cache' a addrs h in
        let (honest', known, _) = refresh_key-Knows i cache next a honest e in
        let (_, kept) = refresh_keys-keeps (suc i) next cache' addrs a honest' known later in
        (kept, refresh_keys-Knows (suc i) next cache' addrs honest' later)
