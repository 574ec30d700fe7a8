-- ===== src/Cache/Eviction.antt =====
-- The size bound of internal/docker/response_cache.go, and what evictOldest removes.
use docker_net_doctor.Prelude.{
  ℕ, suc, ◌+◌, ◌≤◌, ◌<◌, ◌≡◌, refl, sym, subst, ◌≢◌, ◌⊎◌, inl, inr, Bool, true, false, ◌||◌, [],
  ◌∷◌, arith, ltb, length, All, Bool-cases,
}
use docker_net_doctor.Prelude.Int.{ℤ, pos, ◌≤ℤ◌, ◌<ℤ◌, leb_ℤ}
use docker_net_doctor.Prelude.Dict.{
  insert, delete, has_key, length-insert-le, length-delete-lt, Unique, Unique-insert, Unique-delete,
}
use docker_net_doctor.Prelude.Text.{Text, text_eq, text_eq_iff, Text-eq}
use docker_net_doctor.Cache.{
  Api, Payload, CacheEntry, Entries, ResponseCache, scan_oldest, evict_oldest, set,
}

module _ (api : Api) where
  abbrev pub Named : Entries api → Type 0
  Named m = All (λ t. t.0 ≢ []) m

  -- An entry of key `k` with time `t` is among the entries.
  abbrev pub Holds : Text → ℕ → Entries api → Type 0
  Holds k t [] = ⊥
  Holds k t ((j, e) ∷ m) = ((j ≡ k) × (e.timestamp ≡ t)) ⊎ Holds k t m

  abbrev pub NoOlder : ℕ → Entries api → Type 0
  NoOlder t m = All (λ u. t ≤ u.1.timestamp) m

  older : Text → ℕ → ℕ → Bool
  older key time t = text_eq key [] || ltb t time

  older_cases :
      (key : Text) (time t : ℕ)
      → key ≢ []
      → ((older key time t ≡ true) × (t < time)) ⊎ ((older key time t ≡ false) × (time ≤ t))
  unfolding older
  older_cases key time t h = ground (arith, text_eq_iff key [])

  NoOlder-mono : (s t : ℕ) (m : Entries api) → s ≤ t → NoOlder t m → NoOlder s m
  NoOlder-mono s t [] h n = tt
  NoOlder-mono s t (u ∷ m) h n = (omega arith, NoOlder-mono s t m h n.1)

  -- The scan names an entry that is no newer than any other: the one it started with, or one of the
  -- list.
  Oldest : Entries api → Text → ℕ → Text → ℕ → Type 0
  Oldest m key time x t =
      (x ≢ []) × (t ≤ time) × NoOlder t m × (((x ≡ key) × (t ≡ time)) ⊎ Holds x t m)

  Oldest-newer :
      (m : Entries api) (k key x : Text) (e : CacheEntry api) (time t : ℕ)
      → e.timestamp < time
      → Oldest m k e.timestamp x t
      → Oldest ((k, e) ∷ m) key time x t
  unfolding Oldest
  Oldest-newer m k key x e time t lt (ne, le, all', inl (p, q)) =
      (ne, omega arith, (le, all'), inr (inl (sym p, sym q)))
  Oldest-newer m k key x e time t lt (ne, le, all', inr f) =
      (ne, omega arith, (le, all'), inr (inr f))

  Oldest-older :
      (m : Entries api) (k key x : Text) (e : CacheEntry api) (time t : ℕ)
      → time ≤ e.timestamp
      → Oldest m key time x t
      → Oldest ((k, e) ∷ m) key time x t
  unfolding Oldest
  Oldest-older m k key x e time t ge (ne, le, all', inl p) = (ne, le, (omega arith, all'), inl p)
  Oldest-older m k key x e time t ge (ne, le, all', inr f) =
      (ne, le, (omega arith, all'), inr (inr f))

  scan_oldest_lem :
      (m : Entries api) (key : Text) (time : ℕ)
      → Named m
      → key ≢ []
      → (x : Text) × (t : ℕ) × (scan_oldest api m key time ≡ x) × Oldest m key time x t
  unfolding scan_oldest older Oldest
  scan_oldest_lem [] key time named h = (key, time, refl, (h, omega arith, tt, inl (refl, refl)))
  scan_oldest_lem ((k, e) ∷ rest) key time (n, named) h =
      elim (older_cases key time e.timestamp h) [
        | inl (o, lt) ↦
            let (x, t, same, oldest) = scan_oldest_lem rest k e.timestamp named n in
            (x, t, rw o same, Oldest-newer rest k key x e time t lt oldest)
        | inr (o, ge) ↦
            let (x, t, same, oldest) = scan_oldest_lem rest key time named h in
            (x, t, rw o same, Oldest-older rest k key x e time t ge oldest)
      ]

  Holds-has_key : (k : Text) (t : ℕ) (m : Entries api) → Holds k t m → has_key k m ≡ true
  unfolding has_key
  Holds-has_key k t [] h = absurd h
  Holds-has_key k t ((j, e) ∷ m) h = ground (arith, text_eq_iff j k, Holds-has_key k t m)

  Scanned : Entries api → Type 0
  Scanned m =
      (k : Text) × (t : ℕ) × (scan_oldest api m [] 0 ≡ k) × (k ≢ []) × Holds k t m × NoOlder t m

  scan_first : (u : Text × CacheEntry api) (m : Entries api) → Named (u ∷ m) → Scanned (u ∷ m)
  unfolding Scanned scan_oldest text_eq Oldest
  scan_first (j, e) m (n, named) =
      let (k, t, same, (ne, le, all', found)) = scan_oldest_lem m j e.timestamp named n in
      (k, t, same, ne, found_in k t found, (le, all'))
    where
      found_in :
          (k : Text) (t : ℕ) → ((k ≡ j) × (t ≡ e.timestamp)) ⊎ Holds k t m → Holds k t ((j, e) ∷ m)
      found_in k t (inl (p, q)) = inl (sym p, sym q)
      found_in k t (inr f) = inr f

  -- When every entry has a key that is not empty, evictOldest removes from entries that are not empty
  -- the key of an entry than which no other is older, counts the eviction, and keeps all else.
  evict_oldest_lem :
      (c : ResponseCache api) (u : Text × CacheEntry api) (m : Entries api)
      → c.entries ≡ u ∷ m
      → Named c.entries
      → (k : Text) × (t : ℕ) × Holds k t c.entries
        × NoOlder t c.entries
        × (evict_oldest api c
            ≡ record c { entries = delete k c.entries; evictions = c.evictions + 1 })
  unfolding evict_oldest Scanned
  evict_oldest_lem c u m same named =
      let (k, t, found, ne, holds, first) =
        subst Scanned (sym same) (scan_first u m (subst Named same named)) in
      (k, t, holds, first, ground (arith, found, ne, text_eq_iff k []))

  -- The cache within its bound, every key named and none twice.
  pub record Inv (c : ResponseCache api) : Type 0 where
    pub named : Named c.entries
    pub unique : Unique c.entries
    pub bounded : pos (length c.entries) ≤ℤ c.max_entries
    pub room : pos 0 <ℤ c.max_entries

  pub Named-delete : (k : Text) (m : Entries api) → Named m → Named (delete k m)
  unfolding delete
  Named-delete k [] n = tt
  Named-delete k ((j, e) ∷ m) n = ground (arith, Named-delete k m n.1)

  Named-insert :
      (k : Text) (e : CacheEntry api) (m : Entries api) → k ≢ [] → Named m → Named (insert k e m)
  unfolding insert
  Named-insert k e [] h n = (h, tt)
  Named-insert k e ((j, w) ∷ m) h n = ground (arith, Named-insert k e m h n.1)

  -- What an eviction from a full cache leaves.
  evicted :
      (c : ResponseCache api) (m : Entries api)
      → c.entries ≡ m
      → Inv c
      → leb_ℤ c.max_entries (pos (length c.entries)) ≡ true
      → let t = evict_oldest api c in
        Named t.entries × Unique t.entries × (pos (suc (length t.entries)) ≤ℤ t.max_entries)
  evicted c [] same v full = absurd (ground (arith, v.room))
  evicted c (u ∷ m) same v full =
      let (k, t, holds, _, out) = evict_oldest_lem c u m same v.named in
      ground (
        arith,
        out,
        Named-delete k c.entries v.named,
        Unique-delete k c.entries v.unique,
        length-delete-lt k c.entries (Holds-has_key k t c.entries holds),
        v.bounded,
      )

  insert-Inv :
      (t : ResponseCache api) (key : Text) (e : CacheEntry api)
      → key ≢ []
      → Named t.entries
      → Unique t.entries
      → pos (suc (length t.entries)) ≤ℤ t.max_entries
      → Inv (record t { entries = insert key e t.entries })
  insert-Inv t key e h n u le = record {
    named = Named-insert key e t.entries h n;
    unique = Unique-insert key e t.entries u;
    bounded = omega (arith, length-insert-le key e t.entries);
    room = omega arith;
  }

  -- Storing under a key that is not empty keeps a cache with room for an entry within its bound.
  pub set-Inv :
      (key : Text) (value : Payload api) (ttl : ℤ) (now : ℕ) (c : ResponseCache api)
      → key ≢ []
      → Inv c
      → Inv (set api key value ttl now c)
  unfolding set
  set-Inv key value ttl now c named v =
      elim (Bool-cases (leb_ℤ c.max_entries (pos (length c.entries)))) [
        | inl full ↦
            let (n, u, le) = evicted c c.entries refl v full in
            rw full (insert-Inv (evict_oldest api c) key _ named n u le)
        | inr free ↦ rw free (insert-Inv c key _ named v.named v.unique (ground arith))
      ]

  lone_empty_key :
      (c : ResponseCache api) (e : CacheEntry api)
      → c.entries ≡ ([], e) ∷ []
      → evict_oldest api c ≡ c
  unfolding evict_oldest scan_oldest text_eq
  lone_empty_key c e same = ground arith

  -- The empty key escapes the bound: evictOldest leaves a cache alone whose only key is empty, and a
  -- set under any other key then makes two entries, also where the maximum is one.
  empty_key_overflows :
      (key : Text) (value : Payload api) (ttl : ℤ) (now : ℕ) (c : ResponseCache api)
      (e : CacheEntry api)
      → key ≢ []
      → c.entries ≡ ([], e) ∷ []
      → c.max_entries ≡ pos 1
      → length (set api key value ttl now c).entries ≡ 2
  unfolding set insert
  empty_key_overflows key value ttl now c e h same max =
      ground (arith, lone_empty_key c e same, text_eq_iff [] key)
