-- ===== src/Cache/Lookups.antt =====
-- What the getters of internal/docker/response_cache.go return after a setter.
use docker_net_doctor.Prelude.{
  ℕ, ◌+◌, ◌≡◌, ◌∙◌, ◌≢◌, true, Option, none, some, arith, length, if◌then◌else◌,
}
use docker_net_doctor.Prelude.Int.{ℤ, pos, ◌<ℤ◌, leb_ℤ, ltb_ℤ, eqb_ℤ}
use docker_net_doctor.Prelude.Clock.{time_sub}
use docker_net_doctor.Prelude.Dict.{lookup, lookup-insert, lookup-insert_self}
use docker_net_doctor.Prelude.Text.{Text, text_eq_iff, Text-eq}
use docker_net_doctor.Cache.{
  Api, Payload, ResponseCache, is_expired, get, evict_oldest, set, store_computed, get_or_compute,
}

module _ (api : Api) where
  abbrev pub effective_ttl : ResponseCache api → ℤ → ℤ
  effective_ttl c ttl = if eqb_ℤ ttl (pos 0) then c.default_ttl else ttl

  -- The answer of a getter from a payload that has not expired.
  abbrev pub answer : {A : Type 0} → ResponseCache api → Option A → ResponseCache api × Option A
  answer c none = (record c { misses = c.misses + 1 }, none)
  answer c (some a) = (record c { hits = c.hits + 1 }, some a)

  lookup-set :
      (key : Text) (value : Payload api) (ttl : ℤ) (now : ℕ) (c : ResponseCache api)
      → lookup key (set api key value ttl now c).entries
        ≡ some (record { payload = value; timestamp = now; ttl = effective_ttl c ttl })
  unfolding set evict_oldest
  lookup-set key value ttl now c = lookup-insert_self key _ _ ∙ ground arith

  -- After a set a getter of the same key answers with the value as long as its time to live, the
  -- default for 0, has not passed, and with nothing when it has or when the value is of another type;
  -- it counts one hit or one miss and changes nothing else.
  pub get-set :
      {A : Type 0} (assert : Payload api → Option A) (key : Text) (value : Payload api) (ttl : ℤ)
      (now later : ℕ) (c : ResponseCache api)
      → let t = set api key value ttl now c in
        get api assert key later t ≡ (
          if ltb_ℤ (effective_ttl c ttl) (time_sub later now)
          then answer t none
          else answer t (assert value))
  unfolding get is_expired
  get-set assert key value ttl now later c = ground (arith, lookup-set key value ttl now c)

  lookup-set_ne :
      (key j : Text) (value : Payload api) (ttl : ℤ) (now : ℕ) (c : ResponseCache api)
      → key ≢ j
      → pos (length c.entries) <ℤ c.max_entries
      → lookup j (set api key value ttl now c).entries ≡ lookup j c.entries
  unfolding set
  lookup-set_ne key j value ttl now c ne room =
      lookup-insert key j _ _ ∙ ground (arith, text_eq_iff key j)

  -- What a getter returns depends on the entry of its key alone.
  pub get-lookup :
      {A : Type 0} (assert : Payload api → Option A) (j : Text) (now : ℕ) (c d : ResponseCache api)
      → lookup j c.entries ≡ lookup j d.entries
      → (get api assert j now c).1 ≡ (get api assert j now d).1
  unfolding get
  get-lookup assert j now c d h = ground arith

  -- While there is room a set changes what a getter returns at no other key.
  pub get-set_ne :
      {A : Type 0} (assert : Payload api → Option A) (key j : Text) (value : Payload api) (ttl : ℤ)
      (now later : ℕ) (c : ResponseCache api)
      → key ≢ j
      → pos (length c.entries) <ℤ c.max_entries
      → (get api assert j later (set api key value ttl now c)).1 ≡ (get api assert j later c).1
  get-set_ne assert key j value ttl now later c ne room =
      get-lookup assert j later (set api key value ttl now c) c
        (lookup-set_ne key j value ttl now c ne room)

  -- Every getter counts exactly one hit, if it returns a value, or one miss, and leaves the entries.
  pub get_counts :
      {A : Type 0} (assert : Payload api → Option A) (key : Text) (now : ℕ) (c : ResponseCache api)
      → let (t, found) = get api assert key now c in
        (t.entries ≡ c.entries)
        × (t.hits + t.misses ≡ c.hits + c.misses + 1)
        × (t.hits ≡ (elim found [ none ↦ c.hits | some _ ↦ c.hits + 1 ]))
  unfolding get
  get_counts assert key now c = ground arith

  -- A value that GetOrCompute has computed is what it returns for the key until its time to live has
  -- passed, whatever the next computation would return: that one is not run.
  get_or_compute_twice :
      {Err : Type 0} (key : Text) (value value' : Payload api) (failed : Option Err) (ttl ttl' : ℤ)
      (now later again : ℕ) (meanwhile meanwhile' : ResponseCache api → ResponseCache api)
      (c : ResponseCache api)
      → (lookup key c.entries ≡ none)
      → leb_ℤ
          (time_sub again later)
          (effective_ttl (meanwhile (record c { misses = c.misses + 1 })) ttl)
        ≡ true
      → let t = (get_or_compute api {Err = Err} key none value ttl now later meanwhile c).0 in
        get_or_compute api key failed value' ttl' again again meanwhile' t
        ≡ (record t { hits = t.hits + 1 }, none, some value)
  unfolding get_or_compute store_computed
  get_or_compute_twice key value value' failed ttl ttl' now later again meanwhile meanwhile' c h
        live =
      ground
        (arith, lookup-set key value ttl later (meanwhile (record c { misses = c.misses + 1 })))
