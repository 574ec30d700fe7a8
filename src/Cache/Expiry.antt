-- ===== src/Cache/Expiry.antt =====
-- cleanupExpired of internal/docker/response_cache.go against the getters.
use docker_net_doctor.Prelude.{
  ℕ, ◌≤◌, ◌≡◌, refl, ◌∙◌, inl, inr, Bool, true, false, ◌||◌, Option, none, some, List, [], ◌∷◌,
  arith, if◌then◌else◌, Bool-cases, Option-cases,
}
use docker_net_doctor.Prelude.Clock.{time_sub}
use docker_net_doctor.Prelude.Dict.{lookup, delete, lookup-delete, Unique}
use docker_net_doctor.Prelude.Text.{Text, text_eq, text_eq_iff, Text-eq}
use docker_net_doctor.Cache.{
  Api, Payload, CacheEntry, Entries, ResponseCache, is_expired, get, keys_to_delete, delete_all,
  cleanup_expired,
}

module _ (api : Api) where
  among : Text → List Text → Bool
  among j [] = false
  among j (k ∷ ks) = text_eq k j || among j ks

  lookup-delete_all :
      (j : Text) (ks : List Text) (m : Entries api)
      → lookup j (delete_all api ks m) ≡ (if among j ks then none else lookup j m)
  unfolding delete_all among
  lookup-delete_all j [] m = refl
  lookup-delete_all j (k ∷ ks) m =
      ground (arith, lookup-delete_all j ks (delete k m), lookup-delete k j m)

  abbrev pub live : ℕ → Option (CacheEntry api) → Option (CacheEntry api)
  live now none = none
  live now (some e) = if is_expired api now e then none else some e

  among-absent :
      (j : Text) (now : ℕ) (m : Entries api)
      → lookup j m ≡ none
      → among j (keys_to_delete api now m) ≡ false
  unfolding keys_to_delete among lookup
  among-absent j now [] h = refl
  among-absent j now ((k, e) ∷ m) h = ground (arith, among-absent j now m)

  lookup-keys_to_delete :
      (j : Text) (now : ℕ) (m : Entries api)
      → Unique m
      → (if among j (keys_to_delete api now m) then none else lookup j m) ≡ live now (lookup j m)
  unfolding keys_to_delete among lookup
  lookup-keys_to_delete j now [] u = refl
  lookup-keys_to_delete j now ((k, e) ∷ m) (n, u) = elim (Bool-cases (text_eq k j)) [
    | inl same ↦
        let same' : k ≡ j = (text_eq_iff k j).0 same in
        ground (arith, among-absent j now m (rw (← same') n))
    | inr differ ↦ ground (arith, lookup-keys_to_delete j now m u)
  ]

  -- cleanupExpired removes exactly the entries whose time to live has passed.
  pub lookup-cleanup_expired :
      (j : Text) (now : ℕ) (c : ResponseCache api)
      → Unique c.entries
      → lookup j (cleanup_expired api now c).entries ≡ live now (lookup j c.entries)
  unfolding cleanup_expired
  lookup-cleanup_expired j now c u =
      lookup-delete_all j (keys_to_delete api now c.entries) c.entries
      ∙ lookup-keys_to_delete j now c.entries u

  is_expired_mono :
      (now later : ℕ) (e : CacheEntry api)
      → now ≤ later
      → is_expired api now e ≡ true
      → is_expired api later e ≡ true
  unfolding is_expired time_sub
  is_expired_mono now later e h x = ground arith

  get-live :
      {A : Type 0} (assert : Payload api → Option A) (j : Text) (now later : ℕ)
      (c d : ResponseCache api)
      → now ≤ later
      → lookup j d.entries ≡ live now (lookup j c.entries)
      → (get api assert j later d).1 ≡ (get api assert j later c).1
  unfolding get
  get-live assert j now later c d h same = elim (Option-cases (lookup j c.entries)) [
    | inl e ↦ ground arith
    | inr (x, e) ↦ ground (arith, is_expired_mono now later x h)
  ]

  -- A cleanup changes what no getter returns, at its own time or later.
  get-cleanup_expired :
      {A : Type 0} (assert : Payload api → Option A) (j : Text) (now later : ℕ)
      (c : ResponseCache api)
      → Unique c.entries
      → now ≤ later
      → (get api assert j later (cleanup_expired api now c)).1 ≡ (get api assert j later c).1
  get-cleanup_expired assert j now later c u h =
      get-live assert j now later c (cleanup_expired api now c) h (lookup-cleanup_expired j now c u)
