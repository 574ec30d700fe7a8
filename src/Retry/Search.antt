-- ===== src/Retry/Search.antt =====
-- The substring search of internal/docker/retry_policy.go against the definition of a substring.
use docker_net_doctor.Prelude.{
  ℕ, zero, suc, ◌+◌, ◌-◌, ◌≤◌, ◌<◌, ◌≡◌, refl, sym, ap, ◌∙◌, ◌↔◌, inl, inr, true, [], ◌∷◌, ◌++◌,
  arith, length, take, drop, take-append-drop, length-append, Bool-cases,
}
use mathlib.Core.List.{append-nil}
use native.Mathlib.Nat.{zero-add}
use docker_net_doctor.Prelude.Text.{Text, text_eq, text_eq_iff}
use docker_net_doctor.Retry.{slice, find_from, find_substring, contains}

abbrev pub IsSubstring : Text → Text → Type 0
IsSubstring sub s = (pre : Text) × (post : Text) × (s ≡ pre ++ (sub ++ post))

slice-IsSubstring : (i n : ℕ) (s sub : Text) → text_eq (slice i n s) sub ≡ true → IsSubstring sub s
slice-IsSubstring i n s sub h = (
  take i s,
  drop n (drop i s),
  sym (
      ap (◌++◌ (take i s)) (
        ap (λ t. t ++ drop n (drop i s)) (sym ((text_eq_iff (slice i n s) sub).0 h))
        ∙ take-append-drop n (drop i s))
      ∙ take-append-drop i s),
)

drop-append : (pre rest : Text) → drop (length pre) (pre ++ rest) ≡ rest
drop-append [] rest = refl
drop-append (x ∷ pre) rest = drop-append pre rest

take-append : (sub post : Text) → take (length sub) (sub ++ post) ≡ sub
take-append [] post = refl
take-append (x ∷ sub) post = ap (◌∷◌ x) (take-append sub post)

slice_there :
    (pre sub post : Text)
    → text_eq (slice (length pre) (length sub) (pre ++ (sub ++ post))) sub ≡ true
slice_there pre sub post =
    rw (drop-append pre (sub ++ post), take-append sub post) ((text_eq_iff sub sub).1 refl)

find_from_sound :
    (rounds i : ℕ) (s sub : Text) → find_from rounds i s sub ≡ true → IsSubstring sub s
unfolding find_from
find_from_sound zero i s sub h = cc
find_from_sound (suc rounds) i s sub h = elim (Bool-cases (text_eq (slice i (length sub) s) sub)) [
  | inl e ↦ slice-IsSubstring i (length sub) s sub e
  | inr e ↦ find_from_sound rounds (i + 1) s sub (rw e at h)
]

find_from_complete :
    (rounds i k : ℕ) (s sub : Text)
    → k < rounds
    → text_eq (slice (i + k) (length sub) s) sub ≡ true
    → find_from rounds i s sub ≡ true
unfolding find_from
find_from_complete zero i k s sub h e = elim h [ ]
find_from_complete (suc rounds) i zero s sub h e =
    let here : i + 0 ≡ i = omega arith in rw (subst_index here e)
  where
    subst_index :
        i + 0 ≡ i
        → text_eq (slice (i + 0) (length sub) s) sub ≡ true
        → text_eq (slice i (length sub) s) sub ≡ true
    subst_index p q = rw p at q
find_from_complete (suc rounds) i (suc k) s sub h e =
    ground (arith, find_from_complete rounds (i + 1) k s sub (omega arith) (rw shift at e))
  where
    shift : i + suc k ≡ i + 1 + k
    shift = omega arith

find_substring_complete : (pre sub post : Text) → find_substring (pre ++ (sub ++ post)) sub ≡ true
unfolding find_substring
find_substring_complete pre sub post =
    find_from_complete (length (pre ++ (sub ++ post)) + 1 - length sub) 0 (length pre)
      (pre ++ (sub ++ post)) sub
      (omega (arith, length-append pre (sub ++ post), length-append sub post))
      (rw zero-add (slice_there pre sub post))

contains_sound : (s sub : Text) → contains s sub ≡ true → IsSubstring sub s
unfolding contains find_substring
contains_sound s sub h = elim (Bool-cases (text_eq s sub)) [
  | inl e ↦ ([], [], (text_eq_iff s sub).0 e ∙ sym (append-nil sub))
  | inr n ↦ elim (Bool-cases (text_eq (slice 0 (length sub) s) sub)) [
    | inl e ↦ slice-IsSubstring 0 (length sub) s sub e
    | inr n' ↦ elim (Bool-cases (text_eq (slice (length s - length sub) (length sub) s) sub)) [
      | inl e ↦ slice-IsSubstring (length s - length sub) (length sub) s sub e
      | inr n'' ↦ find_from_sound (length s + 1 - length sub) 0 s sub (ground arith)
    ]
  ]
]

same_length :
    (pre sub post : Text) → length (pre ++ (sub ++ post)) ≡ length sub → pre ++ (sub ++ post) ≡ sub
same_length [] sub [] h = append-nil sub
same_length [] sub (x ∷ post) h = absurd (omega (arith, length-append sub (x ∷ post)))
same_length (x ∷ pre) sub post h =
    absurd (omega (arith, length-append pre (sub ++ post), length-append sub post))

found_by :
    (s sub : Text)
    → length sub ≤ length s
    → find_substring s sub ≡ true
    → (length s ≡ length sub → s ≡ sub)
    → contains s sub ≡ true
unfolding contains
found_by s sub le found whole = ground (arith, text_eq_iff s sub)

-- `contains` holds of exactly the texts in which the second one stands, byte for byte, somewhere.
contains_iff : (s sub : Text) → (contains s sub ≡ true) ↔ IsSubstring sub s
contains_iff s sub = (contains_sound s sub, λ t. rw t.2 (found t.0 t.1))
  where
    found : (pre post : Text) → contains (pre ++ (sub ++ post)) sub ≡ true
    found pre post =
        found_by (pre ++ (sub ++ post)) sub
          (omega (arith, length-append pre (sub ++ post), length-append sub post))
          (find_substring_complete pre sub post) (same_length pre sub post)
