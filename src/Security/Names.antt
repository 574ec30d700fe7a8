-- ===== src/Security/Names.antt =====
-- The two validations of a check name in internal/diagnostics/security_validator.go.
use docker_net_doctor.Prelude.{
  ◌≤◌, ◌≡◌, refl, ◌∙◌, ◌↔◌, ◌≢◌, Bool, true, not, none, List, [], ◌∷◌, arith, length, all,
}
use docker_net_doctor.Prelude.Text.{Text, text_eq_iff, has_prefix, contains_text}
use docker_net_doctor.Security.{
  valid_char, first_contained, dangerous_patterns, validate_check_name, validate_check_name_string,
}

abbrev pub all_valid : Text → Bool
all_valid s = all valid_char s

all_valid-has_prefix :
    (s p : Text) → all_valid s ≡ true → has_prefix s p ≡ true → all_valid p ≡ true
unfolding has_prefix
all_valid-has_prefix s [] v h = refl
all_valid-has_prefix [] (b ∷ p) v h = absurd (ground arith)
all_valid-has_prefix (a ∷ s) (b ∷ p) v h =
    let same : a ≡ b = ground arith in
    let rest : all_valid p ≡ true = ground (arith, all_valid-has_prefix s p) in
    let first : valid_char a ≡ true = ground arith in rw (← same, first, rest) refl

all_valid-contains_text :
    (s p : Text) → all_valid s ≡ true → contains_text s p ≡ true → all_valid p ≡ true
unfolding contains_text
all_valid-contains_text [] p v h = all_valid-has_prefix [] p v h
all_valid-contains_text (a ∷ s) p v h =
    ground (arith, all_valid-has_prefix (a ∷ s) p, all_valid-contains_text s p)

-- A name of valid characters contains no pattern that has another character.
first_contained-none :
    (s : Text) (ps : List Text)
    → all_valid s ≡ true
    → all (λ p. not (all_valid p)) ps ≡ true
    → first_contained s ps ≡ none
unfolding first_contained
first_contained-none s [] v a = refl
first_contained-none s (p ∷ ps) v a =
    ground (arith, all_valid-contains_text s p, first_contained-none s ps v)

patterns-invalid : all (λ p. not (all_valid p)) dangerous_patterns ≡ true
unfolding valid_char
patterns-invalid = refl

-- The scan for dangerous patterns in validateCheckName never finds one: on every name it gives what
-- validateCheckNameString gives, which has no such scan.
validate_check_name-string :
    (name : Text) → validate_check_name name ≡ validate_check_name_string name
unfolding validate_check_name validate_check_name_string
validate_check_name-string name = ground (
  arith,
  λ (v : all_valid name ≡ true). first_contained-none name dangerous_patterns v patterns-invalid,
)

-- What a check name has to be, as a condition on its bytes.
pub record IsWellFormed (name : Text) : Type 0 where
  pub nonempty : name ≢ []
  pub short : length name ≤ 100
  pub plain : all_valid name ≡ true

-- A name passes exactly when it has 1 to 100 bytes, each a letter, a digit, `_` or `-`.
pub validate_check_name_iff : (name : Text) → (validate_check_name name ≡ none) ↔ IsWellFormed name
unfolding validate_check_name_string
validate_check_name_iff name =
    let same = validate_check_name-string name in
    let empty = text_eq_iff name [] in
    (
      λ h. record {
        nonempty = λ e. ground (arith, same, empty, e);
        short = ground (arith, same);
        plain = ground (arith, same);
      },
      λ w. same ∙ ground (arith, empty, w.nonempty, w.short, w.plain),
    )
