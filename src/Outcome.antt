-- ===== src/Outcome.antt =====
-- What a Go function that returns an error leaves behind: a value or an error with the state that
-- it has changed, or a run-time panic.
use zssz.Prelude.{Bool, true, false, Option, none, some}

-- One constructor for each message. `out_of_fuel` is no Go error: a modelled loop stopped early.
pub data Error : Type 0 where
  eof out_of_fuel short_write negative_position : Error
  scope_too_big beyond_scope : Error
  length_below_minimum read_count_mismatch : Error
  invalid_bool over_limit incompatible_length zero_length_elements : Error
  bitlist_empty bitlist_too_long bitlist_trailing_zero bitlist_too_many_bits : Error
  bitvector_wrong_length bitvector_empty_last bitvector_unused_bits : Error
  offset_mismatch offset_invalid unfinished_scope element_count_mismatch : Error
  nonzero_start bad_first_offset minimum_too_big index_mismatch : Error
  fixed_part_mismatch underestimated_fuzz nil_pointer : Error

pub data Outcome {ℓ κ} (S : Type ℓ) (A : Type κ) : Type (ℓ ⊔ κ) where
  ok : A → S → Outcome S A
  err : Error → S → Outcome S A
  panic : Outcome S A

infixl 5 ◌>>=◌ ◌>>◌
abbrev pub ◌>>=◌ {ℓ κ μ} :
    {S : Type ℓ} {A : Type κ} {B : Type μ}
    → (S → Outcome S A)
    → (A → S → Outcome S B)
    → S
    → Outcome S B
◌>>=◌ m f s = elim (m s) [ ok a s' ↦ f a s' | err e s' ↦ err e s' | panic ↦ panic ]

abbrev pub ◌>>◌ {ℓ κ μ} :
    {S : Type ℓ} {A : Type κ} {B : Type μ} → (S → Outcome S A) → (S → Outcome S B) → S → Outcome S B
◌>>◌ m k = m >>= λ _. k

abbrev pub pure {ℓ κ} : {S : Type ℓ} {A : Type κ} → A → S → Outcome S A
pure a s = ok a s

abbrev pub throw {ℓ κ} : {S : Type ℓ} {A : Type κ} → Error → S → Outcome S A
throw e s = err e s

-- `if test { return err }`.
abbrev pub fail_if {ℓ} : {S : Type ℓ} → Bool → Error → S → Outcome S (Unit {0})
fail_if true e s = err e s
fail_if false e s = ok tt s

-- `return err` of a check, where `none` is a nil error.
abbrev pub return_error {ℓ} : {S : Type ℓ} → Option Error → S → Outcome S (Unit {0})
return_error none s = ok tt s
return_error (some e) s = err e s

-- An outcome of which only the state is kept.
abbrev pub forget {ℓ κ} : {S : Type ℓ} {A : Type κ} → Outcome S A → Outcome S (Unit {0})
forget (ok a s) = ok tt s
forget (err e s) = err e s
forget panic = panic
