-- ===== src/Types/BasicSeries/Memory.antt =====
-- What the memory of a series of basic elements holds, by the byte order of the machine.
use mathlib.Core.List.{reverse, reverse_aux, reverse-reverse}
use zssz.Prelude.{
  ℕ, ◌+◌, ◌^◌, ◌≤◌, ◌<◌, ◌≡◌, refl, sym, ap, ap₂, ◌∙◌, Bool, true, false, List, [], ◌∷◌, ◌++◌,
  length, All, take, drop, le_bytes, length-le_bytes, of_le_bytes, of_le_bytes-le_bytes,
  take-length-append, drop-length-append, arith, ==→eq, ◌⊎◌, inl, inr, ◌%◌,
}
use zssz.Types.Basic.{
  Kind, bool, uint8, uint16, uint32, uint64, get_basic_ssz_elem_type, ssz_bool, ssz_uint8,
  ssz_uint16, ssz_uint32, ssz_uint64, ssz_uint,
}
use zssz.Types.Basic.Codec.{kind_width, kind_limit, kind_format}
use zssz.Types.FixedSeries.Codec.{serialize_all}
use zssz.Types.BasicSeries.{number_bytes, number_of, memory_of, numbers_in, is_plain}

pub fixed_len_eq : (k : Kind) → (get_basic_ssz_elem_type k).fixed_len ≡ kind_width k
unfolding get_basic_ssz_elem_type ssz_bool ssz_uint8 ssz_uint16 ssz_uint32 ssz_uint64 ssz_uint
fixed_len_eq bool = refl
fixed_len_eq uint8 = refl
fixed_len_eq uint16 = refl
fixed_len_eq uint32 = refl
fixed_len_eq uint64 = refl

pub is_fixed_eq : (k : Kind) → (get_basic_ssz_elem_type k).is_fixed ≡ true
unfolding get_basic_ssz_elem_type ssz_bool ssz_uint8 ssz_uint16 ssz_uint32 ssz_uint64 ssz_uint
is_fixed_eq bool = refl
is_fixed_eq uint8 = refl
is_fixed_eq uint16 = refl
is_fixed_eq uint32 = refl
is_fixed_eq uint64 = refl

pub kind_width-pos : (k : Kind) → 0 < kind_width k
kind_width-pos bool = omega arith
kind_width-pos uint8 = omega arith
kind_width-pos uint16 = omega arith
kind_width-pos uint32 = omega arith
kind_width-pos uint64 = omega arith

kind_limit-le : (k : Kind) → kind_limit k ≤ 256 ^ kind_width k
kind_limit-le bool = omega arith
kind_limit-le uint8 = omega arith
kind_limit-le uint16 = omega arith
kind_limit-le uint32 = omega arith
kind_limit-le uint64 = omega arith

pub memory_of-little :
    (k : Kind) (xs : List ℕ) → memory_of true (kind_width k) xs ≡ serialize_all (kind_format k) xs
unfolding memory_of number_bytes
memory_of-little k [] = refl
memory_of-little k (x ∷ xs) = ap (le_bytes (kind_width k) x ++◌) (memory_of-little k xs)

-- One byte is the same in either order.
pub one_byte : (little : Bool) (xs : List ℕ) → memory_of little 1 xs ≡ memory_of true 1 xs
unfolding memory_of number_bytes le_bytes
one_byte true xs = refl
one_byte false [] = refl
one_byte false (x ∷ xs) = ap (x % 256 ∷◌) (one_byte false xs)

plain_kind :
    (little : Bool) (k : Kind) → is_plain little k ≡ true → (little ≡ true) ⊎ (kind_width k ≡ 1)
unfolding is_plain
plain_kind true k e = inl refl
plain_kind false k e = inr (sym (fixed_len_eq k) ∙ ==→eq _ _ e)

-- Where the memory is written as it is, it holds the numbers' little-endian bytes.
pub memory_of-plain :
    (little : Bool) (k : Kind) (xs : List ℕ)
    → is_plain little k ≡ true
    → memory_of little (kind_width k) xs ≡ serialize_all (kind_format k) xs
memory_of-plain little k xs e = elim (plain_kind little k e) [
  | inl h ↦ ap (λ (b : Bool). memory_of b (kind_width k) xs) h ∙ memory_of-little k xs
  | inr h ↦
      ap (λ (w : ℕ). memory_of little w xs) h
      ∙ one_byte little xs
      ∙ ap (λ (w : ℕ). memory_of true w xs) (sym h)
      ∙ memory_of-little k xs
]

length-reverse_aux : (xs ys : List ℕ) → length (reverse_aux xs ys) ≡ length xs + length ys
length-reverse_aux [] ys = omega arith
length-reverse_aux (x ∷ xs) ys = length-reverse_aux xs (x ∷ ys) ∙ omega arith

length-reverse : (xs : List ℕ) → length (reverse xs) ≡ length xs
length-reverse xs = length-reverse_aux xs [] ∙ omega arith

pub length-number_bytes : (little : Bool) (w x : ℕ) → length (number_bytes little w x) ≡ w
unfolding number_bytes
length-number_bytes true w x = length-le_bytes w x
length-number_bytes false w x = length-reverse (le_bytes w x) ∙ length-le_bytes w x

number_of-number_bytes :
    (little : Bool) (w x : ℕ) → x < 256 ^ w → number_of little (number_bytes little w x) ≡ x
unfolding number_of number_bytes
number_of-number_bytes true w x h = of_le_bytes-le_bytes w x h
number_of-number_bytes false w x h = ap of_le_bytes (reverse-reverse _) ∙ of_le_bytes-le_bytes w x h

-- The numbers are got back from the memory.
numbers_in-memory_of :
    (little : Bool) (w : ℕ) (xs : List ℕ)
    → All (λ x. x < 256 ^ w) xs
    → numbers_in little w (length xs) (memory_of little w xs) ≡ xs
unfolding numbers_in memory_of
numbers_in-memory_of little w [] v = refl
numbers_in-memory_of little w (x ∷ xs) v =
    let front = number_bytes little w x in
    let rest = memory_of little w xs in
    let w_eq = length-number_bytes little w x in
    let taken : take w (front ++ rest) ≡ front =
      ap (λ (n : ℕ). take n (front ++ rest)) (sym w_eq) ∙ take-length-append front rest in
    let dropped : drop w (front ++ rest) ≡ rest =
      ap (λ (n : ℕ). drop n (front ++ rest)) (sym w_eq) ∙ drop-length-append front rest in
    ap₂ (λ (y : ℕ) (ys : List ℕ). y ∷ ys)
      (ap (number_of little) taken ∙ number_of-number_bytes little w x v.0)
      (ap (numbers_in little w (length xs)) dropped ∙ numbers_in-memory_of little w xs v.1)

in_range :
    (k : Kind) (xs : List ℕ) → All (λ x. x < kind_limit k) xs → All (λ x. x < 256 ^ kind_width k) xs
in_range k [] v = tt
in_range k (x ∷ xs) v = (omega (arith, v.0, kind_limit-le k), in_range k xs v.1)

pub numbers_in-plain :
    (little : Bool) (k : Kind) (xs : List ℕ)
    → is_plain little k ≡ true
    → All (λ x. x < kind_limit k) xs
    → numbers_in little (kind_width k) (length xs) (serialize_all (kind_format k) xs) ≡ xs
numbers_in-plain little k xs e v =
    ap (numbers_in little (kind_width k) (length xs)) (sym (memory_of-plain little k xs e))
    ∙ numbers_in-memory_of little (kind_width k) xs (in_range k xs v)
