-- ===== src/Types/Container/Lengths.antt =====
-- The lengths that the constructor of a container computes.
use zssz.Prelude.{
  ℕ, ◌+◌, ◌^◌, ◌≤◌, ◌<◌, ◌≡◌, true, false, some, List, [], ◌∷◌, arith, ◌==◌, if◌then◌else◌, u64,
}
use zssz.Ssz.{bytes_per_length_offset}
use zssz.Types.Container.{ContainerField, SszContainer, add_field, add_fields, new_ssz_container}
use zssz.Types.Container.Spec
use zssz.Types.Container.Fields.{LawfulField, specs_of, fields_of, fixed_total, min_total}

module _ {S : Type 0} where
  abbrev pub count_dynamic : List (LawfulField S) → ℕ
  count_dynamic ls = Spec.count_dynamic (specs_of ls)

  pub count_dynamic-static :
      (l : LawfulField S) (ls : List (LawfulField S))
      → l.field.is_fixed ≡ true
      → count_dynamic (l ∷ ls) ≡ count_dynamic ls
  count_dynamic-static l ls e = ground arith

  pub count_dynamic-own :
      (l : LawfulField S) (ls : List (LawfulField S))
      → l.field.is_fixed ≡ false
      → count_dynamic (l ∷ ls) ≡ 1 + count_dynamic ls
  count_dynamic-own l ls e = ground arith

  count_dynamic-le : (ls : List (LawfulField S)) → count_dynamic ls ≤ fixed_total ls
  count_dynamic-le [] = omega arith
  count_dynamic-le (l ∷ ls) = ground (arith, count_dynamic-le ls)

  add_field_lem :
      (f : ContainerField S) (res : SszContainer S)
      → ((add_field f res).fields ≡ res.fields)
        × ((add_field f res).fixed_len
            ≡ u64 (res.fixed_len + (if f.is_fixed then f.fixed_len else bytes_per_length_offset)))
        × ((add_field f res).min_len
            ≡ u64 (
                res.min_len
                + (if f.is_fixed then f.fixed_len else bytes_per_length_offset + f.min_len)))
        × ((add_field f res).offset_count
            ≡ (if f.is_fixed then res.offset_count else u64 (res.offset_count + 1)))
  unfolding add_field
  add_field_lem f res = ground arith

  add_fields_lem :
      (ls : List (LawfulField S)) (res v : SszContainer S)
      → add_fields (fields_of ls) res ≡ some v
      → res.fixed_len + fixed_total ls < 2 ^ 64
      → res.min_len + min_total ls < 2 ^ 64
      → res.offset_count + count_dynamic ls < 2 ^ 64
      → (v.fields ≡ res.fields)
        × (v.fixed_len ≡ res.fixed_len + fixed_total ls)
        × (v.min_len ≡ res.min_len + min_total ls)
        × (v.offset_count ≡ res.offset_count + count_dynamic ls)
  unfolding add_fields
  add_fields_lem [] res v e hf hm hc = ground arith
  add_fields_lem (l ∷ ls) res v e hf hm hc =
      ground (arith, add_field_lem l.field res, add_fields_lem ls (add_field l.field res) v)

  -- The sum over the fields.
  abbrev pub total : (ContainerField S → ℕ) → List (LawfulField S) → ℕ
  total len [] = 0
  total len (l ∷ ls) = len l.field + total len ls

  -- The most that a field takes, with its offset.
  abbrev pub most_of : ContainerField S → ℕ
  most_of f = if f.is_fixed then f.fixed_len else bytes_per_length_offset + f.max_len

  add_field-wraps :
      (f : ContainerField S) (res : SszContainer S)
      → ((add_field f res).max_len ≡ u64 (res.max_len + most_of f))
        × ((add_field f res).fuzz_min_len ≡ u64 (res.fuzz_min_len + f.fuzz_min_len))
        × ((add_field f res).fuzz_max_len ≡ u64 (res.fuzz_max_len + f.fuzz_max_len))
  unfolding add_field
  add_field-wraps f res = ground arith

  add_fields-wraps :
      (ls : List (LawfulField S)) (res v : SszContainer S)
      → add_fields (fields_of ls) res ≡ some v
      → res.max_len < 2 ^ 64
      → res.fuzz_min_len < 2 ^ 64
      → res.fuzz_max_len < 2 ^ 64
      → (v.max_len ≡ u64 (res.max_len + total most_of ls))
        × (v.fuzz_min_len ≡ u64 (res.fuzz_min_len + total (λ f. f.fuzz_min_len) ls))
        × (v.fuzz_max_len ≡ u64 (res.fuzz_max_len + total (λ f. f.fuzz_max_len) ls))
  unfolding add_fields
  add_fields-wraps [] res v e most least_fuzz most_fuzz = ground arith
  add_fields-wraps (l ∷ ls) res v e most least_fuzz most_fuzz =
      ground (arith, add_field-wraps l.field res, add_fields-wraps ls (add_field l.field res) v)

  abbrev empty : List (ContainerField S) → SszContainer S
  empty fields = record {
    fields = fields;
    is_fixed_len = false;
    fixed_len = 0;
    min_len = 0;
    max_len = 0;
    offset_count = 0;
    fuzz_min_len = 0;
    fuzz_max_len = 0;
  }

  -- A container that the constructor makes of its fields, where the sums of the fixed parts and of
  -- the least lengths do not overflow, has the fields, these sums as its lengths, and is of fixed
  -- size exactly if no field needs an offset; its greatest length and its two lengths for fuzzing
  -- are the sums over the fields in uint64, wrapped around where they overflow.
  pub new_ssz_container_lem :
      (ls : List (LawfulField S)) (v : SszContainer S)
      → new_ssz_container (fields_of ls) ≡ some v
      → fixed_total ls < 2 ^ 64
      → min_total ls < 2 ^ 64
      → (v.fields ≡ fields_of ls)
        × (v.fixed_len ≡ fixed_total ls)
        × (v.min_len ≡ min_total ls)
        × (v.is_fixed_len ≡ (count_dynamic ls == 0))
        × (v.max_len ≡ u64 (total most_of ls))
        × (v.fuzz_min_len ≡ u64 (total (λ f. f.fuzz_min_len) ls))
        × (v.fuzz_max_len ≡ u64 (total (λ f. f.fuzz_max_len) ls))
  unfolding new_ssz_container
  new_ssz_container_lem ls v e hf hm = grind (
    arith,
    add_fields_lem ls (empty (fields_of ls)),
    add_fields-wraps ls (empty (fields_of ls)),
    count_dynamic-le ls,
  )
