-- ===== src/Types/Container/Encode.antt =====
-- `Encode` and `SizeOf` of a container.
use zssz.Prelude.{
  ℕ, ◌+◌, ◌^◌, ◌<◌, ◌≡◌, refl, sym, ap, ap₂, ==→eq, subst, ◌∙◌, List, [], ◌∷◌, ◌++◌, length,
  le_bytes, length-append, append-nil, arith, ◌==◌, if_true, if_false, Bool-cases, inl, inr,
}
use zssz.Outcome.{◌>>◌}
use zssz.Enc.{EncodingWriter, write, write_nil, then_write, then_write_offset}
use zssz.Types.Container.{
  ContainerField, SszContainer, add_field_sizes, size_of, encode_fields, encode_fixed_part,
  encode_dynamic_part, encode,
}
use zssz.Types.Container.Fields.{
  LawfulField, fields_of, AllValid, fixed_total, serialize_fixed, serialize_dynamic,
  serialize_container, length-serialize_fixed, serialize_fixed-static, serialize_fixed-offset,
  serialize_dynamic-static, serialize_dynamic-own,
}
use zssz.Types.Container.Lengths.{count_dynamic, count_dynamic-static, count_dynamic-own}

module _ {S : Type 0} where
  add_field_sizes_lem :
      (out : ℕ) (ls : List (LawfulField S)) (s : S)
      → AllValid ls s
      → out + length (serialize_dynamic ls s) < 2 ^ 32
      → add_field_sizes out (fields_of ls) s ≡ out + length (serialize_dynamic ls s)
  unfolding add_field_sizes
  add_field_sizes_lem out [] s v h = omega arith
  add_field_sizes_lem out (l ∷ ls) s v h = ground (
    arith,
    length-append (l.format.serialize s) (serialize_dynamic ls s),
    l.laws.sizes s v.0,
    add_field_sizes_lem out ls s v.1,
    add_field_sizes_lem (out + length (l.format.serialize s)) ls s v.1,
  )

  encode_dynamic_part_lem :
      (ls : List (LawfulField S)) (s : S) (ew : EncodingWriter)
      → AllValid ls s
      → length (serialize_dynamic ls s) < 2 ^ 32
      → encode_dynamic_part (fields_of ls) s ew ≡ write (serialize_dynamic ls s) ew
  unfolding encode_dynamic_part
  encode_dynamic_part_lem [] s ew v h = sym (write_nil ew)
  encode_dynamic_part_lem (l ∷ ls) s ew v h = elim (Bool-cases l.field.is_fixed) [
    | inl e ↦
        let same = serialize_dynamic-static l ls s e in
        if_true _ _ e
        ∙ encode_dynamic_part_lem ls s ew v.1 (omega (arith, ap length same))
        ∙ ap (λ bs. write bs ew) (sym same)
    | inr e ↦
        let same = serialize_dynamic-own l ls s e in
        let total = length-append (l.format.serialize s) (serialize_dynamic ls s) in
        if_false _ _ e
        ∙ then_write (l.field.encode s) (encode_dynamic_part (fields_of ls) s)
            (l.format.serialize s) (serialize_dynamic ls s) ew
            (l.laws.encodes s ew v.0 (omega (arith, ap length same, total)))
            (λ ew'. encode_dynamic_part_lem ls s ew' v.1 (omega (arith, ap length same, total)))
        ∙ ap (λ bs. write bs ew) (sym same)
  ]

  encode_fixed_part_lem :
      (ls : List (LawfulField S)) (s : S) (prev_offset prev_size : ℕ) (ew : EncodingWriter)
      → AllValid ls s
      → length (serialize_fixed ls (prev_offset + prev_size) s) < 2 ^ 32
      → prev_offset + prev_size + length (serialize_dynamic ls s) < 2 ^ 32
      → encode_fixed_part (fields_of ls) s prev_offset prev_size ew
        ≡ write (serialize_fixed ls (prev_offset + prev_size) s) ew
  unfolding encode_fixed_part
  encode_fixed_part_lem [] s prev_offset prev_size ew v hf h = sym (write_nil ew)
  encode_fixed_part_lem (l ∷ ls) s prev_offset prev_size ew v hf h =
      elim (Bool-cases l.field.is_fixed) [
        | inl e ↦
            let offset = prev_offset + prev_size in
            let same = serialize_fixed-static l ls s offset e in
            let behind = serialize_dynamic-static l ls s e in
            let total = length-append (l.format.serialize s) (serialize_fixed ls offset s) in
            if_true _ _ e
            ∙ then_write (l.field.encode s)
                (encode_fixed_part (fields_of ls) s prev_offset prev_size) (l.format.serialize s)
                (serialize_fixed ls offset s) ew
                (l.laws.encodes s ew v.0 (omega (arith, ap length same, total)))
                (λ ew'.
                  encode_fixed_part_lem ls s prev_offset prev_size ew' v.1
                    (omega (arith, ap length same, total)) (omega (arith, ap length behind)))
            ∙ ap (λ bs. write bs ew) (sym same)
        | inr e ↦
            let offset = prev_offset + prev_size in
            let len = length (l.format.serialize s) in
            let same = serialize_fixed-offset l ls s offset e in
            let behind = serialize_dynamic-own l ls s e in
            let total = length-append (le_bytes 4 offset) (serialize_fixed ls (offset + len) s) in
            let dynamic_total = length-append (l.format.serialize s) (serialize_dynamic ls s) in
            let size = l.laws.sizes s v.0 (omega (arith, ap length behind, dynamic_total)) in
            let rest = λ (ew' : EncodingWriter).
              encode_fixed_part_lem ls s offset len ew' v.1 (omega (arith, ap length same, total))
                (omega (arith, ap length behind, dynamic_total)) in
            if_false _ _ e
            ∙ then_write_offset prev_offset prev_size
                (λ o. encode_fixed_part (fields_of ls) s o (l.field.size_of s))
                (serialize_fixed ls (offset + len) s) ew (omega arith)
                (λ ew'.
                  subst
                    (λ (n : ℕ).
                      encode_fixed_part (fields_of ls) s offset n ew'
                      ≡ write (serialize_fixed ls (offset + len) s) ew')
                    (sym size) (rest ew'))
            ∙ ap (λ bs. write bs ew) (sym same)
      ]

  -- Without offsets the fixed part is all, and it is written field by field.
  encode_fields_lem :
      (ls : List (LawfulField S)) (s : S) (offset : ℕ) (ew : EncodingWriter)
      → count_dynamic ls ≡ 0
      → AllValid ls s
      → length (serialize_fixed ls offset s) < 2 ^ 32
      → encode_fields (fields_of ls) s ew ≡ write (serialize_fixed ls offset s) ew
  unfolding encode_fields
  encode_fields_lem [] s offset ew none v h = sym (write_nil ew)
  encode_fields_lem (l ∷ ls) s offset ew none v h = elim (Bool-cases l.field.is_fixed) [
    | inl e ↦
        let same = serialize_fixed-static l ls s offset e in
        let total = length-append (l.format.serialize s) (serialize_fixed ls offset s) in
        then_write (l.field.encode s) (encode_fields (fields_of ls) s) (l.format.serialize s)
          (serialize_fixed ls offset s) ew
          (l.laws.encodes s ew v.0 (omega (arith, ap length same, total)))
          (λ ew'.
            encode_fields_lem ls s offset ew' (omega (arith, none, count_dynamic-static l ls e)) v.1
              (omega (arith, ap length same, total)))
        ∙ ap (λ bs. write bs ew) (sym same)
    | inr e ↦ absurd (omega (arith, none, count_dynamic-own l ls e))
  ]

  pub serialize_dynamic-nil :
      (ls : List (LawfulField S)) (s : S) → count_dynamic ls ≡ 0 → serialize_dynamic ls s ≡ []
  serialize_dynamic-nil [] s none = refl
  serialize_dynamic-nil (l ∷ ls) s none = elim (Bool-cases l.field.is_fixed) [
    | inl e ↦
        serialize_dynamic-static l ls s e
        ∙ serialize_dynamic-nil ls s (omega (arith, none, count_dynamic-static l ls e))
    | inr e ↦ absurd (omega (arith, none, count_dynamic-own l ls e))
  ]

  module _ (v : SszContainer S) (ls : List (LawfulField S)) (s : S) (valid : AllValid ls s)
      (small : length (serialize_container ls s) < 2 ^ 32) (fields : v.fields ≡ fields_of ls)
      (fixed : v.fixed_len ≡ fixed_total ls) where
    total : length (serialize_container ls s) ≡ fixed_total ls + length (serialize_dynamic ls s)
    total =
        length-append (serialize_fixed ls (fixed_total ls) s) (serialize_dynamic ls s)
        ∙ ap (◌+ length (serialize_dynamic ls s))
            (length-serialize_fixed ls (fixed_total ls) s valid)

    pub size_of_lem : size_of v s ≡ length (serialize_container ls s)
    unfolding size_of
    size_of_lem =
        ap₂ (λ (n : ℕ) (fs : List (ContainerField S)). add_field_sizes n fs s) fixed fields
        ∙ add_field_sizes_lem (fixed_total ls) ls s valid (omega (arith, total))
        ∙ sym total

    encode_both_parts :
        (ew : EncodingWriter)
        → (encode_fixed_part (fields_of ls) s (fixed_total ls) 0
              >> encode_dynamic_part (fields_of ls) s)
            ew
          ≡ write (serialize_container ls s) ew
    encode_both_parts ew =
        let n = fixed_total ls in
        let start : n + 0 ≡ n = omega arith in
        let here = λ (k : ℕ). write (serialize_fixed ls k s) ew in
        let fixed_length = λ (k : ℕ). length-serialize_fixed ls k s valid in
        then_write (encode_fixed_part (fields_of ls) s n 0) (encode_dynamic_part (fields_of ls) s)
          (serialize_fixed ls n s) (serialize_dynamic ls s) ew
          (encode_fixed_part_lem ls s n 0 ew valid (omega (arith, total, fixed_length (n + 0)))
              (omega (arith, total))
            ∙ ap here start)
          (λ ew'. encode_dynamic_part_lem ls s ew' valid (omega (arith, total)))

    encode_hot_path :
        (ew : EncodingWriter)
        → count_dynamic ls ≡ 0
        → encode_fields (fields_of ls) s ew ≡ write (serialize_container ls s) ew
    encode_hot_path ew none =
        let front = serialize_fixed ls (fixed_total ls) s in
        encode_fields_lem ls s (fixed_total ls) ew none valid
          (omega (arith, total, length-serialize_fixed ls (fixed_total ls) s valid))
        ∙ ap (λ bs. write bs ew)
            (sym (ap (front ++◌) (serialize_dynamic-nil ls s none) ∙ append-nil front))

    pub encode_lem :
        (ew : EncodingWriter)
        → v.is_fixed_len ≡ (count_dynamic ls == 0)
        → encode v s ew ≡ write (serialize_container ls s) ew
    unfolding encode
    encode_lem ew kind = elim (Bool-cases (count_dynamic ls == 0)) [
      | inl e ↦
          if_true _ _ (kind ∙ e)
          ∙ ap (λ (fs : List (ContainerField S)). encode_fields fs s ew) fields
          ∙ encode_hot_path ew (==→eq _ _ e)
      | inr e ↦
          if_false _ _ (kind ∙ e)
          ∙ ap₂
              (λ (fs : List (ContainerField S)) (n : ℕ).
                (encode_fixed_part fs s n 0 >> encode_dynamic_part fs s) ew)
              fields fixed
          ∙ encode_both_parts ew
    ]
