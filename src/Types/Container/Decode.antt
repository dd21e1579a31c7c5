-- ===== src/Types/Container/Decode.antt =====
-- Reading back the two parts of a container, whatever is kept of its fields.
use zssz.Prelude.{
  ℕ, ◌+◌, ◌^◌, ◌<◌, ◌≡◌, ◌⊎◌, refl, sym, ap, ap₂, subst, ◌∙◌, true, false, List, [], ◌∷◌, ◌++◌,
  length, le_bytes, length-append, length-le_bytes, arith, if◌then◌else◌, if_true, if_false,
  Bool-cases, inl, inr, u64,
}
use zssz.Outcome.{Outcome, ok, ◌>>=◌}
use zssz.Dec.{DecodingReader, Decoder, in_scope}
use zssz.Dec.Laws.{advance_reader}
use zssz.Dec.Holds.{
  Holds, Holds-front, Holds-back, Holds-scoped, advance_reader-advance_reader, advance_reader-zero,
  in_scope-Holds, scoped_reader,
}
use zssz.Ssz.{FillsScope, bytes_per_length_offset}
use zssz.Types.VarSeries.Decode.{read_offset-Holds, i-advance_reader, max-advance_reader}
use zssz.Types.Container.{
  ContainerField, SszContainer, check_fixed, check_offset, dynamic_scope, process_fields,
  process_fixed_part, decode_dynamic_part, process_parts,
}
use zssz.Types.Container.Fields.{
  LawfulField, fields_of, AllValid, fixed_total, serialize_fixed, serialize_dynamic,
  serialize_container, length-serialize_fixed, serialize_fixed-static, serialize_fixed-offset,
  serialize_dynamic-static, serialize_dynamic-own, put_fixed, put_dynamic,
}
use zssz.Types.Container.Lengths.{count_dynamic, count_dynamic-static, count_dynamic-own}

check_fixed_lem : (n : ℕ) (dr : DecodingReader) → dr.i ≡ n → check_fixed n dr ≡ ok tt dr
unfolding check_fixed
check_fixed_lem n dr e = ground arith

-- An outcome is known by its result and by how far the reader has come.
ok_advanced :
    {X : Type 0} (dr : DecodingReader) {x y : X} {m n : ℕ}
    → x ≡ y
    → m ≡ n
    → Path (Outcome DecodingReader X) (ok x (advance_reader m dr)) (ok y (advance_reader n dr))
ok_advanced {X} dr e h = ap₂ (λ (z : X) (k : ℕ). ok z (advance_reader k dr)) e h

module _ {S : Type 0} (a : S) where
  -- The offsets of the fields of variable size, of which the first stands at `offset`.
  abbrev pub offsets_of : List (LawfulField S) → ℕ → List ℕ
  offsets_of [] offset = []
  offsets_of (l ∷ ls) offset =
      if l.field.is_fixed
      then offsets_of ls offset
      else offset ∷ offsets_of ls (offset + length (l.format.serialize a))

  offsets_of-cases :
      (ls : List (LawfulField S)) (offset : ℕ)
      → ((offsets_of ls offset ≡ []) × (length (serialize_dynamic ls a) ≡ 0))
        ⊎ ((os : List ℕ) × (offsets_of ls offset ≡ offset ∷ os))
  offsets_of-cases [] offset = inl (refl, refl)
  offsets_of-cases (l ∷ ls) offset = elim (Bool-cases l.field.is_fixed) [
    | inl e ↦ elim (offsets_of-cases ls offset) [
      | inl none ↦
          inl (if_true _ _ e ∙ none.0, ap length (serialize_dynamic-static l ls a e) ∙ none.1)
      | inr some ↦ inr (some.0, if_true _ _ e ∙ some.1)
    ]
    | inr e ↦ inr (offsets_of ls (offset + length (l.format.serialize a)), if_false _ _ e)
  ]

  dynamic_scope_lem :
      (ls : List (LawfulField S)) (offset len : ℕ) (dr : DecodingReader)
      → offset ≡ dr.i
      → offset + (len + length (serialize_dynamic ls a)) ≡ dr.max
      → dr.max < 2 ^ 64
      → dynamic_scope offset (offsets_of ls (offset + len)) dr ≡ ok len dr
  unfolding dynamic_scope check_offset
  dynamic_scope_lem ls offset len dr at fills below = elim (offsets_of-cases ls (offset + len)) [
    | inl none ↦ ap (λ (os : List ℕ). dynamic_scope offset os dr) none.0 ∙ ground (arith, none.1)
    | inr some ↦ ap (λ (os : List ℕ). dynamic_scope offset os dr) some.1 ∙ ground arith
  ]

module _ {S X : Type 0} (h : ContainerField S → X → Decoder X) (put : LawfulField S → X → X) (a : S)
    (reads : (l : LawfulField S) (x : X) (dr : DecodingReader)
      → l.format.Valid a
      → length (l.format.serialize a) < 2 ^ 32
      → Holds (l.format.serialize a) dr
      → FillsScope l.field.is_fixed (l.format.serialize a) dr
      → h l.field x dr ≡ ok (put l x) (advance_reader (length (l.format.serialize a)) dr)) where
  process_fields_lem :
      (ls : List (LawfulField S)) (offset : ℕ) (x : X) (dr : DecodingReader)
      → AllValid ls a
      → length (serialize_fixed ls offset a) < 2 ^ 32
      → offset + length (serialize_dynamic ls a) < 2 ^ 32
      → Holds (serialize_fixed ls offset a) dr
      → process_fields h (fields_of ls) dr.i x dr
        ≡ ok
            (offsets_of a ls offset, put_fixed put ls x)
            (advance_reader (length (serialize_fixed ls offset a)) dr)
  unfolding process_fields
  process_fields_lem [] offset x dr v hf hd holds = rw advance_reader-zero refl
  process_fields_lem (l ∷ ls) offset x dr v hf hd holds = elim (Bool-cases l.field.is_fixed) [
    | inl e ↦
        let bytes = l.format.serialize a in
        let same = serialize_fixed-static l ls a offset e in
        let total = length-append bytes (serialize_fixed ls offset a) in
        let whole : Holds (bytes ++ serialize_fixed ls offset a) dr =
          subst (λ bs. Holds bs dr) same holds in
        let size = l.laws.fixed_size e a v.0 in
        let behind = advance_reader (length bytes) dr in
        let front = Holds-front bytes (serialize_fixed ls offset a) dr whole in
        let next : behind.i ≡ u64 (dr.i + l.field.fixed_len) =
          omega (arith, size, i-advance_reader (length bytes) dr, front.room, front.below) in
        let rest =
          process_fields_lem ls offset (put l x) behind v.1 (omega (arith, ap length same, total))
            (omega (arith, ap length (serialize_dynamic-static l ls a e)))
            (Holds-back bytes (serialize_fixed ls offset a) dr whole) in
        if_true _ _ e
        ∙ rw
            (
              reads l x dr v.0 (omega (arith, ap length same, total)) front
                  (λ f. absurd (ground arith)),
              ◌>>=◌,
              check_fixed_lem _ behind next,
              ◌>>=◌,
            )
            (ap (λ (n : ℕ). process_fields h (fields_of ls) n (put l x) behind) (sym next) ∙ rest)
        ∙ ap (λ (end : DecodingReader). ok (offsets_of a ls offset, put_fixed put ls (put l x)) end)
            (advance_reader-advance_reader (length (serialize_fixed ls offset a)) (length bytes) dr)
        ∙ ok_advanced dr
            (ap₂ (λ (os : List ℕ) (y : X). (os, y)) (sym (if_true _ _ e))
              (ap (put_fixed put ls) (sym (if_true _ _ e))))
            (sym (ap length same ∙ total))
    | inr e ↦
        let offset_bytes = le_bytes 4 offset in
        let next_offset = offset + length (l.format.serialize a) in
        let same = serialize_fixed-offset l ls a offset e in
        let own = serialize_dynamic-own l ls a e in
        let own_total = length-append (l.format.serialize a) (serialize_dynamic ls a) in
        let total = length-append offset_bytes (serialize_fixed ls next_offset a) in
        let four = length-le_bytes 4 offset in
        let whole : Holds (offset_bytes ++ serialize_fixed ls next_offset a) dr =
          subst (λ bs. Holds bs dr) same holds in
        let behind = advance_reader 4 dr in
        let front = Holds-front offset_bytes (serialize_fixed ls next_offset a) dr whole in
        let next : behind.i ≡ u64 (dr.i + bytes_per_length_offset) =
          omega (arith, four, i-advance_reader 4 dr, front.room, front.below) in
        let back : Holds (serialize_fixed ls next_offset a) behind =
          subst (λ (n : ℕ). Holds (serialize_fixed ls next_offset a) (advance_reader n dr)) four
            (Holds-back offset_bytes (serialize_fixed ls next_offset a) dr whole) in
        let rest =
          process_fields_lem ls next_offset x behind v.1 (omega (arith, ap length same, total))
            (omega (arith, ap length own, own_total)) back in
        if_false _ _ e
        ∙ rw
            (
              read_offset-Holds offset dr (omega arith) front,
              ◌>>=◌,
              check_fixed_lem _ behind next,
              ◌>>=◌,
              ap (λ (n : ℕ). process_fields h (fields_of ls) n x behind) (sym next) ∙ rest,
              ◌>>=◌,
            )
            refl
        ∙ ap
            (λ (end : DecodingReader).
              ok (offset ∷ offsets_of a ls next_offset, put_fixed put ls x) end)
            (advance_reader-advance_reader (length (serialize_fixed ls next_offset a)) 4 dr)
        ∙ ok_advanced dr
            (ap₂ (λ (os : List ℕ) (y : X). (os, y)) (sym (if_false _ _ e))
              (ap (put_fixed put ls) (sym (if_false _ _ e))))
            (omega (arith, ap length same, total, four))
  ]

  decode_dynamic_part-static :
      (l : LawfulField S) (ls : List (LawfulField S)) (os : List ℕ) (x : X) (dr : DecodingReader)
      → l.field.is_fixed ≡ true
      → decode_dynamic_part h (fields_of (l ∷ ls)) os x dr
        ≡ decode_dynamic_part h (fields_of ls) os x dr
  unfolding decode_dynamic_part
  decode_dynamic_part-static l ls [] x dr e = if_true _ _ e
  decode_dynamic_part-static l ls (o ∷ os) x dr e = if_true _ _ e

  in_scope_lem :
      (l : LawfulField S) (x : X) (dr : DecodingReader)
      → l.format.Valid a
      → length (l.format.serialize a) < 2 ^ 32
      → Holds (l.format.serialize a) dr
      → in_scope false (length (l.format.serialize a)) (h l.field x) dr
        ≡ ok (put l x) (advance_reader (length (l.format.serialize a)) dr)
  unfolding scoped_reader
  in_scope_lem l x dr v small holds =
      let bytes = l.format.serialize a in
      in_scope-Holds (h l.field x) (put l x) bytes dr holds (omega arith) (
        reads l x (scoped_reader (length bytes) dr) v small (Holds-scoped bytes dr holds)
          (λ e. (refl, refl)))

  decode_dynamic_part_lem :
      (ls : List (LawfulField S)) (offset : ℕ) (x : X) (dr : DecodingReader)
      → AllValid ls a
      → length (serialize_dynamic ls a) < 2 ^ 32
      → Holds (serialize_dynamic ls a) dr
      → (0 < count_dynamic ls → (offset ≡ dr.i) × (dr.i + length (serialize_dynamic ls a) ≡ dr.max))
      → decode_dynamic_part h (fields_of ls) (offsets_of a ls offset) x dr
        ≡ ok (put_dynamic put ls x) (advance_reader (length (serialize_dynamic ls a)) dr)
  unfolding decode_dynamic_part
  decode_dynamic_part_lem [] offset x dr v small holds fills = rw advance_reader-zero refl
  decode_dynamic_part_lem (l ∷ ls) offset x dr v small holds fills =
      elim (Bool-cases l.field.is_fixed) [
        | inl e ↦
            let same = serialize_dynamic-static l ls a e in
            let count = count_dynamic-static l ls e in
            let rest =
              decode_dynamic_part_lem ls offset x dr v.1 (omega (arith, ap length same))
                (subst (λ bs. Holds bs dr) same holds)
                (λ some.
                  let (at, full) = fills (omega (arith, count)) in
                  (at, omega (arith, ap length same))) in
            ap (λ (os : List ℕ). decode_dynamic_part h (fields_of (l ∷ ls)) os x dr) (if_true _ _ e)
            ∙ decode_dynamic_part-static l ls (offsets_of a ls offset) x dr e
            ∙ rest
            ∙ ok_advanced dr (ap (put_dynamic put ls) (sym (if_true _ _ e))) (sym (ap length same))
        | inr e ↦
            let bytes = l.format.serialize a in
            let len = length bytes in
            let same = serialize_dynamic-own l ls a e in
            let total = length-append bytes (serialize_dynamic ls a) in
            let (at, full) = fills (omega (arith, count_dynamic-own l ls e)) in
            let whole : Holds (bytes ++ serialize_dynamic ls a) dr =
              subst (λ bs. Holds bs dr) same holds in
            let behind = advance_reader len dr in
            let at_behind = i-advance_reader len dr in
            let rest =
              decode_dynamic_part_lem ls (offset + len) (put l x) behind v.1
                (omega (arith, ap length same, total))
                (Holds-back bytes (serialize_dynamic ls a) dr whole)
                (λ some. (
                  omega (arith, at_behind),
                  omega (arith, ap length same, total, at_behind, max-advance_reader len dr),
                )) in
            ap (λ (os : List ℕ). decode_dynamic_part h (fields_of (l ∷ ls)) os x dr)
              (if_false _ _ e)
            ∙ if_false _ _ e
            ∙ rw
                (
                  dynamic_scope_lem a ls offset len dr at (omega (arith, ap length same, total))
                      holds.below,
                  ◌>>=◌,
                  in_scope_lem l x dr v.0 (omega (arith, ap length same, total))
                      (Holds-front bytes (serialize_dynamic ls a) dr whole),
                  ◌>>=◌,
                  rest,
                  advance_reader-advance_reader,
                )
                (ok_advanced dr (ap (put_dynamic put ls) (sym (if_false _ _ e)))
                  (sym (ap length same ∙ total)))
      ]

  -- Both parts, from a reader whose scope the container fills if it has offsets.
  pub process_parts_lem :
      (v : SszContainer S) (ls : List (LawfulField S)) (x : X) (dr : DecodingReader)
      → AllValid ls a
      → length (serialize_container ls a) < 2 ^ 32
      → v.fields ≡ fields_of ls
      → v.fixed_len ≡ fixed_total ls
      → Holds (serialize_container ls a) dr
      → (0 < count_dynamic ls → (dr.i ≡ 0) × (dr.max ≡ length (serialize_container ls a)))
      → process_parts h v x dr
        ≡ ok
            (put_dynamic put ls (put_fixed put ls x))
            (advance_reader (length (serialize_container ls a)) dr)
  unfolding process_parts process_fixed_part
  process_parts_lem v ls x dr valid small fields fixed holds fills =
      let n = fixed_total ls in
      let heads = serialize_fixed ls n a in
      let total = length-append heads (serialize_dynamic ls a) in
      let n_eq = length-serialize_fixed ls n a valid in
      let front = Holds-front heads (serialize_dynamic ls a) dr holds in
      let behind = advance_reader (length heads) dr in
      let at_behind = i-advance_reader (length heads) dr in
      let first =
        ap (λ (fs : List (ContainerField S)). process_fields h fs dr.i x dr) fields
        ∙ process_fields_lem ls n x dr valid (omega (arith, total)) (omega (arith, total, n_eq))
            front in
      let checked =
        check_fixed_lem (u64 (v.fixed_len + dr.i)) behind
          (omega (arith, at_behind, n_eq, fixed, front.room, front.below)) in
      let rest =
        decode_dynamic_part_lem ls n (put_fixed put ls x) behind valid (omega (arith, total))
          (Holds-back heads (serialize_dynamic ls a) dr holds)
          (λ some.
            let (at, full) = fills some in
            (
              omega (arith, at_behind, n_eq),
              omega (arith, total, at_behind, max-advance_reader (length heads) dr),
            )) in
      rw
        (
          first,
          ◌>>=◌,
          checked,
          ◌>>=◌,
          ap
                (λ (fs : List (ContainerField S)).
                  decode_dynamic_part h fs (offsets_of a ls n) (put_fixed put ls x) behind)
                fields
              ∙ rest,
          advance_reader-advance_reader,
        )
        (ok_advanced dr refl (sym total))
