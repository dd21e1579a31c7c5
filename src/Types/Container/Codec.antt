-- ===== src/Types/Container/Codec.antt =====
-- Containers are codecs.
use zssz.Prelude.{
  ◌+◌, ◌^◌, ◌≤◌, ◌<◌, ◌≡◌, sym, ap, ◌∙◌, true, some, List, [], ◌∷◌, length, length-append, arith,
  ◌==◌, if_false, ==→eq,
}
use zssz.Outcome.{ok}
use zssz.Dec.{DecodingReader}
use zssz.Dec.Laws.{advance_reader}
use zssz.Dec.Holds.{Holds}
use zssz.Enc.{EncodingWriter, write}
use zssz.Ssz.{FillsScope, IsCodec, round_trip}
use zssz.Types.Container.{
  SszContainer, new_ssz_container, decode, decode_var_size, dry_check, ssz_container,
}
use zssz.Types.Container.Fields.{
  LawfulField, fields_of, AllValid, fixed_total, min_total, serialize_fixed, serialize_dynamic,
  serialize_container, assign_fields, put-assign_fields, container_format, length-serialize_fixed,
}
use zssz.Types.Container.Lengths.{count_dynamic, new_ssz_container_lem}
use zssz.Types.Container.Encode.{serialize_dynamic-nil, size_of_lem, encode_lem}
use zssz.Types.Container.Decode.{process_parts_lem}

module _ {S : Type 0} (ls : List (LawfulField S)) (s : S) (valid : AllValid ls s) where
  length-serialize_container :
      length (serialize_container ls s) ≡ fixed_total ls + length (serialize_dynamic ls s)
  length-serialize_container =
      length-append (serialize_fixed ls (fixed_total ls) s) (serialize_dynamic ls s)
      ∙ ap (◌+ length (serialize_dynamic ls s)) (length-serialize_fixed ls (fixed_total ls) s valid)

min_total-le :
    {S : Type 0} (ls : List (LawfulField S)) (s : S)
    → AllValid ls s
    → min_total ls ≤ fixed_total ls + length (serialize_dynamic ls s)
min_total-le [] s valid = omega arith
min_total-le (l ∷ ls) s valid = ground (
  arith,
  min_total-le ls s valid.1,
  l.laws.least s valid.0,
  length-append (l.format.serialize s) (serialize_dynamic ls s),
)

module _ {S : Type 0} (initial : S) (ls : List (LawfulField S)) (v : SszContainer S)
    (made : new_ssz_container (fields_of ls) ≡ some v) (fits : fixed_total ls < 2 ^ 64)
    (fits_min : min_total ls < 2 ^ 64) where
  fields_eq : v.fields ≡ fields_of ls
  fields_eq = (new_ssz_container_lem ls v made fits fits_min).0

  fixed_len_eq : v.fixed_len ≡ fixed_total ls
  fixed_len_eq = (new_ssz_container_lem ls v made fits fits_min).1

  min_len_eq : v.min_len ≡ min_total ls
  min_len_eq = (new_ssz_container_lem ls v made fits fits_min).2

  kind_eq : v.is_fixed_len ≡ (count_dynamic ls == 0)
  kind_eq = (new_ssz_container_lem ls v made fits fits_min).3

  no_offsets : v.is_fixed_len ≡ true → (s : S) → serialize_dynamic ls s ≡ []
  no_offsets e s = serialize_dynamic-nil ls s (==→eq _ _ (sym kind_eq ∙ e))

  module _ (s : S) (dr : DecodingReader) (valid : AllValid ls s)
      (small : length (serialize_container ls s) < 2 ^ 32) (h : Holds (serialize_container ls s) dr)
      (fills : FillsScope v.is_fixed_len (serialize_container ls s) dr) where
    fills_scope : 0 < count_dynamic ls → (dr.i ≡ 0) × (dr.max ≡ length (serialize_container ls s))
    fills_scope offsets = fills (kind_eq ∙ ground (arith, offsets))

    decode-Holds :
        assign_fields ls s initial ≡ s
        → decode v initial dr ≡ ok s (advance_reader (length (serialize_container ls s)) dr)
    unfolding decode decode_var_size
    decode-Holds whole =
        if_false _ _ h.strict
        ∙ process_parts_lem (λ f. f.decode) (λ l. l.format.assign s) s
            (λ l x dr'. l.laws.decodes s x dr') v ls initial dr valid small fields_eq fixed_len_eq h
            fills_scope
        ∙ ap (λ (t : S). ok t (advance_reader (length (serialize_container ls s)) dr))
            (put-assign_fields ls s initial ∙ whole)

    dry_check-Holds : dry_check v dr ≡ ok tt (advance_reader (length (serialize_container ls s)) dr)
    unfolding dry_check
    dry_check-Holds =
        process_parts_lem (λ f done. f.dry_check) (λ l done. tt) s
          (λ l done dr'. l.laws.dry_checks s dr') v ls tt dr valid small fields_eq fixed_len_eq h
          fills_scope

  -- A container that the constructor makes of lawful fields works in the format of its fields.
  pub container-IsCodec : IsCodec (ssz_container v initial) (container_format initial ls)
  unfolding ssz_container
  container-IsCodec = record {
    fixed_size = λ e s valid.
        length-serialize_container ls s valid.0
        ∙ omega (arith, ap length (no_offsets e s), fixed_len_eq);
    least = λ s valid.
        omega
          (arith, length-serialize_container ls s valid.0, min_total-le ls s valid.0, min_len_eq);
    floor = λ s valid. omega (arith, length-serialize_container ls s valid.0, fixed_len_eq);
    sizes = λ s valid small. size_of_lem v ls s valid.0 small fields_eq fixed_len_eq;
    encodes = λ s ew valid small. encode_lem v ls s valid.0 small fields_eq fixed_len_eq ew kind_eq;
    decodes = λ s dr valid small h fills. decode-Holds s dr valid.0 small h fills valid.1;
    dry_checks = λ s dr valid small h fills. dry_check-Holds s dr valid.0 small h fills;
  }

  -- A struct with valid fields, of fewer than 2 ^ 32 bytes, that is the struct in memory with these
  -- fields put into it, of a container that the constructor makes of lawful fields, where no sum of
  -- lengths overflows: the size is that of the format, whose bytes are written; and where these
  -- bytes stand, and fill the scope if the container is of variable size, the struct is read, and
  -- passes the dry check, to their end.
  pub container_round_trip :
      (s : S) (ew : EncodingWriter) (dr : DecodingReader)
      → AllValid ls s
      → assign_fields ls s initial ≡ s
      → length (serialize_container ls s) < 2 ^ 32
      → Holds (serialize_container ls s) dr
      → FillsScope v.is_fixed_len (serialize_container ls s) dr
      → ((ssz_container v initial).size_of s ≡ length (serialize_container ls s))
        × ((ssz_container v initial).encode s ew ≡ write (serialize_container ls s) ew)
        × ((ssz_container v initial).decode dr
            ≡ ok s (advance_reader (length (serialize_container ls s)) dr))
        × ((ssz_container v initial).dry_check dr
            ≡ ok tt (advance_reader (length (serialize_container ls s)) dr))
  unfolding ssz_container
  container_round_trip s ew dr valid whole small h fills =
      round_trip (ssz_container v initial) (container_format initial ls) container-IsCodec s ew dr
        (valid, whole) small h fills
