-- ===== src/Types/Container/Fields.antt =====
-- Fields whose methods work in their formats, and the containers of them.
use zssz.Prelude.{
  ℕ, ◌+◌, ◌^◌, ◌≤◌, ◌<◌, ◌≡◌, refl, ap, ◌∙◌, true, false, List, [], ◌∷◌, ◌++◌, length,
  length-append, length-le_bytes, le_bytes, arith, if◌then◌else◌, Bool-cases, inl, inr, if_true,
  if_false,
}
use zssz.Outcome.{ok, ◌>>=◌}
use zssz.Dec.{DecodingReader}
use zssz.Dec.Laws.{advance_reader}
use zssz.Dec.Holds.{Holds}
use zssz.Enc.{EncodingWriter, write}
use zssz.Ssz.{Ssz, Format, FillsScope, IsCodec, bytes_per_length_offset}
use zssz.Types.Container.Spec
use zssz.Types.Container.Spec.{FieldFormat, FieldSpec}
use zssz.Types.Container.{ContainerField, FieldPtrFn, container_field, wrap}

-- The methods of a field work in the format, as `IsCodec` has it for a type.
pub record IsFieldCodec {S : Type 0} (c : ContainerField S) (f : FieldFormat S) : Type 0 where
  pub fixed_size : c.is_fixed ≡ true → (s : S) → f.Valid s → length (f.serialize s) ≡ c.fixed_len
  pub least : (s : S) → f.Valid s → c.min_len ≤ length (f.serialize s)
  pub sizes :
      (s : S) → f.Valid s → length (f.serialize s) < 2 ^ 32 → c.size_of s ≡ length (f.serialize s)
  pub encodes :
      (s : S) (ew : EncodingWriter)
      → f.Valid s
      → length (f.serialize s) < 2 ^ 32
      → c.encode s ew ≡ write (f.serialize s) ew
  pub decodes :
      (s t : S) (dr : DecodingReader)
      → f.Valid s
      → length (f.serialize s) < 2 ^ 32
      → Holds (f.serialize s) dr
      → FillsScope c.is_fixed (f.serialize s) dr
      → c.decode t dr ≡ ok (f.assign s t) (advance_reader (length (f.serialize s)) dr)
  pub dry_checks :
      (s : S) (dr : DecodingReader)
      → f.Valid s
      → length (f.serialize s) < 2 ^ 32
      → Holds (f.serialize s) dr
      → FillsScope c.is_fixed (f.serialize s) dr
      → c.dry_check dr ≡ ok tt (advance_reader (length (f.serialize s)) dr)

pub record LawfulField (S : Type 0) : Type 1 where
  pub field : ContainerField S
  pub format : FieldFormat S
  pub laws : IsFieldCodec field format

module _ {S A : Type 0} (ssz : Ssz A) (f : Format A) (c : IsCodec ssz f)
    (ptr : FieldPtrFn S A) where
  abbrev pub field_format : FieldFormat S
  field_format = record {
    serialize = λ s. f.serialize (ptr.get s);
    Valid = λ s. f.Valid (ptr.get s);
    assign = λ s t. ptr.set (ptr.get s) t;
  }

  -- A field whose type is a codec is lawful.
  pub container_field-IsFieldCodec : IsFieldCodec (container_field ssz ptr) field_format
  unfolding container_field
  container_field-IsFieldCodec = record {
    fixed_size = λ e s v. c.fixed_size e (ptr.get s) v;
    least = λ s v. c.least (ptr.get s) v;
    sizes = λ s v small. c.sizes (ptr.get s) v small;
    encodes = λ s ew v small. c.encodes (ptr.get s) ew v small;
    decodes = λ s t dr v small h fills. rw (c.decodes (ptr.get s) dr v small h fills, ◌>>=◌) refl;
    dry_checks = λ s dr v small h fills. c.dry_checks (ptr.get s) dr v small h fills;
  }

  abbrev pub lawful_field : LawfulField S
  lawful_field = record {
    field = container_field ssz ptr;
    format = field_format;
    laws = container_field-IsFieldCodec;
  }

module _ {R S : Type 0} (ptr : FieldPtrFn R S) (l : LawfulField S) where
  abbrev pub wrapped_format : FieldFormat R
  wrapped_format = record {
    serialize = λ r. l.format.serialize (ptr.get r);
    Valid = λ r. l.format.Valid (ptr.get r);
    assign = λ r t. ptr.set (l.format.assign (ptr.get r) (ptr.get t)) t;
  }

  -- A field of a squashed struct is lawful in the outer struct too.
  pub wrap-IsFieldCodec : IsFieldCodec (wrap ptr l.field) wrapped_format
  unfolding wrap
  wrap-IsFieldCodec = record {
    fixed_size = λ e r v. l.laws.fixed_size e (ptr.get r) v;
    least = λ r v. l.laws.least (ptr.get r) v;
    sizes = λ r v small. l.laws.sizes (ptr.get r) v small;
    encodes = λ r ew v small. l.laws.encodes (ptr.get r) ew v small;
    decodes = λ r t dr v small h fills.
        rw (l.laws.decodes (ptr.get r) (ptr.get t) dr v small h fills, ◌>>=◌) refl;
    dry_checks = λ r dr v small h fills. l.laws.dry_checks (ptr.get r) dr v small h fills;
  }

  abbrev pub wrapped_field : LawfulField R
  wrapped_field = record {
    field = wrap ptr l.field;
    format = wrapped_format;
    laws = wrap-IsFieldCodec;
  }

module _ {S : Type 0} where
  abbrev pub fields_of : List (LawfulField S) → List (ContainerField S)
  fields_of [] = []
  fields_of (l ∷ ls) = l.field ∷ fields_of ls

  abbrev pub spec_of : LawfulField S → FieldSpec S
  spec_of l = record {
    is_fixed = l.field.is_fixed;
    fixed_len = l.field.fixed_len;
    min_len = l.field.min_len;
    format = l.format;
  }

  abbrev pub specs_of : List (LawfulField S) → List (FieldSpec S)
  specs_of [] = []
  specs_of (l ∷ ls) = spec_of l ∷ specs_of ls

  abbrev pub AllValid : List (LawfulField S) → S → Type 0
  AllValid ls = Spec.AllValid (specs_of ls)

  abbrev pub fixed_total : List (LawfulField S) → ℕ
  fixed_total ls = Spec.fixed_total (specs_of ls)

  abbrev pub min_total : List (LawfulField S) → ℕ
  min_total ls = Spec.min_total (specs_of ls)

  abbrev pub serialize_fixed : List (LawfulField S) → ℕ → S → List ℕ
  serialize_fixed ls = Spec.serialize_fixed (specs_of ls)

  abbrev pub serialize_dynamic : List (LawfulField S) → S → List ℕ
  serialize_dynamic ls = Spec.serialize_dynamic (specs_of ls)

  abbrev pub serialize_container : List (LawfulField S) → S → List ℕ
  serialize_container ls s = serialize_fixed ls (fixed_total ls) s ++ serialize_dynamic ls s

  module _ {X : Type 0} (put : LawfulField S → X → X) where
    abbrev pub put_fixed : List (LawfulField S) → X → X
    put_fixed [] x = x
    put_fixed (l ∷ ls) x = put_fixed ls (if l.field.is_fixed then put l x else x)

    abbrev pub put_dynamic : List (LawfulField S) → X → X
    put_dynamic [] x = x
    put_dynamic (l ∷ ls) x = put_dynamic ls (if l.field.is_fixed then x else put l x)

  abbrev pub assign_fields : List (LawfulField S) → S → S → S
  assign_fields ls = Spec.assign_fields (specs_of ls)

  abbrev pub container_format : S → List (LawfulField S) → Format S
  container_format initial ls = Spec.container_format initial (specs_of ls)

  put_fixed-specs :
      (ls : List (LawfulField S)) (s t : S)
      → put_fixed (λ l. l.format.assign s) ls t
        ≡ Spec.put_fixed (λ l. l.format.assign s) (specs_of ls) t
  put_fixed-specs [] s t = refl
  put_fixed-specs (l ∷ ls) s t =
      put_fixed-specs ls s (if l.field.is_fixed then l.format.assign s t else t)

  put_dynamic-specs :
      (ls : List (LawfulField S)) (s t : S)
      → put_dynamic (λ l. l.format.assign s) ls t
        ≡ Spec.put_dynamic (λ l. l.format.assign s) (specs_of ls) t
  put_dynamic-specs [] s t = refl
  put_dynamic-specs (l ∷ ls) s t =
      put_dynamic-specs ls s (if l.field.is_fixed then t else l.format.assign s t)

  pub put-assign_fields :
      (ls : List (LawfulField S)) (s t : S)
      → put_dynamic (λ l. l.format.assign s) ls (put_fixed (λ l. l.format.assign s) ls t)
        ≡ assign_fields ls s t
  put-assign_fields ls s t =
      put_dynamic-specs ls s (put_fixed (λ l. l.format.assign s) ls t)
      ∙ ap (Spec.put_dynamic (λ l. l.format.assign s) (specs_of ls)) (put_fixed-specs ls s t)

  -- The bytes by the kind of the first field.
  module _ (l : LawfulField S) (ls : List (LawfulField S)) (s : S) where
    pub serialize_fixed-static :
        (offset : ℕ)
        → l.field.is_fixed ≡ true
        → serialize_fixed (l ∷ ls) offset s ≡ l.format.serialize s ++ serialize_fixed ls offset s
    serialize_fixed-static offset e = if_true _ _ e

    pub serialize_fixed-offset :
        (offset : ℕ)
        → l.field.is_fixed ≡ false
        → serialize_fixed (l ∷ ls) offset s
          ≡ le_bytes 4 offset ++ serialize_fixed ls (offset + length (l.format.serialize s)) s
    serialize_fixed-offset offset e = if_false _ _ e

    pub serialize_dynamic-static :
        l.field.is_fixed ≡ true → serialize_dynamic (l ∷ ls) s ≡ serialize_dynamic ls s
    serialize_dynamic-static e = if_true _ _ e

    pub serialize_dynamic-own :
        l.field.is_fixed ≡ false
        → serialize_dynamic (l ∷ ls) s ≡ l.format.serialize s ++ serialize_dynamic ls s
    serialize_dynamic-own e = if_false _ _ e

  pub length-serialize_fixed :
      (ls : List (LawfulField S)) (offset : ℕ) (s : S)
      → AllValid ls s
      → length (serialize_fixed ls offset s) ≡ fixed_total ls
  length-serialize_fixed [] offset s v = refl
  length-serialize_fixed (l ∷ ls) offset s v = elim (Bool-cases l.field.is_fixed) [
    | inl e ↦
        ap length (if_true _ _ e)
        ∙ length-append (l.format.serialize s) (serialize_fixed ls offset s)
        ∙ omega (
          arith,
          l.laws.fixed_size e s v.0,
          length-serialize_fixed ls offset s v.1,
          if_true l.field.fixed_len bytes_per_length_offset e,
        )
    | inr e ↦
        let next = offset + length (l.format.serialize s) in
        ap length (if_false _ _ e)
        ∙ length-append (le_bytes 4 offset) (serialize_fixed ls next s)
        ∙ omega (
          arith,
          length-le_bytes 4 offset,
          length-serialize_fixed ls next s v.1,
          if_false l.field.fixed_len bytes_per_length_offset e,
        )
  ]
