-- ===== src/Types/Factory/Matches.antt =====
-- What the factory makes of types and fields matches the formats of these.
use zssz.Prelude.{
  ◌^◌, ◌<◌, ◌≡◌, refl, sym, ap, ap₂, subst, ◌∙◌, Bool, true, false, Option, none, some, List, [],
  ◌∷◌, ◌++◌, map, if◌then◌else◌,
}
use zssz.Ssz.{IsCodec}
use zssz.Types.Container.{
  FieldPtrFn, ContainerField, SszContainer, container_field, wrap, new_ssz_container, ssz_container,
}
use zssz.Types.Container.Spec
use zssz.Types.Container.Spec.{FieldFormat, FieldSpec}
use zssz.Types.Container.Fields.{
  IsFieldCodec, LawfulField, spec_of, container_field-IsFieldCodec, wrap-IsFieldCodec, fields_of,
  specs_of,
}
use zssz.Types.Container.Lengths.{new_ssz_container_lem}
use zssz.Types.Container.Codec.{container-IsCodec}
use zssz.Types.Factory.{Made, get_fields, append_fields, make_container}
use zssz.Types.Factory.Spec.{
  TypeSpec, container_spec, own_field, inner_field, squashed_fields, fields_at,
}

-- The methods of a field are those of its specification.
pub record FieldMatches {S : Type 0} (c : ContainerField S) (f : FieldSpec S) : Type 0 where
  pub is_fixed : c.is_fixed ≡ f.is_fixed
  pub fixed_len : c.fixed_len ≡ f.fixed_len
  pub min_len : c.min_len ≡ f.min_len
  pub codec : IsFieldCodec c f.format

abbrev pub FieldsMatch : {S : Type 0} → List (ContainerField S) → List (FieldSpec S) → Type 0
FieldsMatch [] [] = Unit
FieldsMatch [] (f ∷ fs) = ⊥
FieldsMatch (c ∷ cs) [] = ⊥
FieldsMatch (c ∷ cs) (f ∷ fs) = FieldMatches c f × FieldsMatch cs fs

abbrev pub SquashMatch :
    {S : Type 0} → Option (List (ContainerField S)) → Option (List (FieldSpec S)) → Type 0
SquashMatch none none = Unit
SquashMatch none (some fs) = ⊥
SquashMatch (some cs) none = ⊥
SquashMatch (some cs) (some fs) = FieldsMatch cs fs

-- The methods of a type are those of its specification.
pub record Matches {A : Type 0} (m : Made A) (e : TypeSpec A) : Type 0 where
  pub is_fixed : m.ssz.is_fixed ≡ e.is_fixed
  pub fixed_len : m.ssz.fixed_len ≡ e.fixed_len
  pub min_len : m.ssz.min_len ≡ e.min_len
  pub codec : IsCodec m.ssz e.format
  pub squash_fields : SquashMatch m.squash_fields e.squash_fields

-- So it is where there is no error.
abbrev pub MadeMatches : {A : Type 0} → Option (Made A) → TypeSpec A → Type 0
MadeMatches none e = Unit
MadeMatches (some m) e = Matches m e

abbrev pub MadeFieldsMatch :
    {S : Type 0} → Option (List (ContainerField S)) → List (FieldSpec S) → Type 0
MadeFieldsMatch none fs = Unit
MadeFieldsMatch (some cs) fs = FieldsMatch cs fs

module _ {S A : Type 0} (ptr : FieldPtrFn S A) where
  own-Matches :
      (m : Made A) (e : TypeSpec A)
      → Matches m e
      → FieldMatches (container_field m.ssz ptr) (own_field ptr e)
  unfolding container_field
  own-Matches m e h = record {
    is_fixed = h.is_fixed;
    fixed_len = h.fixed_len;
    min_len = h.min_len;
    codec = container_field-IsFieldCodec m.ssz e.format h.codec ptr;
  }

  inner-Matches :
      (c : ContainerField A) (f : FieldSpec A)
      → FieldMatches c f
      → FieldMatches (wrap ptr c) (inner_field ptr f)
  unfolding wrap
  inner-Matches c f h = record {
    is_fixed = h.is_fixed;
    fixed_len = h.fixed_len;
    min_len = h.min_len;
    codec = wrap-IsFieldCodec ptr (record { field = c; format = f.format; laws = h.codec });
  }

  inner-FieldsMatch :
      (cs : List (ContainerField A)) (fs : List (FieldSpec A))
      → FieldsMatch cs fs
      → FieldsMatch (map (wrap ptr) cs) (map (inner_field ptr) fs)
  inner-FieldsMatch [] [] h = tt
  inner-FieldsMatch [] (f ∷ fs) h = absurd h
  inner-FieldsMatch (c ∷ cs) [] h = absurd h
  inner-FieldsMatch (c ∷ cs) (f ∷ fs) h = (inner-Matches c f h.0, inner-FieldsMatch cs fs h.1)

  squashed-MadeFieldsMatch :
      (squash : Bool) (c : ContainerField S) (f : FieldSpec S)
      (q : Option (List (ContainerField A))) (r : Option (List (FieldSpec A)))
      → FieldMatches c f
      → SquashMatch q r
      → MadeFieldsMatch
          (elim q [
            | some fields ↦ some (map (wrap ptr) fields)
            | none ↦ if squash then none else some (c ∷ [])
          ])
          (squashed_fields ptr f r)
  squashed-MadeFieldsMatch true c f none none own h = tt
  squashed-MadeFieldsMatch false c f none none own h = (own, tt)
  squashed-MadeFieldsMatch squash c f none (some fs) own h = absurd h
  squashed-MadeFieldsMatch squash c f (some cs) none own h = absurd h
  squashed-MadeFieldsMatch squash c f (some cs) (some fs) own h = inner-FieldsMatch cs fs h

  pub fields-MadeFieldsMatch :
      (omit squash anonymous : Bool) (o : Option (Made A)) (e : TypeSpec A)
      → MadeMatches o e
      → MadeFieldsMatch
          (get_fields (record { omit = omit; squash = squash; anonymous = anonymous }) ptr o)
          (fields_at ptr (record { omit = omit; squash = squash; anonymous = anonymous }) e)
  unfolding get_fields fields_at
  fields-MadeFieldsMatch true squash anonymous none e h = tt
  fields-MadeFieldsMatch false squash anonymous none e h = tt
  fields-MadeFieldsMatch true squash anonymous (some m) e h = tt
  fields-MadeFieldsMatch false false false (some m) e h = (own-Matches m e h, tt)
  fields-MadeFieldsMatch false true false (some m) e h =
      squashed-MadeFieldsMatch true (container_field m.ssz ptr) (own_field ptr e) m.squash_fields
        e.squash_fields (own-Matches m e h) h.squash_fields
  fields-MadeFieldsMatch false false true (some m) e h =
      squashed-MadeFieldsMatch false (container_field m.ssz ptr) (own_field ptr e) m.squash_fields
        e.squash_fields (own-Matches m e h) h.squash_fields
  fields-MadeFieldsMatch false true true (some m) e h =
      squashed-MadeFieldsMatch true (container_field m.ssz ptr) (own_field ptr e) m.squash_fields
        e.squash_fields (own-Matches m e h) h.squash_fields

module _ {S : Type 0} where
  FieldsMatch-append :
      (cs ds : List (ContainerField S)) (fs gs : List (FieldSpec S))
      → FieldsMatch cs fs
      → FieldsMatch ds gs
      → FieldsMatch (cs ++ ds) (fs ++ gs)
  FieldsMatch-append [] ds [] gs h k = k
  FieldsMatch-append [] ds (f ∷ fs) gs h k = absurd h
  FieldsMatch-append (c ∷ cs) ds [] gs h k = absurd h
  FieldsMatch-append (c ∷ cs) ds (f ∷ fs) gs h k = (h.0, FieldsMatch-append cs ds fs gs h.1 k)

  pub append-MadeFieldsMatch :
      {R : Type 0} (ptr : FieldPtrFn S R) (first : Option (List (ContainerField S)))
      (more : Option (List (ContainerField R))) (fs : List (FieldSpec S)) (gs : List (FieldSpec R))
      → MadeFieldsMatch first fs
      → MadeFieldsMatch more gs
      → MadeFieldsMatch (append_fields ptr first more) (fs ++ map (inner_field ptr) gs)
  unfolding append_fields
  append-MadeFieldsMatch ptr none more fs gs h k = tt
  append-MadeFieldsMatch ptr (some cs) none fs gs h k = tt
  append-MadeFieldsMatch ptr (some cs) (some ds) fs gs h k =
      FieldsMatch-append cs (map (wrap ptr) ds) fs (map (inner_field ptr) gs) h
        (inner-FieldsMatch ptr ds gs k)

  same_spec :
      (c : ContainerField S) (f : FieldSpec S) (h : FieldMatches c f)
      → spec_of (record { field = c; format = f.format; laws = h.codec }) ≡ f
  same_spec c f h = λ i. record {
    is_fixed = h.is_fixed i;
    fixed_len = h.fixed_len i;
    min_len = h.min_len i;
    format = f.format;
  }

  lawful_fields :
      (cs : List (ContainerField S)) (fs : List (FieldSpec S))
      → FieldsMatch cs fs
      → (ls : List (LawfulField S)) × (fields_of ls ≡ cs) × (specs_of ls ≡ fs)
  lawful_fields [] [] h = ([], refl, refl)
  lawful_fields [] (f ∷ fs) h = absurd h
  lawful_fields (c ∷ cs) [] h = absurd h
  lawful_fields (c ∷ cs) (f ∷ fs) h =
      let (ls, fields, specs) = lawful_fields cs fs h.1 in
      (
        record { field = c; format = f.format; laws = h.0.codec } ∷ ls,
        ap (c ∷◌) fields,
        ap₂ (λ (g : FieldSpec S) (gs : List (FieldSpec S)). g ∷ gs) (same_spec c f h.0) specs,
      )

  laws_match : (ls : List (LawfulField S)) → FieldsMatch (fields_of ls) (specs_of ls)
  laws_match [] = tt
  laws_match (l ∷ ls) =
      (record { is_fixed = refl; fixed_len = refl; min_len = refl; codec = l.laws }, laws_match ls)

  -- A container of lawful fields matches its specification.
  lawful_container :
      (initial : S) (ls : List (LawfulField S)) (v : SszContainer S)
      → new_ssz_container (fields_of ls) ≡ some v
      → Spec.fixed_total (specs_of ls) < 2 ^ 64
      → Spec.min_total (specs_of ls) < 2 ^ 64
      → Matches
          (record { ssz = ssz_container v initial; squash_fields = some v.fields })
          (container_spec initial (specs_of ls))
  unfolding ssz_container
  lawful_container initial ls v e fits least =
      let lengths = new_ssz_container_lem ls v e fits least in
      record {
        is_fixed = lengths.3;
        fixed_len = lengths.1;
        min_len = lengths.2;
        codec = container-IsCodec initial ls v e fits least;
        squash_fields =
            subst (λ (cs : List (ContainerField S)). FieldsMatch cs (specs_of ls)) (sym lengths.0)
              (laws_match ls);
      }

  made_container :
      (initial : S) (cs : List (ContainerField S)) (fs : List (FieldSpec S))
      (r : Option (SszContainer S))
      → FieldsMatch cs fs
      → new_ssz_container cs ≡ r
      → Spec.fixed_total fs < 2 ^ 64
      → Spec.min_total fs < 2 ^ 64
      → MadeMatches
          (elim r [
            | none ↦ none
            | some v ↦
                some (record { ssz = ssz_container v initial; squash_fields = some v.fields })
          ])
          (container_spec initial fs)
  made_container initial cs fs none h e fits least = tt
  made_container initial cs fs (some v) h e fits least =
      let (ls, fields, specs) = lawful_fields cs fs h in
      subst
        (λ (gs : List (FieldSpec S)).
          Matches (record { ssz = ssz_container v initial; squash_fields = some v.fields })
            (container_spec initial gs))
        specs
        (lawful_container initial ls v (ap new_ssz_container fields ∙ e)
          (subst (λ (gs : List (FieldSpec S)). Spec.fixed_total gs < 2 ^ 64) (sym specs) fits)
          (subst (λ (gs : List (FieldSpec S)). Spec.min_total gs < 2 ^ 64) (sym specs) least))

  pub container-Matches :
      (initial : S) (o : Option (List (ContainerField S))) (fs : List (FieldSpec S))
      → MadeFieldsMatch o fs
      → Spec.fixed_total fs < 2 ^ 64
      → Spec.min_total fs < 2 ^ 64
      → MadeMatches (make_container initial o) (container_spec initial fs)
  unfolding make_container
  container-Matches initial none fs h fits least = tt
  container-Matches initial (some cs) fs h fits least =
      made_container initial cs fs (new_ssz_container cs) h refl fits least
