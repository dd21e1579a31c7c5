-- ===== src/Types/Roots/Matches.antt =====
-- The methods of fields and containers that types/factory.go puts together return their roots.
use zssz.Prelude.{
  ℕ, ◌^◌, ◌<◌, ◌≡◌, refl, sym, subst, Bool, true, false, Option, none, some, List, [], ◌∷◌, ◌++◌,
  map, length, ◌==◌, if◌then◌else◌, arith,
}
use zssz.Htr.{HashFn}
use zssz.Types.Container.{
  FieldPtrFn, ContainerField, SszContainer, container_field, wrap, add_field, add_fields,
  new_ssz_container, ssz_container,
}
use zssz.Types.Factory.{Made, get_fields, append_fields, make_container}
use zssz.Types.Roots.{RootFormat, HasRoot}
use zssz.Types.Roots.Container.{HasFieldRoot, FieldsHaveRoots, container_root, container-HasRoot}
use zssz.Types.Roots.Spec.{TypeRoot, root_at, squashed_roots, roots_at}

abbrev pub SquashHaveRoots :
    {S : Type 0} → HashFn → Option (List (ContainerField S)) → Option (List (RootFormat S)) → Type 0
SquashHaveRoots h none none = Unit
SquashHaveRoots h none (some fs) = ⊥
SquashHaveRoots h (some cs) none = ⊥
SquashHaveRoots h (some cs) (some fs) = FieldsHaveRoots h cs fs

-- The methods return the roots, where there is no error.
abbrev pub MadeHasRoot : {A : Type 0} → HashFn → Option (Made A) → TypeRoot A → Type 0
MadeHasRoot h none e = Unit
MadeHasRoot h (some m) e =
    HasRoot h m.ssz e.format × SquashHaveRoots h m.squash_fields e.squash_fields

abbrev pub MadeFieldsHaveRoots :
    {S : Type 0} → HashFn → Option (List (ContainerField S)) → List (RootFormat S) → Type 0
MadeFieldsHaveRoots h none fs = Unit
MadeFieldsHaveRoots h (some cs) fs = FieldsHaveRoots h cs fs

module _ (h : HashFn) {S A : Type 0} (ptr : FieldPtrFn S A) where
  own-HasFieldRoot :
      (m : Made A) (f : RootFormat A)
      → HasRoot h m.ssz f
      → HasFieldRoot h (container_field m.ssz ptr) (root_at ptr f)
  unfolding container_field
  own-HasFieldRoot m f law = record {
    returns = λ s v. law.returns (ptr.get s) v;
    size = λ s v. law.size (ptr.get s) v;
  }

  inner-FieldsHaveRoots :
      (cs : List (ContainerField A)) (fs : List (RootFormat A))
      → FieldsHaveRoots h cs fs
      → FieldsHaveRoots h (map (wrap ptr) cs) (map (root_at ptr) fs)
  unfolding wrap
  inner-FieldsHaveRoots [] [] laws = tt
  inner-FieldsHaveRoots [] (f ∷ fs) laws = absurd laws
  inner-FieldsHaveRoots (c ∷ cs) [] laws = absurd laws
  inner-FieldsHaveRoots (c ∷ cs) (f ∷ fs) laws = (
    record {
      returns = λ s v. laws.0.returns (ptr.get s) v;
      size = λ s v. laws.0.size (ptr.get s) v;
    },
    inner-FieldsHaveRoots cs fs laws.1,
  )

  squashed-MadeFieldsHaveRoots :
      (squash : Bool) (c : ContainerField S) (f : RootFormat S)
      (q : Option (List (ContainerField A))) (r : Option (List (RootFormat A)))
      → HasFieldRoot h c f
      → SquashHaveRoots h q r
      → MadeFieldsHaveRoots h
          (elim q [
            | some fields ↦ some (map (wrap ptr) fields)
            | none ↦ if squash then none else some (c ∷ [])
          ])
          (squashed_roots ptr f r)
  squashed-MadeFieldsHaveRoots true c f none none own laws = tt
  squashed-MadeFieldsHaveRoots false c f none none own laws = (own, tt)
  squashed-MadeFieldsHaveRoots squash c f none (some fs) own laws = absurd laws
  squashed-MadeFieldsHaveRoots squash c f (some cs) none own laws = absurd laws
  squashed-MadeFieldsHaveRoots squash c f (some cs) (some fs) own laws =
      inner-FieldsHaveRoots cs fs laws

  pub fields-MadeFieldsHaveRoots :
      (omit squash anonymous : Bool) (o : Option (Made A)) (e : TypeRoot A)
      → MadeHasRoot h o e
      → MadeFieldsHaveRoots h
          (get_fields (record { omit = omit; squash = squash; anonymous = anonymous }) ptr o)
          (roots_at ptr (record { omit = omit; squash = squash; anonymous = anonymous }) e)
  unfolding get_fields roots_at
  fields-MadeFieldsHaveRoots true squash anonymous none e law = tt
  fields-MadeFieldsHaveRoots false squash anonymous none e law = tt
  fields-MadeFieldsHaveRoots true squash anonymous (some m) e law = tt
  fields-MadeFieldsHaveRoots false false false (some m) e law =
      (own-HasFieldRoot m e.format law.0, tt)
  fields-MadeFieldsHaveRoots false true false (some m) e law =
      squashed-MadeFieldsHaveRoots true _ _ m.squash_fields e.squash_fields
        (own-HasFieldRoot m e.format law.0) law.1
  fields-MadeFieldsHaveRoots false squash true (some m) e law =
      squashed-MadeFieldsHaveRoots squash _ _ m.squash_fields e.squash_fields
        (own-HasFieldRoot m e.format law.0) law.1

module _ (h : HashFn) {S : Type 0} where
  FieldsHaveRoots-append :
      (cs ds : List (ContainerField S)) (fs gs : List (RootFormat S))
      → FieldsHaveRoots h cs fs
      → FieldsHaveRoots h ds gs
      → FieldsHaveRoots h (cs ++ ds) (fs ++ gs)
  FieldsHaveRoots-append [] ds [] gs laws more = more
  FieldsHaveRoots-append [] ds (f ∷ fs) gs laws more = absurd laws
  FieldsHaveRoots-append (c ∷ cs) ds [] gs laws more = absurd laws
  FieldsHaveRoots-append (c ∷ cs) ds (f ∷ fs) gs laws more =
      (laws.0, FieldsHaveRoots-append cs ds fs gs laws.1 more)

  pub append-MadeFieldsHaveRoots :
      {R : Type 0} (ptr : FieldPtrFn S R) (first : Option (List (ContainerField S)))
      (more : Option (List (ContainerField R))) (fs : List (RootFormat S))
      (gs : List (RootFormat R))
      → MadeFieldsHaveRoots h first fs
      → MadeFieldsHaveRoots h more gs
      → MadeFieldsHaveRoots h (append_fields ptr first more) (fs ++ map (root_at ptr) gs)
  unfolding append_fields
  append-MadeFieldsHaveRoots ptr none more fs gs laws others = tt
  append-MadeFieldsHaveRoots ptr (some cs) none fs gs laws others = tt
  append-MadeFieldsHaveRoots ptr (some cs) (some ds) fs gs laws others =
      FieldsHaveRoots-append cs (map (wrap ptr) ds) fs (map (root_at ptr) gs) laws
        (inner-FieldsHaveRoots h ptr ds gs others)

  add_field-fields :
      (c : ContainerField S) (res : SszContainer S) → (add_field c res).fields ≡ res.fields
  unfolding add_field
  add_field-fields c res = ground arith

  add_fields-fields :
      (cs : List (ContainerField S)) (res v : SszContainer S)
      → add_fields cs res ≡ some v
      → v.fields ≡ res.fields
  unfolding add_fields
  add_fields-fields [] res v e = ground arith
  add_fields-fields (c ∷ cs) res v e =
      ground (arith, add_field-fields c res, add_fields-fields cs (add_field c res) v)

  finished_fields :
      (cs : List (ContainerField S)) (v res : SszContainer S) (r : Option (SszContainer S))
      → add_fields cs res ≡ r
      → (elim r as (λ _. Option (SszContainer S)) [
        | none ↦ none
        | some res ↦ some (record res { is_fixed_len = res.offset_count == 0 })
      ])
        ≡ some v
      → v.fields ≡ res.fields
  finished_fields cs v res none e f = absurd (ground arith)
  finished_fields cs v res (some done) e f = ground (arith, add_fields-fields cs res done e)

  pub new_ssz_container-fields :
      (cs : List (ContainerField S)) (v : SszContainer S)
      → new_ssz_container cs ≡ some v
      → v.fields ≡ cs
  unfolding new_ssz_container
  new_ssz_container-fields cs v e = finished_fields cs v _ _ refl e

  made_container :
      (hash_size : (input : List ℕ) → length (h input) ≡ 32) (initial : S)
      (cs : List (ContainerField S)) (fs : List (RootFormat S)) (r : Option (SszContainer S))
      → FieldsHaveRoots h cs fs
      → new_ssz_container cs ≡ r
      → length fs < 2 ^ 64
      → MadeHasRoot h
          (elim r [
            | none ↦ none
            | some v ↦
                some (record { ssz = ssz_container v initial; squash_fields = some v.fields })
          ])
          (record { format = container_root h fs; squash_fields = some fs })
  made_container hash_size initial cs fs none laws e word = tt
  made_container hash_size initial cs fs (some v) laws e word =
      let own : FieldsHaveRoots h v.fields fs =
        subst (λ (ds : List (ContainerField S)). FieldsHaveRoots h ds fs)
          (sym (new_ssz_container-fields cs v e)) laws in
      (container-HasRoot h hash_size v initial fs own word, own)

  pub container-MadeHasRoot :
      (hash_size : (input : List ℕ) → length (h input) ≡ 32) (initial : S)
      (o : Option (List (ContainerField S))) (fs : List (RootFormat S))
      → MadeFieldsHaveRoots h o fs
      → length fs < 2 ^ 64
      → MadeHasRoot h
          (make_container initial o)
          (record { format = container_root h fs; squash_fields = some fs })
  unfolding make_container
  container-MadeHasRoot hash_size initial none fs laws word = tt
  container-MadeHasRoot hash_size initial (some cs) fs laws word =
      made_container hash_size initial cs fs (new_ssz_container cs) laws refl word
