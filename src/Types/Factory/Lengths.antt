-- ===== src/Types/Factory/Lengths.antt =====
-- The constructors keep the lengths of types and fields in order, so that the checks on these pass.
use zssz.Prelude.{
  ℕ, ◌+◌, ◌^◌, ◌≤◌, ◌<◌, ◌≡◌, refl, sym, ap, subst, ◌∙◌, Bool, true, false, ◌||◌, ◌&&◌, not, Option,
  none, some, List, [], ◌∷◌, ◌++◌, map, length, All, ◌==◌, if◌then◌else◌, if_true, arith,
  length-append, ==→eq,
}
use zssz.Ssz.{Ssz}
use zssz.Types.Basic.{
  Kind, bool, uint8, uint16, uint32, uint64, get_basic_ssz_elem_type, ssz_bool, ssz_uint8,
  ssz_uint16, ssz_uint32, ssz_uint64, ssz_uint,
}
use zssz.Types.Container.{
  FieldPtrFn, ContainerField, SszContainer, container_field, wrap, add_field, add_fields,
  has_valid_lengths, new_ssz_container, ssz_container,
}
use zssz.Types.Factory.{Made, get_fields, make_container, append_fields}

-- A type of fixed size has that length only.
abbrev pub HasValidLengths : {A : Type 0} → Ssz A → Type 0
HasValidLengths s = s.is_fixed ≡ true → (s.fixed_len ≡ s.min_len) × (s.fixed_len ≡ s.max_len)

abbrev AllLengths : {S : Type 0} → List (ContainerField S) → Type 0
AllLengths = All (λ f. has_valid_lengths f ≡ true)

-- The fields that may be squashed are there for a struct alone, at most `most` of them.
abbrev Squashable : {A : Type 0} → Bool → ℕ → Option (List (ContainerField A)) → Type 0
Squashable is_struct most none = is_struct ≡ false
Squashable is_struct most (some fields) =
    (is_struct ≡ true) × AllLengths fields × (length fields ≤ most)

-- What the factory gives for a type is in order, and there is something if the type is `accepted`.
abbrev pub Agrees : {A : Type 0} → Bool → ℕ → Bool → Option (Made A) → Type 0
Agrees is_struct most accepted none = accepted ≡ false
Agrees is_struct most accepted (some m) =
    (accepted ≡ true) × HasValidLengths m.ssz × Squashable is_struct most m.squash_fields

abbrev pub FieldsAgree : {S : Type 0} → ℕ → Bool → Option (List (ContainerField S)) → Type 0
FieldsAgree most accepted none = accepted ≡ false
FieldsAgree most accepted (some fields) =
    (accepted ≡ true) × AllLengths fields × (length fields ≤ most)

pub basic_lengths : (k : Kind) → HasValidLengths (get_basic_ssz_elem_type k)
unfolding get_basic_ssz_elem_type ssz_bool ssz_uint8 ssz_uint16 ssz_uint32 ssz_uint64 ssz_uint
basic_lengths bool e = (refl, refl)
basic_lengths uint8 e = (refl, refl)
basic_lengths uint16 e = (refl, refl)
basic_lengths uint32 e = (refl, refl)
basic_lengths uint64 e = (refl, refl)

-- A field has valid lengths as its type has.
container_field_lengths :
    {S A : Type 0} (s : Ssz A) (ptr : FieldPtrFn S A)
    → HasValidLengths s
    → has_valid_lengths (container_field s ptr) ≡ true
unfolding has_valid_lengths container_field
container_field_lengths s ptr valid = ground (arith, valid)

wrap_lengths :
    {R S : Type 0} (ptr : FieldPtrFn R S) (fields : List (ContainerField S))
    → AllLengths fields
    → AllLengths (map (wrap ptr) fields) × (length (map (wrap ptr) fields) ≡ length fields)
unfolding wrap has_valid_lengths
wrap_lengths ptr [] valid = (tt, refl)
wrap_lengths ptr (f ∷ fields) valid =
    let rest = wrap_lengths ptr fields valid.1 in ((valid.0, rest.0), omega (arith, rest.1))

squashed-FieldsAgree :
    {S A : Type 0} (squash : Bool) (ptr : FieldPtrFn S A) (own : ContainerField S)
    (is_struct : Bool) (most : ℕ) (accepted : Bool) (q : Option (List (ContainerField A)))
    → accepted ≡ true
    → has_valid_lengths own ≡ true
    → Squashable is_struct most q
    → FieldsAgree (1 + most) (accepted && (not squash || is_struct)) (elim q [
      | some fields ↦ some (map (wrap ptr) fields)
      | none ↦ if squash then none else some (own ∷ [])
    ])
squashed-FieldsAgree false ptr own is_struct most accepted none known valid q =
    (ground (arith, known), (valid, tt), omega arith)
squashed-FieldsAgree true ptr own is_struct most accepted none known valid q =
    ground (arith, known, q)
squashed-FieldsAgree false ptr own is_struct most accepted (some fields) known valid q =
    let moved = wrap_lengths ptr fields q.1 in
    (ground (arith, known), moved.0, omega (arith, moved.1, q.2))
squashed-FieldsAgree true ptr own is_struct most accepted (some fields) known valid q =
    let moved = wrap_lengths ptr fields q.1 in
    (ground (arith, known, q.0), moved.0, omega (arith, moved.1, q.2))

-- The fields of a struct field agree with what the factory makes of its type.
pub fields-FieldsAgree :
    {S A : Type 0} (omit squash anonymous : Bool) (ptr : FieldPtrFn S A) (is_struct : Bool)
    (most : ℕ) (accepted : Bool) (o : Option (Made A))
    → Agrees is_struct most accepted o
    → FieldsAgree
        (1 + most)
        (omit || (accepted && (not squash || is_struct)))
        (get_fields (record { omit = omit; squash = squash; anonymous = anonymous }) ptr o)
unfolding get_fields
fields-FieldsAgree true squash anonymous ptr is_struct most accepted none h =
    (refl, tt, omega arith)
fields-FieldsAgree false squash anonymous ptr is_struct most accepted none h =
    ap (λ (b : Bool). b && (not squash || is_struct)) h
fields-FieldsAgree true squash anonymous ptr is_struct most accepted (some m) h =
    (refl, tt, omega arith)
fields-FieldsAgree false false false ptr is_struct most accepted (some m) h =
    (ground (arith, h.0), (container_field_lengths m.ssz ptr h.1, tt), omega arith)
fields-FieldsAgree false false true ptr is_struct most accepted (some m) h =
    squashed-FieldsAgree false ptr (container_field m.ssz ptr) is_struct most accepted
      m.squash_fields h.0 (container_field_lengths m.ssz ptr h.1) h.2
fields-FieldsAgree false true false ptr is_struct most accepted (some m) h =
    squashed-FieldsAgree true ptr (container_field m.ssz ptr) is_struct most accepted
      m.squash_fields h.0 (container_field_lengths m.ssz ptr h.1) h.2
fields-FieldsAgree false true true ptr is_struct most accepted (some m) h =
    squashed-FieldsAgree true ptr (container_field m.ssz ptr) is_struct most accepted
      m.squash_fields h.0 (container_field_lengths m.ssz ptr h.1) h.2

All-append : {A : Type 0} (P : A → Type 0) (xs ys : List A) → All P xs → All P ys → All P (xs ++ ys)
All-append P [] ys h k = k
All-append P (x ∷ xs) ys h k = (h.0, All-append P xs ys h.1 k)

pub append-Agree :
    {S R : Type 0} (ptr : FieldPtrFn S R) (m n : ℕ) (b c : Bool)
    (first : Option (List (ContainerField S))) (more : Option (List (ContainerField R)))
    → FieldsAgree m b first
    → FieldsAgree n c more
    → FieldsAgree (m + n) (b && c) (append_fields ptr first more)
unfolding append_fields
append-Agree ptr m n b c none more h k = ap (◌&& c) h
append-Agree ptr m n b c (some fields) none h k = ground (arith, h.0, k)
append-Agree ptr m n b c (some fields) (some more) h k =
    let moved = wrap_lengths ptr more k.1 in
    (
      ground (arith, h.0, k.0),
      All-append (λ f. has_valid_lengths f ≡ true) fields (map (wrap ptr) more) h.1 moved.0,
      omega (arith, length-append fields (map (wrap ptr) more), moved.1, h.2, k.2),
    )

-- While no field of variable size was added, the lengths are the same.
abbrev SameLengths : {S : Type 0} → SszContainer S → Type 0
SameLengths res =
    res.offset_count ≡ 0 → (res.fixed_len ≡ res.min_len) × (res.fixed_len ≡ res.max_len)

add_field_keeps :
    {S : Type 0} (f : ContainerField S) (res : SszContainer S)
    → has_valid_lengths f ≡ true
    → res.offset_count + 1 < 2 ^ 64
    → SameLengths res
    → SameLengths (add_field f res)
      × ((add_field f res).offset_count ≤ res.offset_count + 1)
      × ((add_field f res).fields ≡ res.fields)
unfolding add_field has_valid_lengths
add_field_keeps f res valid few same = ground (arith, same)

add_fields_valid :
    {S : Type 0} (fields : List (ContainerField S)) (res : SszContainer S)
    → AllLengths fields
    → res.offset_count + length fields < 2 ^ 64
    → SameLengths res
    → (v : SszContainer S) × (add_fields fields res ≡ some v)
      × SameLengths v
      × (v.fields ≡ res.fields)
unfolding add_fields
add_fields_valid [] res valid few same = (res, refl, same, refl)
add_fields_valid (f ∷ fields) res valid few same =
    let (kept, most, as_before) = add_field_keeps f res valid.0 (omega (arith, few)) same in
    let (v, e, kept_v, fields_v) =
      add_fields_valid fields (add_field f res) valid.1 (omega (arith, few, most)) kept in
    (v, if_true _ _ valid.0 ∙ e, kept_v, fields_v ∙ as_before)

abbrev empty : {S : Type 0} → List (ContainerField S) → SszContainer S
empty fields = record {
  fields = fields;
  is_fixed_len = false;
  fixed_len = 0;
  min_len = 0;
  max_len = 0;
  offset_count = 0;
  fuzz_min_len = 0;
  fuzz_max_len = 0;
}

container_made :
    {S : Type 0} (fields : List (ContainerField S)) (initial : S)
    → AllLengths fields
    → length fields < 2 ^ 64
    → (v : SszContainer S) × (new_ssz_container fields ≡ some v)
      × HasValidLengths (ssz_container v initial)
      × (v.fields ≡ fields)
unfolding new_ssz_container ssz_container
container_made {S} fields initial valid few =
    let (v, e, same, fields_eq) =
      add_fields_valid fields (empty fields) valid (omega (arith, few)) (λ e. (refl, refl)) in
    (
      record v { is_fixed_len = v.offset_count == 0 },
      ap
          (λ (r : Option (SszContainer S)). elim r as (λ _. Option (SszContainer S)) [
            | none ↦ none
            | some res ↦ some (record res { is_fixed_len = res.offset_count == 0 })
          ])
          e,
      (λ fixed. same (==→eq _ _ fixed)),
      fields_eq,
    )

pub container-Agrees :
    {S : Type 0} (initial : S) (most : ℕ) (accepted : Bool) (o : Option (List (ContainerField S)))
    → most < 2 ^ 64
    → FieldsAgree most accepted o
    → Agrees true most accepted (make_container initial o)
unfolding make_container
container-Agrees initial most accepted none few h = h
container-Agrees {S} initial most accepted (some fields) few h =
    let (v, e, lengths, fields_eq) = container_made fields initial h.1 (omega (arith, few, h.2)) in
    let whole : make_container initial (some fields)
        ≡ some (record { ssz = ssz_container v initial; squash_fields = some v.fields }) =
      ap
        (λ (r : Option (SszContainer S)). elim r as (λ _. Option (Made S)) [
          | none ↦ none
          | some w ↦ some (record { ssz = ssz_container w initial; squash_fields = some w.fields })
        ])
        e in
    subst (λ (o : Option (Made S)). Agrees true most accepted o) (sym whole)
      (
        h.0,
        lengths,
        (refl, subst AllLengths (sym fields_eq) h.1, omega (arith, ap length fields_eq, h.2)),
      )
