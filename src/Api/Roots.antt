-- ===== src/Api/Roots.antt =====
-- `HashTreeRoot` and `SigningRoot` of zssz.go on what types/factory.go makes.
use zssz.Prelude.{◌-◌, ◌^◌, ◌<◌, sym, take, ℕ, ◌≡◌, subst, Bool, Option, some, List, length}
use zssz.Htr.{HashFn}
use zssz.Merkle.Tree.{hashing_with}
use zssz.Merkle.Chunks.{IsChunk, merkle_root}
use zssz.Types.Container.{ContainerField, SszContainer, new_ssz_container}
use zssz.Types.Factory.{Fields, Struct, struct_fields, GoType, Value, Made, ssz_factory}
use zssz.Types.Roots.Container.{FieldsHaveRoots, AllFields, field_roots, signing_root_lem}
use zssz.Types.Roots.Spec.{struct_roots, FieldsCount, type_root, Counts}
use zssz.Types.Roots.Matches.{MadeHasRoot, MadeFieldsHaveRoots, new_ssz_container-fields}
use zssz.Types.Roots.Factory.{type-MadeHasRoot, struct-MadeFieldsHaveRoots}
use zssz.Api.{hash_tree_root, signing_root}

-- On a machine of either byte order, with a hash function whose results have 32 bytes, `HashTreeRoot`
-- with what the factory makes of a Go type returns the root that SSZ gives each valid value, which is
-- described by recursion on the type, and it has 32 bytes, if the numbers of chunks are within 64 bits.
-- The bitlists with 249 to 255 bits more than a multiple of 256 are not valid there.
pub ssz_factory-hash_tree_root :
    (h : HashFn) (little : Bool) (t : GoType) (m : Made (Value t)) (value : Value t)
    → ((input : List ℕ) → length (h input) ≡ 32)
    → ssz_factory little t ≡ some m
    → Counts h t
    → (type_root h t).format.Valid value
    → (hash_tree_root (hashing_with h) m.ssz value ≡ some ((type_root h t).format.root value))
      × IsChunk ((type_root h t).format.root value)
unfolding hash_tree_root
ssz_factory-hash_tree_root h little t m value hash_size e counts v =
    let law =
      (subst (λ (o : Option (Made (Value t))). MadeHasRoot h o (type_root h t)) e
        (type-MadeHasRoot h hash_size little t counts)).0 in
    (law.returns value v, law.size value v)

-- On a machine of either byte order, with a hash function whose results have 32 bytes, `SigningRoot` with
-- the container that is made of the fields of a struct returns the root of the tree with the roots of
-- all fields but the last, for a struct whose fields are valid and whose numbers of chunks are within
-- 64 bits.
pub struct-signing_root :
    (h : HashFn) (little : Bool) (fs : Fields) (cs : List (ContainerField (Struct fs)))
    (v : SszContainer (Struct fs)) (value : Struct fs)
    → ((input : List ℕ) → length (h input) ≡ 32)
    → struct_fields little fs ≡ some cs
    → new_ssz_container cs ≡ some v
    → FieldsCount h fs
    → length (struct_roots h fs) < 2 ^ 64
    → AllFields (struct_roots h fs) value
    → signing_root (hashing_with h) v value
      ≡ some (
          merkle_root h
            (length (struct_roots h fs) - 1)
            (take (length (struct_roots h fs) - 1) (field_roots (struct_roots h fs) value)))
unfolding signing_root
struct-signing_root h little fs cs v value hash_size e made counts word valid =
    let fields =
      subst
        (λ (o : Option (List (ContainerField (Struct fs)))).
          MadeFieldsHaveRoots h o (struct_roots h fs))
        e (struct-MadeFieldsHaveRoots h hash_size little fs counts) in
    let own =
      subst (λ (ds : List (ContainerField (Struct fs))). FieldsHaveRoots h ds (struct_roots h fs))
        (sym (new_ssz_container-fields h cs v made)) fields in
    signing_root_lem h hash_size v (struct_roots h fs) value own word valid
