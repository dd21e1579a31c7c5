-- ===== src/Types/Container.antt =====
-- types/ssz_container.go: structs. A field is what the code reaches by `ptrFn` in a struct of type
-- `S`: its methods, as functions of the struct.
pub mod Spec
pub mod Fields
pub mod Lengths
pub mod Encode
pub mod Decode
pub mod Codec
use zssz.Prelude.{
  ℕ, ◌+◌, ◌-◌, ◌^◌, Bool, true, false, ◌&&◌, not, Option, none, some, List, [], ◌∷◌, ◌++◌, length,
  map, ltb, get_elem?, ◌==◌, if◌then◌else◌, u64,
}
use zssz.Outcome.{ok, err, panic, Error, ◌>>=◌, ◌>>◌, pure}
use zssz.Dec.{DecodingReader, Decoder, read_offset, get_bytes_span, in_scope}
use zssz.Enc.{EncodingWriter, Encoder, write_offset}
use zssz.Htr.{Root, Hashing}
use zssz.Merkle
use zssz.Merkle.{merkleize}
use zssz.Ssz.{Ssz, bytes_per_length_offset}
use zssz.Types.VarSeries.{fuzz_available}

-- The part of a struct that a pointer into it reaches.
pub record FieldPtrFn (S A : Type 0) : Type 0 where
  pub get : S → A
  pub set : A → S → S

-- The memory offset of an inner struct comes first.
unfoldable pub wrap_offset : {R S A : Type 0} → FieldPtrFn R S → FieldPtrFn S A → FieldPtrFn R A
wrap_offset outer inner = record {
  get = λ r. inner.get (outer.get r);
  set = λ a r. outer.set (inner.set a (outer.get r)) r;
}

pub record ContainerField (S : Type 0) : Type 0 where
  pub fuzz_min_len : ℕ
  pub fuzz_max_len : ℕ
  pub min_len : ℕ
  pub max_len : ℕ
  pub fixed_len : ℕ
  pub is_fixed : Bool
  pub dry_check : Decoder (Unit {0})
  pub size_of : S → ℕ
  pub encode : S → Encoder
  pub decode : S → Decoder S
  pub hash_tree_root : Hashing → S → Option Root

-- A field with the type `ssz` at `ptr`, of which `decode` stores the value in the struct.
unfoldable pub container_field : {S A : Type 0} → Ssz A → FieldPtrFn S A → ContainerField S
container_field ssz ptr = record {
  fuzz_min_len = ssz.fuzz_min_len;
  fuzz_max_len = ssz.fuzz_max_len;
  min_len = ssz.min_len;
  max_len = ssz.max_len;
  fixed_len = ssz.fixed_len;
  is_fixed = ssz.is_fixed;
  dry_check = ssz.dry_check;
  size_of = λ s. ssz.size_of (ptr.get s);
  encode = λ s. ssz.encode (ptr.get s);
  decode = λ s. ssz.decode >>= λ a. pure (ptr.set a s);
  hash_tree_root = λ hashing s. ssz.hash_tree_root hashing (ptr.get s);
}

-- `Wrap` of a field of a squashed struct that stands at `ptr`.
unfoldable pub wrap : {R S : Type 0} → FieldPtrFn R S → ContainerField S → ContainerField R
wrap ptr f = record {
  fuzz_min_len = f.fuzz_min_len;
  fuzz_max_len = f.fuzz_max_len;
  min_len = f.min_len;
  max_len = f.max_len;
  fixed_len = f.fixed_len;
  is_fixed = f.is_fixed;
  dry_check = f.dry_check;
  size_of = λ r. f.size_of (ptr.get r);
  encode = λ r. f.encode (ptr.get r);
  decode = λ r. f.decode (ptr.get r) >>= λ s. pure (ptr.set s r);
  hash_tree_root = λ hashing r. f.hash_tree_root hashing (ptr.get r);
}

pub record SszContainer (S : Type 0) : Type 0 where
  pub fields : List (ContainerField S)
  pub is_fixed_len : Bool
  pub fixed_len : ℕ
  pub min_len : ℕ
  pub max_len : ℕ
  pub offset_count : ℕ
  pub fuzz_min_len : ℕ
  pub fuzz_max_len : ℕ

module _ {S : Type 0} where
  -- What a field adds to the lengths of its container.
  unfoldable pub add_field : ContainerField S → SszContainer S → SszContainer S
  add_field f res =
      let fuzzed = record res {
        fuzz_min_len = u64 (res.fuzz_min_len + f.fuzz_min_len);
        fuzz_max_len = u64 (res.fuzz_max_len + f.fuzz_max_len);
      } in
      if f.is_fixed
      then record fuzzed {
        fixed_len = u64 (res.fixed_len + f.fixed_len);
        min_len = u64 (res.min_len + f.fixed_len);
        max_len = u64 (res.max_len + f.fixed_len);
      }
      else record fuzzed {
        fixed_len = u64 (res.fixed_len + bytes_per_length_offset);
        min_len = u64 (res.min_len + u64 (bytes_per_length_offset + f.min_len));
        max_len = u64 (res.max_len + u64 (bytes_per_length_offset + f.max_len));
        offset_count = u64 (res.offset_count + 1);
      }

  -- Whether the loop goes on: a field of fixed size has that length only.
  unfoldable pub has_valid_lengths : ContainerField S → Bool
  has_valid_lengths f =
      if f.is_fixed then (f.fixed_len == f.min_len) && (f.fixed_len == f.max_len) else true

  -- `none` is the error of a field with invalid lengths.
  unfoldable pub add_fields : List (ContainerField S) → SszContainer S → Option (SszContainer S)
  add_fields [] res = some res
  add_fields (f ∷ fields) res =
      if has_valid_lengths f then add_fields fields (add_field f res) else none

  unfoldable pub new_ssz_container : List (ContainerField S) → Option (SszContainer S)
  new_ssz_container fields =
      let empty : SszContainer S = record {
        fields = fields;
        is_fixed_len = false;
        fixed_len = 0;
        min_len = 0;
        max_len = 0;
        offset_count = 0;
        fuzz_min_len = 0;
        fuzz_max_len = 0;
      } in
      elim (add_fields fields empty) [
        | none ↦ none
        | some res ↦ some (record res { is_fixed_len = res.offset_count == 0 })
      ]

  unfoldable pub add_field_sizes : ℕ → List (ContainerField S) → S → ℕ
  add_field_sizes out [] s = out
  add_field_sizes out (f ∷ fields) s =
      add_field_sizes (if f.is_fixed then out else u64 (out + f.size_of s)) fields s

  unfoldable pub size_of : SszContainer S → S → ℕ
  size_of v s = add_field_sizes v.fixed_len v.fields s

  -- The loop of the hot path.
  unfoldable pub encode_fields : List (ContainerField S) → S → Encoder
  encode_fields [] s = pure tt
  encode_fields (f ∷ fields) s = f.encode s >> encode_fields fields s

  unfoldable pub encode_fixed_part : List (ContainerField S) → S → ℕ → ℕ → Encoder
  encode_fixed_part [] s prev_offset prev_size ew = ok tt ew
  encode_fixed_part (f ∷ fields) s prev_offset prev_size ew =
      if f.is_fixed
      then (f.encode s >> encode_fixed_part fields s prev_offset prev_size) ew
      else (write_offset prev_offset prev_size >>= λ offset.
            encode_fixed_part fields s offset (f.size_of s))
          ew

  unfoldable pub encode_dynamic_part : List (ContainerField S) → S → Encoder
  encode_dynamic_part [] s ew = ok tt ew
  encode_dynamic_part (f ∷ fields) s ew =
      if f.is_fixed
      then encode_dynamic_part fields s ew
      else (f.encode s >> encode_dynamic_part fields s) ew

  unfoldable pub encode : SszContainer S → S → Encoder
  encode v s ew =
      if v.is_fixed_len
      then encode_fields v.fields s ew
      else (encode_fixed_part v.fields s v.fixed_len 0 >> encode_dynamic_part v.fields s) ew

  -- The loop of `decodeVarSizeFuzzmode`.
  unfoldable pub fuzz_fields : List (ContainerField S) → ℕ → S → Decoder S
  fuzz_fields [] length_left_over s = pure s
  fuzz_fields (f ∷ fields) length_left_over s = do
    let left = u64 (length_left_over + 2 ^ 64 - f.fuzz_min_len)
    available ← fuzz_available left
    t ← in_scope true available (f.decode s)
    fuzz_fields fields left t

-- The check on the index that follows a field, and the whole fixed part.
unfoldable pub check_fixed : ℕ → Decoder (Unit {0})
check_fixed expected dr = if dr.i == expected then ok tt dr else err Error.fixed_part_mismatch dr

unfoldable pub check_offset : ℕ → ℕ → Decoder ℕ
check_offset current scope dr =
    if dr.i == current then ok scope dr else err Error.offset_mismatch dr

-- The scope of the field at the offset `current`: up to the next offset, or all that is left.
unfoldable pub dynamic_scope : ℕ → List ℕ → Decoder ℕ
unfolding check_offset
dynamic_scope current [] dr = check_offset current (u64 (dr.max + 2 ^ 64 - current)) dr
dynamic_scope current (next ∷ offsets) dr =
    if ltb next current
    then err Error.offset_invalid dr
    else check_offset current (next - current) dr

-- `field_handler` works on what it has made so far: the struct, or nothing for a dry check.
module _ {S X : Type 0} (field_handler : ContainerField S → X → Decoder X) where
  -- The loop of `processFixedPart`, with the offsets that it reads.
  unfoldable pub process_fields : List (ContainerField S) → ℕ → X → Decoder (List ℕ × X)
  process_fields [] fixed_i x dr = ok ([], x) dr
  process_fields (f ∷ fields) fixed_i x dr =
      if f.is_fixed
      then (do
        y ← field_handler f x
        check_fixed (u64 (fixed_i + f.fixed_len))
        process_fields fields (u64 (fixed_i + f.fixed_len)) y)
          dr
      else (do
        offset ← read_offset
        check_fixed (u64 (fixed_i + bytes_per_length_offset))
        rest ← process_fields fields (u64 (fixed_i + bytes_per_length_offset)) x
        pure (offset ∷ rest.0, rest.1))
          dr

  unfoldable pub process_fixed_part : SszContainer S → X → Decoder (List ℕ × X)
  process_fixed_part v x dr =
      (do
        result ← process_fields v.fields dr.i x
        check_fixed (u64 (v.fixed_len + dr.i))
        pure result)
        dr

  -- The loop of `decodeDynamicPart`, from the field on that `offsets` begins with. An index out of
  -- their range is a panic.
  unfoldable pub decode_dynamic_part : List (ContainerField S) → List ℕ → X → Decoder X
  decode_dynamic_part [] offsets x dr = ok x dr
  decode_dynamic_part (f ∷ fields) [] x dr =
      if f.is_fixed then decode_dynamic_part fields [] x dr else panic
  decode_dynamic_part (f ∷ fields) (offset ∷ offsets) x dr =
      if f.is_fixed
      then decode_dynamic_part fields (offset ∷ offsets) x dr
      else (do
        scope ← dynamic_scope offset offsets
        y ← in_scope false scope (field_handler f x)
        decode_dynamic_part fields offsets y)
          dr

  -- Both parts, as `decodeVarSize` and `DryCheck` put them together.
  unfoldable pub process_parts : SszContainer S → X → Decoder X
  process_parts v x = do
    result ← process_fixed_part v x
    decode_dynamic_part v.fields result.0 result.1

module _ {S : Type 0} (v : SszContainer S) where
  unfoldable pub decode_var_size_fuzzmode : S → Decoder S
  decode_var_size_fuzzmode s = fuzz_fields v.fields v.fuzz_min_len s

  unfoldable pub decode_var_size : S → Decoder S
  decode_var_size = process_parts (λ f. f.decode) v

  unfoldable pub decode : S → Decoder S
  decode s dr = if dr.fuzz_mode then decode_var_size_fuzzmode s dr else decode_var_size s dr

  unfoldable pub dry_check : Decoder (Unit {0})
  dry_check = process_parts (λ f done. f.dry_check) v tt

  -- The closure `leaf`: the root of the field at an index.
  unfoldable pub field_leaf : Hashing → S → ℕ → Option Root
  field_leaf hashing s i = Merkle.◌>>=◌ (get_elem? v.fields i) (λ f. f.hash_tree_root hashing s)

  unfoldable pub hash_tree_root : Hashing → S → Option Root
  hash_tree_root hashing s =
      let leaf_count = length v.fields in
      merkleize hashing leaf_count leaf_count (field_leaf hashing s)

  -- The last field is left out.
  unfoldable pub signing_root : Hashing → S → Option Root
  signing_root hashing s =
      let leaf_count = length v.fields - 1 in
      merkleize hashing leaf_count leaf_count (field_leaf hashing s)

  -- The methods of the type; `initial` is what the memory holds that is decoded into.
  unfoldable pub ssz_container : S → Ssz S
  ssz_container initial = record {
    fuzz_min_len = v.fuzz_min_len;
    fuzz_max_len = v.fuzz_max_len;
    min_len = v.min_len;
    max_len = v.max_len;
    fixed_len = v.fixed_len;
    is_fixed = v.is_fixed_len;
    dry_check = dry_check;
    size_of = size_of v;
    encode = encode v;
    decode = decode initial;
    hash_tree_root = hash_tree_root;
  }
