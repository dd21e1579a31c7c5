-- ===== src/Types/VarSeries/Decode.antt =====
-- Reading back what `EncodeVarSeries` writes, in a scope that it fills.
use zssz.Prelude.{
  ℕ, ◌+◌, ◌*◌, ◌^◌, ◌<◌, ◌≡◌, refl, sym, ap, subst, Bool, false, List, [], ◌∷◌, map, length, All,
  length-append, length-le_bytes, le_bytes, arith,
}
use zssz.Outcome.{ok, ◌>>=◌}
use zssz.Dec.{DecodingReader, Decoder, read_offset, in_scope}
use zssz.Dec.Laws.{advance_reader}
use zssz.Dec.Holds.{
  Holds, Holds-front, Holds-back, Holds-scoped, advance_reader-advance_reader, advance_reader-zero,
  read_uint-Holds, in_scope-Holds, scoped_reader,
}
use zssz.Ssz.{Format}
use zssz.Types.FixedSeries.Codec.{serialize_all, Reads}
use zssz.Types.VarSeries.{
  next_scope, finish_scope, decode_elems, decode_var_series_from_offsets, read_offsets,
}
use zssz.Types.VarSeries.Encode.{serialize_offsets}

-- The offsets of the elements, of which the first stands at `offset`.
abbrev pub offsets_from : {A : Type 0} → Format A → ℕ → List A → List ℕ
offsets_from f offset [] = []
offsets_from f offset (x ∷ xs) = offset ∷ offsets_from f (offset + length (f.serialize x)) xs

pub i-advance_reader : (k : ℕ) (dr : DecodingReader) → (advance_reader k dr).i ≡ dr.i + k
unfolding advance_reader
i-advance_reader k dr = refl

pub max-advance_reader : (k : ℕ) (dr : DecodingReader) → (advance_reader k dr).max ≡ dr.max
unfolding advance_reader
max-advance_reader k dr = refl

pub read_offset-Holds :
    (x : ℕ) (dr : DecodingReader)
    → x < 2 ^ 32
    → Holds (le_bytes 4 x) dr
    → read_offset dr ≡ ok x (advance_reader 4 dr)
unfolding read_offset
read_offset-Holds x dr h holds = read_uint-Holds 4 x dr h holds

module _ {A : Type 0} (f : Format A) where
  module _ (offset : ℕ) (x : A) (xs : List A) (dr : DecodingReader) where
    abbrev next : ℕ
    next = offset + length (f.serialize x)

    pub first_offset_lem :
        offset < 2 ^ 32
        → Holds (serialize_offsets f offset (x ∷ xs)) dr
        → read_offset dr ≡ ok offset (advance_reader 4 dr)
    first_offset_lem small holds =
        read_offset-Holds offset dr small
          (Holds-front (le_bytes 4 offset) (serialize_offsets f next xs) dr holds)

    pub Holds-next_offsets :
        Holds (serialize_offsets f offset (x ∷ xs)) dr
        → Holds (serialize_offsets f next xs) (advance_reader 4 dr)
    Holds-next_offsets holds =
        subst (λ (n : ℕ). Holds (serialize_offsets f next xs) (advance_reader n dr))
          (length-le_bytes 4 offset)
          (Holds-back (le_bytes 4 offset) (serialize_offsets f next xs) dr holds)

  pub read_offsets_lem :
      (offset : ℕ) (xs : List A) (dr : DecodingReader)
      → offset + length (serialize_all f xs) < 2 ^ 32
      → Holds (serialize_offsets f offset xs) dr
      → read_offsets (length xs) dr
        ≡ ok (offsets_from f offset xs) (advance_reader (4 * length xs) dr)
  unfolding read_offsets
  read_offsets_lem offset [] dr h holds = rw advance_reader-zero refl
  read_offsets_lem offset (x ∷ xs) dr h holds =
      let total = length-append (f.serialize x) (serialize_all f xs) in
      let first = first_offset_lem offset x xs dr (omega arith) holds in
      let rest =
        read_offsets_lem (offset + length (f.serialize x)) xs (advance_reader 4 dr)
          (omega (arith, total)) (Holds-next_offsets offset x xs dr holds) in
      rw (first, ◌>>=◌, rest, ◌>>=◌, advance_reader-advance_reader)
        (ap (λ (n : ℕ). ok (offsets_from f offset (x ∷ xs)) (advance_reader n dr)) (omega arith))

  next_scope_lem :
      (x : A) (xs : List A) (offset : ℕ) (dr : DecodingReader)
      → offset ≡ dr.i
      → dr.i + length (serialize_all f (x ∷ xs)) ≡ dr.max
      → dr.max < 2 ^ 64
      → next_scope offset (offsets_from f (offset + length (f.serialize x)) xs) dr
        ≡ ok (length (f.serialize x)) dr
  unfolding next_scope
  next_scope_lem x [] offset dr at h b = ground (arith, length-append (f.serialize x) [])
  next_scope_lem x (y ∷ xs) offset dr at h b = ground arith

module _ {A R : Type 0} (f : Format A) (p : Decoder R) (keep : A → R) (is_fixed : Bool)
    (reads : Reads is_fixed f p keep) where
  in_scope_lem :
      (x : A) (dr : DecodingReader)
      → f.Valid x
      → length (f.serialize x) < 2 ^ 32
      → Holds (f.serialize x) dr
      → in_scope false (length (f.serialize x)) p dr
        ≡ ok (keep x) (advance_reader (length (f.serialize x)) dr)
  unfolding scoped_reader
  in_scope_lem x dr v small h = in_scope-Holds p (keep x) (f.serialize x) dr h (omega arith) (
      reads x (scoped_reader (length (f.serialize x)) dr) v small
        (Holds-scoped (f.serialize x) dr h) (λ e. (refl, refl)))

  decode_elems_lem :
      (xs : List A) (offset : ℕ) (dr : DecodingReader)
      → offset ≡ dr.i
      → All f.Valid xs
      → length (serialize_all f xs) < 2 ^ 32
      → Holds (serialize_all f xs) dr
      → dr.i + length (serialize_all f xs) ≡ dr.max
      → decode_elems p (offsets_from f offset xs) dr
        ≡ ok (map keep xs) (advance_reader (length (serialize_all f xs)) dr)
  unfolding decode_elems
  decode_elems_lem [] offset dr at v small h fills = rw advance_reader-zero refl
  decode_elems_lem (x ∷ xs) offset dr at v small h fills =
      let bytes = f.serialize x in
      let total = length-append bytes (serialize_all f xs) in
      let behind = advance_reader (length bytes) dr in
      let at_behind = i-advance_reader (length bytes) dr in
      let first =
        in_scope_lem x dr v.0 (omega (arith, total))
          (Holds-front bytes (serialize_all f xs) dr h) in
      let rest =
        decode_elems_lem xs (offset + length bytes) behind (omega (arith, at_behind)) v.1
          (omega (arith, total)) (Holds-back bytes (serialize_all f xs) dr h)
          (omega (arith, total, at_behind, max-advance_reader (length bytes) dr)) in
      rw
        (
          next_scope_lem f x xs offset dr at fills h.below,
          ◌>>=◌,
          first,
          ◌>>=◌,
          rest,
          ◌>>=◌,
          advance_reader-advance_reader,
        )
        (ap (λ (n : ℕ). ok (map keep (x ∷ xs)) (advance_reader n dr)) (sym total))

  finish_scope_lem : (dr : DecodingReader) → dr.i ≡ dr.max → finish_scope dr ≡ ok tt dr
  unfolding finish_scope
  finish_scope_lem dr e = ground arith

  pub decode_from_offsets_lem :
      (xs : List A) (dr : DecodingReader)
      → All f.Valid xs
      → length (serialize_all f xs) < 2 ^ 32
      → Holds (serialize_all f xs) dr
      → dr.i + length (serialize_all f xs) ≡ dr.max
      → decode_var_series_from_offsets p (offsets_from f dr.i xs) dr
        ≡ ok (map keep xs) (advance_reader (length (serialize_all f xs)) dr)
  unfolding decode_var_series_from_offsets
  decode_from_offsets_lem xs dr v small h fills =
      let n = length (serialize_all f xs) in
      let finished =
        finish_scope_lem (advance_reader n dr)
          (omega (arith, i-advance_reader n dr, max-advance_reader n dr)) in
      rw (decode_elems_lem xs dr.i dr refl v small h fills, ◌>>=◌, finished, ◌>>=◌) refl
