-- ===== src/Api/RoundTrip.antt =====
-- What the functions of zssz.go promise together, for every type that is a codec.
use zssz.Prelude.{
  ℕ, ◌-◌, ◌^◌, ◌≤◌, ◌<◌, ◌≡◌, refl, sym, ap, subst, ◌∙◌, Bool, true, false, List, [], ◌++◌, length,
  take, ltb, le→ltb, if◌then◌else◌, arith, take_all, length-take, take-length-append,
  drop-length-append, length-append, append_assoc,
}
use zssz.Outcome.{Outcome, ok, err, Error}
use zssz.Dec.{DecodingReader, new_decoding_reader, scope, parent_input}
use zssz.Dec.Reader.{Input, source}
use zssz.Dec.Advance.{advance}
use zssz.Dec.Laws.{advance_reader}
use zssz.Dec.Holds.{Holds, Holds-front, scoped_reader, scope_fits}
use zssz.Enc.{EncodingWriter, new_encoding_writer, written, write, accept}
use zssz.Ssz.{Ssz, Format, FillsScope, IsCodec}
use zssz.Api.{check_read_count, scoped_to, decode, dry_check, size_of, encode}

module _ (bs rest : List ℕ) where
  -- The scoped reader that the bytes fill.
  abbrev pub reader : DecodingReader
  reader = scoped_reader (length bs) (new_decoding_reader (source (bs ++ rest)))

  pub reader-Holds : length bs < 2 ^ 32 → Holds bs reader
  unfolding scoped_reader new_decoding_reader
  reader-Holds small = record {
    front =
        ap (take (length bs)) (take-length-append bs rest) ∙ take_all (length bs) bs (omega arith);
    room = omega arith;
    below = omega arith;
    strict = refl;
    seeks = tt;
  }

  pub reader_fills : (is_fixed : Bool) → FillsScope is_fixed bs reader
  unfolding scoped_reader
  reader_fills is_fixed e = (refl, refl)

  scope-new_reader :
      length bs < 2 ^ 32
      → scope (length bs) (new_decoding_reader (source (bs ++ rest)))
        ≡ ok reader (new_decoding_reader (source (bs ++ rest)))
  unfolding new_decoding_reader
  scope-new_reader small =
      scope_fits (length bs) (new_decoding_reader (source (bs ++ rest))) (omega arith) (omega arith)
        (omega arith)

  scoped_to_lem :
      {A : Type 0} (min_len : ℕ) (k : DecodingReader → Outcome Input A)
      → min_len ≤ length bs
      → length bs < 2 ^ 32
      → scoped_to min_len (length bs) k (source (bs ++ rest)) ≡ k reader
  unfolding scoped_to
  scoped_to_lem min_len k least small =
      rw (le→ltb (length bs) min_len least, scope-new_reader small) refl

  check_read_count_lem :
      {A : Type 0} (a : A)
      → check_read_count (length bs) (ok a (advance_reader (length bs) reader)) ≡ ok a (source rest)
  unfolding check_read_count advance_reader scoped_reader new_decoding_reader parent_input advance
  check_read_count_lem a = ground (arith, drop-length-append bs rest)

count_mismatch :
    (bs excess rest : List ℕ) {A : Type 0} (a : A)
    → 0 < length excess
    → check_read_count
        (length (bs ++ excess))
        (ok a (advance_reader (length bs) (reader (bs ++ excess) rest)))
      ≡ err Error.read_count_mismatch (source (excess ++ rest))
unfolding check_read_count advance_reader scoped_reader new_decoding_reader parent_input advance
count_mismatch bs excess rest a more = ground (
  arith,
  length-append bs excess,
  append_assoc bs excess rest,
  drop-length-append bs (excess ++ rest),
)

write_new :
    (bs sink : List ℕ) (space : ℕ)
    → write bs (new_encoding_writer sink space) ≡ (
        if ltb space (length bs)
        then err Error.short_write (record { sink = sink ++ take space bs; space = 0; n = space })
        else ok tt (record { sink = sink ++ bs; space = space - length bs; n = length bs }))
unfolding write accept new_encoding_writer
write_new bs sink space = ground (arith, length-take space bs, take_all space bs)

module _ {A : Type 0} (s : Ssz A) (f : Format A) (c : IsCodec s f) where
  -- For a type that does what `IsCodec` asks and a valid value of fewer than 2 ^ 32 bytes: `Encode`
  -- gives the writer the bytes of the format and counts them; where the writer stops before, the
  -- bytes written are counted and the write fails.
  pub encode_cases :
      (a : A) (sink : List ℕ) (space : ℕ)
      → f.Valid a
      → length (f.serialize a) < 2 ^ 32
      → encode s sink space a ≡ (
          if ltb space (length (f.serialize a))
          then err Error.short_write
              (record { sink = sink ++ take space (f.serialize a); space = 0; n = space })
          else ok tt (record {
            sink = sink ++ f.serialize a;
            space = space - length (f.serialize a);
            n = length (f.serialize a);
          }))
  unfolding encode
  encode_cases a sink space v small =
      c.encodes a (new_encoding_writer sink space) v small ∙ write_new (f.serialize a) sink space

  -- The bytes of a value are read back to it by `Decode`, up to their end, and pass `DryCheck`.
  pub decode_serialized :
      (a : A) (rest : List ℕ)
      → f.Valid a
      → length (f.serialize a) < 2 ^ 32
      → (decode s (length (f.serialize a)) (source (f.serialize a ++ rest)) ≡ ok a (source rest))
        × (dry_check s (length (f.serialize a)) (source (f.serialize a ++ rest))
            ≡ ok tt (source rest))
  unfolding decode dry_check
  decode_serialized a rest v small =
      let bs = f.serialize a in
      let h = reader-Holds bs rest small in
      let fills = reader_fills bs rest s.is_fixed in
      (
        scoped_to_lem bs rest s.min_len _ (c.least a v) small
            ∙ ap (check_read_count (length bs)) (c.decodes a (reader bs rest) v small h fills)
            ∙ check_read_count_lem bs rest a,
        scoped_to_lem bs rest s.min_len _ (c.least a v) small
            ∙ ap (check_read_count (length bs)) (c.dry_checks a (reader bs rest) v small h fills)
            ∙ check_read_count_lem bs rest tt,
      )

  -- For a type of fixed size that does what `IsCodec` asks: `Decode` does not read the bytes that
  -- are given beyond those of a valid value, and reports the count as wrong, if all of them are
  -- fewer than 2 ^ 32.
  pub decode_excess :
      (a : A) (excess rest : List ℕ)
      → s.is_fixed ≡ true
      → f.Valid a
      → 0 < length excess
      → length (f.serialize a ++ excess) < 2 ^ 32
      → decode s (length (f.serialize a ++ excess)) (source ((f.serialize a ++ excess) ++ rest))
        ≡ err Error.read_count_mismatch (source (excess ++ rest))
  unfolding decode
  decode_excess a excess rest fixed v more small =
      let bs = f.serialize a in
      let total = length-append bs excess in
      let h = reader-Holds (bs ++ excess) rest small in
      scoped_to_lem (bs ++ excess) rest s.min_len _ (omega (arith, total, c.least a v)) small
      ∙ ap (check_read_count (length (bs ++ excess))) (
          c.decodes a (reader (bs ++ excess) rest) v (omega (arith, total))
            (Holds-front bs excess _ h) (λ e. absurd (fixed_not e)))
      ∙ count_mismatch bs excess rest a more
    where
      fixed_not : s.is_fixed ≡ false → ⊥
      fixed_not e = cc

  -- For a type that does what `IsCodec` asks and a valid value of fewer than 2 ^ 32 bytes: what
  -- `Encode` writes to an empty writer that takes `SizeOf` bytes at least is, with that size, read
  -- back by `Decode` to the value, and passes `DryCheck`; what follows is left in the reader.
  pub decode-encode :
      (a : A) (space : ℕ) (rest : List ℕ)
      → f.Valid a
      → length (f.serialize a) < 2 ^ 32
      → size_of s a ≤ space
      → (ew : EncodingWriter) × (encode s [] space a ≡ ok tt ew)
        × (written ew ≡ size_of s a)
        × (decode s (size_of s a) (source (ew.sink ++ rest)) ≡ ok a (source rest))
        × (dry_check s (size_of s a) (source (ew.sink ++ rest)) ≡ ok tt (source rest))
  unfolding size_of written
  decode-encode a space rest v small h =
      let bs = f.serialize a in
      let size = c.sizes a v small in
      let ew : EncodingWriter = record { sink = bs; space = space - length bs; n = length bs } in
      let (decoded, checked) = decode_serialized a rest v small in
      (
        ew,
        encode_cases a [] space v small ∙ rw (le→ltb space (length bs) (omega (arith, size))) refl,
        sym size,
        subst (λ (k : ℕ). decode s k (source (bs ++ rest)) ≡ ok a (source rest)) (sym size) decoded,
        subst (λ (k : ℕ). dry_check s k (source (bs ++ rest)) ≡ ok tt (source rest)) (sym size)
            checked,
      )
