-- ===== src/Dec/Holds.antt =====
-- Reads that succeed: the scope goes on for the bytes wanted, and the input holds them.
use zssz.Prelude.{
  ℕ, ◌+◌, ◌-◌, ◌^◌, ◌≤◌, ◌<◌, ◌≡◌, refl, ap, sym, subst, ◌∙◌, false, List, [], ◌∷◌, ◌++◌, length,
  take, drop, min, get_or, lt→ltb, arith, length-append, length-take, take-take, take-length-append,
  drop-length-append, drop-take, le_bytes, of_le_bytes-le_bytes, length-le_bytes, split_last,
}
use zssz.Outcome.{ok, ◌>>=◌, ◌>>◌}
use zssz.Dec.{
  DecodingReader, Decoder, get_bytes_span, scope, read, skip, read_byte, read_uint, in_scope,
  update_index_from_scoped, parent_input, discard_input,
}
use zssz.Dec.Reader.{limited, available}
use zssz.Dec.Advance.{
  SeeksFit, SeeksFit-front, SeeksFit-back, discard_enough, advance, available-advance, advance-zero,
  advance-advance,
}
use zssz.Dec.Laws.{advance_reader, read_enough, checked_index_update_fits}

-- The scope of the reader goes on for `bs`, and the input holds them next.
pub record Holds (bs : List ℕ) (dr : DecodingReader) : Type 0 where
  pub front : take (length bs) (available dr.input) ≡ bs
  pub room : dr.i + length bs ≤ dr.max
  pub below : dr.max < 2 ^ 64
  pub strict : dr.fuzz_mode ≡ false
  pub seeks : SeeksFit (length bs) dr.input

pub Holds-length :
    (bs : List ℕ) (dr : DecodingReader) → Holds bs dr → length bs ≤ length (available dr.input)
Holds-length bs dr h =
    omega (arith, ap length h.front, length-take (length bs) (available dr.input))

pub Holds-span :
    (bs : List ℕ) (dr : DecodingReader) → Holds bs dr → get_bytes_span dr ≡ dr.max - dr.i
unfolding get_bytes_span
Holds-span bs dr h = ground (arith, h.room, h.below)

take_front : (xs ys zs : List ℕ) → take (length (xs ++ ys)) zs ≡ xs ++ ys → take (length xs) zs ≡ xs
take_front xs ys zs h =
    subst (λ (n : ℕ). take n zs ≡ take (length xs) (xs ++ ys)) n_eq
      (sym (take-take (length xs) (length (xs ++ ys)) zs) ∙ ap (take (length xs)) h)
    ∙ take-length-append xs ys
  where
    n_eq : min (length xs) (length (xs ++ ys)) ≡ length xs
    n_eq = omega (arith, length-append xs ys)

take_back :
    (xs ys zs : List ℕ)
    → take (length (xs ++ ys)) zs ≡ xs ++ ys
    → take (length ys) (drop (length xs) zs) ≡ ys
take_back xs ys zs h =
    subst (λ (n : ℕ). take n (drop (length xs) zs) ≡ drop (length xs) (xs ++ ys)) n_eq
      (sym (drop-take (length xs) (length (xs ++ ys)) zs) ∙ ap (drop (length xs)) h)
    ∙ drop-length-append xs ys
  where
    n_eq : length (xs ++ ys) - length xs ≡ length ys
    n_eq = omega (arith, length-append xs ys)

-- What holds for a text holds for its front, and for the rest after the front.
pub Holds-front : (xs ys : List ℕ) (dr : DecodingReader) → Holds (xs ++ ys) dr → Holds xs dr
Holds-front xs ys dr h = record {
  front = take_front xs ys (available dr.input) h.front;
  room = omega (arith, h.room, length-append xs ys);
  below = h.below;
  strict = h.strict;
  seeks =
      SeeksFit-front (length xs) (length (xs ++ ys)) dr.input (omega (arith, length-append xs ys))
        h.seeks;
}

pub Holds-back :
    (xs ys : List ℕ) (dr : DecodingReader)
    → Holds (xs ++ ys) dr
    → Holds ys (advance_reader (length xs) dr)
unfolding advance_reader
Holds-back xs ys dr h = record {
  front = rw available-advance (take_back xs ys (available dr.input) h.front);
  room = omega (arith, h.room, length-append xs ys);
  below = h.below;
  strict = h.strict;
  seeks =
      SeeksFit-back (length xs) (length ys) dr.input
        (subst (λ (n : ℕ). SeeksFit n dr.input) (length-append xs ys) h.seeks);
}

pub read-Holds :
    (bs : List ℕ) (dr : DecodingReader)
    → Holds bs dr
    → read (length bs) dr ≡ ok bs (advance_reader (length bs) dr)
read-Holds bs dr h =
    ground (arith, h.front, h.room, h.below, Holds-length bs dr h, read_enough (length bs) dr)

pub skip-Holds :
    (bs : List ℕ) (dr : DecodingReader)
    → Holds bs dr
    → length bs < 2 ^ 63
    → skip (length bs) dr ≡ ok tt (advance_reader (length bs) dr)
unfolding skip discard_input advance_reader
skip-Holds bs dr h small =
    rw
      (
        checked_index_update_fits (length bs) dr h.room (omega (arith, h.room, h.below)),
        ◌>>=◌,
        discard_input,
        lt→ltb (length bs) (2 ^ 63) small,
        discard_enough (length bs) dr.input (Holds-length bs dr h) small h.seeks,
      )
      refl

pub read_uint-Holds :
    (width x : ℕ) (dr : DecodingReader)
    → x < 256 ^ width
    → Holds (le_bytes width x) dr
    → read_uint width dr ≡ ok x (advance_reader width dr)
unfolding read_uint
read_uint-Holds width x dr hx h =
    let e =
      subst (λ (n : ℕ). read n dr ≡ ok (le_bytes width x) (advance_reader n dr))
        (length-le_bytes width x) (read-Holds (le_bytes width x) dr h) in
    rw (e, ◌>>=◌, of_le_bytes-le_bytes width x hx) refl

pub read_byte-Holds :
    (b : ℕ) (dr : DecodingReader) → Holds (b ∷ []) dr → read_byte dr ≡ ok b (advance_reader 1 dr)
unfolding read_byte
read_byte-Holds b dr h = rw (read-Holds (b ∷ []) dr h, ◌>>=◌) refl

pub advance_reader-advance_reader :
    (j k : ℕ) (dr : DecodingReader)
    → advance_reader j (advance_reader k dr) ≡ advance_reader (k + j) dr
unfolding advance_reader
advance_reader-advance_reader j k dr = ground (arith, advance-advance j k dr.input)

pub advance_reader-zero : (dr : DecodingReader) → advance_reader 0 dr ≡ dr
unfolding advance_reader
advance_reader-zero dr = ground (arith, advance-zero dr.input)

-- The reader that `Scope` makes.
unfoldable pub scoped_reader : ℕ → DecodingReader → DecodingReader
scoped_reader count dr = record {
  input = limited count dr.input;
  i = 0;
  max = count;
  fuzz_mode = false;
}

pub Holds-scoped :
    (bs : List ℕ) (dr : DecodingReader) → Holds bs dr → Holds bs (scoped_reader (length bs) dr)
unfolding scoped_reader
Holds-scoped bs dr h = record {
  front =
      take-take (length bs) (length bs) (available dr.input)
      ∙ subst (λ (n : ℕ). take n (available dr.input) ≡ bs) (omega arith) h.front;
  room = omega arith;
  below = omega (arith, h.room, h.below);
  strict = refl;
  seeks = tt;
}

-- Within the parent's span the scope is made, and nothing is read.
pub scope_fits :
    (count : ℕ) (dr : DecodingReader)
    → dr.i + count ≤ dr.max
    → dr.max < 2 ^ 64
    → count < 2 ^ 63
    → scope count dr ≡ ok (scoped_reader count dr) dr
unfolding scope scoped_reader get_bytes_span
scope_fits count dr h b small = ground arith

pub update-advance_reader :
    (k : ℕ) (dr : DecodingReader)
    → dr.i + k < 2 ^ 64
    → update_index_from_scoped dr (advance_reader k (scoped_reader k dr)) ≡ advance_reader k dr
unfolding update_index_from_scoped scoped_reader advance_reader advance parent_input
update-advance_reader k dr h = ground arith

-- A decoder that takes all of its scope, of fewer than 2 ^ 63 bytes that the input holds next,
-- leaves the parent behind it.
pub in_scope-Holds :
    {A : Type 0} (p : Decoder A) (a : A) (bs : List ℕ) (dr : DecodingReader)
    → Holds bs dr
    → length bs < 2 ^ 63
    → p (scoped_reader (length bs) dr)
      ≡ ok a (advance_reader (length bs) (scoped_reader (length bs) dr))
    → in_scope false (length bs) p dr ≡ ok a (advance_reader (length bs) dr)
unfolding in_scope
in_scope-Holds p a bs dr h small e =
    let made = scope_fits (length bs) dr h.room h.below small in
    rw (made, ◌>>=◌, e, ◌>>=◌)
      (ap (ok a) (update-advance_reader (length bs) dr (omega (arith, h.room, h.below))))

-- The front of a text and its last byte.
pub Holds-last :
    (bs : List ℕ) (dr : DecodingReader)
    → 0 < length bs
    → Holds bs dr
    → Holds (take (length bs - 1) bs) dr
      × Holds (get_or bs (length bs - 1) 0 ∷ []) (advance_reader (length bs - 1) dr)
Holds-last bs dr pos h =
    let xs = take (length bs - 1) bs in
    let ys : List ℕ = get_or bs (length bs - 1) 0 ∷ [] in
    let parts : Holds (xs ++ ys) dr = rw (split_last bs 0 pos) h in
    let n_eq : length xs ≡ length bs - 1 = omega (arith, length-take (length bs - 1) bs) in
    (
      Holds-front xs ys dr parts,
      subst (λ (n : ℕ). Holds ys (advance_reader n dr)) n_eq (Holds-back xs ys dr parts),
    )

-- Skipping to the last byte of a text and reading that takes the whole text.
pub skip_to_last :
    (p : Decoder (Unit {0})) (bs : List ℕ) (dr : DecodingReader)
    → 0 < length bs
    → length bs < 2 ^ 32
    → Holds bs dr
    → ((dr' : DecodingReader)
        → Holds (get_or bs (length bs - 1) 0 ∷ []) dr'
        → p dr' ≡ ok tt (advance_reader 1 dr'))
    → (skip (length bs - 1) >> p) dr ≡ ok tt (advance_reader (length bs) dr)
skip_to_last p bs dr pos small h reads =
    let n_eq : length (take (length bs - 1) bs) ≡ length bs - 1 =
      omega (arith, length-take (length bs - 1) bs) in
    let (front, last) = Holds-last bs dr pos h in
    let skipped =
      subst (λ (n : ℕ). skip n dr ≡ ok tt (advance_reader n dr)) n_eq
        (skip-Holds (take (length bs - 1) bs) dr front (omega arith)) in
    rw (skipped, ◌>>=◌, reads _ last, advance_reader-advance_reader)
      (ap (λ (n : ℕ). ok tt (advance_reader n dr)) (omega arith))
