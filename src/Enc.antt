-- ===== src/Enc.antt =====
-- enc/encoder.go: the writer that every encoder writes to.
use zssz.Prelude.{
  ℕ, ◌+◌, ◌-◌, ◌^◌, ◌≤◌, ◌<◌, ◌≡◌, refl, sym, ap, subst, List, [], ◌∷◌, ◌++◌, length, take, ltb,
  leb, if◌then◌else◌, le_bytes, arith, length-append, take-append_le, take-append_ge, take_all,
  append_assoc, append-nil, ◌∙◌, ltb→lt, ltb→le, Bool-cases, inl, inr, u64,
}
use mathlib.Core.Path.{fun_ext}
use zssz.Outcome.{Outcome, ok, err, panic, Error, ◌>>=◌, ◌>>◌}

-- `sink` is what the `io.Writer` has taken, and it takes `space` more bytes: a write that does not
-- fit is cut there and fails. The scratch space is left out: each use overwrites what it writes.
pub record EncodingWriter : Type 0 where
  pub sink : List ℕ
  pub space : ℕ
  pub n : ℕ

abbrev pub Encoder : Type 0
Encoder = EncodingWriter → Outcome EncodingWriter (Unit {0})

unfoldable pub new_encoding_writer : List ℕ → ℕ → EncodingWriter
new_encoding_writer sink space = record { sink = sink; space = space; n = 0 }

unfoldable pub written : EncodingWriter → ℕ
written ew = ew.n

-- The writer after the `io.Writer` took `p`.
unfoldable pub accept : List ℕ → EncodingWriter → EncodingWriter
accept p ew = record { sink = ew.sink ++ p; space = ew.space - length p; n = ew.n + length p }

unfoldable pub write : List ℕ → Encoder
write p ew =
    let after = accept (take ew.space p) ew in
    if ltb ew.space (length p) then err Error.short_write after else ok tt after

unfoldable pub write_byte : ℕ → Encoder
write_byte v = write (v ∷ [])

-- A length that is no uint32 is a panic, and so is an offset.
unfoldable pub write_offset : ℕ → ℕ → EncodingWriter → Outcome EncodingWriter ℕ
write_offset prev_offset elem_len ew =
    let offset = u64 (prev_offset + elem_len) in
    if leb (2 ^ 32) prev_offset
    then panic
    else if leb (2 ^ 32) elem_len
    then panic
    else if leb (2 ^ 32) offset
    then panic
    else (write (le_bytes 4 offset) >> λ s. ok offset s) ew

accept_nil : (ew : EncodingWriter) → accept [] ew ≡ ew
unfolding accept
accept_nil ew = ground (arith, append-nil ew.sink)

accept-append :
    (xs ys : List ℕ) (ew : EncodingWriter) → accept (xs ++ ys) ew ≡ accept ys (accept xs ew)
unfolding accept
accept-append xs ys ew = ground (arith, length-append xs ys, append_assoc ew.sink xs ys)

write_fits :
    (xs : List ℕ) (ew : EncodingWriter) → length xs ≤ ew.space → write xs ew ≡ ok tt (accept xs ew)
unfolding write
write_fits xs ew h = ground (arith, take_all ew.space xs)

write_over :
    (xs : List ℕ) (ew : EncodingWriter)
    → ew.space < length xs
    → write xs ew ≡ err Error.short_write (accept (take ew.space xs) ew)
unfolding write
write_over xs ew h = ground arith

pub write_nil : (ew : EncodingWriter) → write [] ew ≡ ok tt ew
write_nil ew = write_fits [] ew (omega arith) ∙ ap (ok tt) (accept_nil ew)

space-accept : (p : List ℕ) (ew : EncodingWriter) → (accept p ew).space ≡ ew.space - length p
unfolding accept
space-accept p ew = refl

write-append_fits :
    (xs ys : List ℕ) (ew : EncodingWriter)
    → length xs ≤ ew.space
    → write (xs ++ ys) ew ≡ write ys (accept xs ew)
unfolding write
write-append_fits xs ys ew h = ground (
  arith,
  space-accept xs ew,
  length-append xs ys,
  take-append_ge ew.space xs ys h,
  accept-append xs (take (ew.space - length xs) ys) ew,
)

-- One write of two texts and two writes are the same, also where the space ends.
pub write-append :
    (xs ys : List ℕ) (ew : EncodingWriter) → write (xs ++ ys) ew ≡ (write xs >> write ys) ew
write-append xs ys ew = elim (Bool-cases (ltb ew.space (length xs))) [
  | inl over ↦
      let h = ltb→lt _ _ over in
      rw (write_over xs ew h, ◌>>=◌)
        (write_over (xs ++ ys) ew (omega (arith, length-append xs ys))
          ∙ ap (λ p. err Error.short_write (accept p ew))
              (take-append_le ew.space xs ys (omega arith)))
  | inr fits ↦
      let h = ltb→le _ _ fits in rw (write_fits xs ew h, ◌>>=◌) (write-append_fits xs ys ew h)
]

-- Two encoders in a row write their texts in a row.
pub then_write :
    (first second : Encoder) (xs ys : List ℕ) (ew : EncodingWriter)
    → first ew ≡ write xs ew
    → ((ew' : EncodingWriter) → second ew' ≡ write ys ew')
    → (first >> second) ew ≡ write (xs ++ ys) ew
then_write first second xs ys ew e h =
    subst (λ (k : Encoder). (first >> k) ew ≡ write (xs ++ ys) ew) (sym (fun_ext h))
      (rw (e, ◌>>=◌) (sym (write-append xs ys ew)))

pub write_offset_lem :
    (prev_offset elem_len : ℕ) (ew : EncodingWriter)
    → prev_offset + elem_len < 2 ^ 32
    → write_offset prev_offset elem_len ew
      ≡ (write (le_bytes 4 (prev_offset + elem_len)) >> λ s. ok (prev_offset + elem_len) s) ew
unfolding write_offset
write_offset_lem prev_offset elem_len ew h = ground arith

continue_with :
    (m : Encoder) (y : ℕ) (k : ℕ → Encoder) (ew : EncodingWriter)
    → ((m >> λ s. ok y s) >>= k) ew ≡ (m >> k y) ew
continue_with m y k ew = ground arith

-- An offset that fits 32 bits is written before what an encoder writes that goes on from it.
pub then_write_offset :
    (prev_offset elem_len : ℕ) (k : ℕ → Encoder) (ys : List ℕ) (ew : EncodingWriter)
    → prev_offset + elem_len < 2 ^ 32
    → ((ew' : EncodingWriter) → k (prev_offset + elem_len) ew' ≡ write ys ew')
    → (write_offset prev_offset elem_len >>= k) ew
      ≡ write (le_bytes 4 (prev_offset + elem_len) ++ ys) ew
then_write_offset prev_offset elem_len k ys ew small h =
    let offset = prev_offset + elem_len in
    rw (write_offset_lem prev_offset elem_len ew small, ◌>>=◌)
      (continue_with (write (le_bytes 4 offset)) offset k ew
        ∙ then_write (write (le_bytes 4 offset)) (k offset) (le_bytes 4 offset) ys ew refl h)
