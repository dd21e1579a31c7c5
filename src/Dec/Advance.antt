-- ===== src/Dec/Advance.antt =====
-- Reading `k` bytes, as a function on inputs, and the loop of `Read` by it.
use zssz.Prelude.{
  ℕ, zero, suc, ◌+◌, ◌-◌, ◌^◌, min, ◌≤◌, ◌<◌, ◌≡◌, refl, sym, ap, ◌∙◌, true, false, List, [], ◌∷◌,
  ◌++◌, length, take, drop, length-take, length-drop, take-take, drop-take, drop-drop, arith,
  append-nil, drop-min,
}
use zssz.Outcome.{ok, err, Error}
use zssz.Dec.Reader.{Input, source, seeker, limited, available, read_once, read_loop, seek, discard}

unfoldable pub advance : ℕ → Input → Input
advance k (source bs) = source (drop k bs)
advance k (seeker bs position) = seeker bs (position + k)
advance k (limited n r) = limited (n - k) (advance k r)

pub available-advance : (k : ℕ) (r : Input) → available (advance k r) ≡ drop k (available r)
unfolding advance
available-advance k (source bs) = refl
available-advance k (seeker bs position) = sym (drop-drop k position bs)
available-advance k (limited n r) =
    ap (take (n - k)) (available-advance k r) ∙ sym (drop-take k n (available r))

pub advance-zero : (r : Input) → advance 0 r ≡ r
unfolding advance
advance-zero (source bs) = refl
advance-zero (seeker bs position) = ground arith
advance-zero (limited n r) = ground (arith, advance-zero r)

pub advance-advance : (j k : ℕ) (r : Input) → advance j (advance k r) ≡ advance (k + j) r
unfolding advance
advance-advance j k (source bs) = ap source (drop-drop j k bs)
advance-advance j k (seeker bs position) = ground arith
advance-advance j k (limited n r) = ground (arith, advance-advance j k r)

-- A read gives what is there, up to what was asked for; with nothing there it is the end.
pub read_once_some :
    (r : Input) (want : ℕ)
    → 0 < want
    → 0 < length (available r)
    → read_once r want ≡ record {
      bytes = take want (available r);
      at_eof = false;
      after = advance (min want (length (available r))) r;
    }
unfolding read_once advance
read_once_some (source []) want hw h = absurd (omega arith)
read_once_some (source (b ∷ bs)) want hw h =
    ap (λ rest. record { bytes = take want (b ∷ bs); at_eof = false; after = source rest })
      (sym (drop-min want (b ∷ bs)))
read_once_some (seeker bs position) want hw h =
    ground (arith, length-drop position bs, length-take want (drop position bs))
read_once_some (limited n r) want hw h =
    let len = length-take n (available r) in
    ground (
      arith,
      len,
      read_once_some r (min want n) (omega (arith, len)) (omega (arith, len)),
      take-take want n (available r),
      length-take (min want n) (available r),
    )

pub read_once_none :
    (r : Input) (want : ℕ)
    → length (available r) ≡ 0
    → read_once r want ≡ record { bytes = []; at_eof = true; after = r }
unfolding read_once
read_once_none (source []) want h = refl
read_once_none (source (b ∷ bs)) want h = absurd (omega arith)
read_once_none (seeker bs position) want h = ground (arith, length-drop position bs)
read_once_none (limited n r) want h =
    ground (arith, length-take n (available r), read_once_none r (min want n))

-- `Read` asks for `want` bytes and `got` are read before it.
pub read_loop_enough :
    (fuel : ℕ) (r : Input) (want : ℕ) (got : List ℕ)
    → want < fuel
    → want ≤ length (available r)
    → read_loop fuel r want got ≡ ok (got ++ take want (available r)) (advance want r)
unfolding read_loop
read_loop_enough zero r want got hf h = absurd (omega arith)
read_loop_enough (suc fuel) r zero got hf h = rw (append-nil, advance-zero) refl
read_loop_enough (suc zero) r (suc want) got hf h = absurd (omega arith)
read_loop_enough (suc (suc fuel)) r (suc want) got hf h = ground (
  arith,
  read_once_some r (suc want) (omega arith) (omega arith),
  length-take (suc want) (available r),
)

pub read_loop_short :
    (fuel : ℕ) (r : Input) (want : ℕ) (got : List ℕ)
    → want < fuel
    → length (available r) < want
    → read_loop fuel r want got ≡ err Error.eof (advance (length (available r)) r)
unfolding read_loop
read_loop_short zero r want got hf h = absurd (omega arith)
read_loop_short (suc fuel) r want got hf h =
    let rest = advance (length (available r)) r in
    ground (
      arith,
      read_once_none r want,
      read_once_some r want,
      length-take want (available r),
      advance-zero r,
      available-advance (length (available r)) r,
      length-drop (length (available r)) (available r),
      advance-zero rest,
      read_loop_short fuel rest (want - length (available r)) (got ++ take want (available r)),
    )

-- The position of an input that is sought in, `k` bytes further on, is within an int64.
abbrev pub SeeksFit : ℕ → Input → Type 0
SeeksFit k (source bs) = Unit
SeeksFit k (seeker bs position) = position + k < 2 ^ 63
SeeksFit k (limited n r) = Unit

pub SeeksFit-front : (j k : ℕ) (r : Input) → j ≤ k → SeeksFit k r → SeeksFit j r
SeeksFit-front j k (source bs) le fits = tt
SeeksFit-front j k (seeker bs position) le fits = omega (arith, le, fits)
SeeksFit-front j k (limited n r) le fits = tt

pub SeeksFit-back : (j k : ℕ) (r : Input) → SeeksFit (j + k) r → SeeksFit k (advance j r)
unfolding advance
SeeksFit-back j k (source bs) fits = tt
SeeksFit-back j k (seeker bs position) fits = omega (arith, fits)
SeeksFit-back j k (limited n r) fits = tt

-- Skipping bytes that are there goes on behind them, by `Seek` as by `io.CopyN`.
pub discard_enough :
    (k : ℕ) (r : Input)
    → k ≤ length (available r)
    → k < 2 ^ 63
    → SeeksFit k r
    → discard k k r ≡ ok tt (advance k r)
unfolding discard seek advance
discard_enough k (source bs) enough small fits =
    rw (read_loop_enough (suc k) (source bs) k [] (omega arith) enough, discard) refl
discard_enough k (seeker bs position) enough small fits = ground (arith, fits)
discard_enough k (limited n r) enough small fits =
    rw (read_loop_enough (suc k) (limited n r) k [] (omega arith) enough, discard) refl
