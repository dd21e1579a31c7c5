-- ===== src/Dec/Reader.antt =====
-- The `io.Reader` under a decoder: the caller's reader, or `io.LimitReader`s around it.
use zssz.Prelude.{
  ℕ, zero, suc, ◌+◌, ◌-◌, ◌^◌, min, ltb, leb, u64, Bool, true, false, List, [], ◌∷◌, ◌++◌, length,
  take, drop, ◌==◌, if◌then◌else◌,
}
use zssz.Outcome.{Outcome, ok, err, panic, Error}

-- A source hands out its bytes and then `io.EOF`; a file of bytes does so from its position on, and is
-- an `io.Seeker`, as `bytes.Reader` is. `limited n r` is the `LimitedReader` with `n` bytes left, which
-- is no `io.Seeker`; it shares the reader `r` with whoever made it.
pub data Input : Type 0 where
  source : List ℕ → Input
  seeker : List ℕ → ℕ → Input
  limited : ℕ → Input → Input

-- The bytes that can still be read.
abbrev pub available : Input → List ℕ
available (source bs) = bs
available (seeker bs position) = drop position bs
available (limited n r) = take n (available r)

pub record Chunk : Type 0 where
  pub bytes : List ℕ
  pub at_eof : Bool
  pub after : Input

-- One `Read` into a buffer of `want` bytes, `want` not 0.
unfoldable pub read_once : Input → ℕ → Chunk
read_once (source []) want = record { bytes = []; at_eof = true; after = source [] }
read_once (source (b ∷ bs)) want = record {
  bytes = take want (b ∷ bs);
  at_eof = false;
  after = source (drop want (b ∷ bs));
}
read_once (seeker bs position) want =
    let bytes = take want (drop position bs) in
    if leb (length bs) position
    then record { bytes = []; at_eof = true; after = seeker bs position }
    else record { bytes = bytes; at_eof = false; after = seeker bs (position + length bytes) }
read_once (limited n r) want =
    let chunk = read_once r (min want n) in
    if n == 0 then record { bytes = []; at_eof = true; after = limited n r } else record {
      bytes = chunk.bytes;
      at_eof = chunk.at_eof;
      after = limited (n - length chunk.bytes) chunk.after;
    }

-- `for n < len(p) { v, err := dr.input.Read(p[n:]); … }`: `want` bytes are missing. A round
-- without an error reads a byte at least, so fuel above `want` is enough.
unfoldable pub read_loop : ℕ → Input → ℕ → List ℕ → Outcome Input (List ℕ)
unfolding read_once
read_loop zero r want read = err Error.out_of_fuel r
read_loop (suc fuel) r want read =
    let chunk = read_once r want in
    let rest = read_loop fuel chunk.after (want - length chunk.bytes) (read ++ chunk.bytes) in
    let more = if chunk.at_eof then err Error.eof chunk.after else rest in
    if want == 0 then ok read r else more

-- `r.Seek(int64(count), io.SeekCurrent)`: the position may be behind the end, where reads give `io.EOF`,
-- and a count that is negative as an int64 goes back. A position below 0 is an error, also one that is
-- so for the overflow of its int64.
unfoldable pub seek : List ℕ → ℕ → ℕ → Outcome Input (Unit {0})
seek bs position count =
    let target = u64 (position + count) in
    if ltb target (2 ^ 63)
    then ok tt (seeker bs target)
    else err Error.negative_position (seeker bs position)

-- The two cases of `Skip`: `io.Seeker`, or else `io.CopyN(ioutil.Discard, dr.input, int64(count))`,
-- which reads `limit` bytes.
unfoldable pub discard : ℕ → ℕ → Input → Outcome Input (Unit {0})
discard count limit (seeker bs position) = seek bs position count
discard count limit r = elim (read_loop (suc limit) r limit []) [
  | ok bytes after ↦ ok tt after
  | err e after ↦ err e after
  | panic ↦ panic
]
