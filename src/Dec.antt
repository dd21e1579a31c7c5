-- ===== src/Dec.antt =====
-- dec/decoder.go: the scoped reader that every decoder reads from.
pub mod Reader
pub mod Advance
pub mod Laws
pub mod Holds
use zssz.Prelude.{
  ℕ, zero, suc, ◌+◌, ◌-◌, ◌^◌, ◌%◌, Bool, true, false, List, [], ◌∷◌, length, get_or, take, ltb,
  leb, ◌==◌, if◌then◌else◌, u64, of_le_bytes,
}
use zssz.Outcome.{Outcome, ok, err, panic, Error, ◌>>=◌, ◌>>◌}
use Reader.{Input, limited, read_loop, discard}

-- The scratch space is left out: each use overwrites what it reads.
pub record DecodingReader : Type 0 where
  pub input : Input
  pub i : ℕ
  pub max : ℕ
  pub fuzz_mode : Bool

-- A computation that reads: it returns the reader as it leaves it.
abbrev pub Decoder {ℓ} : Type ℓ → Type ℓ
Decoder A = DecodingReader → Outcome DecodingReader A

unfoldable pub new_decoding_reader : Input → DecodingReader
new_decoding_reader input = record { input = input; i = 0; max = 2 ^ 64 - 1; fuzz_mode = false }

-- `dr.Max() - dr.Index()`, in uint64.
unfoldable pub get_bytes_span : DecodingReader → ℕ
get_bytes_span dr = u64 (dr.max + 2 ^ 64 - dr.i)

-- `int64(count)`, as far as `io.LimitReader` and `io.CopyN` tell it apart: a negative limit reads
-- nothing, as 0 does.
abbrev pub int64_limit : ℕ → ℕ
int64_limit count = if ltb count (2 ^ 63) then count else 0

unfoldable pub scope : ℕ → Decoder DecodingReader
scope count dr =
    if ltb (get_bytes_span dr) count
    then err Error.scope_too_big dr
    else ok
        (record {
          input = limited (int64_limit count) dr.input;
          i = 0;
          max = count;
          fuzz_mode = false;
        })
        dr

unfoldable pub enable_fuzz_mode : DecodingReader → DecodingReader
enable_fuzz_mode dr = record dr { fuzz_mode = true }

-- The parent's input, as reads through the limited reader around it have left it.
unfoldable pub parent_input : Input → Input
parent_input (limited n r) = r
parent_input r = r

-- `dr.i += other.i`. The scoped reader reads from the parent's own input, so the parent sees it
-- where the scoped reader has left it.
unfoldable pub update_index_from_scoped : DecodingReader → DecodingReader → DecodingReader
unfolding parent_input
update_index_from_scoped dr other = record dr {
  input = parent_input other.input;
  i = u64 (dr.i + other.i);
}

unfoldable pub checked_index_update : ℕ → Decoder (Unit {0})
checked_index_update x dr =
    let v = u64 (dr.i + x) in
    if ltb dr.max v then err Error.beyond_scope dr else ok tt (record dr { i = v })

-- What the loop of `Read` does to the input, put back into the reader.
unfoldable pub fill : ℕ → Decoder (List ℕ)
fill want dr = elim (read_loop (suc want) dr.input want []) [
  | ok bytes r ↦ ok bytes (record dr { input = r })
  | err e r ↦ err e (record dr { input = r })
  | panic ↦ panic
]

unfoldable pub read : ℕ → Decoder (List ℕ)
read len dr =
    let rest = (checked_index_update len >> fill len) dr in if len == 0 then ok [] dr else rest

-- `r.Seek` or `io.CopyN`, put back into the reader.
unfoldable pub discard_input : ℕ → Decoder (Unit {0})
discard_input count dr = elim (discard count (int64_limit count) dr.input) [
  | ok s r ↦ ok s (record dr { input = r })
  | err e r ↦ err e (record dr { input = r })
  | panic ↦ panic
]

unfoldable pub skip : ℕ → Decoder (Unit {0})
skip count dr = (checked_index_update count >> discard_input count) dr

unfoldable pub read_byte : Decoder ℕ
read_byte = do bytes ← read 1; λ dr. ok (get_or bytes 0 0) dr

-- `ReadUint16`, `ReadUint32` and `ReadUint64`, at their numbers of bytes.
unfoldable pub read_uint : ℕ → Decoder ℕ
read_uint width = do bytes ← read width; λ dr. ok (of_le_bytes bytes) dr

unfoldable pub read_offset : Decoder ℕ
unfolding read_uint
read_offset = read_uint 4

-- `dr.Scope(count)`, a decoder run on the scoped reader, and `dr.UpdateIndexFromScoped`, as all the
-- series and containers put them together. After an error the parent keeps its index.
unfoldable pub in_scope {ℓ} : {A : Type ℓ} → Bool → ℕ → Decoder A → Decoder A
in_scope fuzz count p dr =
    (do
      scoped ← scope count
      λ dr. elim (p (if fuzz then enable_fuzz_mode scoped else scoped)) [
        | ok a s ↦ ok a (update_index_from_scoped dr s)
        | err e s ↦ err e (record dr { input = parent_input s.input })
        | panic ↦ panic
      ])
      dr
