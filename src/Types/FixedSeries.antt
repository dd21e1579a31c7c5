-- ===== src/Types/FixedSeries.antt =====
-- types/elem_fixed_size_series.go: elements one after the other. A series in memory is the list of
-- its elements.
pub mod Codec
use zssz.Prelude.{ℕ, zero, suc, ◌/◌, Bool, List, [], ◌∷◌, ltb, ◌==◌, if◌then◌else◌}
use zssz.Outcome.{ok, err, Error, ◌>>=◌, ◌>>◌, fail_if, pure}
use zssz.Dec.{Decoder}
use zssz.Enc.{Encoder}

module _ {A : Type 0} where
  unfoldable pub encode_fixed_series : (A → Encoder) → List A → Encoder
  encode_fixed_series encode [] = pure tt
  encode_fixed_series encode (x ∷ xs) = encode x >> encode_fixed_series encode xs

  unfoldable pub decode_fixed_series : Decoder A → ℕ → Decoder (List A)
  decode_fixed_series decode zero = pure []
  decode_fixed_series decode (suc length) = do
    x ← decode
    xs ← decode_fixed_series decode length
    pure (x ∷ xs)

-- The same loop as that of `decode_fixed_series`, with nothing to keep.
unfoldable pub dry_check_fixed_series : Decoder (Unit {0}) → ℕ → Decoder (Unit {0})
dry_check_fixed_series dry_check length = do done ← decode_fixed_series dry_check length; pure tt

unfoldable pub calc_fixed_slice_length : ℕ → ℕ → ℕ → Decoder ℕ
calc_fixed_slice_length elem_len bytes_len limit = do
  fail_if (elem_len == 0) Error.zero_length_elements
  fail_if (ltb limit (bytes_len / elem_len)) Error.over_limit
  pure (bytes_len / elem_len)

unfoldable pub dry_check_fixed_slice : Decoder (Unit {0}) → ℕ → ℕ → ℕ → Decoder (Unit {0})
dry_check_fixed_slice dry_check elem_len bytes_len limit = do
  length ← calc_fixed_slice_length elem_len bytes_len limit
  dry_check_fixed_series dry_check length

unfoldable pub decode_fixed_slice : {A : Type 0} → Decoder A → ℕ → ℕ → ℕ → Decoder (List A)
decode_fixed_slice decode elem_len bytes_len limit = do
  length ← calc_fixed_slice_length elem_len bytes_len limit
  decode_fixed_series decode length
