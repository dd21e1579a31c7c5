-- ===== src/Bitfields/BitAccess.antt =====
-- `GetBit` and `SetBit`: a bitfield as a map from indices to bits.
use Prim.Native.Nat.{bit_and, bit_or, bit_xor}
use zssz.Prelude.{
  ℕ, ◌*◌, ◌/◌, ◌%◌, ◌^◌, ◌≤◌, ◌<◌, ◌≡◌, refl, sym, Bool, true, false, none, some, List, length,
  get_or, get_elem?, set, All, All-get_or, All-set, IsByte, length-set, get_elem?-set_self,
  get_elem?-set_ne, get_elem?-eq-get_or, get_elem?_out, ◌==◌, if◌then◌else◌, arith, ==→eq, ==→ne,
  Bool-cases, inl, inr,
}
use zssz.Bitfields.{get_bit, set_bit}
use zssz.Bitfields.Bytewise.{low_bit, raise_bit, clear_bit, raise_bit-lt, clear_bit-lt}

-- Bit `k` of a byte.
abbrev pub bit_of : ℕ → ℕ → Bool
bit_of byte k = byte / 2 ^ k % 2 == 1

-- The byte with its bit `k` set to `v`, as `SetBit` writes it.
abbrev pub put_bit : ℕ → ℕ → Bool → ℕ
put_bit byte k v = if v then bit_or byte (2 ^ k) else bit_and byte (bit_xor 0xff (2 ^ k))

put_bit-IsByte : (byte k : ℕ) (v : Bool) → byte < 256 → k < 8 → IsByte (put_bit byte k v)
put_bit-IsByte byte k true hb hk = raise_bit-lt byte k hb hk
put_bit-IsByte byte k false hb hk = clear_bit-lt byte k hb hk

bit_of-put_bit :
    (byte k j : ℕ) (v : Bool)
    → byte < 256
    → k < 8
    → j < 8
    → bit_of (put_bit byte k v) j ≡ (if j == k then v else bit_of byte j)
bit_of-put_bit byte k j true hb hk hj = ground (arith, raise_bit byte k j hb hk hj)
bit_of-put_bit byte k j false hb hk hj = ground (arith, clear_bit byte k j hb hk hj)

get_bit_at :
    (b : List ℕ) (j byte : ℕ)
    → byte < 256
    → get_elem? b (j / 8) ≡ some byte
    → get_bit b j ≡ some (bit_of byte (j % 8))
unfolding get_bit
get_bit_at b j byte hb e = ground (arith, low_bit byte (j % 8) hb (omega arith))

get_bit_out : (b : List ℕ) (j : ℕ) → length b ≤ j / 8 → get_bit b j ≡ none
unfolding get_bit
get_bit_out b j h = ground (arith, get_elem?_out b (j / 8) h)

module _ (b : List ℕ) (i : ℕ) (v : Bool) (bytes : All IsByte b) (h : i < 8 * length b) where
  abbrev old : ℕ
  old = get_or b (i / 8) 0

  abbrev result : List ℕ
  result = set b (i / 8) (put_bit old (i % 8) v)

  old-lt : old < 256
  old-lt = All-get_or IsByte b (i / 8) 0 bytes (omega arith)

  set_bit_result : set_bit b i v ≡ some result
  unfolding set_bit
  set_bit_result = rw (get_elem?-eq-get_or b (i / 8) 0 (omega arith), set_bit) refl

  same_byte : (j : ℕ) → j / 8 ≡ i / 8 → get_bit result j ≡ (if j == i then some v else get_bit b j)
  same_byte j e = ground (
    arith,
    old-lt,
    get_bit_at result j (put_bit old (i % 8) v) (put_bit-IsByte old (i % 8) v old-lt (omega arith)),
    get_elem?-set_self b (i / 8) (put_bit old (i % 8) v),
    get_bit_at b j old old-lt,
    get_elem?-eq-get_or b (i / 8) 0,
    bit_of-put_bit old (i % 8) (j % 8) v old-lt (omega arith) (omega arith),
  )

  other_byte :
      (j : ℕ) → (i / 8 ≡ j / 8 → ⊥) → get_bit result j ≡ (if j == i then some v else get_bit b j)
  unfolding get_bit
  other_byte j ne = ground (arith, get_elem?-set_ne b (i / 8) (j / 8) (put_bit old (i % 8) v) ne)

  get_bit_result : (j : ℕ) → get_bit result j ≡ (if j == i then some v else get_bit b j)
  get_bit_result j = elim (Bool-cases (i / 8 == j / 8)) [
    | inl same ↦ same_byte j (sym (==→eq _ _ same))
    | inr other ↦ other_byte j (==→ne _ _ other)
  ]

-- `SetBit` at an index inside gives bytes of the same number in which that bit reads as `v` and
-- every other index, also one outside, reads as before.
pub get_bit-set_bit :
    (b : List ℕ) (i : ℕ) (v : Bool)
    → All IsByte b
    → i < 8 * length b
    → (b' : List ℕ) × (set_bit b i v ≡ some b')
      × (length b' ≡ length b)
      × All IsByte b'
      × ((j : ℕ) → get_bit b' j ≡ (if j == i then some v else get_bit b j))
get_bit-set_bit b i v bytes h =
    let small = old-lt b i v bytes h in
    (
      result b i v bytes h,
      set_bit_result b i v bytes h,
      length-set b (i / 8) _,
      All-set IsByte b (i / 8) _ bytes (put_bit-IsByte _ (i % 8) v small (omega arith)),
      get_bit_result b i v bytes h,
    )
