-- ===== src/Tags.antt =====
-- util/tags/read_tag.go: the flags in the tag of a struct field. A text is the list of its bytes.
pub mod Split
use zssz.Prelude.{
  ℕ, zero, suc, Bool, true, false, ◌&&◌, Option, none, some, List, [], ◌∷◌, length, take, drop,
  ◌==◌, if◌then◌else◌,
}

-- `","`.
abbrev pub comma : ℕ
comma = 44

abbrev pub same_text : List ℕ → List ℕ → Bool
same_text [] [] = true
same_text [] (y ∷ ys) = false
same_text (x ∷ xs) [] = false
same_text (x ∷ xs) (y ∷ ys) = (x == y) && same_text xs ys

abbrev pub next_index : Option ℕ → Option ℕ
next_index none = none
next_index (some i) = some (suc i)

-- `strings.Index` of one byte; `none` is -1.
abbrev pub index_of : ℕ → List ℕ → Option ℕ
index_of c [] = none
index_of c (x ∷ xs) = if x == c then some 0 else next_index (index_of c xs)

-- The loop, on fuel: a round leaves less of the tag.
unfoldable pub find_flag : ℕ → List ℕ → List ℕ → Bool
find_flag zero tag flag = false
find_flag (suc fuel) [] flag = false
find_flag (suc fuel) (c ∷ cs) flag =
    let tag = c ∷ cs in
    let cut : List ℕ × List ℕ = elim (index_of comma tag) [
      | none ↦ (tag, [])
      | some i ↦ (take i tag, drop (suc i) tag)
    ] in
    let rest = find_flag fuel cut.1 flag in if same_text cut.0 flag then true else rest

-- The first argument is what `Tag.Lookup` finds for the namespace.
unfoldable pub has_flag : Option (List ℕ) → List ℕ → Bool
unfolding find_flag
has_flag lookup [] = false
has_flag none (f ∷ flag) = false
has_flag (some tag) (f ∷ flag) = find_flag (suc (length tag)) tag (f ∷ flag)
