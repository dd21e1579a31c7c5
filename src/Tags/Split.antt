-- ===== src/Tags/Split.antt =====
-- What the loop of util/tags/read_tag.go finds: one of the texts between the commas.
use zssz.Prelude.{
  ℕ, zero, suc, ◌≤◌, ◌≡◌, refl, sym, ap, ◌∙◌, Bool, true, false, ◌||◌, Option, none, some, List, [],
  ◌∷◌, length, length-drop, take, drop, ◌==◌, if◌then◌else◌, if_true, if_false, Bool-cases, inl,
  inr, arith,
}
use zssz.Tags.{comma, same_text, next_index, index_of, find_flag, has_flag}

-- A byte put before the first of the texts.
abbrev pub put_first : ℕ → List (List ℕ) → List (List ℕ)
put_first c [] = (c ∷ []) ∷ []
put_first c (part ∷ parts) = (c ∷ part) ∷ parts

-- The texts between the commas.
abbrev pub split_flags : List ℕ → List (List ℕ)
split_flags [] = [] ∷ []
split_flags (c ∷ cs) = if c == comma then [] ∷ split_flags cs else put_first c (split_flags cs)

abbrev pub is_one_of : List ℕ → List (List ℕ) → Bool
is_one_of flag [] = false
is_one_of flag (part ∷ parts) = same_text part flag || is_one_of flag parts

-- The texts by the place of the first comma.
abbrev split_at : List ℕ → Option ℕ → List (List ℕ)
split_at tag none = tag ∷ []
split_at tag (some i) = take i tag ∷ split_flags (drop (suc i) tag)

split_further :
    (c : ℕ) (cs : List ℕ) (r : Option ℕ)
    → split_flags cs ≡ split_at cs r
    → put_first c (split_flags cs) ≡ split_at (c ∷ cs) (next_index r)
split_further c cs none e = ap (put_first c) e
split_further c cs (some i) e = ap (put_first c) e

split_flags-split_at : (tag : List ℕ) → split_flags tag ≡ split_at tag (index_of comma tag)
split_flags-split_at [] = refl
split_flags-split_at (c ∷ cs) = elim (Bool-cases (c == comma)) [
  | inl e ↦ if_true _ _ e ∙ sym (ap (split_at (c ∷ cs)) (if_true _ _ e))
  | inr e ↦
      if_false _ _ e
      ∙ split_further c cs (index_of comma cs) (split_flags-split_at cs)
      ∙ sym (ap (split_at (c ∷ cs)) (if_false _ _ e))
]

if_or : (a b : Bool) → (if a then true else b) ≡ (a || b)
if_or true b = refl
if_or false b = refl

module _ (f : ℕ) (fs : List ℕ) where
  found :
      (fuel : ℕ) (tag : List ℕ) (r : Option ℕ)
      → length tag ≤ suc fuel
      → ((rest : List ℕ)
          → length rest ≤ fuel
          → find_flag (suc fuel) rest (f ∷ fs) ≡ is_one_of (f ∷ fs) (split_flags rest))
      → (let cut : List ℕ × List ℕ = elim r [
        | none ↦ (tag, [])
        | some i ↦ (take i tag, drop (suc i) tag)
      ] in
          if same_text cut.0 (f ∷ fs) then true else find_flag (suc fuel) cut.1 (f ∷ fs))
        ≡ is_one_of (f ∷ fs) (split_at tag r)
  unfolding find_flag
  found fuel tag none le next = if_or (same_text tag (f ∷ fs)) false
  found fuel tag (some i) le next =
      ap (λ (b : Bool). if same_text (take i tag) (f ∷ fs) then true else b)
        (next (drop (suc i) tag) (omega (arith, length-drop (suc i) tag, le)))
      ∙ if_or (same_text (take i tag) (f ∷ fs)) _

  find_flag_lem :
      (fuel : ℕ) (tag : List ℕ)
      → length tag ≤ fuel
      → find_flag (suc fuel) tag (f ∷ fs) ≡ is_one_of (f ∷ fs) (split_flags tag)
  unfolding find_flag
  find_flag_lem fuel [] le = refl
  find_flag_lem zero (c ∷ cs) le = absurd (omega arith)
  find_flag_lem (suc fuel) (c ∷ cs) le =
      found fuel (c ∷ cs) (index_of comma (c ∷ cs)) le (find_flag_lem fuel)
      ∙ sym (ap (is_one_of (f ∷ fs)) (split_flags-split_at (c ∷ cs)))

-- `HasFlag` tells of a flag that is not empty whether it is one of the texts between the commas of
-- the tag; of the empty flag, and without a tag, it says no.
pub has_flag_lem :
    (tag : List ℕ) (f : ℕ) (fs : List ℕ)
    → (has_flag (some tag) (f ∷ fs) ≡ is_one_of (f ∷ fs) (split_flags tag))
      × (has_flag none (f ∷ fs) ≡ false)
      × (has_flag (some tag) [] ≡ false)
unfolding has_flag
has_flag_lem tag f fs = (find_flag_lem f fs (length tag) tag (omega arith), refl, refl)
