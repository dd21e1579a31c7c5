-- ===== src/Examples/Tags.antt =====
-- Flags in a tag.
use zssz.Prelude.{◌≡◌, refl, true, false, none, some, List, ℕ, [], ◌∷◌}
use zssz.Tags.{has_flag, find_flag}
use zssz.Tags.Split.{is_one_of, split_flags, has_flag_lem}

-- "omit,squash" and "squash".
abbrev tag : List ℕ
tag = 111 ∷ 109 ∷ 105 ∷ 116 ∷ 44 ∷ 115 ∷ 113 ∷ 117 ∷ 97 ∷ 115 ∷ 104 ∷ []

abbrev squash : List ℕ
squash = 115 ∷ 113 ∷ 117 ∷ 97 ∷ 115 ∷ 104 ∷ []

squash_found : has_flag (some tag) squash ≡ true
unfolding has_flag find_flag
squash_found = refl

has_flag_lem_example :
    (has_flag (some tag) squash ≡ is_one_of squash (split_flags tag))
    × (has_flag none squash ≡ false)
    × (has_flag (some tag) [] ≡ false)
has_flag_lem_example = has_flag_lem tag 115 (113 ∷ 117 ∷ 97 ∷ 115 ∷ 104 ∷ [])
