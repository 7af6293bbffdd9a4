-- ===== src/Base/Sorting.antt =====
-- The order of `str`, `sort` and the comparison of lists of strings.
use mathlib.Core.Bool.{Bool, true, false, ◌&&◌, ◌||◌}
use mathlib.Core.List.{List, [], ◌∷◌}
use grafhome_ca.Base.Tests.{ltb, ◌==◌, if◌then◌else◌}
use grafhome_ca.Base.Strings.{Text, eq_text, eq_text_sound, eq_text_refl}
use mathlib.Core.Path.{◌≡◌, refl}
use native.Mathlib.Omega.{arith}
use grafhome_ca.Base.Tests.{&&-eq-true}

-- `Ord` of `str`
unfoldable pub text_leb : Text → Text → Bool
text_leb [] t = true
text_leb (a ∷ s) [] = false
text_leb (a ∷ s) (b ∷ t) = ltb a b || (a == b && text_leb s t)

insert_text : Text → List Text → List Text
unfolding text_leb
insert_text s [] = s ∷ []
insert_text s (t ∷ ts) = if text_leb s t then s ∷ t ∷ ts else t ∷ insert_text s ts

-- `sort`
unfoldable pub sort_texts : List Text → List Text
unfolding insert_text
sort_texts [] = []
sort_texts (s ∷ ss) = insert_text s (sort_texts ss)

unfoldable pub eq_texts : List Text → List Text → Bool
eq_texts [] [] = true
eq_texts (s ∷ ss) (t ∷ ts) = eq_text s t && eq_texts ss ts
eq_texts _ _ = false

-- `dedup`
unfoldable pub dedup : List Text → List Text
dedup [] = []
dedup (s ∷ []) = s ∷ []
dedup (s ∷ t ∷ ts) = let rest = dedup (t ∷ ts) in if eq_text s t then rest else s ∷ rest

pub eq_texts_sound : (s t : List Text) → eq_texts s t ≡ true → s ≡ t
unfolding eq_texts
eq_texts_sound [] [] h = refl
eq_texts_sound [] (b ∷ t) h = cc
eq_texts_sound (a ∷ s) [] h = cc
eq_texts_sound (a ∷ s) (b ∷ t) h =
    let (p, q) = &&-eq-true (eq_text a b) (eq_texts s t) h in
    cc (eq_text_sound a b p, eq_texts_sound s t q)

pub eq_texts_refl : (s : List Text) → eq_texts s s ≡ true
unfolding eq_texts
eq_texts_refl [] = refl
eq_texts_refl (a ∷ s) = ground (arith, eq_text_refl a, eq_texts_refl s)
