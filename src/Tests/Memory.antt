-- ===== src/Tests/Memory.antt =====
-- A copy in memory, and small strings.
use buaa_os_mos_with_fat.Base.{◌≡◌, refl, arith, ℕ, inr, List, [], ◌∷◌, Option, some, none}
use buaa_os_mos_with_fat.Base.Int.{pos}
use buaa_os_mos_with_fat.Base.Bitmap.{Words}
use buaa_os_mos_with_fat.Clib.Strings.{strlen, strchr, strcmp}
use buaa_os_mos_with_fat.Clib.Memory.{memcpy, copy_word}
use buaa_os_mos_with_fat.Clib.Memory.Copied.{memcpy_lem, IsCopy}

-- six bytes, from 101 to 1: neither address is aligned, both alike
memcpy_lem_example : (v : Words) × (memcpy 1 101 6 (λ a. a) ≡ some v) × IsCopy 1 101 6 (λ a. a) v
memcpy_lem_example = memcpy_lem 1 101 6 (λ a. a) (inr (omega arith))

abbrev seventh : Option Words → ℕ
seventh (some v) = v 7
seventh none = 0

past_end : seventh (memcpy 1 101 6 (λ a. a)) ≡ 7
unfolding memcpy
past_end = refl

misaligned : copy_word (record { dst = 4; src = 5; mem = λ a. a }) ≡ none
unfolding copy_word
misaligned = refl

abbrev one_a : List ℕ
one_a = 97 ∷ []

abbrev one_b : List ℕ
one_b = 98 ∷ []

greater : strcmp (200 ∷ []) (98 ∷ []) ≡ pos 1
unfolding strcmp
greater = refl

found : strchr (97 ∷ 98 ∷ 99 ∷ []) 98 ≡ some (98 ∷ 99 ∷ [])
unfolding strchr
found = refl

two : strlen (97 ∷ 98 ∷ []) ≡ 2
unfolding strlen
two = refl
