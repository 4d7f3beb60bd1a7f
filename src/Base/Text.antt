-- ===== src/Base/Text.antt =====
-- Go strings as lists of bytes, and what the program uses of package strings.
use Prim.Native.Nat.{ℕ, zero, suc, ◌-◌, pred}
use Prim.Native.Char.{code}
use Prim.Native.String.{String}
use mathlib.Core.Path.{◌≡◌, refl, ap}
use mathlib.Core.Logic.{◌≢◌}
use mathlib.Core.Bool.{Bool, true, false, ◌&&◌, ◌||◌}
use mathlib.Core.List.{List, [], ◌∷◌, ◌++◌}
use native.Mathlib.Omega.{arith}
use gosmo.Base.Tests.{◌==◌}
use gosmo.Base.Lists.{length, All, take, drop}

abbrev pub Bytes : Type 0
Bytes = List ℕ

-- The code points of a literal; these are its bytes when the text is ASCII.
abbrev pub codes : String → Bytes
codes String.[] = []
codes (String.◌∷◌ c s) = code c ∷ codes s

-- a == b on strings
unfoldable pub str_eq : Bytes → Bytes → Bool
str_eq [] [] = true
str_eq [] (d ∷ t) = false
str_eq (c ∷ s) [] = false
str_eq (c ∷ s) (d ∷ t) = c == d && str_eq s t

pub str_eq_sound : (s t : Bytes) → str_eq s t ≡ true → s ≡ t
unfolding str_eq
str_eq_sound [] [] h = refl
str_eq_sound [] (d ∷ t) h = cc
str_eq_sound (c ∷ s) [] h = cc
str_eq_sound (c ∷ s) (d ∷ t) h = ground (arith, str_eq_sound s t)

pub str_eq_refl : (s : Bytes) → str_eq s s ≡ true
unfolding str_eq
str_eq_refl [] = refl
str_eq_refl (c ∷ s) = ground (arith, str_eq_refl s)

pub str_eq_ne : (s t : Bytes) → str_eq s t ≡ false → s ≢ t
str_eq_ne s t h e = cc (str_eq_refl s, ap (str_eq s) e)

-- strings.HasPrefix(s, p), the arguments swapped
unfoldable pub has_prefix : Bytes → Bytes → Bool
has_prefix [] s = true
has_prefix (c ∷ p) [] = false
has_prefix (c ∷ p) (d ∷ s) = c == d && has_prefix p s

-- slices.Contains
unfoldable pub contains : List Bytes → Bytes → Bool
unfolding str_eq
contains [] v = false
contains (x ∷ xs) v = str_eq x v || contains xs v

-- strings.ReplaceAll(s, old, new) for a non-empty old: occurrences do not overlap and are found
-- from the left; `skip` bytes of the occurrence last found are still to be passed over.
unfoldable pub replace_from : Bytes → Bytes → ℕ → Bytes → Bytes
unfolding has_prefix
replace_from old new skip [] = []
replace_from old new (suc k) (c ∷ s) = replace_from old new k s
replace_from old new zero (c ∷ s) = elim (has_prefix old (c ∷ s)) [
  | true ↦ new ++ replace_from old new (pred (length old)) s
  | false ↦ c ∷ replace_from old new zero s
]

unfoldable pub replace_all : Bytes → Bytes → Bytes → Bytes
unfolding replace_from
replace_all s old new = replace_from old new zero s

-- strings.Count(s, old) for a non-empty old, in the same way
unfoldable pub count_from : Bytes → ℕ → Bytes → ℕ
unfolding has_prefix
count_from old skip [] = 0
count_from old (suc k) (c ∷ s) = count_from old k s
count_from old zero (c ∷ s) = elim (has_prefix old (c ∷ s)) [
  | true ↦ suc (count_from old (pred (length old)) s)
  | false ↦ count_from old zero s
]

unfoldable pub count : Bytes → Bytes → ℕ
unfolding count_from
count s old = count_from old zero s

-- strings.Contains(s, old)
unfoldable pub contains_text : Bytes → Bytes → Bool
unfolding has_prefix
contains_text [] old = has_prefix old []
contains_text (c ∷ s) old = has_prefix old (c ∷ s) || contains_text s old

-- s[from:to]
abbrev pub slice : Bytes → ℕ → ℕ → Bytes
slice s from to = take (to - from) (drop from s)

-- The byte does not occur.
abbrev pub Lacks : ℕ → Bytes → Type 0
Lacks b = All (λ c. c ≢ b)

replace_test : replace_all (codes "a]]b]") (codes "]]") (codes "]") ≡ codes "a]b]"
unfolding replace_all
replace_test = refl

count_test : count (codes "]]]a]]") (codes "]]") ≡ 2
unfolding count
count_test = refl
