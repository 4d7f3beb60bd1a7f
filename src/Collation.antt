-- ===== src/Collation.antt =====
-- collation.go: when two names are one object, and RestoreRelocation.NeedsFileList, which asks that.
-- A name is bytes, and the source maps its runes.
pub mod Keys
pub mod Orbits
pub mod Folded
use gosmo.Base.Utf8.{runes, text_of_runes}
use gosmo.Base.{
  ℕ, zero, suc, ◌-◌, ◌≡◌, refl, Bool, true, false, not, ◌&&◌, ◌||◌, List, [], ◌∷◌, map, Bytes,
  codes, leb, ltb, ◌==◌, str_eq, if◌then◌else◌, contains_func,
}
use gosmo.Names.{to_upper}

abbrev pub add_to_first : ℕ → List Bytes → List Bytes
add_to_first c [] = (c ∷ []) ∷ []
add_to_first c (t ∷ ts) = (c ∷ t) ∷ ts

-- strings.SplitSeq(s, "_")
unfoldable pub split_tokens : Bytes → List Bytes
split_tokens [] = [] ∷ []
split_tokens (c ∷ s) = elim (c == b'_') [
  | true ↦ [] ∷ split_tokens s
  | false ↦ add_to_first c (split_tokens s)
]

unfoldable pub collation_ignores_case : Bytes → Bool
unfolding split_tokens str_eq to_upper
collation_ignores_case collation = not (
    contains_func (λ t. str_eq t (codes "CS") || str_eq t (codes "BIN") || str_eq t (codes "BIN2"))
      (split_tokens (map to_upper collation)))

-- The loop of foldKeyRune over the orbit of r, at its rune f; `simple_fold` is unicode.SimpleFold. On
-- fuel, since the loop ends where the orbit closes.
unfoldable pub least_of_orbit : (ℕ → ℕ) → ℕ → ℕ → ℕ → ℕ → ℕ
least_of_orbit simple_fold zero r least f = least
least_of_orbit simple_fold (suc fuel) r least f =
    let rest =
      least_of_orbit simple_fold fuel r (if ltb f least then f else least) (simple_fold f) in
    if f == r then least else rest

-- More rounds than an orbit has runes: in the Unicode tables none has more than four.
abbrev pub orbit_fuel : ℕ
orbit_fuel = 4

unfoldable pub fold_key_rune : (ℕ → ℕ) → ℕ → ℕ
unfolding least_of_orbit
fold_key_rune simple_fold r =
    if ltb r 128
    then (if leb b'a' r && leb r b'z' then r - 32 else r)
    else least_of_orbit simple_fold orbit_fuel r r (simple_fold r)

unfoldable pub name_key : (ℕ → ℕ) → Bytes → Bytes → Bytes
unfolding fold_key_rune runes text_of_runes
name_key simple_fold collation name =
    if not (collation_ignores_case collation)
    then name
    else text_of_runes (map (fold_key_rune simple_fold) (runes name))

unfoldable pub same_name : (ℕ → ℕ) → Bytes → Bytes → Bytes → Bool
unfolding str_eq name_key
same_name simple_fold collation a b =
    str_eq (name_key simple_fold collation a) (name_key simple_fold collation b)

pub data RelocationMode : Type 0 where
  relocate_if_renamed relocate_none relocate_to_folders : RelocationMode

-- RestoreRelocation.NeedsFileList, of the mode and the collation
unfoldable pub needs_file_list : (ℕ → ℕ) → RelocationMode → Bytes → Bytes → Bytes → Bool
needs_file_list simple_fold relocate_to_folders collation source target = true
needs_file_list simple_fold relocate_none collation source target = false
needs_file_list simple_fold relocate_if_renamed collation source target =
    not (same_name simple_fold collation source target)

ignores_test : collation_ignores_case (codes "Latin1_General_cs_AS") ≡ false
unfolding collation_ignores_case
ignores_test = refl

-- The orbit of s holds the long s, U+017F.
long_s : ℕ → ℕ
long_s r = if r == 383 then 83 else if r == 83 then 115 else if r == 115 then 383 else r

same_name_test :
    (same_name long_s (codes "Latin1_General_CI_AS") (197 ∷ 191 ∷ []) (codes "S") ≡ true)
    × (same_name long_s (codes "Latin1_General_CS_AS") (197 ∷ 191 ∷ []) (codes "S") ≡ false)
unfolding same_name collation_ignores_case runes text_of_runes str_eq long_s
same_name_test = (refl, refl)
