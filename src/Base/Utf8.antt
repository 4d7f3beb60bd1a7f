-- ===== src/Base/Utf8.antt =====
-- Package unicode/utf8: the runes of a text of bytes, as a range loop and strings.Map read them, and
-- the bytes of runes, as WriteRune writes them.
pub mod Injective
use gosmo.Base.{
  ℕ, zero, suc, ◌+◌, ◌-◌, ◌*◌, ◌/◌, ◌%◌, ◌≡◌, refl, Bool, ◌&&◌, List, [], ◌∷◌, ◌++◌, Bytes, ltb,
  leb, ◌==◌, if◌then◌else◌,
}

-- utf8.RuneError
abbrev pub rune_error : ℕ
rune_error = 65533

-- A rune, and how many bytes behind its first it takes.
pub record Decoded : Type 0 where
  pub rune : ℕ
  pub more : ℕ

abbrev invalid : Decoded
invalid = record { rune = rune_error; more = 0 }

abbrev is_continuation : ℕ → Bool
is_continuation c = leb 128 c && leb c 191

-- The second bytes that may stand behind a first byte of three or of four.
abbrev second_of_three : ℕ → ℕ → Bool
second_of_three c d =
    if c == 224
    then leb 160 d && leb d 191
    else if c == 237
    then leb 128 d && leb d 159
    else is_continuation d

abbrev second_of_four : ℕ → ℕ → Bool
second_of_four c d =
    if c == 240
    then leb 144 d && leb d 191
    else if c == 244
    then leb 128 d && leb d 143
    else is_continuation d

unfoldable two_bytes : ℕ → Bytes → Decoded
two_bytes c [] = invalid
two_bytes c (d ∷ s) =
    if is_continuation d then record { rune = (c - 192) * 64 + (d - 128); more = 1 } else invalid

unfoldable three_bytes : ℕ → Bytes → Decoded
three_bytes c [] = invalid
three_bytes c (d ∷ []) = invalid
three_bytes c (d ∷ e ∷ s) =
    if second_of_three c d && is_continuation e
    then record { rune = (c - 224) * 4096 + (d - 128) * 64 + (e - 128); more = 2 }
    else invalid

unfoldable four_bytes : ℕ → Bytes → Decoded
four_bytes c [] = invalid
four_bytes c (d ∷ []) = invalid
four_bytes c (d ∷ e ∷ []) = invalid
four_bytes c (d ∷ e ∷ f ∷ s) =
    if second_of_four c d && (is_continuation e && is_continuation f)
    then record {
      rune = (c - 240) * 262144 + (d - 128) * 4096 + (e - 128) * 64 + (f - 128);
      more = 3;
    }
    else invalid

-- utf8.DecodeRune of the first byte and those behind it
unfoldable pub rune_at : ℕ → Bytes → Decoded
unfolding two_bytes three_bytes four_bytes
rune_at c s =
    if ltb c 128
    then record { rune = c; more = 0 }
    else if leb 194 c && leb c 223
    then two_bytes c s
    else if leb 224 c && leb c 239
    then three_bytes c s
    else if leb 240 c && leb c 244
    then four_bytes c s
    else invalid

-- The runes of a text behind the bytes that its first rune still takes.
unfoldable pub runes_behind : ℕ → Bytes → List ℕ
unfolding rune_at
runes_behind more [] = []
runes_behind (suc more) (c ∷ s) = runes_behind more s
runes_behind zero (c ∷ s) = let d = rune_at c s in d.rune ∷ runes_behind d.more s

unfoldable pub runes : Bytes → List ℕ
unfolding runes_behind
runes s = runes_behind 0 s

-- utf8.AppendRune of a rune that runes gives
unfoldable pub rune_bytes : ℕ → Bytes
rune_bytes r =
    if ltb r 128
    then r ∷ []
    else if ltb r 2048
    then (192 + r / 64) ∷ (128 + r % 64) ∷ []
    else if ltb r 65536
    then (224 + r / 4096) ∷ (128 + r / 64 % 64) ∷ (128 + r % 64) ∷ []
    else (240 + r / 262144) ∷ (128 + r / 4096 % 64) ∷ (128 + r / 64 % 64) ∷ (128 + r % 64) ∷ []

unfoldable pub text_of_runes : List ℕ → Bytes
unfolding rune_bytes
text_of_runes [] = []
text_of_runes (r ∷ rs) = rune_bytes r ++ text_of_runes rs

-- A rune of two bytes, one of three, a byte that begins none, and one that is cut off.
runes_test :
    runes (65 ∷ 194 ∷ 133 ∷ 226 ∷ 130 ∷ 172 ∷ 255 ∷ 226 ∷ 130 ∷ [])
    ≡ 65 ∷ 133 ∷ 8364 ∷ 65533 ∷ 65533 ∷ 65533 ∷ []
unfolding runes
runes_test = refl

text_of_runes_test :
    text_of_runes (65 ∷ 133 ∷ 8364 ∷ 128512 ∷ [])
    ≡ 65 ∷ 194 ∷ 133 ∷ 226 ∷ 130 ∷ 172 ∷ 240 ∷ 159 ∷ 152 ∷ 128 ∷ []
unfolding text_of_runes
text_of_runes_test = refl
