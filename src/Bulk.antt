-- ===== src/Bulk.antt =====
-- bulkvalue.go: the values of a bulk load, checked and brought to the form that is sent.
pub mod Decimal
pub mod Money
pub mod Integer
pub mod Convert
use gosmo.Base.{
  ℕ, zero, suc, ◌+◌, ◌-◌, ◌≡◌, refl, Bool, true, false, not, ◌&&◌, ◌||◌, Option, none, some, List,
  [], ◌∷◌, ◌++◌, Bytes, codes, ltb, leb, ◌==◌, if◌then◌else◌, length, Result, ok, err, str_eq, ◌/◌,
  ◌%◌, ◌*◌,
}
use gosmo.Base.Integer.{
  ℤ, pos, negsuc, int_ltb, uint64_of, complement, signed, two_64, two_63, max_uint64,
}
use gosmo.Restore.Lsn.{trim_zeros}

-- What a driver.Value holds: F stands for float64, X for the types that a check passes on.
pub data Value (F X : Type 0) : Type 0 where
  int64 : ℤ → Value F X
  float64 : F → Value F X
  text : Bytes → Value F X
  bytes : Bytes → Value F X
  bool : Bool → Value F X
  another : X → Value F X

-- The reasons of the refusals, each with the values that its message names.
pub data Reason (F : Type 0) : Type 0 where
  not_bit : Bytes → Reason F
  out_of_range : Bytes → ℤ → ℤ → Reason F
  int_out_of_range : ℤ → ℤ → ℤ → Reason F
  float_out_of_range : F → ℤ → ℤ → Reason F
  not_whole : F → Reason F
  not_integer : Bytes → Reason F
  not_finite : F → Reason F
  not_decimal : Bytes → Reason F
  not_money : Bytes → Reason F
  too_many_places : Bytes → ℕ → Reason F
  does_not_fit : Bytes → ℕ → ℕ → Reason F
  too_long : ℕ → ℕ → Reason F

-- What the checks use of float64's arithmetic and of strconv.FormatFloat(f, 'f', places, 64).
pub record FloatOps (F : Type 0) : Type 0 where
  pub is_finite : F → Bool
  pub format : F → ℕ → Bytes
  -- f == math.Trunc(f)
  pub is_whole : F → Bool
  -- f < float64(n), f > float64(n) and f == float64(n)
  pub below : F → ℤ → Bool
  pub above : F → ℤ → Bool
  pub equals : F → ℤ → Bool
  pub to_int64 : F → ℤ

unfoldable pub digits_only : Bytes → Bool
digits_only [] = true
digits_only (c ∷ s) = leb b'0' c && leb c b'9' && digits_only s

-- strings.Cut(s, "."), without its third result
unfoldable pub before_dot : Bytes → Bytes
before_dot [] = []
before_dot (c ∷ s) = elim (c == b'.') [ true ↦ [] | false ↦ c ∷ before_dot s ]

unfoldable pub after_dot : Bytes → Bytes
after_dot [] = []
after_dot (c ∷ s) = elim (c == b'.') [ true ↦ s | false ↦ after_dot s ]

-- The results of splitDecimal.
pub record Split : Type 0 where
  pub neg : Bool
  pub int_part : Bytes
  pub frac : Bytes
  pub is_decimal : Bool

unfoldable pub split_unsigned : Bool → Bytes → Split
unfolding digits_only str_eq before_dot after_dot
split_unsigned neg t =
    let int_part = before_dot t in
    let frac = after_dot t in
    record {
      neg = neg;
      int_part = int_part;
      frac = frac;
      is_decimal = not (str_eq (int_part ++ frac) []) && digits_only int_part && digits_only frac;
    }

unfoldable pub split_decimal : Bytes → Split
unfolding split_unsigned
split_decimal [] = split_unsigned false []
split_decimal (c ∷ t) =
    if c == b'-' || c == b'+' then split_unsigned (c == b'-') t else split_unsigned false (c ∷ t)

unfoldable pub decimal_text : Bool → Bytes → Bytes → Bytes
unfolding str_eq
decimal_text neg int_part frac =
    let whole = if str_eq int_part [] then codes "0" else int_part in
    let signed_part = if neg then codes "-" ++ whole else whole in
    if str_eq frac [] then signed_part else signed_part ++ codes "." ++ frac

-- decimalConv's check of a text
unfoldable pub decimal_of : {F : Type 0} → ℕ → ℕ → Bytes → Result (Reason F) Bytes
unfolding split_decimal decimal_text trim_zeros
decimal_of precision scale s =
    let d = split_decimal s in
    let int_part = trim_zeros d.int_part in
    if not d.is_decimal
    then err (not_decimal s)
    else if ltb scale (length d.frac)
    then err (too_many_places s scale)
    else if ltb precision (length int_part + scale)
    then err (does_not_fit s precision scale)
    else ok (decimal_text d.neg int_part d.frac)

-- strings.Repeat("0", n)
unfoldable pub zeros : ℕ → Bytes
zeros zero = []
zeros (suc n) = b'0' ∷ zeros n

-- inRange and units
pub record Units : Type 0 where
  pub in_range : Bool
  pub units : ℕ

-- moneyConv's loop over the digits; its condition reads inRange before each round
unfoldable pub count_units : Bool → ℕ → Bytes → Units
count_units in_range units [] = record { in_range = in_range; units = units }
count_units in_range units (c ∷ s) =
    let d = c - b'0' in
    let rest = count_units (leb units ((max_uint64 - d) / 10)) ((units * 10 + d) % two_64) s in
    if in_range then rest else record { in_range = in_range; units = units }

unfoldable pub money_limit : ℤ → ℤ → Bool → ℕ
unfolding uint64_of complement
money_limit lo hi neg = if neg then (uint64_of (complement lo) + 1) % two_64 else uint64_of hi

-- intPart + frac + strings.Repeat("0", 4-len(frac))
abbrev pub ten_thousandths : Bytes → Bytes → Bytes
ten_thousandths int_part frac = int_part ++ (frac ++ zeros (4 - length frac))

-- moneyConv's check of a text
unfoldable pub money_of : {F : Type 0} → ℤ → ℤ → Bytes → Result (Reason F) Bytes
unfolding split_decimal decimal_text trim_zeros count_units money_limit zeros
money_of lo hi s =
    let d = split_decimal s in
    let digits = trim_zeros (ten_thousandths d.int_part d.frac) in
    let counted = count_units (leb (length digits) 19) 0 digits in
    if not d.is_decimal
    then err (not_money s)
    else if ltb 4 (length d.frac)
    then err (too_many_places s 4)
    else if not counted.in_range || ltb (money_limit lo hi d.neg) counted.units
    then err (out_of_range s lo hi)
    else ok (decimal_text d.neg (trim_zeros d.int_part) d.frac)

decimal_test : decimal_of {F = ℕ} 5 2 (codes "+007.50") ≡ ok (codes "7.50")
unfolding decimal_of
decimal_test = refl

money_test :
    money_of {F = ℕ} (negsuc 2147483647) (pos 2147483647) (codes "-214748.3648")
    ≡ ok (codes "-214748.3648")
unfolding money_of
money_test = refl

money_above :
    money_of {F = ℕ} (negsuc 2147483647) (pos 2147483647) (codes "214748.3648")
    ≡ err (out_of_range (codes "214748.3648") (negsuc 2147483647) (pos 2147483647))
unfolding money_of
money_above = refl
