-- ===== src/Bulk/Money/Range.antt =====
-- moneyConv takes the amounts of its range, and no others.
use gosmo.Base.{
  ℕ, zero, suc, ◌+◌, ◌-◌, ◌*◌, ◌^◌, ◌≤◌, ◌<◌, ◌≡◌, refl, Bool, true, false, not, ◌||◌, [], ◌∷◌,
  Bytes, arith, ltb, leb, if◌then◌else◌, length, ok, err, Bool-cases, inl, inr, and_right, All,
  All-append, lt→ltb,
}
use gosmo.Base.Integer.{pos, negsuc, two_63, uint64_of, complement}
use gosmo.Restore.Lsn.{trim_zeros}
use gosmo.Restore.Lsn.Order.{
  IsDigit, value, value-trim_zeros, All-trim_zeros, NoZeroFirst, NoZeroFirst-trim_zeros, le-value,
  pow_mono,
}
use gosmo.Bulk.{
  out_of_range, digits_only, split_decimal, decimal_text, zeros, count_units, money_limit,
  ten_thousandths, money_of,
}
use gosmo.Bulk.Decimal.{HasDigits-split_decimal}
use gosmo.Bulk.Money.{count_units-IsCount, count_units_out}

pub digits_only-IsDigit : (s : Bytes) → digits_only s ≡ true → All IsDigit s
unfolding digits_only
digits_only-IsDigit [] h = tt
digits_only-IsDigit (c ∷ s) h =
    ((ground (arith, h), ground (arith, h)), digits_only-IsDigit s (and_right _ _ h))

zeros-IsDigit : (n : ℕ) → All IsDigit (zeros n)
unfolding zeros
zeros-IsDigit zero = tt
zeros-IsDigit (suc n) = ((omega arith, omega arith), zeros-IsDigit n)

-- An amount of more than 19 digits, the first of which is no zero, is out of every range.
long_amount :
    (s : Bytes) → All IsDigit s → NoZeroFirst s → leb (length s) 19 ≡ false → two_63 < value s
long_amount [] h z e = absurd (ground (arith, e))
long_amount (c ∷ s) h z e =
    let long : 19 ≤ length s = ground (arith, e) in
    let k = length s - 19 in
    let len : 19 + k ≡ length s = omega arith in
    let up : 10 ^ 19 ≤ 10 ^ length s = rw len at (pow_mono 19 k) in
    omega (arith, up, le-value c s (omega (arith, h.0, z)))

abbrev pub limit_of : ℕ → ℕ → Bool → ℕ
limit_of n m neg = if neg then suc n else m

money_limit_lem :
    (n m : ℕ) (neg : Bool) → n < two_63 → money_limit (negsuc n) (pos m) neg ≡ limit_of n m neg
unfolding money_limit uint64_of complement
money_limit_lem n m true h = omega arith
money_limit_lem n m false h = refl

limit_le : (n m : ℕ) (neg : Bool) → n < two_63 → m < two_63 → limit_of n m neg ≤ two_63
limit_le n m true h k = omega arith
limit_le n m false h k = omega arith

-- The test behind the loop, which is given the digits without the zeros in front.
refused :
    (s : Bytes) (limit : ℕ)
    → All IsDigit s
    → limit ≤ two_63
    → let counted = count_units (leb (length (trim_zeros s)) 19) 0 (trim_zeros s) in
      (not counted.in_range || ltb limit counted.units) ≡ ltb limit (value s)
refused s limit h k =
    let t = trim_zeros s in
    let same : value t ≡ value s = value-trim_zeros s in
    elim (Bool-cases (leb (length t) 19)) [
      | inl e ↦ rw e (elim (count_units-IsCount 0 t (All-trim_zeros s h) (omega arith)) [
        | inl (i, u, _) ↦
            let v : 0 * 10 ^ length t + value t ≡ value s = omega (arith, same) in rw (i, u, v) refl
        | inr (i, l) ↦ rw (i, lt→ltb limit (value s) (omega (arith, same, l))) refl
      ])
      | inr e ↦
          let l = long_amount t (All-trim_zeros s h) (NoZeroFirst-trim_zeros s) e in
          rw (e, count_units_out, lt→ltb limit (value s) (omega (arith, same, l))) refl
    ]

-- For a decimal number with up to four places, and a range from -(n + 1) to m ten-thousandths that
-- 64 bits hold, the text is refused exactly if the amount that it spells is out of the range: the
-- loop's unsigned arithmetic of 64 bits never takes a wrapped amount for one in the range.
pub money_of-range :
    {F : Type 0} (n m : ℕ) (s : Bytes)
    → n < two_63
    → m < two_63
    → (split_decimal s).is_decimal ≡ true
    → length (split_decimal s).frac ≤ 4
    → let d = split_decimal s in
      money_of {F = F} (negsuc n) (pos m) s ≡ (
        if ltb (limit_of n m d.neg) (value (ten_thousandths d.int_part d.frac))
        then err (out_of_range s (negsuc n) (pos m))
        else ok (decimal_text d.neg (trim_zeros d.int_part) d.frac))
unfolding money_of
money_of-range n m s hn hm decimal places =
    let d = split_decimal s in
    let digits = HasDigits-split_decimal s decimal in
    let few : ltb 4 (length d.frac) ≡ false = ground (arith, places) in
    let amount : All IsDigit (ten_thousandths d.int_part d.frac) =
      All-append IsDigit d.int_part _ (digits_only-IsDigit d.int_part (digits.0)) (
        All-append IsDigit d.frac _ (digits_only-IsDigit d.frac (digits.1))
          (zeros-IsDigit (4 - length d.frac))) in
    rw
      (
        decimal,
        few,
        money_limit_lem n m d.neg hn,
        refused (ten_thousandths d.int_part d.frac) (limit_of n m d.neg) amount
            (limit_le n m d.neg hn hm),
      )
      refl
