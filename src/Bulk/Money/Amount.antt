-- ===== src/Bulk/Money/Amount.antt =====
-- What moneyConv sends: the amount it was given, in a text that it takes again.
use gosmo.Base.{
  ℕ, ◌≡◌, refl, sym, ap, subst, ◌∙◌, Bool, true, false, not, ◌||◌, [], ◌∷◌, ◌++◌, Bytes, arith, ltb,
  leb, ◌==◌, length, ok, Bool-cases, ◌⊎◌, inl, inr, append-nil, guard_ok, ok_inj,
}
use gosmo.Base.Integer.{ℤ}
use gosmo.Restore.Lsn.{trim_zeros}
use gosmo.Restore.Lsn.Order.{value, value-trim_zeros}
use gosmo.Bulk.{
  not_money, too_many_places, out_of_range, digits_only, split_decimal, decimal_text, count_units,
  money_limit, ten_thousandths, money_of, decimal_of,
}
use gosmo.Bulk.Decimal.{
  whole, split_decimal-decimal_text, HasDigits-split_decimal, digits_only-trim_zeros,
  trim_zeros_again, decimal_of_ok,
}

trim_zeros-append : (s r : Bytes) → trim_zeros (trim_zeros s ++ r) ≡ trim_zeros (s ++ r)
unfolding trim_zeros
trim_zeros-append [] r = refl
trim_zeros-append (c ∷ s) r = elim (Bool-cases (c == b'0')) [
  | inl e ↦ rw (e, trim_zeros) (trim_zeros-append s r)
  | inr e ↦ rw (e, trim_zeros) (rw (e, trim_zeros) refl)
]

trim_zeros-whole : (s r : Bytes) → trim_zeros (whole (trim_zeros s) ++ r) ≡ trim_zeros (s ++ r)
trim_zeros-whole s r = go (trim_zeros s) ∙ trim_zeros-append s r
  where
    go : (t : Bytes) → trim_zeros (whole t ++ r) ≡ trim_zeros (t ++ r)
    go [] = unfold trim_zeros in refl
    go (c ∷ t) = refl

value-whole : (s r : Bytes) → value (whole (trim_zeros s) ++ r) ≡ value (s ++ r)
value-whole s r =
    sym (value-trim_zeros (whole (trim_zeros s) ++ r))
    ∙ ap value (trim_zeros-whole s r)
    ∙ value-trim_zeros (s ++ r)

money_of_ok :
    {F : Type 0} (lo hi : ℤ) (s : Bytes) {t : Bytes}
    → money_of {F = F} lo hi s ≡ ok t
    → let d = split_decimal s in
      let digits = trim_zeros (ten_thousandths d.int_part d.frac) in
      let counted = count_units (leb (length digits) 19) 0 digits in
      (d.is_decimal ≡ true)
      × (ltb 4 (length d.frac) ≡ false)
      × ((not counted.in_range || ltb (money_limit lo hi d.neg) counted.units) ≡ false)
      × (decimal_text d.neg (trim_zeros d.int_part) d.frac ≡ t)
unfolding money_of
money_of_ok lo hi s h =
    let d = split_decimal s in
    let digits = trim_zeros (ten_thousandths d.int_part d.frac) in
    let counted = count_units (leb (length digits) 19) 0 digits in
    let decimal = guard_ok (not d.is_decimal) (not_money s) _ _ h in
    let places = guard_ok (ltb 4 (length d.frac)) (too_many_places s 4) _ _ (decimal.1) in
    let fits =
      guard_ok (not counted.in_range || ltb (money_limit lo hi d.neg) counted.units)
        (out_of_range s lo hi) _ _ (places.1) in
    (ground (arith, decimal.0), places.0, fits.0, ok_inj _ _ (fits.1))

-- What moneyConv makes of a text is a text that it takes, and gives back unchanged.
pub money_of_again :
    {F : Type 0} (lo hi : ℤ) (s t : Bytes)
    → money_of {F = F} lo hi s ≡ ok t
    → money_of {F = F} lo hi t ≡ ok t
money_of_again {F} lo hi s t h =
    let accepted = money_of_ok lo hi s h in
    let d = split_decimal s in
    subst (λ t. money_of {F = F} lo hi t ≡ ok t) (accepted.3)
      (again d.neg d.int_part d.frac (HasDigits-split_decimal s (accepted.0)) (accepted.1)
        (accepted.2))
  where
    again :
        (neg : Bool) (i f : Bytes)
        → (digits_only i ≡ true) × (digits_only f ≡ true)
        → ltb 4 (length f) ≡ false
        → (let digits = trim_zeros (ten_thousandths i f) in
            let counted = count_units (leb (length digits) 19) 0 digits in
            (not counted.in_range || ltb (money_limit lo hi neg) counted.units) ≡ false)
        → money_of {F = F} lo hi (decimal_text neg (trim_zeros i) f)
          ≡ ok (decimal_text neg (trim_zeros i) f)
    again neg i f digits places fits =
        unfold money_of in
        rw
          (
            split_decimal-decimal_text neg (trim_zeros i) f (digits_only-trim_zeros i (digits.0))
                (digits.1),
            places,
            trim_zeros_again i,
            trim_zeros-whole i,
            fits,
          )
          refl

-- The text that moneyConv or decimalConv sends is a decimal number of the same sign, of the same
-- digits behind the point, and of the same number in front of it as the text that was given.
pub sent_same_amount :
    {F : Type 0} (lo hi : ℤ) (precision scale : ℕ) (s t : Bytes)
    → (money_of {F = F} lo hi s ≡ ok t) ⊎ (decimal_of {F = F} precision scale s ≡ ok t)
    → ((split_decimal t).is_decimal ≡ true)
      × ((split_decimal t).neg ≡ (split_decimal s).neg)
      × ((split_decimal t).frac ≡ (split_decimal s).frac)
      × (value (split_decimal t).int_part ≡ value (split_decimal s).int_part)
sent_same_amount lo hi precision scale s t h =
    let d = split_decimal s in
    elim h [
      | inl m ↦ (let accepted = money_of_ok lo hi s m in same (accepted.0) (accepted.3))
      | inr m ↦ (let accepted = decimal_of_ok precision scale s m in same (accepted.0) (accepted.3))
    ]
  where
    same :
        (split_decimal s).is_decimal ≡ true
        → decimal_text
            (split_decimal s).neg
            (trim_zeros (split_decimal s).int_part)
            (split_decimal s).frac
          ≡ t
        → ((split_decimal t).is_decimal ≡ true)
          × ((split_decimal t).neg ≡ (split_decimal s).neg)
          × ((split_decimal t).frac ≡ (split_decimal s).frac)
          × (value (split_decimal t).int_part ≡ value (split_decimal s).int_part)
    same decimal e =
        let d = split_decimal s in
        let digits = HasDigits-split_decimal s decimal in
        rw
          (
            ← e,
            split_decimal-decimal_text d.neg (trim_zeros d.int_part) d.frac
                (digits_only-trim_zeros d.int_part (digits.0)) (digits.1),
          )
          (
            refl,
            refl,
            refl,
            rw (append-nil d.int_part, append-nil (whole (trim_zeros d.int_part))) at
                (value-whole d.int_part []),
          )
