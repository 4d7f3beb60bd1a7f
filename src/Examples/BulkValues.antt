-- ===== src/Examples/BulkValues.antt =====
-- Amounts, integers and bytes of a bulk load; whole numbers stand for float64.
use gosmo.Base.{
  ℕ, ◌≤◌, ◌<◌, ◌≡◌, ◌⊎◌, refl, inr, false, true, ◌||◌, [], ◌∷◌, Bytes, codes, arith, ltb,
  if◌then◌else◌, length, All, ok, err,
}
use gosmo.Base.Integer.{ℤ, pos, negsuc, int_ltb, signed}
use gosmo.Restore.Lsn.{trim_zeros}
use gosmo.Restore.Lsn.Order.{value}
use gosmo.Bulk.{
  int64, text, bytes, out_of_range, too_long, FloatOps, split_decimal, decimal_text, decimal_of,
  money_of, ten_thousandths, digits_only,
}
use gosmo.Bulk.Decimal.{whole, split_decimal-decimal_text}
use gosmo.Bulk.Money.Range.{limit_of, money_of-range}
use gosmo.Bulk.Money.Amount.{sent_same_amount}
use gosmo.Bulk.Integer.{format_int, parse_int}
use gosmo.Bulk.Convert.{as_int, int_conv, binary_conv, convert}
use gosmo.Bulk.Convert.Again.{convert_again}
use gosmo.Bulk.Convert.Bounds.{with_minus, int_conv-value, binary_conv-bounds}

abbrev whole_numbers : FloatOps ℤ
whole_numbers = record {
  is_finite = λ f. true;
  format = λ f places. format_int f;
  is_whole = λ f. true;
  below = λ f n. int_ltb f n;
  above = λ f n. int_ltb n f;
  equals = λ f n. false;
  to_int64 = λ f. f;
}

-- More than smallmoney, and more than 64 bits count.
abbrev amount : Bytes
amount = codes "-0184467440737095.5617"

money_of-range_example : money_of {F = ℕ} (negsuc 2147483647) (pos 2147483647) amount ≡ (
    if ltb
      (limit_of 2147483647 2147483647 (split_decimal amount).neg)
      (value (ten_thousandths (split_decimal amount).int_part (split_decimal amount).frac))
    then err (out_of_range amount (negsuc 2147483647) (pos 2147483647))
    else ok (
        decimal_text
          (split_decimal amount).neg
          (trim_zeros (split_decimal amount).int_part)
          (split_decimal amount).frac))
money_of-range_example =
    money_of-range 2147483647 2147483647 amount (omega arith) (omega arith)
      (unfold split_decimal in refl) (unfold split_decimal in omega arith)

sent_same_amount_example :
    ((split_decimal (codes "7.50")).is_decimal ≡ true)
    × ((split_decimal (codes "7.50")).neg ≡ (split_decimal (codes "+007.50")).neg)
    × ((split_decimal (codes "7.50")).frac ≡ (split_decimal (codes "+007.50")).frac)
    × (value (split_decimal (codes "7.50")).int_part
        ≡ value (split_decimal (codes "+007.50")).int_part)
sent_same_amount_example =
    sent_same_amount {F = ℕ} (pos 0) (pos 0) 5 2 (codes "+007.50") (codes "7.50")
      (inr (unfold decimal_of in refl))

split_decimal-decimal_text_example :
    split_decimal (decimal_text true [] (codes "5"))
    ≡ record { neg = true; int_part = whole []; frac = codes "5"; is_decimal = true }
split_decimal-decimal_text_example =
    split_decimal-decimal_text true [] (codes "5") (unfold digits_only in refl)
      (unfold digits_only in refl)

convert_again_example :
    convert {X = ℕ} whole_numbers (as_int (pos 0) (pos 255)) (int64 (pos 7)) ≡ ok (int64 (pos 7))
convert_again_example =
    convert_again whole_numbers (as_int (pos 0) (pos 255)) (text (codes "+7")) (int64 (pos 7))
      (λ f integral finite below above last. ground (arith, below, above))
      (unfold convert parse_int in refl)

int_conv-value_example :
    int_conv {X = ℕ} whole_numbers
      (pos 0)
      (pos 255)
      (text (with_minus false (codes "18446744073709551623")))
    ≡ (if int_ltb (signed false (value (codes "18446744073709551623"))) (pos 0)
          || int_ltb (pos 255) (signed false (value (codes "18446744073709551623")))
        then err (out_of_range (with_minus false (codes "18446744073709551623")) (pos 0) (pos 255))
        else ok (int64 (signed false (value (codes "18446744073709551623")))))
int_conv-value_example =
    int_conv-value whole_numbers (pos 0) (pos 255) false (codes "18446744073709551623")
      (unfold int_ltb in refl) (unfold int_ltb in refl) (unfold digits_only in refl) (omega arith)

binary_conv-bounds_example :
    let r = binary_conv {X = ℕ} whole_numbers (pos 3) true (bytes (1 ∷ [])) in
    ((1 ≤ 3)
      × ((zeros : Bytes) × (r ≡ ok (bytes (1 ∷ zeros)))
          × (length (1 ∷ zeros) ≤ 3)
          × (true ≡ true → length (1 ∷ zeros) ≡ 3)
          × (true ≡ false → zeros ≡ [])
          × All (λ c. c ≡ 0) zeros))
    ⊎ ((3 < 1) × (r ≡ err (too_long 1 3)))
binary_conv-bounds_example = binary_conv-bounds whole_numbers 2 true (1 ∷ [])
