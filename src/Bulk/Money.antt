-- ===== src/Bulk/Money.antt =====
-- moneyConv's loop in 64 bits: it never takes a wrapped count for the amount.
pub mod Range
pub mod Amount
use native.Mathlib.Nat.{pow-suc}
use gosmo.Base.{
  ℕ, zero, suc, ◌+◌, ◌-◌, ◌*◌, ◌^◌, ◌/◌, ◌%◌, ◌≤◌, ◌<◌, ◌≡◌, ◌≢◌, refl, sym, ap, subst, ◌∙◌, Bool,
  true, false, not, ◌&&◌, ◌||◌, [], ◌∷◌, ◌++◌, Bytes, codes, append-nil, arith, ltb, leb, leb→le,
  ◌==◌, if◌then◌else◌, length, Result, ok, err, Bool-cases, ◌⊎◌, inl, inr, and_left, and_right,
  guard_ok, ok_inj, All,
}
use gosmo.Base.Integer.{pos, negsuc, two_64, two_63, max_uint64, uint64_of, complement}
use gosmo.Restore.Lsn.{trim_zeros}
use gosmo.Restore.Lsn.Order.{
  IsDigit, value, value-trim_zeros, All-trim_zeros, NoZeroFirst, NoZeroFirst-trim_zeros, le-value,
  pow_mono,
}
use gosmo.Bulk.{
  Reason, not_money, too_many_places, out_of_range, digits_only, split_decimal, decimal_text, zeros,
  Units, count_units, money_limit, ten_thousandths, money_of,
}
use gosmo.Bulk.Decimal.{
  whole, split_decimal-decimal_text, HasDigits-split_decimal, digits_only-trim_zeros,
  trim_zeros_again,
}

-- The count is the amount, or the loop has left its range.
abbrev pub IsCount : Units → ℕ → Type 0
IsCount r v =
    ((r.in_range ≡ true) × (r.units ≡ v) × (v ≤ max_uint64))
    ⊎ ((r.in_range ≡ false) × (max_uint64 < v))

pub count_units_out :
    (u : ℕ) (s : Bytes) → count_units false u s ≡ record { in_range = false; units = u }
unfolding count_units
count_units_out u [] = refl
count_units_out u (c ∷ s) = refl

count_units_step :
    (u c : ℕ) (s : Bytes)
    → count_units true u (c ∷ s)
      ≡ count_units (leb u ((max_uint64 - (c - b'0')) / 10)) ((u * 10 + (c - b'0')) % two_64) s
unfolding count_units
count_units_step u c s = refl

pub lt_of_leb : (a b : ℕ) → leb a b ≡ false → b < a
lt_of_leb a b h = ground arith

no_wrap : (u d : ℕ) → d ≤ 9 → leb u ((max_uint64 - d) / 10) ≡ true → u * 10 + d ≤ max_uint64
no_wrap u d h e = omega (arith, leb→le u ((max_uint64 - d) / 10) e)

wrap : (u d : ℕ) → d ≤ 9 → leb u ((max_uint64 - d) / 10) ≡ false → max_uint64 < u * 10 + d
wrap u d h e = omega (arith, lt_of_leb u ((max_uint64 - d) / 10) e)

pub shift : (u d p v : ℕ) → (u * 10 + d) * p + v ≡ u * (p * 10) + (d * p + v)
shift u d p v = grind arith

pub above : (u d p v m : ℕ) → 1 ≤ p → m < u * 10 + d → m < u * (p * 10) + (d * p + v)
above u d p v m h k =
    let scaled : u * 10 + d ≤ (u * 10 + d) * p = grind arith in omega (arith, scaled, shift u d p v)

zero_add : (n : ℕ) → 0 + n ≡ n
zero_add n = omega arith

pub pow_pos : (n : ℕ) → 1 ≤ 10 ^ n
pow_pos n = omega (arith, pow_mono 0 n, ap (λ k. 10 ^ k) (zero_add n))

pub value_first : (c : ℕ) (s : Bytes) → (c - b'0') * 10 ^ length s + value s ≡ value (c ∷ s)
unfolding value
value_first c s = refl

pub count_units-IsCount :
    (u : ℕ) (s : Bytes)
    → All IsDigit s
    → u ≤ max_uint64
    → IsCount (count_units true u s) (u * 10 ^ length s + value s)
count_units-IsCount u [] h k = unfold count_units value in inl (refl, omega arith, omega arith)
count_units-IsCount u (c ∷ s) h k =
    let d = c - b'0' in
    let small : d ≤ 9 = omega (arith, h.0) in
    rw (count_units_step u c s, pow-suc, ← value_first c s, ← shift u d (10 ^ length s) (value s))
      (elim (Bool-cases (leb u ((max_uint64 - d) / 10))) [
        | inl e ↦
            let fits : (u * 10 + d) % two_64 ≡ u * 10 + d = omega (arith, no_wrap u d small e) in
            rw (e, fits) (count_units-IsCount (u * 10 + d) s (h.1) (no_wrap u d small e))
        | inr e ↦
            rw (e, count_units_out)
              (inr (
                refl,
                rw (← shift u d (10 ^ length s) (value s)) at (
                    above u d (10 ^ length s) (value s) max_uint64 (pow_pos (length s))
                      (wrap u d small e)),
              ))
      ])
