-- ===== src/Bulk/Decimal.antt =====
-- splitDecimal and decimalText: what is sent is read back as it was, and checked again unchanged.
use gosmo.Base.{
  ℕ, ◌+◌, ◌≡◌, refl, subst, Bool, true, false, not, ◌||◌, [], ◌∷◌, ◌++◌, Bytes, append_assoc, arith,
  ltb, ◌==◌, if◌then◌else◌, length, ok, str_eq, and_left, and_right, guard_ok, ok_inj,
}
use gosmo.Restore.Lsn.{trim_zeros}
use gosmo.Restore.Lsn.Order.{NoZeroFirst, NoZeroFirst-trim_zeros}
use gosmo.Bulk.{
  not_decimal, too_many_places, does_not_fit, digits_only, before_dot, after_dot, Split,
  split_unsigned, split_decimal, decimal_text, decimal_of,
}

-- The digits in front of the point, when there are none of them written.
abbrev pub whole : Bytes → Bytes
whole [] = b'0' ∷ []
whole (c ∷ s) = c ∷ s

digits_only-whole : (s : Bytes) → digits_only s ≡ true → digits_only (whole s) ≡ true
digits_only-whole [] h = unfold digits_only in refl
digits_only-whole (c ∷ s) h = h

before_dot-digits_only : (s r : Bytes) → digits_only s ≡ true → before_dot (s ++ b'.' ∷ r) ≡ s
unfolding before_dot digits_only
before_dot-digits_only [] r h = refl
before_dot-digits_only (c ∷ s) r h = ground (arith, before_dot-digits_only s r)

after_dot-digits_only : (s r : Bytes) → digits_only s ≡ true → after_dot (s ++ b'.' ∷ r) ≡ r
unfolding after_dot digits_only
after_dot-digits_only [] r h = refl
after_dot-digits_only (c ∷ s) r h = ground (arith, after_dot-digits_only s r)

no_dot : (s : Bytes) → digits_only s ≡ true → (before_dot s ≡ s) × (after_dot s ≡ [])
unfolding before_dot after_dot digits_only
no_dot [] h = (refl, refl)
no_dot (c ∷ s) h = (ground (arith, no_dot s), ground (arith, no_dot s))

-- The unsigned part of the text of a decimal.
abbrev unsigned_text : Bytes → Bytes → Bytes
unsigned_text int_part [] = whole int_part
unsigned_text int_part (c ∷ frac) = whole int_part ++ b'.' ∷ c ∷ frac

abbrev with_sign : Bool → Bytes → Bytes
with_sign true s = b'-' ∷ s
with_sign false s = s

decimal_text_lem :
    (neg : Bool) (int_part frac : Bytes)
    → decimal_text neg int_part frac ≡ with_sign neg (unsigned_text int_part frac)
unfolding decimal_text str_eq
decimal_text_lem true [] [] = refl
decimal_text_lem true [] (d ∷ frac) = refl
decimal_text_lem true (c ∷ s) [] = refl
decimal_text_lem true (c ∷ s) (d ∷ frac) = rw append_assoc refl
decimal_text_lem false [] [] = refl
decimal_text_lem false [] (d ∷ frac) = refl
decimal_text_lem false (c ∷ s) [] = refl
decimal_text_lem false (c ∷ s) (d ∷ frac) = rw append_assoc refl

whole-append : (s r : Bytes) → str_eq (whole s ++ r) [] ≡ false
unfolding str_eq
whole-append [] r = refl
whole-append (c ∷ s) r = refl

split_unsigned_text :
    (neg : Bool) (int_part frac : Bytes)
    → digits_only int_part ≡ true
    → digits_only frac ≡ true
    → split_unsigned neg (unsigned_text int_part frac)
      ≡ record { neg = neg; int_part = whole int_part; frac = frac; is_decimal = true }
unfolding split_unsigned
split_unsigned_text neg int_part [] h k =
    let parts = no_dot (whole int_part) (digits_only-whole int_part h) in
    rw (parts.0, parts.1, whole-append int_part [], digits_only-whole int_part h) refl
split_unsigned_text neg int_part (c ∷ frac) h k =
    let w = digits_only-whole int_part h in
    rw
      (
        before_dot-digits_only (whole int_part) (c ∷ frac) w,
        after_dot-digits_only (whole int_part) (c ∷ frac) w,
        whole-append int_part (c ∷ frac),
        w,
        k,
      )
      refl

-- A digit is no sign.
split_plain :
    (int_part frac : Bytes)
    → digits_only int_part ≡ true
    → split_decimal (unsigned_text int_part frac)
      ≡ split_unsigned false (unsigned_text int_part frac)
unfolding split_decimal digits_only
split_plain [] [] h = refl
split_plain [] (d ∷ frac) h = refl
split_plain (c ∷ s) [] h = ground arith
split_plain (c ∷ s) (d ∷ frac) h = ground arith

-- A text that is made of a sign, of digits and of decimal places is split into them again, with a
-- zero in front of the point where no digit stands there.
pub split_decimal-decimal_text :
    (neg : Bool) (int_part frac : Bytes)
    → digits_only int_part ≡ true
    → digits_only frac ≡ true
    → split_decimal (decimal_text neg int_part frac)
      ≡ record { neg = neg; int_part = whole int_part; frac = frac; is_decimal = true }
unfolding split_decimal
split_decimal-decimal_text true int_part frac h k =
    rw (decimal_text_lem true int_part frac) (split_unsigned_text true int_part frac h k)
split_decimal-decimal_text false int_part frac h k =
    rw (decimal_text_lem false int_part frac, split_plain int_part frac h)
      (split_unsigned_text false int_part frac h k)

-- What splitDecimal accepts.
abbrev pub HasDigits : Split → Type 0
HasDigits d = d.is_decimal ≡ true → (digits_only d.int_part ≡ true) × (digits_only d.frac ≡ true)

HasDigits-if : (b : Bool) (d e : Split) → HasDigits d → HasDigits e → HasDigits (if b then d else e)
HasDigits-if true d e h k = h
HasDigits-if false d e h k = k

HasDigits-split_unsigned : (neg : Bool) (t : Bytes) → HasDigits (split_unsigned neg t)
unfolding split_unsigned
HasDigits-split_unsigned neg t h = (
  and_right _ _ (and_left _ (digits_only (after_dot t)) h),
  and_right _ (digits_only (after_dot t)) h,
)

pub HasDigits-split_decimal : (s : Bytes) → HasDigits (split_decimal s)
unfolding split_decimal
HasDigits-split_decimal [] = HasDigits-split_unsigned false []
HasDigits-split_decimal (c ∷ t) =
    HasDigits-if (c == b'-' || c == b'+') (split_unsigned (c == b'-') t)
      (split_unsigned false (c ∷ t)) (HasDigits-split_unsigned (c == b'-') t)
      (HasDigits-split_unsigned false (c ∷ t))

pub digits_only-trim_zeros : (s : Bytes) → digits_only s ≡ true → digits_only (trim_zeros s) ≡ true
unfolding trim_zeros digits_only
digits_only-trim_zeros [] h = h
digits_only-trim_zeros (c ∷ s) h = ground (arith, h, digits_only-trim_zeros s)

pub trim_zeros_again : (s : Bytes) → trim_zeros (whole (trim_zeros s)) ≡ trim_zeros s
trim_zeros_again s = go (trim_zeros s) (NoZeroFirst-trim_zeros s)
  where
    go : (t : Bytes) → NoZeroFirst t → trim_zeros (whole t) ≡ t
    go [] h = unfold trim_zeros in refl
    go (c ∷ t) h = unfold trim_zeros in ground (arith, h)

-- A text that decimalConv accepts is given back as decimal text of the same sign and the same
-- places, with the zeros in front trimmed.
pub decimal_of_ok :
    {F : Type 0} (precision scale : ℕ) (s : Bytes) {t : Bytes}
    → decimal_of {F = F} precision scale s ≡ ok t
    → let d = split_decimal s in
      (d.is_decimal ≡ true)
      × (ltb scale (length d.frac) ≡ false)
      × (ltb precision (length (trim_zeros d.int_part) + scale) ≡ false)
      × (decimal_text d.neg (trim_zeros d.int_part) d.frac ≡ t)
unfolding decimal_of
decimal_of_ok precision scale s h =
    let d = split_decimal s in
    let decimal = guard_ok (not d.is_decimal) (not_decimal s) _ _ h in
    let places = guard_ok (ltb scale (length d.frac)) (too_many_places s scale) _ _ (decimal.1) in
    let fits =
      guard_ok (ltb precision (length (trim_zeros d.int_part) + scale))
        (does_not_fit s precision scale) _ _ (places.1) in
    (ground (arith, decimal.0), places.0, fits.0, ok_inj _ _ (fits.1))

-- What decimalConv makes of a text is a text that it takes, and gives back unchanged.
pub decimal_of_again :
    {F : Type 0} (precision scale : ℕ) (s t : Bytes)
    → decimal_of {F = F} precision scale s ≡ ok t
    → decimal_of {F = F} precision scale t ≡ ok t
decimal_of_again {F} precision scale s t h =
    let accepted = decimal_of_ok precision scale s h in
    let d = split_decimal s in
    subst (λ t. decimal_of {F = F} precision scale t ≡ ok t) (accepted.3)
      (again d.neg d.int_part d.frac (HasDigits-split_decimal s (accepted.0)) (accepted.1)
        (accepted.2))
  where
    again :
        (neg : Bool) (i f : Bytes)
        → (digits_only i ≡ true) × (digits_only f ≡ true)
        → ltb scale (length f) ≡ false
        → ltb precision (length (trim_zeros i) + scale) ≡ false
        → decimal_of {F = F} precision scale (decimal_text neg (trim_zeros i) f)
          ≡ ok (decimal_text neg (trim_zeros i) f)
    again neg i f digits places fits =
        unfold decimal_of in
        rw
          (
            split_decimal-decimal_text neg (trim_zeros i) f (digits_only-trim_zeros i (digits.0))
                (digits.1),
            places,
            trim_zeros_again i,
            fits,
          )
          refl
