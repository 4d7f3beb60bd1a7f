-- ===== src/Bulk/Integer/Parsed.antt =====
-- ParseInt's arithmetic of 64 bits gives the number that the digits spell, or says that it is out of
-- range.
use native.Mathlib.Nat.{pow-suc}
use gosmo.Base.{
  ℕ, suc, ◌+◌, ◌-◌, ◌*◌, ◌^◌, ◌≤◌, ◌<◌, ◌≡◌, refl, ap, ◌∙◌, Bool, true, false, not, ◌&&◌, [], ◌∷◌,
  Bytes, arith, ltb, leb, leb→le, ltb→lt, lt→ltb, if◌then◌else◌, length, Result, ok, err,
  Bool-cases, ◌⊎◌, inl, inr, and_left, and_right, ◌%◌,
}
use gosmo.Base.Integer.{ℤ, signed, two_64, two_63, max_uint64}
use gosmo.Restore.Lsn.Order.{value}
use gosmo.Bulk.{digits_only}
use gosmo.Bulk.Money.{value_first, shift, above, pow_pos, lt_of_leb}
use gosmo.Bulk.Integer.{cutoff, NumError, range, parse_digits, parse_uint, parse_signed}

abbrev IsNumber : Result NumError ℕ → ℕ → Type 0
IsNumber r v = ((r ≡ ok v) × (v < two_64)) ⊎ ((r ≡ err range) × (max_uint64 < v))

digits_first :
    (c : ℕ) (s : Bytes)
    → digits_only (c ∷ s) ≡ true
    → ((leb b'0' c && leb c b'9') ≡ true) × (digits_only s ≡ true)
unfolding digits_only
digits_first c s h = (and_left _ (digits_only s) h, and_right _ (digits_only s) h)

parse_digit :
    (n c : ℕ) (s : Bytes)
    → (leb b'0' c && leb c b'9') ≡ true
    → parse_digits n (c ∷ s) ≡ (
        let next = (n * 10 + (c - b'0')) % two_64 in
        if leb cutoff n
        then err range
        else if ltb next (n * 10)
        then err range
        else parse_digits next s)
unfolding parse_digits
parse_digit n c s h = rw h refl

le_of_ltb : (a b : ℕ) → ltb a b ≡ false → b ≤ a
le_of_ltb a b h = ground arith

wrap_cutoff : (n d : ℕ) → leb cutoff n ≡ true → max_uint64 < n * 10 + d
wrap_cutoff n d h = omega (arith, leb→le cutoff n h)

wrap_next : (n d : ℕ) → ltb ((n * 10 + d) % two_64) (n * 10) ≡ true → max_uint64 < n * 10 + d
wrap_next n d h = omega (arith, ltb→lt ((n * 10 + d) % two_64) (n * 10) h)

no_wrap_next :
    (n d : ℕ)
    → d ≤ 9
    → leb cutoff n ≡ false
    → ltb ((n * 10 + d) % two_64) (n * 10) ≡ false
    → (n * 10 + d) % two_64 ≡ n * 10 + d
no_wrap_next n d h e f =
    omega (arith, lt_of_leb cutoff n e, le_of_ltb ((n * 10 + d) % two_64) (n * 10) f)

parse_digits-IsNumber :
    (n : ℕ) (s : Bytes)
    → digits_only s ≡ true
    → n < two_64
    → IsNumber (parse_digits n s) (n * 10 ^ length s + value s)
parse_digits-IsNumber n [] h k = unfold parse_digits value in inl (rw (mul_one n) refl, omega arith)
  where
    mul_one : (n : ℕ) → n * 1 + 0 ≡ n
    mul_one n = omega arith
parse_digits-IsNumber n (c ∷ s) h k =
    let d = c - b'0' in
    let (digit, digits) = digits_first c s h in
    let small : d ≤ 9 = ground (arith, digit) in
    let bound = pow_pos (length s) in
    rw (parse_digit n c s digit, pow-suc, ← value_first c s, ← shift n d (10 ^ length s) (value s))
      (elim (Bool-cases (leb cutoff n)) [
        | inl e ↦ rw e (inr (refl, out n d (wrap_cutoff n d e)))
        | inr e ↦ elim (Bool-cases (ltb ((n * 10 + d) % two_64) (n * 10))) [
          | inl f ↦ rw (e, f) (inr (refl, out n d (wrap_next n d f)))
          | inr f ↦
              let next : (n * 10 + d) % two_64 ≡ n * 10 + d = no_wrap_next n d small e f in
              let less : n * 10 + d < two_64 = omega (arith, next) in
              rw (e, f, next) (parse_digits-IsNumber (n * 10 + d) s digits less)
        ]
      ])
  where
    out : (n d : ℕ) → max_uint64 < n * 10 + d → max_uint64 < (n * 10 + d) * 10 ^ length s + value s
    out n d h =
        rw (shift n d (10 ^ length s) (value s))
          (above n d (10 ^ length s) (value s) max_uint64 (pow_pos (length s)) h)

parse_uint_digits : (c : ℕ) (s : Bytes) → parse_uint (c ∷ s) ≡ parse_digits 0 (c ∷ s)
unfolding parse_uint
parse_uint_digits c s = refl

abbrev in_int64 : Bool → ℕ → Result NumError ℤ
in_int64 neg n =
    if not neg && leb two_63 n
    then err range
    else if neg && ltb two_63 n
    then err range
    else ok (signed neg n)

parse_signed_ok :
    (neg : Bool) (s : Bytes) (n : ℕ) → parse_uint s ≡ ok n → parse_signed neg s ≡ in_int64 neg n
unfolding parse_signed
parse_signed_ok neg s n e = rw (e, parse_signed) refl

parse_signed_err :
    (neg : Bool) (s : Bytes) (why : NumError)
    → parse_uint s ≡ err why
    → parse_signed neg s ≡ err why
unfolding parse_signed
parse_signed_err neg s why e = rw (e, parse_signed) refl

-- The value of a text of digits, with its sign, is parsed as it is when 64 bits hold it, and as out
-- of range when they do not.
pub parse_signed-value :
    (neg : Bool) (s : Bytes)
    → digits_only s ≡ true
    → 0 < length s
    → parse_signed neg s ≡ (
        if ltb (if neg then two_63 else two_63 - 1) (value s)
        then err range
        else ok (signed neg (value s)))
parse_signed-value neg [] h k = absurd (omega arith)
parse_signed-value neg (c ∷ s) h k =
    let r = parse_digits-IsNumber 0 (c ∷ s) h (omega arith) in
    elim r [
      | inl (e, l) ↦
          rw
            (
              parse_signed_ok neg (c ∷ s) _ (parse_uint_digits c s ∙ e),
              zero_times (10 ^ suc (length s)) (value (c ∷ s)),
            )
            (by_sign neg (value (c ∷ s)))
      | inr (e, l) ↦
          rw
            (
              parse_signed_err neg (c ∷ s) range (parse_uint_digits c s ∙ e),
              lt→ltb _ _ (beyond neg (value (c ∷ s)) (omega (arith, l))),
            )
            refl
    ]
  where
    zero_times : (p v : ℕ) → 0 * p + v ≡ v
    zero_times p v = omega arith

    beyond : (neg : Bool) (v : ℕ) → max_uint64 < v → (if neg then two_63 else two_63 - 1) < v
    beyond true v h = omega arith
    beyond false v h = omega arith

    by_sign :
        (neg : Bool) (v : ℕ)
        → in_int64 neg v
          ≡ (if ltb (if neg then two_63 else two_63 - 1) v then err range else ok (signed neg v))
    by_sign true v = refl
    by_sign false v = ap (λ b. if b then err range else ok (signed false v)) (ground arith)
