-- ===== src/Bulk/Convert/Again.antt =====
-- What a check returns, it returns again; and what the checks of integers and of bytes let pass.
use gosmo.Base.{
  bind_ok, or_false_left, or_false_right, ℕ, ◌≡◌, refl, sym, str_eq, ◌∙◌, subst, Bool, true, false,
  not, ◌&&◌, ◌||◌, Bytes, codes, if◌then◌else◌, Result, ok, err, ◌>>=◌, Bool-cases, inl, inr,
  guard_ok, ok_inj,
}
use gosmo.Base.Integer.{ℤ, int_ltb}
use gosmo.Bulk.{
  Value, int64, float64, text, bytes, bool, another, Reason, not_bit, out_of_range,
  int_out_of_range, float_out_of_range, not_whole, not_integer, not_finite, FloatOps, decimal_of,
  money_of,
}
use gosmo.Bulk.Decimal.{decimal_of_again}
use gosmo.Bulk.Money.Amount.{money_of_again}
use gosmo.Bulk.Integer.{NumError, syntax, range, parse_int, format_int}
use gosmo.Bulk.Convert.{
  is_max_int64, Check, as_bit, as_is, as_int, as_money, as_decimal, as_binary, to_lower, conv_bit,
  int_conv, with_text, decimal_conv, money_conv, convert,
}
use gosmo.Bulk.Convert.Padded.{binary_conv_again}

-- A whole and finite number that is not refused as out of a range of integers is converted to one in
-- the range.
abbrev pub IsExact : {F : Type 0} → FloatOps F → Check → Type 0
IsExact {F} ops (as_int lo hi) =
    (f : F)
    → ops.is_whole f ≡ true
    → ops.is_finite f ≡ true
    → ops.below f lo ≡ false
    → ops.above f hi ≡ false
    → (ops.equals f hi && is_max_int64 hi) ≡ false
    → (int_ltb (ops.to_int64 f) lo || int_ltb hi (ops.to_int64 f)) ≡ false
IsExact ops _ = Unit

-- n < lo || n > hi
abbrev pub outside : ℤ → ℤ → ℤ → Bool
outside lo hi n = int_ltb n lo || int_ltb hi n

is_true : (b : Bool) → not b ≡ false → b ≡ true
is_true true h = refl
is_true false h = absurd (cc h)

module _ {F X : Type 0} (ops : FloatOps F) where
  with_text_again :
      (check : Bytes → Result (Reason F) Bytes) (places : ℕ)
      → ((s t : Bytes) → check s ≡ ok t → check t ≡ ok t)
      → (v w : Value F X) → with_text ops check places v ≡ ok w
      → with_text ops check places w ≡ ok w
  with_text_again check places again v w h = by_value v h
    where
      sent :
          (s : Bytes)
          → (check s >>= (λ t. ok (text t))) ≡ ok w
          → with_text ops check places w ≡ ok w
      sent s e =
          let (t, passed, is_text) = bind_ok (check s) (λ t. ok (text t)) w e in
          subst (λ w. with_text ops check places w ≡ ok w) (ok_inj _ _ is_text)
            (unfold with_text in rw (again s t passed) refl)

      same :
          (v : Value F X)
          → with_text ops check places v ≡ ok v
          → with_text ops check places v ≡ ok w
          → with_text ops check places w ≡ ok w
      same v e p = subst (λ w. with_text ops check places w ≡ ok w) (ok_inj v w (sym e ∙ p)) e

      by_value :
          (v : Value F X)
          → with_text ops check places v ≡ ok w
          → with_text ops check places w ≡ ok w
      by_value (text s) h = sent s (unfold with_text in h)
      by_value (int64 n) h = sent (format_int n) (unfold with_text in h)
      by_value (float64 f) h = elim (Bool-cases (ops.is_finite f)) [
        | inl e ↦ sent (ops.format f places) (unfold with_text in rw e at h)
        | inr e ↦
            (let refusal : err (not_finite f) ≡ ok w = unfold with_text in rw e at h in
              absurd (cc refusal))
      ]
      by_value (bytes b) h = same (bytes b) (unfold with_text in refl) h
      by_value (bool b) h = same (bool b) (unfold with_text in refl) h
      by_value (another x) h = same (another x) (unfold with_text in refl) h

  abbrev pub of_parsed : ℤ → ℤ → Bytes → Result NumError ℤ → Result (Reason F) (Value F X)
  of_parsed lo hi s (err syntax) = err (not_integer s)
  of_parsed lo hi s (err range) = err (out_of_range s lo hi)
  of_parsed lo hi s (ok n) = if outside lo hi n then err (out_of_range s lo hi) else ok (int64 n)

  pub int_conv_text :
      (lo hi : ℤ) (s : Bytes) (r : Result NumError ℤ)
      → parse_int s ≡ r
      → int_conv {X = X} ops lo hi (text s) ≡ of_parsed lo hi s r
  unfolding int_conv
  int_conv_text lo hi s (err syntax) e = rw (e, int_conv) refl
  int_conv_text lo hi s (err range) e = rw (e, int_conv) refl
  int_conv_text lo hi s (ok n) e = rw (e, int_conv) refl

  int_conv_int64 :
      (lo hi n : ℤ) → outside lo hi n ≡ false → int_conv {X = X} ops lo hi (int64 n) ≡ ok (int64 n)
  unfolding int_conv
  int_conv_int64 lo hi n e = rw e refl

  int_conv_again :
      (lo hi : ℤ)
      → IsExact ops (as_int lo hi)
      → (v w : Value F X) → int_conv ops lo hi v ≡ ok w
      → int_conv ops lo hi w ≡ ok w
  int_conv_again lo hi exact v w h = by_value v h
    where
      whole_number :
          (n : ℤ)
          → outside lo hi n ≡ false
          → ◌≡◌ {A = Result (Reason F) (Value F X)} (ok (int64 n)) (ok w)
          → int_conv ops lo hi w ≡ ok w
      whole_number n e p =
          subst (λ w. int_conv ops lo hi w ≡ ok w) (ok_inj (int64 n) w p) (int_conv_int64 lo hi n e)

      same :
          (v : Value F X)
          → int_conv ops lo hi v ≡ ok v
          → int_conv ops lo hi v ≡ ok w
          → int_conv ops lo hi w ≡ ok w
      same v e p = subst (λ w. int_conv ops lo hi w ≡ ok w) (ok_inj v w (sym e ∙ p)) e

      parsed :
          (s : Bytes) (r : Result NumError ℤ)
          → parse_int s ≡ r
          → int_conv ops lo hi (text s) ≡ ok w
          → int_conv ops lo hi w ≡ ok w
      parsed s (err syntax) e h = absurd (cc (int_conv_text lo hi s (err syntax) e, h))
      parsed s (err range) e h = absurd (cc (int_conv_text lo hi s (err range) e, h))
      parsed s (ok n) e h =
          let (ranged, sent) =
            guard_ok {E = Reason F} {A = Value F X} (outside lo hi n) (out_of_range s lo hi)
              (ok (int64 n)) w (sym (int_conv_text lo hi s (ok n) e) ∙ h) in
          whole_number n ranged sent

      by_value : (v : Value F X) → int_conv ops lo hi v ≡ ok w → int_conv ops lo hi w ≡ ok w
      by_value (text s) h = parsed s (parse_int s) refl h
      by_value (int64 n) h =
          let (ranged, sent) =
            guard_ok {E = Reason F} {A = Value F X} (outside lo hi n) (int_out_of_range n lo hi)
              (ok (int64 n)) w (unfold int_conv in h) in
          whole_number n ranged sent
      by_value (float64 f) h =
          let (integral, tested) =
            guard_ok {E = Reason F} {A = Value F X} (not (ops.is_whole f) || not (ops.is_finite f))
              (not_whole f)
              (if ops.below f lo || ops.above f hi || (ops.equals f hi && is_max_int64 hi)
                then err (float_out_of_range f lo hi)
                else ok (int64 (ops.to_int64 f)))
              w (unfold int_conv in h) in
          let (ranged, sent) =
            guard_ok {E = Reason F} {A = Value F X}
              (ops.below f lo || ops.above f hi || (ops.equals f hi && is_max_int64 hi))
              (float_out_of_range f lo hi) (ok (int64 (ops.to_int64 f))) w tested in
          whole_number (ops.to_int64 f)
            (exact f (is_true _ (or_false_left _ _ integral))
              (is_true _ (or_false_right (not (ops.is_whole f)) _ integral))
              (or_false_left _ _ (or_false_left _ _ ranged))
              (or_false_right (ops.below f lo) _ (or_false_left _ _ ranged))
              (or_false_right (ops.below f lo || ops.above f hi) _ ranged))
            sent
      by_value (bytes b) h = same (bytes b) (unfold int_conv in refl) h
      by_value (bool b) h = same (bool b) (unfold int_conv in refl) h
      by_value (another x) h = same (another x) (unfold int_conv in refl) h

  conv_bit_again : (v w : Value F X) → conv_bit ops v ≡ ok w → conv_bit ops w ≡ ok w
  conv_bit_again v w h = by_value v h
    where
      same : (v : Value F X) → conv_bit ops v ≡ ok v → conv_bit ops v ≡ ok w → conv_bit ops w ≡ ok w
      same v e p = subst (λ w. conv_bit ops w ≡ ok w) (ok_inj v w (sym e ∙ p)) e

      chosen :
          (b c : Bool) (r : Reason F)
          → (if b then ok (bool true) else if c then ok (bool false) else err r) ≡ ok w
          → conv_bit ops w ≡ ok w
      chosen true c r e =
          subst (λ w. conv_bit ops w ≡ ok w) (ok_inj (bool true) w e) (unfold conv_bit in refl)
      chosen false true r e =
          subst (λ w. conv_bit ops w ≡ ok w) (ok_inj (bool false) w e) (unfold conv_bit in refl)
      chosen false false r e = absurd (cc e)

      by_value : (v : Value F X) → conv_bit ops v ≡ ok w → conv_bit ops w ≡ ok w
      by_value (text s) h =
          let t = to_lower s in
          chosen (str_eq t (codes "1") || str_eq t (codes "true"))
            (str_eq t (codes "0") || str_eq t (codes "false")) (not_bit s) (unfold conv_bit in h)
      by_value (int64 n) h = same (int64 n) (unfold conv_bit in refl) h
      by_value (float64 f) h = same (float64 f) (unfold conv_bit in refl) h
      by_value (bytes b) h = same (bytes b) (unfold conv_bit in refl) h
      by_value (bool b) h = same (bool b) (unfold conv_bit in refl) h
      by_value (another x) h = same (another x) (unfold conv_bit in refl) h

  -- What a check returns for a value is a value that the check takes, and returns as it is, if a whole
  -- and finite float that an integer check does not refuse as out of its range is converted to an
  -- integer in the range.
  pub convert_again :
      (c : Check) (v w : Value F X)
      → IsExact ops c
      → convert ops c v ≡ ok w
      → convert ops c w ≡ ok w
  unfolding convert decimal_conv money_conv
  convert_again as_bit v w exact h = conv_bit_again v w h
  convert_again (as_int lo hi) v w exact h = int_conv_again lo hi exact v w h
  convert_again (as_decimal precision scale) v w exact h =
      with_text_again (decimal_of precision scale) scale (decimal_of_again precision scale) v w h
  convert_again (as_money lo hi) v w exact h =
      with_text_again (money_of lo hi) 4 (money_of_again lo hi) v w h
  convert_again (as_binary n fixed) v w exact h = binary_conv_again ops n fixed v w h
  convert_again as_is v w exact h = refl
