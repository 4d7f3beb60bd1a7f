-- ===== src/Bulk/Convert/Bounds.antt =====
-- intConv takes the integers of its column's range, and no others.
use gosmo.Base.{
  or_intro_right, ℕ, zero, suc, ◌-◌, ◌<◌, ◌≤◌, ◌≡◌, refl, ap, ◌∙◌, Bool, true, false, ◌&&◌, ◌||◌,
  [], ◌∷◌, ◌++◌, Bytes, arith, ltb, ltb→lt, if◌then◌else◌, length, ok, err, All, ◌⊎◌, Bool-cases,
  inl, inr,
}
use gosmo.Base.Integer.{ℤ, pos, negsuc, int_ltb, signed, two_63}
use gosmo.Restore.Lsn.Order.{value}
use gosmo.Bulk.{Value, int64, text, bytes, too_long, out_of_range, FloatOps, digits_only}
use gosmo.Bulk.Integer.{range, parse_int, parse_signed}
use gosmo.Bulk.Integer.Parsed.{parse_signed-value}
use gosmo.Bulk.Convert.{int_conv, binary_conv, pad_bytes, nul_bytes}
use gosmo.Bulk.Convert.Again.{outside, int_conv_text}
use gosmo.Bulk.Convert.Padded.{binary_conv_bytes}

abbrev pub with_minus : Bool → Bytes → Bytes
with_minus true s = b'-' ∷ s
with_minus false s = s

pub parse_int-with_minus :
    (neg : Bool) (s : Bytes)
    → digits_only s ≡ true
    → 0 < length s
    → parse_int (with_minus neg s) ≡ parse_signed neg s
unfolding parse_int digits_only
parse_int-with_minus neg [] h k = absurd (omega arith)
parse_int-with_minus true (c ∷ s) h k = refl
parse_int-with_minus false (c ∷ s) h k = ground (arith, h)

-- What 64 bits do not hold is in no range of theirs.
below_int64 :
    (lo : ℤ) (v : ℕ)
    → int_ltb lo (negsuc (two_63 - 1)) ≡ false
    → two_63 < v
    → int_ltb (signed true v) lo ≡ true
unfolding int_ltb signed
below_int64 lo zero h l = absurd (omega (arith, l))
below_int64 (pos b) (suc v) h l = refl
below_int64 (negsuc b) (suc v) h l = ground (arith, h, l)

above_int64 :
    (hi : ℤ) (v : ℕ)
    → int_ltb (pos (two_63 - 1)) hi ≡ false
    → two_63 - 1 < v
    → int_ltb hi (pos v) ≡ true
unfolding int_ltb
above_int64 (pos b) v h l = ground (arith, h, l)
above_int64 (negsuc b) v h l = refl

outside_int64 :
    (lo hi : ℤ) (neg : Bool) (v : ℕ)
    → int_ltb lo (negsuc (two_63 - 1)) ≡ false
    → int_ltb (pos (two_63 - 1)) hi ≡ false
    → (if neg then two_63 else two_63 - 1) < v
    → outside lo hi (signed neg v) ≡ true
outside_int64 lo hi true v h k l = rw (below_int64 lo v h l) refl
outside_int64 lo hi false v h k l = unfold signed in or_intro_right _ _ (above_int64 hi v k l)

-- For a range of integers of 64 bits, the text of a number, digits with a minus sign or without, is
-- refused as out of range exactly if the number is out of the range, however long the text is; else
-- the number is what is sent.
pub int_conv-value :
    {F X : Type 0} (ops : FloatOps F) (lo hi : ℤ) (neg : Bool) (s : Bytes)
    → int_ltb lo (negsuc (two_63 - 1)) ≡ false
    → int_ltb (pos (two_63 - 1)) hi ≡ false
    → digits_only s ≡ true
    → 0 < length s
    → int_conv {X = X} ops lo hi (text (with_minus neg s)) ≡ (
        if int_ltb (signed neg (value s)) lo || int_ltb hi (signed neg (value s))
        then err (out_of_range (with_minus neg s) lo hi)
        else ok (int64 (signed neg (value s))))
int_conv-value {F} {X} ops lo hi neg s hlo hhi digits some =
    let z = signed neg (value s) in
    let parsed : parse_int (with_minus neg s)
        ≡ (if ltb (if neg then two_63 else two_63 - 1) (value s) then err range else ok z) =
      parse_int-with_minus neg s digits some ∙ parse_signed-value neg s digits some in
    elim (Bool-cases (ltb (if neg then two_63 else two_63 - 1) (value s))) [
      | inl e ↦
          let out = outside_int64 lo hi neg (value s) hlo hhi (ltb→lt _ _ e) in
          rw (out, int_conv_text ops lo hi (with_minus neg s) (err range) (parsed ∙ rw e refl)) refl
      | inr e ↦ rw (int_conv_text ops lo hi (with_minus neg s) (ok z) (parsed ∙ rw e refl)) refl
    ]

-- A column of n bytes, n > 0, is sent the bytes that were given when they fit, and in a fixed column
-- zeros behind them up to n, while nothing stands behind them in one that is not fixed; it is never
-- sent more than n, and what does not fit is refused.
pub binary_conv-bounds :
    {F X : Type 0} (ops : FloatOps F) (n : ℕ) (fixed : Bool) (b : Bytes)
    → let r = binary_conv {X = X} ops (pos (suc n)) fixed (bytes b) in
      ((length b ≤ suc n)
        × ((zeros : Bytes) × (r ≡ ok (bytes (b ++ zeros)))
            × (length (b ++ zeros) ≤ suc n)
            × (fixed ≡ true → length (b ++ zeros) ≡ suc n)
            × (fixed ≡ false → zeros ≡ [])
            × All (λ c. c ≡ 0) zeros))
      ⊎ ((suc n < length b) × (r ≡ err (too_long (length b) (suc n))))
binary_conv-bounds {F} {X} ops n fixed b = elim (Bool-cases (ltb (suc n) (length b))) [
  | inl e ↦ inr (ltb→lt (suc n) (length b) e, unfold binary_conv pad_bytes in rw e (ground arith))
  | inr e ↦
      let (w, sent) = is_sent e in
      let (zeros, is_bytes, l, full, none, all) = binary_conv_bytes ops n fixed b w sent in
      inl (ground (arith, e), (zeros, sent ∙ ap ok is_bytes, l, full, none, all))
]
  where
    is_sent :
        ltb (suc n) (length b) ≡ false
        → (w : Value F X) × (binary_conv {X = X} ops (pos (suc n)) fixed (bytes b) ≡ ok w)
    is_sent e = elim (Bool-cases (fixed && ltb (length b) (suc n))) [
      | inl f ↦ (
        bytes (b ++ nul_bytes (suc n - length b)),
        unfold binary_conv pad_bytes in rw (e, f) (ground arith),
      )
      | inr f ↦ (bytes b, unfold binary_conv pad_bytes in rw (e, f) (ground arith))
    ]
