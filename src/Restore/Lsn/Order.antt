-- ===== src/Restore/Lsn/Order.antt =====
-- CompareLSN compares the numbers that the digits spell.
use Prim.Native.Nat.{compare, Ordering}
use native.Mathlib.Nat.{pow-suc}
use gosmo.Base.{
  ==_iff, sym, ◌⊎◌, ℕ, zero, suc, ◌+◌, ◌-◌, ◌*◌, ◌^◌, ◌≤◌, ◌<◌, ◌≡◌, ◌≢◌, refl, [], ◌∷◌, arith,
  Bytes, ◌==◌, length, All, Bool-cases, inl, inr,
}
use gosmo.Restore.Lsn.{then_by, compare_text, trim_zeros, compare_lsn}

abbrev pub IsDigit : ℕ → Type 0
IsDigit c = (b'0' ≤ c) × (c ≤ b'9')

-- the number that digits spell
unfoldable pub value : Bytes → ℕ
value [] = 0
value (c ∷ s) = (c - b'0') * 10 ^ length s + value s

digit_below : (x p v : ℕ) → x ≤ 9 → v < p → x * p + v < p * 10
digit_below x p v h k = grind arith

digit_lt : (x y p v w : ℕ) → x < y → v < p → x * p + v < y * p + w
digit_lt x y p v w h k = grind arith

pub value-lt : (s : Bytes) → All IsDigit s → value s < 10 ^ length s
unfolding value
value-lt [] h = omega arith
value-lt (c ∷ s) h =
    rw pow-suc
      (digit_below (c - b'0') (10 ^ length s) (value s) (omega (arith, h.0)) (value-lt s h.1))

pub le-value : (c : ℕ) (s : Bytes) → b'0' < c → 10 ^ length s ≤ value (c ∷ s)
unfolding value
le-value c s h = let p : 1 ≤ c - b'0' = omega arith in grind arith

pub pow_mono : (n k : ℕ) → 10 ^ n ≤ 10 ^ (n + k)
pow_mono n zero = let e : n + zero ≡ n = omega arith in rw e (omega arith)
pow_mono n (suc k) =
    let e : n + suc k ≡ suc (n + k) = omega arith in rw (e, pow-suc) (omega (arith, pow_mono n k))

compare_lt : (a b : ℕ) → a < b → compare a b ≡ Ordering.lt
compare_lt a b h = ground arith

compare_gt : (a b : ℕ) → b < a → compare a b ≡ Ordering.gt
compare_gt a b h = ground arith

compare_eq : (a : ℕ) → compare a a ≡ Ordering.eq
compare_eq a = ground arith

compare_add : (p a b : ℕ) → compare (p + a) (p + b) ≡ compare a b
compare_add p a b = ground arith

tri : (a b : ℕ) → (a < b) ⊎ ((a ≡ b) ⊎ (b < a))
tri a b = grind arith

compare_digits :
    (c d p v w : ℕ)
    → b'0' ≤ c
    → b'0' ≤ d
    → v < p
    → w < p
    → then_by (compare c d) (compare v w) ≡ compare ((c - b'0') * p + v) ((d - b'0') * p + w)
compare_digits c d p v w hc hd hv hw = elim (tri c d) [
  | inl l ↦
      rw (compare_lt c d l, compare_lt _ _ (digit_lt (c - b'0') (d - b'0') p v w (omega arith) hv))
  | inr (inl e) ↦ rw (e, compare_eq) (sym (compare_add _ v w))
  | inr (inr g) ↦
      rw (compare_gt c d g, compare_gt _ _ (digit_lt (d - b'0') (c - b'0') p w v (omega arith) hw))
]

-- Digit by digit is by value, where the lengths agree.
compare_text-value :
    (s t : Bytes)
    → All IsDigit s
    → All IsDigit t
    → length s ≡ length t
    → compare_text s t ≡ compare (value s) (value t)
unfolding compare_text value
compare_text-value [] [] hs ht e = refl
compare_text-value [] (d ∷ t) hs ht e = absurd (omega arith)
compare_text-value (c ∷ s) [] hs ht e = absurd (omega arith)
compare_text-value (c ∷ s) (d ∷ t) hs ht e =
    let len : length s ≡ length t = omega arith in
    let s_lt : value s < 10 ^ length t = rw len at (value-lt s hs.1) in
    rw (len, compare_text-value s t hs.1 ht.1 len)
      (compare_digits c d (10 ^ length t) (value s) (value t) hs.0.0 ht.0.0 s_lt (value-lt t ht.1))

pub value-trim_zeros : (s : Bytes) → value (trim_zeros s) ≡ value s
unfolding value trim_zeros
value-trim_zeros [] = refl
value-trim_zeros (c ∷ s) = elim (Bool-cases (c == b'0')) [
  | inl e ↦
      let z : c - b'0' ≡ 0 = ground arith in
      rw (e, trim_zeros) (rw z (omega (arith, value-trim_zeros s)))
  | inr e ↦ rw (e, trim_zeros) refl
]

pub All-trim_zeros : (s : Bytes) → All IsDigit s → All IsDigit (trim_zeros s)
unfolding trim_zeros
All-trim_zeros [] h = tt
All-trim_zeros (c ∷ s) h = elim (Bool-cases (c == b'0')) [
  | inl e ↦ rw (e, trim_zeros) (All-trim_zeros s h.1)
  | inr e ↦ rw (e, trim_zeros) h
]

-- What is left after trimming does not begin with a zero.
abbrev pub NoZeroFirst : Bytes → Type 0
NoZeroFirst [] = Unit
NoZeroFirst (c ∷ s) = c ≢ b'0'

pub NoZeroFirst-trim_zeros : (s : Bytes) → NoZeroFirst (trim_zeros s)
unfolding trim_zeros
NoZeroFirst-trim_zeros [] = tt
NoZeroFirst-trim_zeros (c ∷ s) = elim (Bool-cases (c == b'0')) [
  | inl e ↦ rw (e, trim_zeros) (NoZeroFirst-trim_zeros s)
  | inr e ↦ rw (e, trim_zeros) (λ (q : c ≡ b'0'). cc (e, (==_iff c b'0').1 q))
]

-- A longer number with no leading zero is greater.
pub longer :
    (s t : Bytes)
    → All IsDigit s
    → All IsDigit t
    → NoZeroFirst t
    → length s < length t
    → value s < value t
longer s [] hs ht z h = absurd (omega arith)
longer s (d ∷ t) hs ht z h =
    let k = length t - length s in
    let e : length s + k ≡ length t = omega arith in
    let up : 10 ^ length s ≤ 10 ^ length t = rw e at (pow_mono (length s) k) in
    omega (arith, value-lt s hs, up, le-value d t (omega (arith, ht.0, z)))

compare_trimmed :
    (s t : Bytes)
    → All IsDigit s
    → All IsDigit t
    → NoZeroFirst s
    → NoZeroFirst t
    → then_by (compare (length s) (length t)) (compare_text s t) ≡ compare (value s) (value t)
compare_trimmed s t hs ht zs zt = elim (tri (length s) (length t)) [
  | inl l ↦
      rw
        (compare_lt (length s) (length t) l, compare_lt (value s) (value t) (longer s t hs ht zt l))
  | inr (inl e) ↦ rw (e, compare_eq) (compare_text-value s t hs ht e)
  | inr (inr g) ↦
      rw
        (compare_gt (length s) (length t) g, compare_gt (value s) (value t) (longer t s ht hs zs g))
]

-- CompareLSN orders two texts of digits as the numbers that they spell, leading zeros or not.
pub compare_lsn-value :
    (a b : Bytes) → All IsDigit a → All IsDigit b → compare_lsn a b ≡ compare (value a) (value b)
unfolding compare_lsn
compare_lsn-value a b ha hb =
    rw
      (
        compare_trimmed (trim_zeros a) (trim_zeros b) (All-trim_zeros a ha) (All-trim_zeros b hb)
            (NoZeroFirst-trim_zeros a) (NoZeroFirst-trim_zeros b),
        value-trim_zeros a,
        value-trim_zeros b,
      )
      refl
