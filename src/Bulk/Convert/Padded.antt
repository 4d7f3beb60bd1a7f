-- ===== src/Bulk/Convert/Padded.antt =====
-- The bytes that binaryConv returns, it returns again.
use gosmo.Base.{
  ℕ, zero, suc, ◌-◌, ◌≤◌, ◌≡◌, refl, sym, ap, ◌∙◌, subst, Bool, true, false, ◌&&◌, [], ◌++◌, Bytes,
  arith, ltb, if◌then◌else◌, length, length-append, Result, ok, Bool-cases, inl, inr, guard_ok,
  ok_inj, append-nil, All,
}
use gosmo.Base.Integer.{ℤ, pos, negsuc}
use gosmo.Bulk.{Value, int64, float64, text, bytes, bool, another, Reason, too_long, FloatOps}
use gosmo.Bulk.Convert.{pad_bytes, nul_bytes, binary_conv}

length-nul_bytes : (n : ℕ) → length (nul_bytes n) ≡ n
unfolding nul_bytes
length-nul_bytes zero = refl
length-nul_bytes (suc n) = omega (arith, length-nul_bytes n)

nul_bytes-All : (n : ℕ) → All (λ c. c ≡ 0) (nul_bytes n)
unfolding nul_bytes
nul_bytes-All zero = tt
nul_bytes-All (suc n) = (refl, nul_bytes-All n)

not_longer : (n k : ℕ) → k ≤ n → ltb n k ≡ false
not_longer n k h = ground (arith, h)

module _ {F X : Type 0} (ops : FloatOps F) where
  -- The bytes that are sent to a column of n, for n > 0: those given, and in a fixed column the zeros
  -- up to n behind them.
  pub binary_conv_bytes :
      (n : ℕ) (fixed : Bool) (b : Bytes) (w : Value F X)
      → binary_conv ops (pos (suc n)) fixed (bytes b) ≡ ok w
      → (zeros : Bytes) × (w ≡ bytes (b ++ zeros))
        × (length (b ++ zeros) ≤ suc n)
        × (fixed ≡ true → length (b ++ zeros) ≡ suc n)
        × (fixed ≡ false → zeros ≡ [])
        × All (λ c. c ≡ 0) zeros
  binary_conv_bytes n fixed b w h =
      let (short, sent) =
        guard_ok {E = Reason F} {A = Value F X} (ltb 0 (suc n) && ltb (suc n) (length b))
          (too_long (length b) (suc n))
          (if fixed && ltb (length b) (suc n)
            then ok (bytes (b ++ nul_bytes (suc n - length b)))
            else ok (bytes b))
          w (unfold binary_conv pad_bytes in h) in
      let fits : length b ≤ suc n = ground (arith, short) in padded fixed fits sent
    where
      unpadded :
          (fixed : Bool) (w : Value F X)
          → length b ≤ suc n
          → bytes b ≡ w
          → (fixed ≡ true → length b ≡ suc n)
          → (zeros : Bytes) × (w ≡ bytes (b ++ zeros))
            × (length (b ++ zeros) ≤ suc n)
            × (fixed ≡ true → length (b ++ zeros) ≡ suc n)
            × (fixed ≡ false → zeros ≡ [])
            × All (λ c. c ≡ 0) zeros
      unpadded fixed w fits e full = (
        [],
        sym e ∙ ap bytes (sym (append-nil b)),
        rw (append-nil b) fits,
        rw (append-nil b) full,
        λ z. refl,
        tt,
      )

      padded :
          (fixed : Bool)
          → length b ≤ suc n
          → ◌≡◌ {A = Result (Reason F) (Value F X)}
              (if fixed && ltb (length b) (suc n)
                then ok (bytes (b ++ nul_bytes (suc n - length b)))
                else ok (bytes b))
              (ok w)
          → (zeros : Bytes) × (w ≡ bytes (b ++ zeros))
            × (length (b ++ zeros) ≤ suc n)
            × (fixed ≡ true → length (b ++ zeros) ≡ suc n)
            × (fixed ≡ false → zeros ≡ [])
            × All (λ c. c ≡ 0) zeros
      padded false fits e = unpadded false w fits (ok_inj (bytes b) w e) (λ z. absurd (cc z))
      padded true fits e = elim (Bool-cases (ltb (length b) (suc n))) [
        | inl l ↦
            let len : length (b ++ nul_bytes (suc n - length b)) ≡ suc n = omega (
              arith,
              length-append b (nul_bytes (suc n - length b)),
              length-nul_bytes (suc n - length b),
            ) in
            (
              nul_bytes (suc n - length b),
              sym (ok_inj (bytes (b ++ nul_bytes (suc n - length b))) w (rw l at e)),
              omega (arith, len),
              λ z. len,
              λ z. absurd (cc z),
              nul_bytes-All (suc n - length b),
            )
        | inr l ↦
            unpadded true w fits (ok_inj (bytes b) w (rw l at e)) (λ z. ground (arith, l, fits))
      ]

  pub binary_conv_again :
      (n : ℤ) (fixed : Bool) (v w : Value F X)
      → binary_conv ops n fixed v ≡ ok w
      → binary_conv ops n fixed w ≡ ok w
  binary_conv_again n fixed v w h = by_value n v h
    where
      same :
          (n : ℤ) (v : Value F X)
          → binary_conv ops n fixed v ≡ ok v
          → binary_conv ops n fixed v ≡ ok w
          → binary_conv ops n fixed w ≡ ok w
      same n v e p = subst (λ w. binary_conv ops n fixed w ≡ ok w) (ok_inj v w (sym e ∙ p)) e

      exactly :
          (n : ℕ) (fixed : Bool) (c : Bytes)
          → length c ≤ n
          → (fixed ≡ true → length c ≡ n)
          → binary_conv {X = X} ops (pos n) fixed (bytes c) ≡ ok (bytes c)
      exactly n true c l e =
          unfold binary_conv pad_bytes in
          rw (not_longer n (length c) l, not_longer (length c) n (omega (arith, e refl)))
            (ground arith)
      exactly n false c l e =
          unfold binary_conv pad_bytes in rw (not_longer n (length c) l) (ground arith)

      by_bytes :
          (n : ℕ) (b : Bytes)
          → binary_conv ops (pos n) fixed (bytes b) ≡ ok w
          → binary_conv ops (pos n) fixed w ≡ ok w
      by_bytes zero b p = same (pos zero) (bytes b) (unfold binary_conv pad_bytes in ground arith) p
      by_bytes (suc n) b p =
          let (zeros, is_bytes, l, e, _, _) = binary_conv_bytes n fixed b w p in
          rw is_bytes (exactly (suc n) fixed (b ++ zeros) l e)

      by_value :
          (n : ℤ) (v : Value F X)
          → binary_conv ops n fixed v ≡ ok w
          → binary_conv ops n fixed w ≡ ok w
      by_value (pos n) (bytes b) h = by_bytes n b h
      by_value (negsuc n) (bytes b) h =
          same (negsuc n) (bytes b) (unfold binary_conv pad_bytes in refl) h
      by_value n (int64 x) h = same n (int64 x) (unfold binary_conv pad_bytes in refl) h
      by_value n (float64 f) h = same n (float64 f) (unfold binary_conv pad_bytes in refl) h
      by_value n (text s) h = same n (text s) (unfold binary_conv pad_bytes in refl) h
      by_value n (bool b) h = same n (bool b) (unfold binary_conv pad_bytes in refl) h
      by_value n (another x) h = same n (another x) (unfold binary_conv pad_bytes in refl) h
