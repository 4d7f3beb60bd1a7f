-- ===== src/Tsql/Scan/Stable.antt =====
-- A span is read in the same way in front of another text, if that text begins alike.
use gosmo.Base.{
  ℕ, zero, suc, ◌≡◌, refl, sym, subst, true, false, ◌&&◌, ◌⊎◌, inl, inr, [], ◌∷◌, ◌++◌,
  append_assoc, arith, Bytes, Bool-cases, ◌==◌,
}
use gosmo.Tsql.Scan.{Run, push, scan_delimited, scan_line, scan_block, apostrophe, newline}
use gosmo.Tsql.Quote.Lexed.{scan_delimited_other}

-- The two texts are empty, or begin with one byte, or the second begins with the N of a literal in
-- the place of a quote or of an n.
abbrev pub IsAlike : Bytes → Bytes → Type 0
IsAlike [] r = r ≡ []
IsAlike (c ∷ s) [] = ⊥
IsAlike (c ∷ s) (d ∷ r) = (d ≡ c) ⊎ (((c ≡ apostrophe) ⊎ (c ≡ b'n')) × (d ≡ b'N'))

-- Reading again what `run` read, in front of a text that begins as its rest does.
abbrev pub IsStable : (Bytes → Run) → Run → Type 0
IsStable scan run =
    (r : Bytes) → IsAlike run.rest r → scan (run.text ++ r) ≡ record run { rest = r }

pub push-IsStable :
    (p : Bytes) (scan next : Bytes → Run) (run : Run)
    → ((r : Bytes) → scan (p ++ (run.text ++ r)) ≡ push p (next (run.text ++ r)))
    → IsStable next run
    → IsStable scan (push p run)
unfolding push
push-IsStable p scan next run e h r a = rw (append_assoc, e, h r a) refl

pub scan_delimited_last :
    (q c d : ℕ) (s : Bytes)
    → (c == q) ≡ true
    → (d == q) ≡ false
    → scan_delimited q (c ∷ d ∷ s) ≡ record { text = c ∷ []; rest = d ∷ s; closed = true }
unfolding scan_delimited
scan_delimited_last q c d s e n = rw (e, n, scan_delimited) refl

pub scan_delimited_two :
    (q c d : ℕ) (s : Bytes)
    → (c == q) ≡ true
    → (d == q) ≡ true
    → scan_delimited q (c ∷ d ∷ s) ≡ push (c ∷ d ∷ []) (scan_delimited q s)
unfolding scan_delimited
scan_delimited_two q c d s e n = rw (e, n, scan_delimited) refl

-- The byte behind a closing delimiter that is not doubled.
pub alike_other :
    (q d x : ℕ) (r s : Bytes)
    → (b'N' == q) ≡ false
    → (d == q) ≡ false
    → IsAlike (d ∷ s) (x ∷ r)
    → (x == q) ≡ false
alike_other q d x r s n o a = elim a [ inl e ↦ rw e o | inr e ↦ rw (e.1) n ]

pub scan_delimited-IsStable :
    (q : ℕ) (s : Bytes) → (b'N' == q) ≡ false → IsStable (scan_delimited q) (scan_delimited q s)
scan_delimited-IsStable q [] n = λ r a. unfold scan_delimited in rw a
scan_delimited-IsStable q (c ∷ []) n = λ r a. unfold scan_delimited in rw a
scan_delimited-IsStable q (c ∷ d ∷ s) n = elim (Bool-cases (c == q)) [
  | inr o ↦
      subst (λ run. IsStable (scan_delimited q) run) (sym (scan_delimited_other q c (d ∷ s) o))
        (push-IsStable (c ∷ []) (scan_delimited q) (scan_delimited q) (scan_delimited q (d ∷ s))
          (λ r. scan_delimited_other q c ((scan_delimited q (d ∷ s)).text ++ r) o)
          (scan_delimited-IsStable q (d ∷ s) n))
  | inl e ↦ elim (Bool-cases (d == q)) [
    | inl f ↦
        subst (λ run. IsStable (scan_delimited q) run) (sym (scan_delimited_two q c d s e f))
          (push-IsStable (c ∷ d ∷ []) (scan_delimited q) (scan_delimited q) (scan_delimited q s)
            (λ r. scan_delimited_two q c d ((scan_delimited q s).text ++ r) e f)
            (scan_delimited-IsStable q s n))
    | inr o ↦
        subst (λ run. IsStable (scan_delimited q) run) (sym (scan_delimited_last q c d s e o))
          (closed e o)
  ]
]
  where
    closed :
        (c == q) ≡ true
        → (d == q) ≡ false
        → IsStable (scan_delimited q) (record { text = c ∷ []; rest = d ∷ s; closed = true })
    closed e o [] a = absurd a
    closed e o (x ∷ r) a = scan_delimited_last q c x r e (alike_other q d x r s n o a)

pub scan_line_other :
    (c : ℕ) (s : Bytes) → (c == newline) ≡ false → scan_line (c ∷ s) ≡ push (c ∷ []) (scan_line s)
unfolding scan_line
scan_line_other c s o = rw (o, scan_line) refl

scan_line_end :
    (c : ℕ) (s : Bytes)
    → (c == newline) ≡ true
    → scan_line (c ∷ s) ≡ record { text = []; rest = c ∷ s; closed = true }
unfolding scan_line
scan_line_end c s e = rw (e, scan_line) refl

pub scan_line-IsStable : (s : Bytes) → IsStable scan_line (scan_line s)
scan_line-IsStable [] = λ r a. unfold scan_line in rw a
scan_line-IsStable (c ∷ s) = elim (Bool-cases (c == newline)) [
  | inr o ↦
      subst (λ run. IsStable scan_line run) (sym (scan_line_other c s o))
        (push-IsStable (c ∷ []) scan_line scan_line (scan_line s)
          (λ r. scan_line_other c ((scan_line s).text ++ r) o) (scan_line-IsStable s))
  | inl e ↦ subst (λ run. IsStable scan_line run) (sym (scan_line_end c s e)) (ended e)
]
  where
    ended :
        (c == newline) ≡ true
        → IsStable scan_line (record { text = []; rest = c ∷ s; closed = true })
    ended e [] a = absurd a
    ended e (x ∷ r) a = scan_line_end x r (ground (arith, a))

scan_block_open :
    (k c d : ℕ) (s : Bytes)
    → (c == b'/' && d == b'*') ≡ true
    → scan_block (suc k) (c ∷ d ∷ s) ≡ push (c ∷ d ∷ []) (scan_block (suc (suc k)) s)
unfolding scan_block
scan_block_open k c d s e = rw (e, scan_block) refl

scan_block_close :
    (k c d : ℕ) (s : Bytes)
    → (c == b'/' && d == b'*') ≡ false
    → (c == b'*' && d == b'/') ≡ true
    → scan_block (suc k) (c ∷ d ∷ s) ≡ push (c ∷ d ∷ []) (scan_block k s)
unfolding scan_block
scan_block_close k c d s o e = rw (o, e, scan_block) refl

scan_block_other :
    (k c d : ℕ) (s : Bytes)
    → (c == b'/' && d == b'*') ≡ false
    → (c == b'*' && d == b'/') ≡ false
    → scan_block (suc k) (c ∷ d ∷ s) ≡ push (c ∷ []) (scan_block (suc k) (d ∷ s))
unfolding scan_block
scan_block_other k c d s o e = rw (o, e, scan_block) refl

-- Inside a comment the first byte is read.
scan_block_first : (k d : ℕ) (s : Bytes) → (t : Bytes) × ((scan_block (suc k) (d ∷ s)).text ≡ d ∷ t)
scan_block_first k d [] = ([], unfold scan_block in refl)
scan_block_first k d (e ∷ s) = elim (Bool-cases (d == b'/' && e == b'*')) [
  | inl o ↦
      (e ∷ (scan_block (suc (suc k)) s).text, rw (scan_block_open k d e s o) (unfold push in refl))
  | inr o ↦ elim (Bool-cases (d == b'*' && e == b'/')) [
    | inl f ↦ (e ∷ (scan_block k s).text, rw (scan_block_close k d e s o f) (unfold push in refl))
    | inr f ↦
        ((scan_block (suc k) (e ∷ s)).text, rw (scan_block_other k d e s o f) (unfold push in refl))
  ]
]

pub scan_block-IsStable : (k : ℕ) (s : Bytes) → IsStable (scan_block k) (scan_block k s)
scan_block-IsStable zero s = λ r a. unfold scan_block in refl
scan_block-IsStable (suc k) [] = λ r a. unfold scan_block in rw a
scan_block-IsStable (suc k) (c ∷ []) = λ r a. unfold scan_block in rw a
scan_block-IsStable (suc k) (c ∷ d ∷ s) = elim (Bool-cases (c == b'/' && d == b'*')) [
  | inl o ↦
      subst (λ run. IsStable (scan_block (suc k)) run) (sym (scan_block_open k c d s o))
        (push-IsStable (c ∷ d ∷ []) (scan_block (suc k)) (scan_block (suc (suc k)))
          (scan_block (suc (suc k)) s)
          (λ r. scan_block_open k c d ((scan_block (suc (suc k)) s).text ++ r) o)
          (scan_block-IsStable (suc (suc k)) s))
  | inr o ↦ elim (Bool-cases (c == b'*' && d == b'/')) [
    | inl f ↦
        subst (λ run. IsStable (scan_block (suc k)) run) (sym (scan_block_close k c d s o f))
          (push-IsStable (c ∷ d ∷ []) (scan_block (suc k)) (scan_block k) (scan_block k s)
            (λ r. scan_block_close k c d ((scan_block k s).text ++ r) o f)
            (scan_block-IsStable k s))
    | inr f ↦
        let first = scan_block_first k d s in
        subst (λ run. IsStable (scan_block (suc k)) run) (sym (scan_block_other k c d s o f))
          (push-IsStable (c ∷ []) (scan_block (suc k)) (scan_block (suc k))
            (scan_block (suc k) (d ∷ s))
            (λ r. rw (first.1) (scan_block_other k c d (first.0 ++ r) o f))
            (scan_block-IsStable (suc k) (d ∷ s)))
  ]
]
