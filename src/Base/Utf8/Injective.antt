-- ===== src/Base/Utf8/Injective.antt =====
-- The bytes of runes tell the runes.
use gosmo.Base.{
  ℕ, ◌+◌, ◌-◌, ◌*◌, ◌/◌, ◌%◌, ◌≡◌, refl, sym, ap, ◌∙◌, Bool, true, false, List, [], ◌∷◌, ◌++◌,
  Bytes, arith, ltb, if◌then◌else◌, Bool-cases, inl, inr,
}
use gosmo.Base.Utf8.{rune_bytes, text_of_runes}

-- A rune, and the bytes behind it.
record Taken : Type 0 where
  rune : ℕ
  rest : Bytes

one : ℕ → Bytes → Taken
one c s = record { rune = c; rest = s }

two : ℕ → Bytes → Taken
two c [] = record { rune = 0; rest = [] }
two c (d ∷ s) = record { rune = (c - 192) * 64 + (d - 128); rest = s }

three : ℕ → Bytes → Taken
three c [] = record { rune = 0; rest = [] }
three c (d ∷ []) = record { rune = 0; rest = [] }
three c (d ∷ e ∷ s) = record { rune = (c - 224) * 4096 + (d - 128) * 64 + (e - 128); rest = s }

four : ℕ → Bytes → Taken
four c [] = record { rune = 0; rest = [] }
four c (d ∷ []) = record { rune = 0; rest = [] }
four c (d ∷ e ∷ []) = record { rune = 0; rest = [] }
four c (d ∷ e ∷ f ∷ s) = record {
  rune = (c - 240) * 262144 + (d - 128) * 4096 + (e - 128) * 64 + (f - 128);
  rest = s;
}

-- The first rune of what text_of_runes gives, by its first byte.
take_rune : Bytes → Taken
unfolding one two three four
take_rune [] = record { rune = 0; rest = [] }
take_rune (c ∷ s) =
    if ltb c 128
    then one c s
    else if ltb c 224
    then two c s
    else if ltb c 240
    then three c s
    else four c s

take_rune-rune_bytes :
    (r : ℕ) (s : Bytes) → take_rune (rune_bytes r ++ s) ≡ record { rune = r; rest = s }
unfolding take_rune rune_bytes
take_rune-rune_bytes r s = elim (Bool-cases (ltb r 128)) [
  | inl e ↦ rw (e, e) refl
  | inr e ↦ elim (Bool-cases (ltb r 2048)) [
    | inl f ↦
        let a : ltb (192 + r / 64) 128 ≡ false = ground arith in
        let b : ltb (192 + r / 64) 224 ≡ true = ground (arith, f) in
        let v : (192 + r / 64 - 192) * 64 + (128 + r % 64 - 128) ≡ r = omega arith in
        rw (e, f, a, b) (ap (λ x. record { rune = x; rest = s }) v)
    | inr f ↦ elim (Bool-cases (ltb r 65536)) [
      | inl g ↦
          let a : ltb (224 + r / 4096) 128 ≡ false = ground arith in
          let b : ltb (224 + r / 4096) 224 ≡ false = ground arith in
          let c : ltb (224 + r / 4096) 240 ≡ true = ground (arith, g) in
          let v : (224 + r / 4096 - 224) * 4096
                + (128 + r / 64 % 64 - 128) * 64
                + (128 + r % 64 - 128)
              ≡ r =
            omega arith in
          rw (e, f, g, a, b, c) (ap (λ x. record { rune = x; rest = s }) v)
      | inr g ↦
          let a : ltb (240 + r / 262144) 128 ≡ false = ground arith in
          let b : ltb (240 + r / 262144) 224 ≡ false = ground arith in
          let c : ltb (240 + r / 262144) 240 ≡ false = ground arith in
          let v : (240 + r / 262144 - 240) * 262144
                + (128 + r / 4096 % 64 - 128) * 4096
                + (128 + r / 64 % 64 - 128) * 64
                + (128 + r % 64 - 128)
              ≡ r =
            omega arith in
          rw (e, f, g, a, b, c) (ap (λ x. record { rune = x; rest = s }) v)
    ]
  ]
]

is_nil : Bytes → Bool
is_nil [] = true
is_nil (c ∷ s) = false

is_nil-rune_bytes : (r : ℕ) (s : Bytes) → is_nil (rune_bytes r ++ s) ≡ false
unfolding rune_bytes is_nil
is_nil-rune_bytes r s = elim (Bool-cases (ltb r 128)) [
  | inl e ↦ rw e refl
  | inr e ↦ elim (Bool-cases (ltb r 2048)) [
    | inl f ↦ rw (e, f) refl
    | inr f ↦ elim (Bool-cases (ltb r 65536)) [
      | inl g ↦ rw (e, f, g) refl
      | inr g ↦ rw (e, f, g) refl
    ]
  ]
]

pub text_of_runes_inj : (rs qs : List ℕ) → text_of_runes rs ≡ text_of_runes qs → rs ≡ qs
unfolding text_of_runes is_nil
text_of_runes_inj [] [] h = refl
text_of_runes_inj [] (q ∷ qs) h =
    absurd
      (let z : is_nil [] ≡ false = ap is_nil h ∙ is_nil-rune_bytes q (text_of_runes qs) in cc z)
text_of_runes_inj (r ∷ rs) [] h =
    absurd (
      let z : is_nil [] ≡ false = ap is_nil (sym h) ∙ is_nil-rune_bytes r (text_of_runes rs) in
      cc z)
text_of_runes_inj (r ∷ rs) (q ∷ qs) h =
    let taken : ◌≡◌ {A = Taken} (record { rune = r; rest = text_of_runes rs })
        (record { rune = q; rest = text_of_runes qs }) =
      sym (take_rune-rune_bytes r (text_of_runes rs))
      ∙ ap take_rune h
      ∙ take_rune-rune_bytes q (text_of_runes qs) in
    cc (ap (λ t. t.rune) taken, text_of_runes_inj rs qs (ap (λ t. t.rest) taken))
