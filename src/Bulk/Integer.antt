-- ===== src/Bulk/Integer.antt =====
-- strconv's integers of base 10 and 64 bits, as bulkvalue.go's checks use them.
pub mod Parsed
use gosmo.Base.{
  ℕ, zero, suc, ◌+◌, ◌-◌, ◌≡◌, refl, Bool, true, false, not, ◌&&◌, ◌||◌, [], ◌∷◌, ◌++◌, Bytes,
  codes, ltb, leb, ◌==◌, if◌then◌else◌, Result, ok, err, ◌/◌, ◌%◌, ◌*◌,
}
use gosmo.Base.Integer.{ℤ, pos, negsuc, signed, two_64, two_63}

-- The errors of ParseInt: ErrSyntax and ErrRange.
pub data NumError : Type 0 where
  syntax range : NumError

-- math.MaxUint64/10 + 1
abbrev pub cutoff : ℕ
cutoff = 1844674407370955162

-- The loop of ParseUint over the bytes: n is the number so far.
unfoldable pub parse_digits : ℕ → Bytes → Result NumError ℕ
parse_digits n [] = ok n
parse_digits n (c ∷ s) =
    let d = c - b'0' in
    let next = (n * 10 + d) % two_64 in
    let rest = parse_digits next s in
    if not (leb b'0' c && leb c b'9')
    then err syntax
    else if leb cutoff n
    then err range
    else if ltb next (n * 10)
    then err range
    else rest

unfoldable pub parse_uint : Bytes → Result NumError ℕ
unfolding parse_digits
parse_uint [] = err syntax
parse_uint (c ∷ s) = parse_digits 0 (c ∷ s)

-- ParseInt, behind its sign
unfoldable pub parse_signed : Bool → Bytes → Result NumError ℤ
unfolding parse_uint signed
parse_signed neg s = elim (parse_uint s) [
  | err why ↦ err why
  | ok n ↦
      if not neg && leb two_63 n
      then err range
      else if neg && ltb two_63 n
      then err range
      else ok (signed neg n)
]

unfoldable pub parse_int : Bytes → Result NumError ℤ
unfolding parse_signed
parse_int [] = err syntax
parse_int (c ∷ s) =
    if c == b'+'
    then parse_signed false s
    else if c == b'-'
    then parse_signed true s
    else parse_signed false (c ∷ s)

-- The digits of a number, on fuel: each round drops the last one.
unfoldable pub format_nat : ℕ → ℕ → Bytes
format_nat zero n = []
format_nat (suc k) n =
    let front = format_nat k (n / 10) in
    if ltb n 10 then (b'0' + n) ∷ [] else front ++ (b'0' + n % 10) ∷ []

-- strconv.FormatInt(n, 10); 20 digits are enough for 64 bits
unfoldable pub format_int : ℤ → Bytes
unfolding format_nat
format_int (pos n) = format_nat 20 n
format_int (negsuc n) = b'-' ∷ format_nat 20 (suc n)

parse_test : parse_int (codes "-9223372036854775808") ≡ ok (negsuc 9223372036854775807)
unfolding parse_int
parse_test = refl

parse_above : parse_int (codes "9223372036854775808") ≡ err range
unfolding parse_int
parse_above = refl

format_test : format_int (negsuc 1049) ≡ codes "-1050"
unfolding format_int
format_test = refl
