-- ===== src/Bulk/Convert.antt =====
-- bulkvalue.go: the check of one column, by its type.
pub mod Padded
pub mod Again
pub mod Bounds
use gosmo.Base.{
  Option, some, none, List, contains, ℕ, zero, suc, ◌+◌, ◌-◌, ◌≡◌, refl, Bool, true, false, not,
  ◌&&◌, ◌||◌, Option, none, some, [], ◌∷◌, ◌++◌, Bytes, codes, ltb, leb, ◌==◌, if◌then◌else◌,
  length, map, Result, ok, err, str_eq, ◌>>=◌,
}
use gosmo.Base.Integer.{ℤ, pos, negsuc, int_ltb}
use gosmo.Bulk.{
  Value, int64, float64, text, bytes, bool, another, Reason, not_bit, out_of_range,
  int_out_of_range, float_out_of_range, not_whole, not_integer, not_finite, too_long, FloatOps,
  decimal_of, money_of,
}
use gosmo.Bulk.Integer.{NumError, syntax, range, parse_int, format_int}

-- strings.ToLower, where the result is compared with an ASCII text
abbrev to_lower : Bytes → Bytes
to_lower = map (λ c. if leb b'A' c && leb c b'Z' then c + 32 else c)

-- The checks: convBit, intConv, decimalConv, moneyConv and binaryConv with their arguments, and the
-- check of a type that passes every value on.
pub data Check : Type 0 where
  as_bit as_is : Check
  as_int as_money : ℤ → ℤ → Check
  as_decimal : ℕ → ℕ → Check
  as_binary : ℤ → Bool → Check

-- hi == math.MaxInt64
unfoldable pub is_max_int64 : ℤ → Bool
is_max_int64 (pos n) = n == 9223372036854775807
is_max_int64 (negsuc n) = false

-- make([]byte, n)
unfoldable pub nul_bytes : ℕ → Bytes
nul_bytes zero = []
nul_bytes (suc n) = 0 ∷ nul_bytes n

-- binaryConv on bytes; a negative n is no bound
unfoldable pub pad_bytes : {F X : Type 0} → ℤ → Bool → Bytes → Result (Reason F) (Value F X)
unfolding nul_bytes
pad_bytes (negsuc n) fixed b = ok (bytes b)
pad_bytes (pos n) fixed b =
    if ltb 0 n && ltb n (length b)
    then err (too_long (length b) n)
    else if fixed && ltb (length b) n
    then ok (bytes (b ++ nul_bytes (n - length b)))
    else ok (bytes b)

module _ {F X : Type 0} (ops : FloatOps F) where
  unfoldable pub conv_bit : Value F X → Result (Reason F) (Value F X)
  unfolding str_eq
  conv_bit (text s) =
      let t = to_lower s in
      if str_eq t (codes "1") || str_eq t (codes "true")
      then ok (bool true)
      else if str_eq t (codes "0") || str_eq t (codes "false")
      then ok (bool false)
      else err (not_bit s)
  conv_bit v = ok v

  unfoldable pub int_conv : ℤ → ℤ → Value F X → Result (Reason F) (Value F X)
  unfolding int_ltb is_max_int64
  int_conv lo hi (int64 n) =
      if int_ltb n lo || int_ltb hi n then err (int_out_of_range n lo hi) else ok (int64 n)
  int_conv lo hi (float64 f) =
      if not (ops.is_whole f) || not (ops.is_finite f)
      then err (not_whole f)
      else if ops.below f lo || ops.above f hi || (ops.equals f hi && is_max_int64 hi)
      then err (float_out_of_range f lo hi)
      else ok (int64 (ops.to_int64 f))
  int_conv lo hi (text s) = elim (parse_int s) [
    | err syntax ↦ err (not_integer s)
    | err range ↦ err (out_of_range s lo hi)
    | ok n ↦ if int_ltb n lo || int_ltb hi n then err (out_of_range s lo hi) else ok (int64 n)
  ]
  int_conv lo hi v = ok v

  -- What decimalConv and moneyConv do first: a text, their own or numberText's, or a result at once.
  unfoldable pub with_text :
      (Bytes → Result (Reason F) Bytes) → ℕ → Value F X → Result (Reason F) (Value F X)
  unfolding format_int
  with_text check places (text s) = check s >>= (λ t. ok (text t))
  with_text check places (int64 n) = check (format_int n) >>= (λ t. ok (text t))
  with_text check places (float64 f) =
      if ops.is_finite f
      then check (ops.format f places) >>= (λ t. ok (text t))
      else err (not_finite f)
  with_text check places v = ok v

  unfoldable pub decimal_conv : ℕ → ℕ → Value F X → Result (Reason F) (Value F X)
  unfolding with_text decimal_of
  decimal_conv precision scale v = with_text (decimal_of precision scale) scale v

  unfoldable pub money_conv : ℤ → ℤ → Value F X → Result (Reason F) (Value F X)
  unfolding with_text money_of
  money_conv lo hi v = with_text (money_of lo hi) 4 v

  unfoldable pub binary_conv : ℤ → Bool → Value F X → Result (Reason F) (Value F X)
  unfolding pad_bytes
  binary_conv n fixed (bytes b) = pad_bytes n fixed b
  binary_conv n fixed v = ok v

  -- bulkConv's function of a check
  unfoldable pub convert : Check → Value F X → Result (Reason F) (Value F X)
  unfolding conv_bit int_conv decimal_conv money_conv binary_conv
  convert as_bit v = conv_bit v
  convert (as_int lo hi) v = int_conv lo hi v
  convert (as_decimal precision scale) v = decimal_conv precision scale v
  convert (as_money lo hi) v = money_conv lo hi v
  convert (as_binary n fixed) v = binary_conv n fixed v
  convert as_is v = ok v

-- BulkColumn, without the code pages
pub record BulkColumn : Type 0 where
  pub name : Bytes
  pub type : Bytes
  -- -1 for (max)
  pub length_of : ℤ
  pub precision : ℕ
  pub scale : ℕ

-- The types whose checks are not modelled: those of floats, of times, of GUIDs and of characters.
abbrev unmodelled : List Bytes
unmodelled =
    codes "float"
    ∷ codes "real"
    ∷ codes "date"
    ∷ codes "time"
    ∷ codes "datetime"
    ∷ codes "smalldatetime"
    ∷ codes "datetime2"
    ∷ codes "datetimeoffset"
    ∷ codes "uniqueidentifier"
    ∷ codes "nchar"
    ∷ codes "nvarchar"
    ∷ codes "ntext"
    ∷ codes "xml"
    ∷ codes "char"
    ∷ codes "varchar"
    ∷ codes "text"
    ∷ []

-- The switch of BulkColumn.converter: the check of a column's type, none where it is not modelled.
unfoldable pub column_check : BulkColumn → Option Check
unfolding str_eq contains
column_check c =
    if str_eq c.type (codes "bit")
    then some as_bit
    else if str_eq c.type (codes "tinyint")
    then some (as_int (pos 0) (pos 255))
    else if str_eq c.type (codes "smallint")
    then some (as_int (negsuc 32767) (pos 32767))
    else if str_eq c.type (codes "int")
    then some (as_int (negsuc 2147483647) (pos 2147483647))
    else if str_eq c.type (codes "bigint")
    then some (as_int (negsuc 9223372036854775807) (pos 9223372036854775807))
    else if contains (codes "decimal" ∷ codes "numeric" ∷ []) c.type
    then some (as_decimal c.precision c.scale)
    else if str_eq c.type (codes "money")
    then some (as_money (negsuc 9223372036854775807) (pos 9223372036854775807))
    else if str_eq c.type (codes "smallmoney")
    then some (as_money (negsuc 2147483647) (pos 2147483647))
    else if contains (codes "binary" ∷ codes "varbinary" ∷ []) c.type
    then some (as_binary c.length_of (str_eq c.type (codes "binary")))
    else if str_eq c.type (codes "image")
    then some (as_binary (negsuc 0) false)
    else if contains unmodelled c.type
    then none
    else some as_is

-- The value that BulkInsert sends for a column whose check is modelled.
unfoldable pub column_convert :
    {F X : Type 0} → FloatOps F → BulkColumn → Value F X → Option (Result (Reason F) (Value F X))
unfolding column_check convert
column_convert ops c v = elim (column_check c) [
  | none ↦ none
  | some check ↦ some (convert ops check v)
]
