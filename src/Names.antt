-- ===== src/Names.antt =====
-- quoting.go: which names may stand bare, and how a multi-part name is read.
pub mod Split
use gosmo.Base.{
  ℕ, zero, suc, ◌-◌, ◌≡◌, refl, Bool, true, false, not, ◌&&◌, ◌||◌, Option, none, some, List, [],
  ◌∷◌, ◌++◌, Result, ok, err, map, Bytes, codes, leb, ltb, ◌==◌, if◌then◌else◌, length, contains,
  ◌>>=◌,
}
use gosmo.Tsql.Quote.{quote_name}

unfoldable pub is_letter : ℕ → Bool
is_letter c = (leb b'A' c && leb c b'Z') || (leb b'a' c && leb c b'z') || c == b'_'

unfoldable pub is_later : ℕ → Bool
unfolding is_letter
is_later c = is_letter c || (leb b'0' c && leb c b'9') || c == b'@' || c == b'#' || c == b'$'

unfoldable pub all_later : Bytes → Bool
unfolding is_later
all_later [] = true
all_later (c ∷ s) = is_later c && all_later s

-- The loop of isRegularIdentifier: the first byte, and those at i > 0.
unfoldable pub is_regular_identifier : Bytes → Bool
unfolding is_letter all_later
is_regular_identifier [] = false
is_regular_identifier (c ∷ s) = is_letter c && all_later s

-- strings.ToUpper on ASCII bytes; other bytes stay.
unfoldable pub to_upper : ℕ → ℕ
to_upper c = if leb b'a' c && leb c b'z' then c - 32 else c

-- The words of `reservedKeywords`.
abbrev reserved_keywords : List Bytes
reserved_keywords = map codes (
    "ADD" ∷ "ALL" ∷ "ALTER" ∷ "AND" ∷ "ANY" ∷ "AS" ∷ "ASC" ∷ "AUTHORIZATION" ∷ "BACKUP" ∷ "BEGIN"
    ∷ "BETWEEN" ∷ "BREAK" ∷ "BROWSE" ∷ "BULK" ∷ "BY" ∷ "CASCADE" ∷ "CASE" ∷ "CHECK" ∷ "CHECKPOINT"
    ∷ "CLOSE" ∷ "CLUSTERED" ∷ "COALESCE" ∷ "COLLATE" ∷ "COLUMN" ∷ "COMMIT" ∷ "COMPUTE"
    ∷ "CONSTRAINT" ∷ "CONTAINS" ∷ "CONTAINSTABLE" ∷ "CONTINUE" ∷ "CONVERT" ∷ "CREATE" ∷ "CROSS"
    ∷ "CURRENT" ∷ "CURRENT_DATE" ∷ "CURRENT_TIME" ∷ "CURRENT_TIMESTAMP" ∷ "CURRENT_USER" ∷ "CURSOR"
    ∷ "DATABASE" ∷ "DBCC" ∷ "DEALLOCATE" ∷ "DECLARE" ∷ "DEFAULT" ∷ "DELETE" ∷ "DENY" ∷ "DESC"
    ∷ "DISK" ∷ "DISTINCT" ∷ "DISTRIBUTED" ∷ "DOUBLE" ∷ "DROP" ∷ "DUMP" ∷ "ELSE" ∷ "END" ∷ "ERRLVL"
    ∷ "ESCAPE" ∷ "EXCEPT" ∷ "EXEC" ∷ "EXECUTE" ∷ "EXISTS" ∷ "EXIT" ∷ "EXTERNAL" ∷ "FETCH" ∷ "FILE"
    ∷ "FILLFACTOR" ∷ "FOR" ∷ "FOREIGN" ∷ "FREETEXT" ∷ "FREETEXTTABLE" ∷ "FROM" ∷ "FULL" ∷ "FUNCTION"
    ∷ "GOTO" ∷ "GRANT" ∷ "GROUP" ∷ "HAVING" ∷ "HOLDLOCK" ∷ "IDENTITY" ∷ "IDENTITY_INSERT"
    ∷ "IDENTITYCOL" ∷ "IF" ∷ "IN" ∷ "INDEX" ∷ "INNER" ∷ "INSERT" ∷ "INTERSECT" ∷ "INTO" ∷ "IS"
    ∷ "JOIN" ∷ "KEY" ∷ "KILL" ∷ "LEFT" ∷ "LIKE" ∷ "LINENO" ∷ "LOAD" ∷ "MERGE" ∷ "NATIONAL"
    ∷ "NOCHECK" ∷ "NONCLUSTERED" ∷ "NOT" ∷ "NULL" ∷ "NULLIF" ∷ "OF" ∷ "OFF" ∷ "OFFSETS" ∷ "ON"
    ∷ "OPEN" ∷ "OPENDATASOURCE" ∷ "OPENQUERY" ∷ "OPENROWSET" ∷ "OPENXML" ∷ "OPTION" ∷ "OR" ∷ "ORDER"
    ∷ "OUTER" ∷ "OVER" ∷ "PERCENT" ∷ "PIVOT" ∷ "PLAN" ∷ "PRECISION" ∷ "PRIMARY" ∷ "PRINT" ∷ "PROC"
    ∷ "PROCEDURE" ∷ "PUBLIC" ∷ "RAISERROR" ∷ "READ" ∷ "READTEXT" ∷ "RECONFIGURE" ∷ "REFERENCES"
    ∷ "REPLICATION" ∷ "RESTORE" ∷ "RESTRICT" ∷ "RETURN" ∷ "REVERT" ∷ "REVOKE" ∷ "RIGHT" ∷ "ROLLBACK"
    ∷ "ROWCOUNT" ∷ "ROWGUIDCOL" ∷ "RULE" ∷ "SAVE" ∷ "SCHEMA" ∷ "SECURITYAUDIT" ∷ "SELECT"
    ∷ "SEMANTICKEYPHRASETABLE" ∷ "SEMANTICSIMILARITYDETAILSTABLE" ∷ "SEMANTICSIMILARITYTABLE"
    ∷ "SESSION_USER" ∷ "SET" ∷ "SETUSER" ∷ "SHUTDOWN" ∷ "SOME" ∷ "STATISTICS" ∷ "SYSTEM_USER"
    ∷ "TABLE" ∷ "TABLESAMPLE" ∷ "TEXTSIZE" ∷ "THEN" ∷ "TO" ∷ "TOP" ∷ "TRAN" ∷ "TRANSACTION"
    ∷ "TRIGGER" ∷ "TRUNCATE" ∷ "TRY_CONVERT" ∷ "TSEQUAL" ∷ "UNION" ∷ "UNIQUE" ∷ "UNPIVOT" ∷ "UPDATE"
    ∷ "UPDATETEXT" ∷ "USE" ∷ "USER" ∷ "VALUES" ∷ "VARYING" ∷ "VIEW" ∷ "WAITFOR" ∷ "WHEN" ∷ "WHERE"
    ∷ "WHILE" ∷ "WITH" ∷ "WRITETEXT" ∷ [])

unfoldable pub is_reserved_keyword : Bytes → Bool
unfolding to_upper contains
is_reserved_keyword word = contains reserved_keywords (map to_upper word)

unfoldable pub quote_name_if_needed : Bytes → Bytes
quote_name_if_needed name =
    if is_regular_identifier name && not (is_reserved_keyword name) then name else quote_name name

-- Why SplitName refuses a text.
pub data SplitError : Type 0 where
  unterminated : ℕ → SplitError
  bracket_inside text_after too_many_parts empty_end : SplitError

unfoldable pub is_space : ℕ → Bool
is_space c = c == b' ' || c == 9 || c == 13 || c == 10

unfoldable pub skip_space : Bytes → Bytes
unfolding is_space
skip_space [] = []
skip_space (c ∷ s) = elim (is_space c) [ true ↦ skip_space s | false ↦ c ∷ s ]

-- A part, and the text behind it.
pub record Part : Type 0 where
  pub value : Bytes
  pub rest : Bytes

unfoldable pub add_front : ℕ → Part → Part
add_front c p = record p { value = c ∷ p.value }

-- The inner loop of a quoted part, from behind its opening delimiter.
unfoldable pub read_quoted : ℕ → Bytes → Result SplitError Part
unfolding add_front
read_quoted closer [] = err (unterminated closer)
read_quoted closer (c ∷ []) =
    if c == closer then ok (record { value = []; rest = [] }) else err (unterminated closer)
read_quoted closer (c ∷ d ∷ s) = elim (c == closer) [
  | false ↦ read_quoted closer (d ∷ s) >>= λ p. ok (add_front c p)
  | true ↦ elim (d == closer) [
    | true ↦ read_quoted closer s >>= λ p. ok (add_front closer p)
    | false ↦ ok (record { value = []; rest = d ∷ s })
  ]
]

unfoldable pub read_bare : Bytes → Result SplitError Part
unfolding is_space add_front
read_bare [] = ok (record { value = []; rest = [] })
read_bare (c ∷ s) = elim (c == b'.' || is_space c) [
  | true ↦ ok (record { value = []; rest = c ∷ s })
  | false ↦ elim (c == b'[' || c == b']' || c == b'"') [
    | true ↦ err bracket_inside
    | false ↦ read_bare s >>= λ p. ok (add_front c p)
  ]
]

-- The switch at the start of a part.
unfoldable pub read_part : Bytes → Result SplitError Part
read_part [] = read_bare []
read_part (c ∷ s) =
    if c == b'['
    then read_quoted b']' s
    else if c == b'"'
    then read_quoted b'"' s
    else read_bare (c ∷ s)

-- The parts from here on. Each round but the last takes at least the byte of its dot, so the
-- length of the text and one more are fuel enough; `none` means that it ran out.
unfoldable pub split_parts : ℕ → Bytes → Option (Result SplitError (List Bytes))
unfolding skip_space read_part
split_parts zero s = none
split_parts (suc f) s = elim (read_part (skip_space s)) [
  | err e ↦ some (err e)
  | ok p ↦ elim (skip_space p.rest) [
    | [] ↦ some (ok (p.value ∷ []))
    | c ∷ r ↦ elim (c == b'.') [
      | false ↦ some (err text_after)
      | true ↦ elim (split_parts f r) [
        | none ↦ none
        | some (err e) ↦ some (err e)
        | some (ok ps) ↦ some (ok (p.value ∷ ps))
      ]
    ]
  ]
]

unfoldable pub is_empty : Bytes → Bool
is_empty [] = true
is_empty (c ∷ s) = false

unfoldable pub last_empty : List Bytes → Bool
unfolding is_empty
last_empty [] = true
last_empty (p ∷ []) = is_empty p
last_empty (p ∷ q ∷ ps) = last_empty (q ∷ ps)

unfoldable pub first_empty : List Bytes → Bool
unfolding is_empty
first_empty [] = true
first_empty (p ∷ ps) = is_empty p

-- The checks behind the loop.
unfoldable pub check_parts : List Bytes → Result SplitError (List Bytes)
unfolding first_empty last_empty
check_parts ps =
    if ltb 4 (length ps)
    then err too_many_parts
    else if first_empty ps || last_empty ps
    then err empty_end
    else ok ps

unfoldable pub split_name : Bytes → Option (Result SplitError (List Bytes))
split_name name = elim (split_parts (suc (length name)) name) [
  | none ↦ none
  | some r ↦ some (r >>= check_parts)
]

split_test :
    split_name (codes " [my.db] . dbo..\"x\"")
    ≡ some (ok (codes "my.db" ∷ codes "dbo" ∷ [] ∷ codes "x" ∷ []))
unfolding split_name split_parts read_part read_quoted read_bare check_parts
split_test = refl

split_error : split_name (codes "dbo t") ≡ some (err text_after)
unfolding split_name split_parts read_part read_quoted read_bare check_parts
split_error = refl
