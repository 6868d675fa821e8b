-- ===== src/Lexer/Scan.antt =====
-- lexer/lexer.go: `scan`, on the input from the token's first byte on. A result is the kind and
-- the length.
use meyer.Base.{
  Bool, Bytes, [], drop, if◌then◌else◌, not, take, ℕ, ◌&&◌, ◌+◌, ◌==◌, ◌||◌, ◌∷◌, nat_eq,
}
use meyer.Token.{Kind, kind_eq}
use meyer.Keywords.Table.{lookup}
use meyer.Lexer.Chars.{
  at, is_digit, is_hex, is_id_char, is_keyword_char, is_keyword_start, is_space, is_space_start,
  run_of,
}
use meyer.Lexer.Number.{scan_number}
use meyer.Lexer.Literal.{scan_blob, scan_bracket, scan_quote, scan_variable}

-- The tail of `scanIdent` behind a prefix of `n` bytes.
unfoldable pub scan_ident : Bytes → ℕ → Kind × ℕ
scan_ident z n = (Kind.id, n + run_of is_id_char (drop n z))

-- The loop of a "/*" comment at byte `n`, with the byte before it.
unfoldable pub scan_block : Bytes → ℕ → ℕ → ℕ
scan_block [] prev n = n
scan_block (c ∷ z) prev n =
    if prev == b'*' && c == b'/' then n + 1 else if c == 0 then n else scan_block z c (n + 1)

abbrev pub in_line : ℕ → Bool
in_line c = not (c == 0) && not (c == b'\n')

unfoldable pub scan_minus : Bytes → Kind × ℕ
scan_minus z =
    if at z 1 == b'-'
    then (Kind.comment, 2 + run_of in_line (drop 2 z))
    else if at z 1 == b'>'
    then (Kind.ptr, (if at z 2 == b'>' then 3 else 2))
    else (Kind.minus, 1)

unfoldable pub scan_slash : Bytes → Kind × ℕ
scan_slash z =
    if not (at z 1 == b'*') || at z 2 == 0
    then (Kind.slash, 1)
    else (Kind.comment, scan_block (drop 3 z) (at z 2) 3)

unfoldable pub scan_less : Bytes → Kind × ℕ
scan_less z =
    if at z 1 == b'='
    then (Kind.le, 2)
    else if at z 1 == b'>'
    then (Kind.ne, 2)
    else if at z 1 == b'<'
    then (Kind.lshift, 2)
    else (Kind.lt, 1)

unfoldable pub scan_greater : Bytes → Kind × ℕ
scan_greater z =
    if at z 1 == b'='
    then (Kind.ge, 2)
    else if at z 1 == b'>'
    then (Kind.rshift, 2)
    else (Kind.gt, 1)

unfoldable pub scan_x : Bytes → Kind × ℕ
scan_x z = if at z 1 == b'\'' then scan_blob z (2 + run_of is_hex (drop 2 z)) else scan_ident z 1

unfoldable pub scan_bom : Bytes → Kind × ℕ
scan_bom z = if at z 1 == 0xbb && at z 2 == 0xbf then (Kind.space, 3) else scan_ident z 1

unfoldable pub scan_keyword : Bytes → Kind × ℕ
scan_keyword z =
    let n = 2 + run_of is_keyword_char (drop 2 z) in
    if not (is_keyword_char (at z 1))
    then scan_ident z 1
    else if is_id_char (at z n)
    then scan_ident z (n + 1)
    else (lookup (take n z), n)

-- The one-byte tokens of the switch.
unfoldable pub scan_single : ℕ → Kind
scan_single c =
    if c == b'('
    then Kind.lp
    else if c == b')'
    then Kind.rp
    else if c == b';'
    then Kind.semi
    else if c == b'+'
    then Kind.plus
    else if c == b'*'
    then Kind.star
    else if c == b'%'
    then Kind.rem
    else if c == b','
    then Kind.comma
    else if c == b'&'
    then Kind.bitand
    else if c == b'~'
    then Kind.bitnot
    else Kind.illegal

-- `scan` at a token's first byte. On no input the source would read out of range; its caller asks
-- only while there is some.
unfoldable pub scan : Bytes → Kind × ℕ
scan [] = (Kind.eof, 0)
scan (c ∷ r) =
    if c == 0
    then (Kind.eof, 0)
    else if is_space_start c
    then (Kind.space, 1 + run_of is_space r)
    else if c == b'-'
    then scan_minus (c ∷ r)
    else if c == b'/'
    then scan_slash (c ∷ r)
    else if c == b'='
    then (Kind.eq, (if at r 0 == b'=' then 2 else 1))
    else if c == b'<'
    then scan_less (c ∷ r)
    else if c == b'>'
    then scan_greater (c ∷ r)
    else if c == b'!'
    then (if not (at r 0 == b'=') then (Kind.illegal, 1) else (Kind.ne, 2))
    else if c == b'|'
    then (if not (at r 0 == b'|') then (Kind.bitor, 1) else (Kind.concat, 2))
    else if c == b'\'' || c == b'"' || c == b'`'
    then scan_quote c r
    else if c == b'.'
    then (if not (is_digit (at r 0)) then (Kind.dot, 1) else scan_number (c ∷ r))
    else if is_digit c
    then scan_number (c ∷ r)
    else if c == b'['
    then scan_bracket (c ∷ r)
    else if c == b'?'
    then (Kind.variable, 1 + run_of is_digit r)
    else if c == b'$' || c == b'@' || c == b'#' || c == b':'
    then scan_variable r
    else if c == b'x' || c == b'X'
    then scan_x (c ∷ r)
    else if c == 0xef
    then scan_bom (c ∷ r)
    else if is_keyword_start c
    then scan_keyword (c ∷ r)
    else if is_id_char c
    then scan_ident (c ∷ r) 1
    else (scan_single c, 1)
