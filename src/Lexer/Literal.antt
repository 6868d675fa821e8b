-- ===== src/Lexer/Literal.antt =====
-- lexer/lexer.go: `scanVariable` and the quoted cases of `scan`.
use meyer.Base.{
  Bool, Bytes, [], drop, false, if◌then◌else◌, ltb, not, ℕ, ◌%◌, ◌&&◌, ◌+◌, ◌==◌, ◌||◌, ◌∷◌, nat_eq,
}
use meyer.Token.{Kind, kind_eq}
use meyer.Lexer.Chars.{at, is_id_char, is_space, run_of}

abbrev pub ends_args : ℕ → Bool
ends_args c = c == 0 || is_space c || c == b')'

-- The "(...)" of a TCL variable: `z` is what stands behind the '(', which is byte `n`.
unfoldable pub scan_args : Bytes → ℕ → Kind × ℕ
scan_args z n =
    let m = run_of (λ c. not (ends_args c)) z in
    if at z m == b')' then (Kind.variable, n + m + 2) else (Kind.illegal, n + m + 1)

-- The loop of `scanVariable` at byte `n`, with `nid` identifier characters read. Under the flag
-- the byte is the second ':' of a pair, which the loop steps over.
unfoldable pub scan_name : Bool → Bytes → ℕ → ℕ → Kind × ℕ
scan_name skip [] n nid = ((if nid == 0 then Kind.illegal else Kind.variable), n)
scan_name skip (c ∷ z) n nid =
    let colons = c == b':' && at z 0 == b':' in
    let next =
      scan_name (not skip && not (is_id_char c) && colons) z (n + 1)
        (if not skip && is_id_char c then nid + 1 else nid) in
    if skip
    then next
    else if c == 0
    then ((if nid == 0 then Kind.illegal else Kind.variable), n)
    else if is_id_char c
    then next
    else if c == b'(' && ltb 0 nid
    then scan_args z n
    else if colons
    then next
    else ((if nid == 0 then Kind.illegal else Kind.variable), n)

-- `scanVariable` behind its first byte.
unfoldable pub scan_variable : Bytes → Kind × ℕ
scan_variable r = scan_name false r 1 0

-- The loop of a quoted token at byte `n`: the byte that ended it, or 0, and where. Under the flag
-- the byte is the second of a doubled delimiter, which the loop steps over.
unfoldable pub scan_quoted : ℕ → Bool → Bytes → ℕ → ℕ × ℕ
scan_quoted delim skip [] n = (0, n)
scan_quoted delim skip (c ∷ z) n =
    let doubled = c == delim && at z 0 == delim in
    let next = scan_quoted delim (not skip && doubled) z (n + 1) in
    if skip
    then next
    else if c == 0
    then (0, n)
    else if c == delim && not doubled
    then (c, n)
    else next

abbrev pub quoted_kind : ℕ × ℕ → Kind × ℕ
quoted_kind (last, n) =
    if last == b'\''
    then (Kind.string, n + 1)
    else if not (last == 0)
    then (Kind.id, n + 1)
    else (Kind.illegal, n)

unfoldable pub scan_quote : ℕ → Bytes → Kind × ℕ
scan_quote delim r = quoted_kind (scan_quoted delim false r 1)

abbrev pub in_bracket : ℕ → Bool
in_bracket c = not (c == 0) && not (c == b']')

unfoldable pub scan_bracket : Bytes → Kind × ℕ
scan_bracket z =
    let n = 1 + run_of in_bracket (drop 1 z) in
    if at z n == b']' then (Kind.id, n + 1) else (Kind.illegal, n)

abbrev pub in_blob : ℕ → Bool
in_blob c = not (c == 0) && not (c == b'\'')

-- A blob literal from its 'x' on; `n` is the end of the hex digits.
unfoldable pub scan_blob : Bytes → ℕ → Kind × ℕ
scan_blob z n =
    let bad = not (at z n == b'\'') || not (n % 2 == 0) in
    let m = if bad then n + run_of in_blob (drop n z) else n in
    ((if bad then Kind.illegal else Kind.blob), (if at z m == 0 then m else m + 1))
