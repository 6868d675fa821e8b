-- ===== src/Parser/Names.antt =====
-- parser/parser.go: the name productions, with `dequote`; and `parseSignedNumber` of
-- parser/parse_expr.go.
use meyer.Base.{
  Bool, Bytes, Option, [], drop, false, get_or, if◌then◌else◌, leb, length, none, not, some, take,
  ℕ, ◌&&◌, ◌++◌, ◌-◌, ◌==◌, ◌||◌, ◌∷◌, nat_eq,
}
use meyer.Token.{Kind, Token, text, kind_eq}
use meyer.Keywords.{is_ids, is_name}
use meyer.Ast.{
  Ident, QualifiedName, QuoteStyle, quote_back, quote_double, quote_none, quote_single,
  quote_square,
}
use meyer.Parser.State.{Parser, at, cur_kind, gets, pure, ◌>>=◌, ◌>>◌}
use meyer.Parser.Look.{accept, advance, span_of, syntax_error}

-- The body without a delimiter at its end.
unfoldable pub trim_last : ℕ → Bytes → Bytes
trim_last d [] = []
trim_last d (c ∷ []) = if c == d then [] else c ∷ []
trim_last d (c ∷ b ∷ z) = c ∷ trim_last d (b ∷ z)

-- `strings.IndexByte(body, delim) >= 0`
unfoldable pub has_byte : ℕ → Bytes → Bool
has_byte d [] = false
has_byte d (c ∷ z) = c == d || has_byte d z

-- `strings.ReplaceAll(body, d+d, d)`; the flag says that the byte before is a delimiter not paired
-- yet.
unfoldable pub collapse : ℕ → Bool → Bytes → Bytes
collapse d held [] = if held then d ∷ [] else []
collapse d held (c ∷ z) =
    let rest = collapse d (c == d && not held) z in
    if held
    then (if c == d then d ∷ rest else d ∷ c ∷ rest)
    else (if c == d then rest else c ∷ rest)

-- `dequote`
unfoldable pub dequote : Bytes → ℕ → Bytes
unfolding trim_last has_byte collapse
dequote s delim =
    let body = trim_last delim (drop 1 s) in
    if not (has_byte delim body) then body else collapse delim false body

unfoldable pub style_of : ℕ → QuoteStyle
style_of c =
    if c == b'"'
    then quote_double
    else if c == b'\''
    then quote_single
    else if c == b'`'
    then quote_back
    else if c == b'['
    then quote_square
    else quote_none

-- The switch of `identOf` on the first byte.
unfoldable pub name_of : Bytes → Bytes
unfolding dequote
name_of raw =
    let c = get_or raw 0 0 in
    if c == b'"' || c == b'\'' || c == b'`'
    then dequote raw c
    else if c == b'['
    then take (length raw - 2) (drop 1 raw)
    else raw

-- `identOf`
unfoldable pub ident_of : Token → Bytes → Ident
unfolding name_of style_of
ident_of t src =
    let raw = text t src in
    if leb 2 (length raw)
    then record {
      span = span_of t;
      name = name_of raw;
      raw = raw;
      quote = style_of (get_or raw 0 0);
    }
    else record { span = span_of t; name = raw; raw = raw; quote = quote_none }

abbrev pub src_text : Token → Parser Bytes
src_text t = gets (λ s. text t s.src)

-- `p.identOf(p.advance())`
unfoldable pub take_ident : Parser Ident
unfolding advance ident_of
take_ident = do t ← advance; gets (λ s. ident_of t s.src)

-- `expectName`
unfoldable pub expect_name : Parser Ident
unfolding cur_kind syntax_error take_ident
expect_name = do k ← gets cur_kind; if not (is_name k) then syntax_error else take_ident

-- `expectIDS`
unfoldable pub expect_ids : Parser Ident
unfolding cur_kind syntax_error take_ident
expect_ids = do k ← gets cur_kind; if not (is_ids k) then syntax_error else take_ident

-- `qualifiedName`
unfoldable pub qualified_name : Parser QualifiedName
unfolding expect_name at advance
qualified_name = do
  first ← expect_name
  dot ← gets (at Kind.dot)
  if dot
      then (do
        advance
        second ← expect_name
        pure (record {
          span = record { start = first.span.start; stop = second.span.stop };
          schema = some first;
          name = second;
        }))
      else pure (record { span = first.span; schema = none; name = first })

-- `xfullname`
unfoldable pub xfullname : Parser (QualifiedName × Option Ident)
unfolding qualified_name accept expect_name
xfullname = do
  name ← qualified_name
  aliased ← accept Kind.as_kw
  if aliased then (do alias ← expect_name; pure (name, some alias)) else pure (name, none)

-- The optional sign of `parseSignedNumber`.
unfoldable pub parse_sign : Parser Bytes
unfolding cur_kind advance
parse_sign = do
  k ← gets cur_kind
  if k == Kind.plus || k == Kind.minus then (advance >>= src_text) else pure []

-- `parseSignedNumber`
unfoldable pub parse_signed_number : Parser Bytes
unfolding parse_sign cur_kind syntax_error advance
parse_signed_number = do
  sign ← parse_sign
  k ← gets cur_kind
  if not (k == Kind.integer) && not (k == Kind.float)
      then syntax_error
      else (do z ← advance >>= src_text; pure (sign ++ z))
