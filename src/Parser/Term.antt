-- ===== src/Parser/Term.antt =====
-- parser/parse_expr.go: the productions without a part that is an expression: `parseTerm`,
-- `parseQualifiedRef` and `parseTypeToken`, with the table of the infix operators.
use meyer.Base.{
  Bytes, List, Option, [], drop, if◌then◌else◌, leb, map, none, not, some, take, ℕ, ◌&&◌, ◌++◌, ◌+◌,
  ◌-◌, ◌==◌, ◌||◌, ◌∷◌, nat_eq,
}
use meyer.Token.{Kind, Token, kind_eq}
use meyer.Keywords.{codes, is_ids}
use meyer.Keywords.Find.{bytes_beq}
use meyer.Keywords.Table.{upper}
use meyer.Ast.Expr.{
  Expr, LiteralKind, Operator, TypeName, lit_blob, lit_current_date, lit_current_time,
  lit_current_timestamp, lit_float, lit_integer, lit_null, lit_string, op_add, op_and, op_bit_and,
  op_bit_or, op_concat, op_div, op_eq, op_ge, op_gt, op_le, op_lshift, op_lt, op_mod, op_mul, op_ne,
  op_none, op_or, op_ptr, op_rshift, op_sub, qualified_ref, literal_expr,
}
use meyer.Parser.State.{Parser, gets, pure, ◌>>=◌, ◌>>◌}
use meyer.Parser.Look.{expect, span, span_of, syntax_error}
use meyer.Parser.Names.{dequote, expect_name, has_byte, parse_signed_number, src_text}
use meyer.Parser.Number.{dequote_number}
use meyer.Parser.Combine.{many, on, on_class}
use meyer.Parser.Rec.{
  clause, extent, prec_add, prec_and, prec_bitwise, prec_compare, prec_concat, prec_mul, prec_or,
  prec_relational,
}

pub record InfixOp : Type 0 where
  pub prec : ℕ
  pub op : Operator

abbrev op_at : ℕ → Operator → InfixOp
op_at n o = record { prec = n; op = o }

-- `infix`; no operator has precedence 0.
unfoldable pub infix_op : Kind → InfixOp
infix_op k =
    if k == Kind.or
    then op_at prec_or op_or
    else if k == Kind.and
    then op_at prec_and op_and
    else if k == Kind.eq
    then op_at prec_compare op_eq
    else if k == Kind.ne
    then op_at prec_compare op_ne
    else if k == Kind.lt
    then op_at prec_relational op_lt
    else if k == Kind.le
    then op_at prec_relational op_le
    else if k == Kind.gt
    then op_at prec_relational op_gt
    else if k == Kind.ge
    then op_at prec_relational op_ge
    else if k == Kind.bitand
    then op_at prec_bitwise op_bit_and
    else if k == Kind.bitor
    then op_at prec_bitwise op_bit_or
    else if k == Kind.lshift
    then op_at prec_bitwise op_lshift
    else if k == Kind.rshift
    then op_at prec_bitwise op_rshift
    else if k == Kind.plus
    then op_at prec_add op_add
    else if k == Kind.minus
    then op_at prec_add op_sub
    else if k == Kind.star
    then op_at prec_mul op_mul
    else if k == Kind.slash
    then op_at prec_mul op_div
    else if k == Kind.rem
    then op_at prec_mul op_mod
    else if k == Kind.concat
    then op_at prec_concat op_concat
    else if k == Kind.ptr
    then op_at prec_concat op_ptr
    else op_at 0 op_none

-- `literalOf`
abbrev pub literal_of : Token → LiteralKind → Bytes → Expr
literal_of t k raw = literal_expr (record { span = span_of t; kind = k; value = raw; raw = raw })

unfoldable pub parse_literal : LiteralKind → Token → Parser Expr
parse_literal k t = do raw ← src_text t; pure (literal_of t k raw)

unfoldable pub parse_string_literal : Token → Parser Expr
unfolding span dequote
parse_string_literal t = do
  raw ← src_text t
  pure (
      literal_expr
        (record { span = span_of t; kind = lit_string; value = dequote raw b'\''; raw = raw }))

-- `strings.ToLower` on a byte.
unfoldable pub lower : ℕ → ℕ
lower c = if leb b'A' c && leb c b'Z' then c + 32 else c

-- The kind of a number without its separators.
unfoldable pub number_kind : Bytes → LiteralKind
unfolding has_byte lower
number_kind z =
    if (has_byte b'.' z || has_byte b'e' z || has_byte b'E' z)
      && not (bytes_beq (map lower (take 2 z)) (codes "0x"))
    then lit_float
    else lit_integer

unfoldable pub parse_qnumber : Token → Parser Expr
unfolding dequote_number span number_kind
parse_qnumber t = do
  value ← dequote_number t
  raw ← src_text t
  pure (
      literal_expr
        (record { span = span_of t; kind = number_kind value; value = value; raw = raw }))

-- The switch on the spelling of a CTIME_KW.
unfoldable pub ctime_kind : Bytes → LiteralKind
unfolding upper
ctime_kind raw =
    let z = map upper raw in
    if bytes_beq z (codes "CURRENT_DATE")
    then lit_current_date
    else if bytes_beq z (codes "CURRENT_TIME")
    then lit_current_time
    else lit_current_timestamp

unfoldable pub parse_ctime : Token → Parser Expr
unfolding ctime_kind
parse_ctime t = do raw ← src_text t; pure (literal_of t (ctime_kind raw) raw)

-- `parseTerm`
unfoldable pub parse_term : Parser Expr
unfolding on parse_literal parse_string_literal parse_qnumber parse_ctime syntax_error
parse_term = on Kind.null (parse_literal lit_null) (
    on Kind.integer (parse_literal lit_integer) (
      on Kind.float (parse_literal lit_float) (
        on Kind.blob (parse_literal lit_blob) (
          on Kind.string parse_string_literal
            (on Kind.qnumber parse_qnumber (on Kind.ctime_kw parse_ctime syntax_error))))))

-- `parseQualifiedRef`
unfoldable pub parse_qualified_ref : Parser Expr
unfolding expect_name expect on
parse_qualified_ref = do
  a ← expect_name
  expect Kind.dot
  b ← expect_name
  on Kind.dot
      (λ t. do
        c ← expect_name
        pure (qualified_ref (extent a.span.start c.span.stop) (a ∷ b ∷ c ∷ [])))
      (pure (qualified_ref (extent a.span.start b.span.stop) (a ∷ b ∷ [])))

-- `strings.Join(words, " ")`
unfoldable pub join_words : Bytes → List Bytes → Bytes
join_words z [] = z
join_words z (w ∷ ws) = z ++ 32 ∷ join_words w ws

-- The size of a type.
unfoldable pub parse_type_args : Parser (List Bytes)
unfolding clause parse_signed_number expect
parse_type_args = clause [] Kind.lp (do
  a ← parse_signed_number
  args ← clause (a ∷ []) Kind.comma (do b ← parse_signed_number; pure (a ∷ b ∷ []))
  expect Kind.rp
  pure args)

-- `parseTypeToken` behind its first word.
unfoldable pub parse_type_name : Token → Parser (Option TypeName)
unfolding many is_ids parse_type_args span join_words
parse_type_name t = do
  z ← src_text t
  more ← many is_ids src_text
  args ← parse_type_args
  sp ← gets (span t.pos)
  raw ← gets (λ s. take (sp.stop - sp.start) (drop sp.start s.src))
  pure (some (record { span = sp; name = join_words z more; args = args; raw = raw }))

-- `parseTypeToken`
unfoldable pub parse_type_token : Parser (Option TypeName)
unfolding on_class is_ids parse_type_name
parse_type_token = on_class is_ids parse_type_name (pure none)
