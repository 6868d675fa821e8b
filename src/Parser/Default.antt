-- ===== src/Parser/Default.antt =====
-- parser/parse_ddl.go: the value of a DEFAULT.
use meyer.Base.{Bool, if◌then◌else◌, ◌==◌, ◌||◌, nat_eq}
use meyer.Token.{Kind, Token, kind_eq}
use meyer.Ast.Expr.{Expr, ident_expr, paren_expr, unary_expr}
use meyer.Parser.State.{Parser, cur_kind, gets, pure, ◌>>=◌, ◌>>◌}
use meyer.Parser.Look.{expect, span}
use meyer.Parser.Names.{ident_of}
use meyer.Parser.Combine.{expect_class, on, on_class}
use meyer.Parser.Rec.{Rec, prec_lowest}
use meyer.Parser.Term.{parse_term}
use meyer.Parser.Operators.{sign_of}
use meyer.Keywords.{is_id}

-- `atTerm`
unfoldable pub at_term : Kind → Bool
at_term k =
    k == Kind.null
    || k == Kind.float
    || k == Kind.blob
    || k == Kind.string
    || k == Kind.integer
    || k == Kind.qnumber
    || k == Kind.ctime_kw

-- The literal or the name of `parseDefaultValue`.
unfoldable pub parse_default_term : Parser Expr
unfolding cur_kind at_term parse_term expect_class is_id ident_of
parse_default_term = do
  k ← gets cur_kind
  if at_term k
      then parse_term
      else (do t ← expect_class is_id; n ← gets (λ s. ident_of t s.src); pure (ident_expr n))

-- The case of `parseDefaultValue` with a sign, behind it.
unfoldable pub parse_default_signed : Token → Parser Expr
unfolding parse_term span
parse_default_signed t = do
  x ← parse_term
  sp ← gets (span t.pos)
  pure (unary_expr sp (sign_of t.kind) x)

module _ (r : Rec) where
  -- An expression in parentheses.
  unfoldable pub paren_expr_of : Parser Expr
  unfolding expect
  paren_expr_of = do expect Kind.lp; x ← r.parse_expr prec_lowest; expect Kind.rp; pure x

  -- Its case in parentheses, behind the first.
  unfoldable pub parse_default_paren : Token → Parser Expr
  unfolding expect span
  parse_default_paren t = do
    x ← r.parse_expr prec_lowest
    expect Kind.rp
    sp ← gets (span t.pos)
    pure (paren_expr sp x)

  -- `parseDefaultValue`
  unfoldable pub parse_default_value : Parser Expr
  unfolding on parse_default_paren on_class parse_default_signed parse_default_term
  parse_default_value =
      on Kind.lp parse_default_paren
        (on_class (λ k. k == Kind.plus || k == Kind.minus) parse_default_signed parse_default_term)
