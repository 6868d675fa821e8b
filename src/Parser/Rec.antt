-- ===== src/Parser/Rec.antt =====
-- parser/parse_expr.go and parser/parse_select.go: the functions through which the productions
-- recurse, and the parts that all productions share.
use meyer.Base.{Bool, List, Option, [], if◌then◌else◌, not, ℕ, ◌==◌, ◌||◌, ◌∷◌, nat_eq}
use meyer.Token.{Kind, kind_eq}
use meyer.Ast.{Ident, Span}
use meyer.Ast.Expr.{
  Expr, ExprOpt, Exprs, JoinOperator, SelectStmt, TableRef, an_expr, expr_cons, expr_span, no_expr,
  no_exprs,
}
use meyer.Parser.State.{Parser, State, at, cur, cur_kind, gets, peek, pure, ◌>>=◌, ◌>>◌}
use meyer.Parser.Look.{expect}
use meyer.Parser.Names.{expect_name}
use meyer.Parser.Combine.{comma_list, on}

-- `parseExpr`, `parseBetweenBound`, `parseSelect` and `parseTableRef`.
pub record Rec : Type 0 where
  pub parse_expr : ℕ → Parser Expr
  pub parse_between_bound : Parser Expr
  pub parse_select : Parser SelectStmt
  pub parse_table_ref : Option JoinOperator → Parser TableRef

-- The operator precedences.
abbrev pub prec_lowest : ℕ
prec_lowest = 0

abbrev pub prec_or : ℕ
prec_or = 1

abbrev pub prec_and : ℕ
prec_and = 2

abbrev pub prec_not : ℕ
prec_not = 3

abbrev pub prec_compare : ℕ
prec_compare = 4

abbrev pub prec_relational : ℕ
prec_relational = 5

abbrev pub prec_bitwise : ℕ
prec_bitwise = 7

abbrev pub prec_add : ℕ
prec_add = 8

abbrev pub prec_mul : ℕ
prec_mul = 9

abbrev pub prec_concat : ℕ
prec_concat = 10

abbrev pub prec_collate : ℕ
prec_collate = 11

abbrev pub prec_unary : ℕ
prec_unary = 12

unfoldable pub pos_of : Expr → ℕ
unfolding expr_span
pos_of x = (expr_span x).start

unfoldable pub end_of : Expr → ℕ
unfolding expr_span
end_of x = (expr_span x).stop

abbrev pub extent : ℕ → ℕ → Span
extent a b = record { start = a; stop = b }

-- `p.cur().Pos`
unfoldable pub cur_pos : State → ℕ
unfolding cur
cur_pos s = (cur s).pos

-- `p.peek(n).Kind`
unfoldable pub peek_kind : ℕ → State → Kind
unfolding peek
peek_kind n s = (peek n s).kind

-- A slice of expressions as the tree holds it.
unfoldable pub expr_list : List Expr → Exprs
expr_list [] = no_exprs
expr_list (x ∷ xs) = expr_cons x (expr_list xs)

-- `atSelect`
unfoldable pub at_select : State → Bool
unfolding cur_kind
at_select s = let k = cur_kind s in k == Kind.select || k == Kind.values || k == Kind.with

-- `parseIDList`
unfoldable pub parse_id_list : Parser (List Ident)
unfolding comma_list expect_name
parse_id_list = comma_list expect_name

-- The parse of one more clause where its keyword stands, `if p.accept(k) { … }`.
unfoldable pub clause : {A : Type 0} → A → Kind → Parser A → Parser A
unfolding on
clause default k m = on k (λ t. m) (pure default)

module _ (r : Rec) where
  -- `parseExprList`
  unfoldable pub parse_expr_list : Parser Exprs
  unfolding comma_list expr_list
  parse_expr_list = do xs ← comma_list (r.parse_expr prec_lowest); pure (expr_list xs)

  -- `if p.accept(k) { … = p.parseExpr(min) }`
  unfoldable pub expr_after : Kind → ℕ → Parser ExprOpt
  unfolding clause
  expr_after k min = clause no_expr k (do x ← r.parse_expr min; pure (an_expr x))

  -- `if p.at(k) { p.advance(); p.expect(token.BY); … }`
  unfoldable pub exprs_by : Kind → Parser Exprs
  unfolding clause expect parse_expr_list
  exprs_by k = clause no_exprs k (do expect Kind.by; parse_expr_list)

  -- The arguments before a closing parenthesis, if there are any.
  unfoldable pub parse_args : Parser Exprs
  unfolding at parse_expr_list
  parse_args = do rp ← gets (at Kind.rp); if not rp then parse_expr_list else pure no_exprs
