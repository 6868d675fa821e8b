-- ===== src/Parser/Operators.antt =====
-- parser/parse_expr.go: the prefix operators, the climbing loop and the operators with a syntax of
-- their own. Functions that follow an operator take its token, which is consumed.
use meyer.Base.{
  Bool, Bytes, false, if◌then◌else◌, ltb, none, some, suc, true, zero, ℕ, ◌&&◌, ◌+◌, ◌==◌, ◌||◌,
  nat_eq,
}
use meyer.Token.{Kind, Token, text, kind_eq}
use meyer.Keywords.{codes}
use meyer.Keywords.Find.{bytes_beq, distinct}
use meyer.Ast.Expr.{
  Expr, Exprs, NullTest, Operator, SelectOpt, a_select, between_expr, binary_expr, collate_expr,
  in_expr, is_expr, like_expr, no_exprs, no_select, null_check_expr, op_bit_not, op_minus, op_not,
  op_plus, op_ptr2, test_is_null, test_not_null, test_not_null_words, unary_expr,
}
use meyer.Parser.State.{Parser, gets, out_of_fuel, pure, ◌>>=◌, ◌>>◌}
use meyer.Parser.Look.{accept, expect, nested, prev_end, syntax_error}
use meyer.Parser.Names.{expect_ids, ident_of, qualified_name}
use meyer.Parser.Combine.{on, on_class, on_operator, remaining}
use meyer.Parser.Rec.{
  Rec, at_select, clause, end_of, expr_after, extent, parse_args, peek_kind, pos_of, prec_collate,
  prec_compare, prec_not, prec_or, prec_unary,
}
use meyer.Parser.Term.{infix_op}
use meyer.Parser.Primary.{parse_primary}

-- The operator of an infix token; "->" and "->>" share a kind.
unfoldable pub operator_of : Token → Bytes → Operator
unfolding infix_op
operator_of t raw =
    if t.kind == Kind.ptr && bytes_beq raw (codes "->>") then op_ptr2 else (infix_op t.kind).op

unfoldable pub is_infix : Kind → Bool
unfolding infix_op
is_infix k = ltb 0 (infix_op k).prec

-- The guard of the climbing loop on an infix operator.
unfoldable pub ends_infix : ℕ → Bool → Kind → Bool
unfolding infix_op
ends_infix min stop_at_and k = ltb (infix_op k).prec min || (k == Kind.and && stop_at_and)

abbrev pub null_test_of : Kind → NullTest
null_test_of k = if k == Kind.notnull then test_not_null else test_is_null

abbrev pub sign_of : Kind → Operator
sign_of k = if k == Kind.minus then op_minus else op_plus

-- The precedence of an operator that starts with NOT, by the kind behind it.
unfoldable pub not_prec : Kind → ℕ
not_prec next = if next == Kind.null then prec_not else prec_compare

-- The case COLLATE of `parseOperators`.
unfoldable pub parse_collate : Expr → Parser Expr
unfolding expect_ids pos_of
parse_collate x = do
  name ← expect_ids
  pure (collate_expr (extent (pos_of x) name.span.stop) x name)

-- A null test whose words are consumed.
unfoldable pub null_check : NullTest → Expr → Parser Expr
unfolding prev_end pos_of
null_check test x = do end ← gets prev_end; pure (null_check_expr (extent (pos_of x) end) test x)

module _ (r : Rec) where
  -- A prefix operator whose operand has precedence `min` or above.
  unfoldable pub parse_unary : Operator → ℕ → Token → Parser Expr
  unfolding end_of
  parse_unary op min t = do x ← r.parse_expr min; pure (unary_expr (extent t.pos (end_of x)) op x)

  -- `parsePrefix`
  unfoldable pub parse_prefix : Parser Expr
  unfolding on parse_unary on_class parse_primary
  parse_prefix = on Kind.not (parse_unary op_not (prec_not + 1)) (
      on Kind.bitnot (parse_unary op_bit_not (prec_unary + 1)) (
        on_class (λ k. k == Kind.plus || k == Kind.minus)
          (λ t. parse_unary (sign_of t.kind) (prec_unary + 1) t) (parse_primary r)))

  -- `binary`
  unfoldable pub parse_binary : Expr → Token → Parser Expr
  unfolding operator_of infix_op pos_of end_of
  parse_binary x t = do
    op ← gets (λ s. operator_of t (text t s.src))
    y ← r.parse_expr ((infix_op t.kind).prec + 1)
    pure (binary_expr (extent (pos_of x) (end_of y)) op x y)

  -- `parseIs`
  unfoldable pub parse_is : Expr → Token → Parser Expr
  unfolding accept distinct clause expect pos_of end_of
  parse_is x t = do
    negated ← accept Kind.not
    distinct ← clause false Kind.distinct (do expect Kind.from; pure true)
    y ← r.parse_expr (prec_compare + 1)
    pure (is_expr (extent (pos_of x) (end_of y)) negated distinct x y)

  -- `parseLike`
  unfoldable pub parse_like : Bool → Expr → Token → Parser Expr
  unfolding ident_of expr_after prev_end pos_of
  parse_like negated x t = do
    op ← gets (λ s. ident_of t s.src)
    y ← r.parse_expr (prec_compare + 1)
    escape ← expr_after r Kind.escape (prec_compare + 1)
    end ← gets prev_end
    pure (like_expr (extent (pos_of x) end) op negated x y escape)

  -- `parseBetween`
  unfoldable pub parse_between : Bool → Expr → Token → Parser Expr
  unfolding expect pos_of end_of
  parse_between negated x t = do
    lo ← r.parse_between_bound
    expect Kind.and
    hi ← r.parse_expr (prec_compare + 1)
    pure (between_expr (extent (pos_of x) (end_of hi)) negated x lo hi)

  -- What stands in the parentheses of an IN.
  unfoldable pub parse_in_body : Parser (Exprs × SelectOpt)
  unfolding at_select parse_args
  parse_in_body = do
    sel ← gets at_select
    if sel
        then (do q ← r.parse_select; pure (no_exprs, a_select q))
        else (do list ← parse_args r; pure (list, no_select))

  -- The right-hand side of an IN in parentheses.
  unfoldable pub parse_in_list : Bool → Expr → Parser Expr
  unfolding parse_in_body expect prev_end pos_of
  parse_in_list negated x = do
    b ← parse_in_body
    expect Kind.rp
    end ← gets prev_end
    pure (in_expr (extent (pos_of x) end) negated x true b.0 b.1 none no_exprs false)

  -- `paren_exprlist`, and whether it is written.
  unfoldable pub parse_paren_args : Parser (Exprs × Bool)
  unfolding clause parse_args expect
  parse_paren_args =
      clause (no_exprs, false) Kind.lp (do args ← parse_args r; expect Kind.rp; pure (args, true))

  -- The right-hand side of an IN that is a table.
  unfoldable pub parse_in_table : Bool → Expr → Parser Expr
  unfolding qualified_name parse_paren_args prev_end pos_of
  parse_in_table negated x = do
    table ← qualified_name
    args ← parse_paren_args
    end ← gets prev_end
    pure (
        in_expr (extent (pos_of x) end) negated x false no_exprs no_select (some table) args.0
          args.1)

  -- `parseIn`
  unfoldable pub parse_in : Bool → Expr → Token → Parser Expr
  unfolding on parse_in_list parse_in_table
  parse_in negated x t = on Kind.lp (λ p. parse_in_list negated x) (parse_in_table negated x)

  -- The operators that start with NOT.
  unfoldable pub parse_negated : Expr → Parser Expr
  unfolding on null_check on_class parse_like parse_between parse_in syntax_error
  parse_negated x =
      on Kind.null (λ t. null_check test_not_null_words x)
        (on_class (λ k. k == Kind.like_kw || k == Kind.match) (parse_like true x)
          (on Kind.between (parse_between true x) (on Kind.in_kw (parse_in true x) syntax_error)))

  -- One round of `parseOperators`: `continue_with` is the next.
  unfoldable pub operator_step : ℕ → Bool → Expr → (Expr → Parser Expr) → Parser Expr
  unfolding on_operator peek_kind is_infix ends_infix parse_binary parse_collate null_check parse_is
      parse_like parse_between parse_in not_prec parse_negated
  operator_step min stop_at_and x continue_with =
      let below : ℕ → Kind → Bool = λ prec k. ltb prec min in
      let case_of : (Kind → Bool)
          → (Kind → Bool)
          → (Token → Parser Expr)
          → Parser Expr
          → Parser Expr =
        λ p ends f. on_operator p ends (pure x) (λ t. f t >>= continue_with) in
      do
        next ← gets (peek_kind 1)
        case_of is_infix (ends_infix min stop_at_and) (parse_binary x) (
            case_of (λ k. k == Kind.collate) (below prec_collate) (λ t. parse_collate x)
              (case_of (λ k. k == Kind.isnull || k == Kind.notnull) (below prec_compare)
                (λ t. null_check (null_test_of t.kind) x)
                (case_of (λ k. k == Kind.is) (below prec_compare) (parse_is x)
                  (case_of (λ k. k == Kind.like_kw || k == Kind.match) (below prec_compare)
                    (parse_like false x)
                    (case_of (λ k. k == Kind.between) (below prec_compare) (parse_between false x)
                      (case_of (λ k. k == Kind.in_kw) (below prec_compare) (parse_in false x)
                        (case_of (λ k. k == Kind.not) (below (not_prec next)) (λ t. parse_negated x)
                          (pure x))))))))

  -- The loop of `parseOperators`, with fuel for the tokens that are left.
  unfoldable pub operators : ℕ → ℕ → Bool → Expr → Parser Expr
  unfolding operator_step
  operators zero min stop_at_and x = λ s. out_of_fuel
  operators (suc fuel) min stop_at_and x =
      operator_step min stop_at_and x (operators fuel min stop_at_and)

  -- `parseOperators`
  unfoldable pub parse_operators : ℕ → Bool → Expr → Parser Expr
  unfolding operators
  parse_operators min stop_at_and x s = operators (remaining s) min stop_at_and x s

  -- The body of `parseExpr`.
  unfoldable pub expr_body : ℕ → Parser Expr
  unfolding nested parse_prefix parse_operators
  expr_body min = nested (parse_prefix >>= parse_operators min false)

  -- The body of `parseBetweenBound`.
  unfoldable pub between_bound_body : Parser Expr
  unfolding nested parse_prefix parse_operators
  between_bound_body = nested (parse_prefix >>= parse_operators prec_or true)
