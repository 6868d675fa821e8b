-- ===== src/Parser/Primary.antt =====
-- parser/parse_expr.go: `parsePrimary` and the productions it picks.
use meyer.Base.{
  Bool, Bytes, List, [], false, if◌then◌else◌, map, none, not, some, true, ℕ, ◌&&◌, ◌==◌, ◌||◌, ◌∷◌,
  nat_eq,
}
use meyer.Token.{Kind, Token, kind_eq}
use meyer.Keywords.{codes, is_idj}
use meyer.Keywords.Table.{upper}
use meyer.Ast.Expr.{
  CaseWhen, Distinct, Expr, ExprOpt, Exprs, OrderingTerms, Whens, WindowOpt, a_window, an_expr,
  bind_param_expr, case_expr, case_when, cast_expr, distinct_all, distinct_distinct, distinct_none,
  exclude_none, exists_expr, frame_none, func_call, ident_expr, no_bound, no_expr, no_exprs,
  no_terms, no_whens, no_window, paren_expr, raise_expr, subquery_expr, vector_expr, when_cons,
  window_def,
}
use meyer.Parser.State.{Parser, at, cur_kind, gets, pure, ◌>>=◌, ◌>>◌}
use meyer.Parser.Look.{expect, prev_end, span, syntax_error}
use meyer.Parser.Names.{expect_name, ident_of, src_text}
use meyer.Parser.Bind.{bind_param}
use meyer.Parser.Combine.{expect_class, many, on, on_class}
use meyer.Parser.Rec.{
  Rec, at_select, clause, expr_after, expr_list, extent, parse_expr_list, peek_kind, prec_lowest,
}
use meyer.Parser.Term.{parse_qualified_ref, parse_term, parse_type_token}
use meyer.Parser.Window.{parse_order_by, parse_window}
use meyer.Keywords.Find.{distinct}

unfoldable pub when_list : List CaseWhen → Whens
when_list [] = no_whens
when_list (x ∷ xs) = when_cons x (when_list xs)

-- `distinct ::= DISTINCT. / ALL. / .`
unfoldable pub parse_distinct : Parser Distinct
unfolding on
parse_distinct =
    on Kind.distinct (λ t. pure distinct_distinct)
      (on Kind.all (λ t. pure distinct_all) (pure distinct_none))

abbrev is_distinct : Distinct → Bool
is_distinct distinct_distinct = true
is_distinct _ = false

abbrev is_all : Distinct → Bool
is_all distinct_all = true
is_all _ = false

-- What stands in the parentheses of a function call.
pub record CallBody : Type 0 where
  pub distinct : Distinct
  pub star : Bool
  pub args : Exprs
  pub order_by : OrderingTerms

-- What follows them.
pub record FilterOver : Type 0 where
  pub filter : ExprOpt
  pub over : WindowOpt

abbrev is_term : Kind → Bool
is_term k =
    k == Kind.null
    || k == Kind.integer
    || k == Kind.float
    || k == Kind.blob
    || k == Kind.qnumber
    || k == Kind.ctime_kw

abbrev is_raise_type : Kind → Bool
is_raise_type k = k == Kind.rollback || k == Kind.abort || k == Kind.fail

-- The check on the pairs of `parseCase`.
unfoldable pub some_whens : List CaseWhen → Parser Whens
unfolding syntax_error when_list
some_whens [] = syntax_error
some_whens (x ∷ xs) = pure (when_list (x ∷ xs))

module _ (r : Rec) where
  -- CAST behind its keyword.
  unfoldable pub parse_cast : Token → Parser Expr
  unfolding expect parse_type_token span
  parse_cast t = do
    expect Kind.lp
    x ← r.parse_expr prec_lowest
    expect Kind.as_kw
    ty ← parse_type_token
    expect Kind.rp
    sp ← gets (span t.pos)
    pure (cast_expr sp x ty)

  -- EXISTS behind its keyword.
  unfoldable pub parse_exists : Token → Parser Expr
  unfolding expect span
  parse_exists t = do
    expect Kind.lp
    sel ← r.parse_select
    expect Kind.rp
    sp ← gets (span t.pos)
    pure (exists_expr sp sel)

  -- The body of `parseParenExpr` that is a query.
  unfoldable pub parse_subquery : ℕ → Parser Expr
  unfolding expect span
  parse_subquery start = do
    sel ← r.parse_select
    expect Kind.rp
    sp ← gets (span start)
    pure (subquery_expr sp sel)

  -- The elements of a row value behind the first.
  unfoldable pub parse_vector : ℕ → Expr → Parser Expr
  unfolding many expect span expr_list
  parse_vector start first = do
    rest ← many (λ k. k == Kind.comma) (λ t. r.parse_expr prec_lowest)
    expect Kind.rp
    sp ← gets (span start)
    pure (vector_expr sp (expr_list (first ∷ rest)))

  -- The body of `parseParenExpr` that starts with an expression.
  unfoldable pub parse_paren : ℕ → Parser Expr
  unfolding at expect span parse_vector
  parse_paren start = do
    first ← r.parse_expr prec_lowest
    comma ← gets (at Kind.comma)
    if not comma
        then (do expect Kind.rp; sp ← gets (span start); pure (paren_expr sp first))
        else parse_vector start first

  -- `parseParenExpr`
  unfoldable pub parse_paren_expr : Parser Expr
  unfolding expect at_select parse_subquery parse_paren
  parse_paren_expr = do
    t ← expect Kind.lp
    sel ← gets at_select
    if sel then parse_subquery t.pos else parse_paren t.pos

  -- A WHEN/THEN pair behind its WHEN.
  unfoldable pub parse_case_when : Token → Parser CaseWhen
  unfolding expect span
  parse_case_when t = do
    x ← r.parse_expr prec_lowest
    expect Kind.then_kw
    y ← r.parse_expr prec_lowest
    sp ← gets (span t.pos)
    pure (case_when sp x y)

  -- `case_operand`
  unfoldable pub parse_case_operand : Parser ExprOpt
  unfolding at
  parse_case_operand = do
    here ← gets (at Kind.when)
    if not here then (do x ← r.parse_expr prec_lowest; pure (an_expr x)) else pure no_expr

  -- `parseCase`
  unfoldable pub parse_case : Parser Expr
  unfolding expect parse_case_operand many parse_case_when some_whens expr_after span
  parse_case = do
    t ← expect Kind.case
    operand ← parse_case_operand
    pairs ← many (λ k. k == Kind.when) parse_case_when
    checked ← some_whens pairs
    otherwise ← expr_after r Kind.else_kw prec_lowest
    expect Kind.end
    sp ← gets (span t.pos)
    pure (case_expr sp operand checked otherwise)

  -- The action of `parseRaise` with its message.
  unfoldable pub parse_raise_action : Parser (Bytes × ExprOpt)
  unfolding on on_class expect upper syntax_error
  parse_raise_action =
      on Kind.ignore (λ t. pure (codes "IGNORE", no_expr))
        (on_class is_raise_type
          (λ t. do
            raw ← src_text t
            expect Kind.comma
            x ← r.parse_expr prec_lowest
            pure (map upper raw, an_expr x))
          syntax_error)

  -- `parseRaise`
  unfoldable pub parse_raise : Parser Expr
  unfolding expect parse_raise_action span
  parse_raise = do
    t ← expect Kind.raise
    expect Kind.lp
    action ← parse_raise_action
    expect Kind.rp
    sp ← gets (span t.pos)
    pure (raise_expr sp action.0 action.1)

  -- The arguments of a function call.
  unfoldable pub parse_call_args : Parser Exprs
  unfolding at parse_expr_list
  parse_call_args = do
    rp ← gets (at Kind.rp)
    order ← gets (at Kind.order)
    if not rp && not order then parse_expr_list r else pure no_exprs

  unfoldable pub parse_call_body : Parser CallBody
  unfolding on distinct parse_distinct parse_call_args parse_order_by
  parse_call_body =
      on Kind.star
        (λ t.
          pure (record {
            distinct = distinct_none;
            star = true;
            args = no_exprs;
            order_by = no_terms;
          }))
        (do
          d ← parse_distinct
          args ← parse_call_args
          order ← parse_order_by r
          pure (record { distinct = d; star = false; args = args; order_by = order }))

  -- `filter_clause`
  unfoldable pub parse_filter : Parser ExprOpt
  unfolding clause expect
  parse_filter = clause no_expr Kind.filter (do
    expect Kind.lp
    expect Kind.where_kw
    x ← r.parse_expr prec_lowest
    expect Kind.rp
    pure (an_expr x))

  -- An inherited window, by its name.
  unfoldable pub parse_over_name : ℕ → Parser WindowOpt
  unfolding expect_name span
  parse_over_name start = do
    base ← expect_name
    sp ← gets (span start)
    pure (
        a_window (
          window_def sp none (some base) true no_exprs no_terms frame_none no_bound no_bound
            exclude_none))

  -- `over_clause` behind its keyword.
  unfoldable pub parse_over : Token → Parser WindowOpt
  unfolding on parse_window expect span parse_over_name
  parse_over t =
      on Kind.lp
        (λ p. do
          w ← parse_window r
          expect Kind.rp
          sp ← gets (span t.pos)
          pure (a_window (w none sp)))
        (parse_over_name t.pos)

  -- `parseFilterOver`
  unfoldable pub parse_filter_over : Parser FilterOver
  unfolding parse_filter on parse_over
  parse_filter_over = do
    filter ← parse_filter
    over ← on Kind.over parse_over (pure no_window)
    pure (record { filter = filter; over = over })

  -- `parseFuncCall` behind the name.
  unfoldable pub parse_func_call : Token → Parser Expr
  unfolding ident_of expect parse_call_body parse_filter_over prev_end
  parse_func_call t = do
    name ← gets (λ s. ident_of t s.src)
    expect Kind.lp
    b ← parse_call_body
    expect Kind.rp
    f ← parse_filter_over
    end ← gets prev_end
    pure (
        func_call (extent name.span.start end) name (is_distinct b.distinct) (is_all b.distinct)
          b.star b.args b.order_by f.filter f.over)

  -- The end of `parsePrimary`; `next` is the kind behind the lookahead.
  unfoldable pub parse_named : Kind → Parser Expr
  unfolding cur_kind is_idj parse_qualified_ref expect_class parse_func_call ident_of
  parse_named next = do
    k ← gets cur_kind
    if is_idj k && next == Kind.dot then parse_qualified_ref else (do
      t ← expect_class is_idj
      if next == Kind.lp
          then parse_func_call t
          else (do n ← gets (λ s. ident_of t s.src); pure (ident_expr n)))

  -- `parsePrimary`
  unfoldable pub parse_primary : Parser Expr
  unfolding cur_kind peek_kind parse_paren_expr parse_term parse_qualified_ref parse_case
      parse_raise on bind_param parse_cast parse_exists parse_named
  parse_primary = do
    k ← gets cur_kind
    next ← gets (peek_kind 1)
    if k == Kind.lp
        then parse_paren_expr
        else if is_term k
        then parse_term
        else if k == Kind.string
        then (if next == Kind.dot then parse_qualified_ref else parse_term)
        else if k == Kind.case
        then parse_case
        else if k == Kind.raise
        then parse_raise
        else on Kind.variable (λ t. do b ← bind_param t; pure (bind_param_expr b))
            (on Kind.cast parse_cast (on Kind.exists parse_exists (parse_named next)))
