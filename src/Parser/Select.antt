-- ===== src/Parser/Select.antt =====
-- parser/parse_select.go: queries, with their result columns, LIMIT and WITH.
use meyer.Base.{
  Bool, List, Option, [], all, false, if◌then◌else◌, map, none, some, true, ℕ, ◌&&◌, ◌==◌, ◌||◌,
  ◌∷◌, nat_eq,
}
use meyer.Token.{Kind, Token, kind_eq}
use meyer.Keywords.{codes, is_name}
use meyer.Keywords.Table.{upper}
use meyer.Ast.{Ident, Span}
use meyer.Ast.Ddl.{IndexedColumn}
use meyer.Ast.Expr.{
  CompoundOp, Cores, Cte, Ctes, Expr, ExprOpt, Exprs, LimitOpt, Materialized, ResultColumn,
  ResultColumns, Rows, SelectCore, SelectStmt, With, WithOpt, a_limit, a_with, an_expr, column_cons,
  core_cons, cte, cte_cons, limit_clause, materialized_any, materialized_no, materialized_yes,
  no_columns, no_cores, no_ctes, no_expr, no_limit, no_refs, no_rows, no_windows, no_with,
  result_column, row_cons, select_query, select_stmt, star_expr, values_clause, with_clause,
}
use meyer.Parser.State.{Parser, State, at, cur_kind, gets, pure, ◌>>=◌, ◌>>◌}
use meyer.Parser.Look.{span, accept, advance, expect, nested, span_of}
use meyer.Parser.Names.{expect_ids, expect_name, src_text}
use meyer.Parser.Combine.{comma_list, many, on}
use meyer.Parser.Rec.{
  Rec, clause, cur_pos, expr_after, exprs_by, parse_expr_list, peek_kind, prec_lowest,
}
use meyer.Parser.Window.{parse_order_by, parse_sort_order, parse_window_defn_list}
use meyer.Parser.Primary.{parse_distinct}
use meyer.Parser.From.{parse_alias, parse_from_list}

unfoldable pub column_list : List ResultColumn → ResultColumns
column_list [] = no_columns
column_list (x ∷ xs) = column_cons x (column_list xs)

unfoldable pub row_list : List Exprs → Rows
row_list [] = no_rows
row_list (x ∷ xs) = row_cons x (row_list xs)

unfoldable pub cte_list : List Cte → Ctes
cte_list [] = no_ctes
cte_list (x ∷ xs) = cte_cons x (cte_list xs)

-- The cores and the operators of a compound, from the first core and what follows it.
unfoldable pub core_list : List (CompoundOp × SelectCore) → Cores
core_list [] = no_cores
core_list ((op, core) ∷ rest) = core_cons core (core_list rest)

unfoldable pub op_list : List (CompoundOp × SelectCore) → List CompoundOp
op_list [] = []
op_list ((op, core) ∷ rest) = op ∷ op_list rest

-- One entry of `parseIndexedColumnList`.
unfoldable pub parse_indexed_column : Parser IndexedColumn
unfolding cur_pos expect_name clause expect_ids parse_sort_order span
parse_indexed_column = do
  start ← gets cur_pos
  name ← expect_name
  collation ← clause none Kind.collate (do n ← expect_ids; pure (some n))
  order ← parse_sort_order
  sp ← gets (span start)
  pure (record { span = sp; name = name; collation = collation; order = order })

-- `parseIndexedColumnList`
unfoldable pub parse_indexed_column_list : Parser (List IndexedColumn)
unfolding comma_list parse_indexed_column
parse_indexed_column_list = comma_list parse_indexed_column

-- The names of a CTE's columns.
unfoldable pub parse_cte_columns : Parser (List Ident)
unfolding clause parse_indexed_column_list expect
parse_cte_columns = clause [] Kind.lp (do
  cs ← parse_indexed_column_list
  expect Kind.rp
  pure (map (λ (c : IndexedColumn). c.name) cs))

-- `wqas`
unfoldable pub parse_materialized : Parser Materialized
unfolding on expect
parse_materialized =
    on Kind.materialized (λ t. pure materialized_yes)
      (on Kind.not (λ t. do expect Kind.materialized; pure materialized_no) (pure materialized_any))

abbrev pub is_compound : Kind → Bool
is_compound k = k == Kind.union || k == Kind.except || k == Kind.intersect

-- `multiselect_op` behind its keyword.
unfoldable pub parse_compound_op : Token → Parser CompoundOp
unfolding accept span upper
parse_compound_op t = do
  z ← src_text t
  all ← if t.kind == Kind.union then accept Kind.all else pure false
  sp ← gets (span t.pos)
  pure (record {
    span = sp;
    op = if t.kind == Kind.union then codes "UNION" else map upper z;
    all = all;
  })

-- The lookahead of "tbl.*".
unfoldable pub at_table_star : State → Bool
unfolding is_name cur_kind peek_kind
at_table_star s = is_name (cur_kind s) && peek_kind 1 s == Kind.dot && peek_kind 2 s == Kind.star

-- The case "tbl.*" of `parseResultColumns`.
unfoldable pub parse_table_star : ℕ → Parser Expr
unfolding expect_name advance span
parse_table_star start = do
  tbl ← expect_name
  advance
  advance
  sp ← gets (span start)
  pure (star_expr sp (some tbl))

-- A result column without its span: the expression, the alias, and whether AS is written.
abbrev pub Column : Type 0
Column = Expr × Option Ident × Bool

-- The query with its WITH clause and its span.
unfoldable pub set_with : WithOpt → Span → SelectStmt → SelectStmt
set_with w sp (select_stmt _ _ cs ops) = select_stmt sp w cs ops

module _ (r : Rec) where
  -- The default case of `parseResultColumns`.
  unfoldable pub parse_expr_column : Parser Column
  unfolding parse_alias
  parse_expr_column = do
    x ← r.parse_expr prec_lowest
    alias ← parse_alias
    pure (x, alias.0, alias.1)

  -- One entry of `parseResultColumns`.
  unfoldable pub parse_result_column : Parser ResultColumn
  unfolding cur_pos at_table_star on parse_table_star parse_expr_column span
  parse_result_column = do
    start ← gets cur_pos
    table_star ← gets at_table_star
    c ←
        on Kind.star (λ t. pure (star_expr (span_of t) none, none, false))
          (if table_star
            then (do x ← parse_table_star start; pure (x, none, false))
            else parse_expr_column)
    sp ← gets (span start)
    pure (result_column sp c.0 c.1 c.2)

  -- `parseResultColumns`
  unfoldable pub parse_result_columns : Parser ResultColumns
  unfolding comma_list parse_result_column column_list
  parse_result_columns = do cs ← comma_list parse_result_column; pure (column_list cs)

  -- The operands of `parseLimit`: count, offset, and whether a comma swaps them.
  unfoldable pub parse_limit_tail : Expr → Parser (Expr × ExprOpt × Bool)
  unfolding on
  parse_limit_tail first =
      on Kind.offset (λ t. do x ← r.parse_expr prec_lowest; pure (first, an_expr x, false))
        (on Kind.comma (λ t. do x ← r.parse_expr prec_lowest; pure (x, an_expr first, true))
          (pure (first, no_expr, false)))

  -- `parseLimit`
  unfoldable pub parse_limit : Parser LimitOpt
  unfolding on parse_limit_tail span
  parse_limit =
      on Kind.limit
        (λ t. do
          first ← r.parse_expr prec_lowest
          b ← parse_limit_tail first
          sp ← gets (span t.pos)
          pure (a_limit (limit_clause sp b.0 b.1 b.2)))
        (pure no_limit)

  -- `parseCTE`
  unfoldable pub parse_cte : Parser Cte
  unfolding cur_pos expect_name parse_cte_columns expect parse_materialized span
  parse_cte = do
    start ← gets cur_pos
    name ← expect_name
    cols ← parse_cte_columns
    expect Kind.as_kw
    hint ← parse_materialized
    expect Kind.lp
    sel ← r.parse_select
    expect Kind.rp
    sp ← gets (span start)
    pure (cte sp name cols hint sel)

  -- `parseWith`
  unfoldable pub parse_with : Parser With
  unfolding expect accept comma_list parse_cte span cte_list
  parse_with = do
    t ← expect Kind.with
    recursive ← accept Kind.recursive
    items ← comma_list parse_cte
    sp ← gets (span t.pos)
    pure (with_clause sp recursive (cte_list items))

  -- One row of `parseValues`.
  unfoldable pub parse_row : Parser Exprs
  unfolding expect parse_expr_list
  parse_row = do expect Kind.lp; row ← parse_expr_list r; expect Kind.rp; pure row

  -- `parseValues`
  unfoldable pub parse_values : Parser SelectCore
  unfolding expect comma_list parse_row span row_list
  parse_values = do
    t ← expect Kind.values
    list ← comma_list parse_row
    sp ← gets (span t.pos)
    pure (values_clause sp (row_list list))

  -- The SELECT form of `parseOneSelect`.
  unfoldable pub parse_select_query : Parser SelectCore
  unfolding expect parse_distinct parse_result_columns clause parse_from_list expr_after exprs_by
      parse_window_defn_list parse_order_by parse_limit span
  parse_select_query = do
    t ← expect Kind.select
    d ← parse_distinct
    cols ← parse_result_columns
    from ← clause no_refs Kind.from (parse_from_list r)
    filter ← expr_after r Kind.where_kw prec_lowest
    group ← exprs_by r Kind.group
    having ← expr_after r Kind.having prec_lowest
    ws ← clause no_windows Kind.window (parse_window_defn_list r)
    order ← parse_order_by r
    lim ← parse_limit
    sp ← gets (span t.pos)
    pure (select_query sp d cols from filter group having ws order lim)

  -- `parseOneSelect`
  unfoldable pub parse_one_select : Parser SelectCore
  unfolding at parse_values parse_select_query
  parse_one_select = do
    here ← gets (at Kind.values)
    if here then parse_values else parse_select_query

  -- One more core of a compound, behind the keyword of its operator.
  unfoldable pub parse_compound : Token → Parser (CompoundOp × SelectCore)
  unfolding parse_compound_op parse_one_select
  parse_compound t = do op ← parse_compound_op t; core ← parse_one_select; pure (op, core)

  -- The body of `parseSelectNoWith`.
  unfoldable pub select_chain : Parser SelectStmt
  unfolding cur_pos parse_one_select many parse_compound span core_list op_list
  select_chain = do
    start ← gets cur_pos
    first ← parse_one_select
    rest ← many is_compound parse_compound
    sp ← gets (span start)
    pure (select_stmt sp no_with (core_cons first (core_list rest)) (op_list rest))

  -- `parseSelectNoWith`
  unfoldable pub parse_select_no_with : Parser SelectStmt
  unfolding nested select_chain
  parse_select_no_with = nested select_chain

  -- `parseSelect` with its WITH clause.
  unfoldable pub parse_with_select : ℕ → WithOpt → Parser SelectStmt
  unfolding parse_select_no_with span set_with
  parse_with_select start w = do
    sel ← parse_select_no_with
    sp ← gets (span start)
    pure (set_with w sp sel)

  -- `parseSelect`
  unfoldable pub select_body : Parser SelectStmt
  unfolding cur_pos at parse_with parse_with_select
  select_body = do
    start ← gets cur_pos
    here ← gets (at Kind.with)
    if here
        then (do w ← parse_with; parse_with_select start (a_with w))
        else parse_with_select start no_with
