-- ===== src/Parser/SelectSafe.antt =====
-- parser/parse_select.go: queries keep the invariant.
use meyer.Base.{ℕ, arith, refl}
use meyer.Token.{Token}
use meyer.Ast.Expr.{Expr, WithOpt}
use meyer.Parser.Rec.{Rec}
use meyer.Parser.Rules.{StaysRec, eats_rules, rec_rules, stays_rules}
use meyer.Parser.Stays.{Eats, Stays, Stays-Eats, Stays-le}
use meyer.Parser.WindowSafe.{
  Stays-parse_order_by, Stays-parse_sort_order, Stays-parse_window_defn_list,
}
use meyer.Parser.PrimarySafe.{Stays-parse_distinct}
use meyer.Parser.FromSafe.{Stays-parse_alias, Stays-parse_from_list}
use meyer.Parser.Select.{
  parse_compound_op, parse_cte, parse_cte_columns, parse_expr_column, parse_indexed_column,
  parse_indexed_column_list, parse_limit, parse_limit_tail, parse_materialized, parse_one_select,
  parse_result_column, parse_result_columns, parse_row, parse_select_query, parse_table_star,
  parse_values, parse_with, parse_select_no_with, parse_with_select, select_body, is_compound,
  parse_compound,
}
use meyer.Parser.Combine.{many}
use meyer.Parser.Repeats.{Stays-many}

module _ {n : ℕ} where
  pub Stays-parse_indexed_column : Stays n parse_indexed_column
  unfolding parse_indexed_column
  Stays-parse_indexed_column = search (rec_rules, Stays-parse_sort_order) depth 30

  pub Stays-parse_indexed_column_list : Stays n parse_indexed_column_list
  unfolding parse_indexed_column_list
  Stays-parse_indexed_column_list = search (rec_rules, Stays-parse_indexed_column) depth 30

  pub Stays-parse_cte_columns : Stays n parse_cte_columns
  unfolding parse_cte_columns
  Stays-parse_cte_columns = search (rec_rules, Stays-parse_indexed_column_list) depth 30

  pub Stays-parse_materialized : Stays n parse_materialized
  unfolding parse_materialized
  Stays-parse_materialized = search rec_rules depth 30

  pub Stays-parse_compound_op : (a : Token) → Stays n (parse_compound_op a)
  unfolding parse_compound_op
  Stays-parse_compound_op a = search rec_rules depth 30

  pub Stays-parse_table_star : (a : ℕ) → Stays n (parse_table_star a)
  unfolding parse_table_star
  Stays-parse_table_star a = search rec_rules depth 30

module _ {n : ℕ} (r : Rec) (h : StaysRec n r) where
  pub Stays-parse_expr_column : Stays n (parse_expr_column r)
  unfolding parse_expr_column
  Stays-parse_expr_column = search (rec_rules, h.expr, Stays-parse_alias) depth 30

  pub Stays-parse_result_column : Stays n (parse_result_column r)
  unfolding parse_result_column
  Stays-parse_result_column =
      search (rec_rules, Stays-parse_table_star, Stays-parse_expr_column) depth 30

  pub Stays-parse_result_columns : Stays n (parse_result_columns r)
  unfolding parse_result_columns
  Stays-parse_result_columns = search (rec_rules, Stays-parse_result_column) depth 30

  pub Stays-parse_limit_tail : (a : Expr) → Stays n (parse_limit_tail r a)
  unfolding parse_limit_tail
  Stays-parse_limit_tail a = search (rec_rules, h.expr) depth 30

  pub Stays-parse_limit : Stays n (parse_limit r)
  unfolding parse_limit
  Stays-parse_limit = search (rec_rules, h.expr, Stays-parse_limit_tail) depth 30

  pub Stays-parse_cte : Stays n (parse_cte r)
  unfolding parse_cte
  Stays-parse_cte = search (rec_rules, Stays-parse_cte_columns, Stays-parse_materialized) depth 30

  pub Stays-parse_row : Stays n (parse_row r)
  unfolding parse_row
  Stays-parse_row = search rec_rules depth 30

  -- A core of a query consumes a token.
  Eats-parse_values : Eats n (parse_values r)
  unfolding parse_values
  Eats-parse_values = search (eats_rules, stays_rules, Stays-parse_row) depth 24

  Eats-parse_select_query : Eats n (parse_select_query r)
  unfolding parse_select_query
  Eats-parse_select_query =
      search
        (
          eats_rules, rec_rules, Stays-parse_distinct, Stays-parse_result_columns,
          Stays-parse_from_list, Stays-parse_window_defn_list, Stays-parse_order_by,
          Stays-parse_limit,
        )
        depth 40

  Eats-parse_one_select : Eats n (parse_one_select r)
  unfolding parse_one_select
  Eats-parse_one_select = search (eats_rules, Eats-parse_values, Eats-parse_select_query) depth 24

  pub Eats-parse_with : Eats n (parse_with r)
  unfolding parse_with
  Eats-parse_with = search (eats_rules, stays_rules, Stays-parse_cte) depth 24

  Stays-parse_one_select : Stays n (parse_one_select r)
  Stays-parse_one_select = Stays-le (omega arith) (Stays-Eats Eats-parse_one_select)

  Stays-parse_compound : (t : Token) → Stays n (parse_compound r t)
  unfolding parse_compound
  Stays-parse_compound t =
      search (stays_rules, Stays-parse_compound_op, Stays-parse_one_select) depth 24

  Stays-compounds : Stays n (many is_compound (parse_compound r))
  Stays-compounds = Stays-many is_compound refl (parse_compound r) Stays-parse_compound

  Eats-parse_select_no_with : Eats n (parse_select_no_with r)
  unfolding parse_select_no_with
  Eats-parse_select_no_with =
      search (eats_rules, stays_rules, Eats-parse_one_select, Stays-compounds) depth 24

  Eats-parse_with_select : (start : ℕ) (w : WithOpt) → Eats n (parse_with_select r start w)
  unfolding parse_with_select
  Eats-parse_with_select start w =
      search (eats_rules, stays_rules, Eats-parse_select_no_with) depth 24

  pub Stays-parse_with_select : (start : ℕ) (w : WithOpt) → Stays n (parse_with_select r start w)
  Stays-parse_with_select start w =
      Stays-le (omega arith) (Stays-Eats (Eats-parse_with_select start w))

  -- A query consumes a token.
  pub Eats-select_body : Eats n (select_body r)
  unfolding select_body
  Eats-select_body =
      search
        (eats_rules, stays_rules, Eats-parse_with, Stays-parse_with_select, Eats-parse_with_select)
        depth 24

  pub Stays-parse_with : Stays n (parse_with r)
  Stays-parse_with = Stays-le (omega arith) (Stays-Eats Eats-parse_with)
