-- ===== src/Parser/Knot.antt =====
-- parser/parse_expr.go and parser/parse_select.go: the recursion of the productions, on fuel for the
-- tokens that are left. Each of the four functions has consumed a token before it calls another, so
-- as much fuel as there are tokens is enough.
use meyer.Base.{Option, suc, zero, ℕ}
use meyer.Ast.Expr.{Expr, JoinOperator, SelectStmt, TableRef}
use meyer.Parser.State.{Parser, out_of_fuel}
use meyer.Parser.Combine.{remaining}
use meyer.Parser.Rec.{Rec}
use meyer.Parser.Operators.{between_bound_body, expr_body}
use meyer.Parser.From.{table_ref_body}
use meyer.Parser.Select.{select_body}

abbrev no_fuel : Rec
no_fuel = record {
  parse_expr = λ min s. out_of_fuel;
  parse_between_bound = λ s. out_of_fuel;
  parse_select = λ s. out_of_fuel;
  parse_table_ref = λ join s. out_of_fuel;
}

unfoldable pub productions : ℕ → Rec
unfolding expr_body between_bound_body select_body table_ref_body
productions zero = no_fuel
productions (suc fuel) =
    let r = productions fuel in
    record {
      parse_expr = expr_body r;
      parse_between_bound = between_bound_body r;
      parse_select = select_body r;
      parse_table_ref = table_ref_body r;
    }

-- `parseExpr`
unfoldable pub parse_expr : ℕ → Parser Expr
unfolding productions
parse_expr min s = (productions (remaining s)).parse_expr min s

-- `parseSelect`
unfoldable pub parse_select : Parser SelectStmt
unfolding productions
parse_select s = (productions (remaining s)).parse_select s

-- `parseTableRef`
unfoldable pub parse_table_ref : Option JoinOperator → Parser TableRef
unfolding productions
parse_table_ref join s = (productions (remaining s)).parse_table_ref join s

-- The productions as the statements call them.
unfoldable pub grammar : Rec
unfolding parse_expr parse_select parse_table_ref productions
grammar = record {
  parse_expr = parse_expr;
  parse_between_bound = λ s. (productions (remaining s)).parse_between_bound s;
  parse_select = parse_select;
  parse_table_ref = parse_table_ref;
}
