-- ===== src/Parser/KnotSafe.antt =====
-- parser/parse_expr.go and parser/parse_select.go: the recursion of the productions ends.
use meyer.Base.{Option, arith, suc, zero, ℕ}
use meyer.Ast.Expr.{JoinOperator}
use meyer.Parser.State.{Parser}
use meyer.Parser.Combine.{remaining}
use meyer.Parser.Safe.{Safe}
use meyer.Parser.Stays.{Stays, Stays-Eats, Stays-Safe, Stays-zero}
use meyer.Parser.Rules.{StaysRec}
use meyer.Parser.OperatorsSafe.{Eats-between_bound_body, Eats-expr_body}
use meyer.Parser.FromSafe.{Eats-table_ref_body}
use meyer.Parser.SelectSafe.{Eats-select_body}
use meyer.Parser.Knot.{parse_expr, grammar, parse_select, parse_table_ref, productions}

-- Fuel for the tokens that are left is enough.
pub StaysRec-productions : (n : ℕ) → StaysRec n (productions n)
unfolding productions
StaysRec-productions zero = record {
  expr = λ min. Stays-zero;
  between_bound = Stays-zero;
  select = Stays-zero;
  table_ref = λ join. Stays-zero;
}
StaysRec-productions (suc n) =
    let h = StaysRec-productions n in
    record {
      expr = λ min. Stays-Eats (Eats-expr_body (productions n) h min);
      between_bound = Stays-Eats (Eats-between_bound_body (productions n) h);
      select = Stays-Eats (Eats-select_body (productions n) h);
      table_ref = λ join. Stays-Eats (Eats-table_ref_body (productions n) h join);
    }

Safe-remaining :
    {A : Type 0} (m : ℕ → Parser A) → ((n : ℕ) → Stays n (m n)) → Safe (λ s. m (remaining s) s)
Safe-remaining m h = record { run = λ s v. (h (remaining s)).run s v (omega arith) }

-- Parsing an expression, at any minimal precedence, from a valid state ends: it returns in a valid
-- state or fails with an error of the input.
pub Safe-parse_expr : (min : ℕ) → Safe (parse_expr min)
unfolding parse_expr
Safe-parse_expr min =
    Safe-remaining (λ n. (productions n).parse_expr min) λ n. (StaysRec-productions n).expr min

-- So does parsing a query.
pub Safe-parse_select : Safe parse_select
unfolding parse_select
Safe-parse_select =
    Safe-remaining (λ n. (productions n).parse_select) λ n. (StaysRec-productions n).select

-- So does parsing an item of FROM.
pub Safe-parse_table_ref : (join : Option JoinOperator) → Safe (parse_table_ref join)
unfolding parse_table_ref
Safe-parse_table_ref join =
    Safe-remaining (λ n. (productions n).parse_table_ref join)
      λ n. (StaysRec-productions n).table_ref join

pub StaysRec-grammar : (n : ℕ) → StaysRec n grammar
unfolding grammar
StaysRec-grammar n = record {
  expr = λ min. Stays-Safe (Safe-parse_expr min);
  between_bound = Stays-Safe (
      Safe-remaining (λ n. (productions n).parse_between_bound)
        λ n. (StaysRec-productions n).between_bound);
  select = Stays-Safe Safe-parse_select;
  table_ref = λ join. Stays-Safe (Safe-parse_table_ref join);
}
