-- ===== src/Parser/OperatorsSafe.antt =====
-- parser/parse_expr.go: the operators keep the invariant, and the climbing loop ends.
use meyer.Base.{Bool, arith, suc, zero, ℕ, ◌≤◌}
use meyer.Token.{Token}
use meyer.Ast.Expr.{Expr, NullTest, Operator}
use meyer.Parser.State.{Parser}
use meyer.Parser.Combine.{remaining}
use meyer.Parser.Rec.{Rec}
use meyer.Parser.Rules.{StaysRec, eats_rules, rec_rules, stays_rules}
use meyer.Parser.Stays.{Eats, Eats-on_class, Stays, Stays-le, Stays-on_operator_eats, Stays-zero}
use meyer.Parser.Term.{infix_op}
use meyer.Parser.PrimarySafe.{Eats-parse_primary}
use meyer.Parser.Operators.{
  between_bound_body, expr_body, null_check, operator_step, operators, parse_between, parse_binary,
  parse_collate, parse_in, parse_in_body, parse_in_list, parse_in_table, parse_is, parse_like,
  parse_negated, parse_operators, parse_paren_args, parse_prefix, parse_unary, is_infix,
}

module _ {n : ℕ} where
  pub Stays-parse_collate : (a : Expr) → Stays n (parse_collate a)
  unfolding parse_collate
  Stays-parse_collate a = search rec_rules depth 30

  pub Stays-null_check : (a : NullTest) (b : Expr) → Stays n (null_check a b)
  unfolding null_check
  Stays-null_check a b = search rec_rules depth 30

module _ {n : ℕ} (r : Rec) (h : StaysRec n r) where
  pub Stays-parse_unary : (a : Operator) (b : ℕ) (c : Token) → Stays n (parse_unary r a b c)
  unfolding parse_unary
  Stays-parse_unary a b c = search (rec_rules, h.expr) depth 30

  pub Stays-parse_binary : (a : Expr) (b : Token) → Stays n (parse_binary r a b)
  unfolding parse_binary
  Stays-parse_binary a b = search (rec_rules, h.expr) depth 30

  pub Stays-parse_is : (a : Expr) (b : Token) → Stays n (parse_is r a b)
  unfolding parse_is
  Stays-parse_is a b = search (rec_rules, h.expr) depth 30

  pub Stays-parse_like : (a : Bool) (b : Expr) (c : Token) → Stays n (parse_like r a b c)
  unfolding parse_like
  Stays-parse_like a b c = search (rec_rules, h.expr) depth 30

  pub Stays-parse_between : (a : Bool) (b : Expr) (c : Token) → Stays n (parse_between r a b c)
  unfolding parse_between
  Stays-parse_between a b c = search (rec_rules, h.expr) depth 30

  pub Stays-parse_in_body : Stays n (parse_in_body r)
  unfolding parse_in_body
  Stays-parse_in_body = search rec_rules depth 30

  pub Stays-parse_in_list : (a : Bool) (b : Expr) → Stays n (parse_in_list r a b)
  unfolding parse_in_list
  Stays-parse_in_list a b = search (rec_rules, Stays-parse_in_body) depth 30

  pub Stays-parse_paren_args : Stays n (parse_paren_args r)
  unfolding parse_paren_args
  Stays-parse_paren_args = search rec_rules depth 30

  pub Stays-parse_in_table : (a : Bool) (b : Expr) → Stays n (parse_in_table r a b)
  unfolding parse_in_table
  Stays-parse_in_table a b = search (rec_rules, Stays-parse_paren_args) depth 30

  pub Stays-parse_in : (a : Bool) (b : Expr) (c : Token) → Stays n (parse_in r a b c)
  unfolding parse_in
  Stays-parse_in a b c = search (rec_rules, Stays-parse_in_list, Stays-parse_in_table) depth 30

  pub Stays-parse_negated : (a : Expr) → Stays n (parse_negated r a)
  unfolding parse_negated
  Stays-parse_negated a =
      search (rec_rules, Stays-null_check, Stays-parse_like, Stays-parse_between, Stays-parse_in)
        depth 30

  -- A prefix expression consumes a token.
  Eats-parse_prefix : Eats n (parse_prefix r)
  unfolding parse_prefix
  Eats-parse_prefix =
      search (eats_rules, Eats-on_class, Stays-parse_unary, Eats-parse_primary) depth 24

  -- A round that goes on has consumed a token.
  Stays-operator_step :
      (min : ℕ) (stop_at_and : Bool) (x : Expr) (c : Expr → Parser Expr)
      → ((y : Expr) → Stays n (c y))
      → Stays (suc n) (operator_step r min stop_at_and x c)
  unfolding operator_step is_infix infix_op
  Stays-operator_step min stop_at_and x c hc =
      search
        (
          stays_rules, Stays-on_operator_eats, Stays-parse_binary, Stays-parse_collate,
          Stays-null_check, Stays-parse_is, Stays-parse_like, Stays-parse_between, Stays-parse_in,
          Stays-parse_negated,
        )
        depth 40

pub StaysRec-le : {k n : ℕ} {r : Rec} → k ≤ n → StaysRec n r → StaysRec k r
StaysRec-le le h = record {
  expr = λ min. Stays-le le (h.expr min);
  between_bound = Stays-le le h.between_bound;
  select = Stays-le le h.select;
  table_ref = λ join. Stays-le le (h.table_ref join);
}

module _ {n : ℕ} (r : Rec) (h : StaysRec n r) where
  Stays-operators :
      (k min : ℕ) (stop_at_and : Bool)
      → k ≤ n
      → (x : Expr) → Stays k (operators r k min stop_at_and x)
  unfolding operators
  Stays-operators zero min stop_at_and le x = Stays-zero
  Stays-operators (suc k) min stop_at_and le x =
      Stays-operator_step r (StaysRec-le (omega (arith, le)) h) min stop_at_and x
        (operators r k min stop_at_and) (Stays-operators k min stop_at_and (omega (arith, le)))

  -- The climbing loop ends: its fuel is enough.
  Stays-parse_operators :
      (min : ℕ) (stop_at_and : Bool) (x : Expr) → Stays n (parse_operators r min stop_at_and x)
  unfolding parse_operators
  Stays-parse_operators min stop_at_and x = record {
    run = λ s v le. (Stays-operators (remaining s) min stop_at_and le x).run s v (omega arith);
  }

  pub Eats-expr_body : (min : ℕ) → Eats n (expr_body r min)
  unfolding expr_body
  Eats-expr_body min = search (eats_rules, Eats-parse_prefix, Stays-parse_operators) depth 24

  pub Eats-between_bound_body : Eats n (between_bound_body r)
  unfolding between_bound_body
  Eats-between_bound_body = search (eats_rules, Eats-parse_prefix, Stays-parse_operators) depth 24
