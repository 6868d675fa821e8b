-- ===== src/Parser/TableSafe.antt =====
-- parser/parse_ddl.go: the columns and the constraints of a table keep the invariant, and their
-- loops end.
use meyer.Base.{Bool, List, arith, none, refl, suc, zero, ℕ, ◌==◌, ◌≤◌, nat_eq}
use meyer.Token.{Kind, kind_eq}
use meyer.Parser.State.{Parser}
use meyer.Parser.Combine.{many, on, remaining}
use meyer.Parser.Rec.{Rec}
use meyer.Parser.Rules.{StaysRec, eats_rules, stays_rules}
use meyer.Parser.Stays.{Eats, Stays, Stays-Eats, Stays-on_class_eats, Stays-zero}
use meyer.Parser.Repeats.{Stays-many}
use meyer.Ast.Ddl.{ColumnConstraint, ColumnDef, TableConstraint}
use meyer.Parser.TermSafe.{Stays-parse_type_token}
use meyer.Parser.OperatorsSafe.{StaysRec-le}
use meyer.Parser.ConstraintSafe.{Eats-parse_column_constraint, Eats-parse_table_constraint}
use meyer.Parser.Table.{
  Pending, column_constraint_round, column_constraints, column_def_round, column_defs, column_round,
  more_constraints, parse_column_and_constraint_list, parse_column_def, parse_first_option,
  parse_table_option, parse_table_options, table_constraints, table_round,
}

module _ {n : ℕ} where
  Stays-parse_table_option : Stays n parse_table_option
  unfolding parse_table_option
  Stays-parse_table_option = search stays_rules depth 24

  Stays-parse_first_option : Stays n parse_first_option
  unfolding parse_first_option
  Stays-parse_first_option = search (stays_rules, Stays-parse_table_option) depth 24

  Stays-options : Stays n (many (λ k. k == Kind.comma) (λ t. parse_table_option))
  Stays-options = Stays-many (λ k. k == Kind.comma) refl _ λ t. Stays-parse_table_option

  pub Stays-parse_table_options : Stays n parse_table_options
  unfolding parse_table_options
  Stays-parse_table_options = search (stays_rules, Stays-parse_first_option, Stays-options) depth 24

  Stays-more_constraints :
      (rest : Parser (List TableConstraint)) → Stays n rest → Stays n (more_constraints rest)
  unfolding more_constraints
  Stays-more_constraints rest hr = search stays_rules depth 24

module _ {n : ℕ} (r : Rec) (h : StaysRec n r) where
  -- A round that goes on has consumed a token, in each of the three loops.
  Eats-column_constraint_round :
      (pending : Pending) (rest : Pending → Parser (List ColumnConstraint))
      → ((q : Pending) → Stays n (rest q))
      → Eats n (column_constraint_round r pending rest)
  unfolding column_constraint_round
  Eats-column_constraint_round pending rest hr =
      search (eats_rules, stays_rules, Eats-parse_column_constraint) depth 24

  Stays-column_round :
      (pending : Pending) (rest : Pending → Parser (List ColumnConstraint))
      → ((q : Pending) → Stays n (rest q))
      → Stays (suc n) (column_round r pending rest)
  unfolding column_round on
  Stays-column_round pending rest hr =
      search (stays_rules, Stays-on_class_eats, Stays-Eats, Eats-column_constraint_round) depth 24

  Eats-table_round :
      (pending : Pending) (rest : Pending → Parser (List TableConstraint))
      → ((q : Pending) → Stays n (rest q))
      → Eats n (table_round r pending rest)
  unfolding table_round
  Eats-table_round pending rest hr =
      search (eats_rules, stays_rules, Stays-more_constraints, Eats-parse_table_constraint) depth 24

module _ {n : ℕ} (r : Rec) (h : StaysRec n r) where
  Stays-column_constraints :
      (k : ℕ) (pending : Pending) → k ≤ n → Stays k (column_constraints r k pending)
  unfolding column_constraints
  Stays-column_constraints zero pending le = Stays-zero
  Stays-column_constraints (suc k) pending le =
      Stays-column_round r (StaysRec-le (omega (arith, le)) h) pending (column_constraints r k)
        λ q. Stays-column_constraints k q (omega (arith, le))

  Stays-column_loop : Stays n (λ s. column_constraints r (remaining s) none s)
  Stays-column_loop = record {
    run = λ s v le. (Stays-column_constraints (remaining s) none le).run s v (omega arith);
  }

  -- The definition of a column keeps the invariant.
  pub Stays-parse_column_def : Stays n (parse_column_def r)
  unfolding parse_column_def
  Stays-parse_column_def = search (stays_rules, Stays-parse_type_token, Stays-column_loop) depth 24

  Stays-table_constraints :
      (k : ℕ) (pending : Pending) → k ≤ n → Stays k (table_constraints r k pending)
  unfolding table_constraints
  Stays-table_constraints zero pending le = Stays-zero
  Stays-table_constraints (suc k) pending le = Stays-Eats (
      Eats-table_round r (StaysRec-le (omega (arith, le)) h) pending (table_constraints r k)
        λ q. Stays-table_constraints k q (omega (arith, le)))

  Stays-table_loop : Stays n (λ s. table_constraints r (remaining s) none s)
  Stays-table_loop = record {
    run = λ s v le. (Stays-table_constraints (remaining s) none le).run s v (omega arith);
  }

module _ {n : ℕ} (r : Rec) (h : StaysRec (suc n) r) where
  Stays-column_def_round :
      (rest : Parser (List ColumnDef × Bool))
      → Stays n rest
      → Stays (suc n) (column_def_round r rest)
  unfolding column_def_round on
  Stays-column_def_round rest hr =
      search (stays_rules, Stays-on_class_eats, Stays-parse_column_def) depth 24

module _ {n : ℕ} (r : Rec) (h : StaysRec n r) where
  Stays-column_defs : (k : ℕ) → k ≤ n → Stays k (column_defs r k)
  unfolding column_defs
  Stays-column_defs zero le = Stays-zero
  Stays-column_defs (suc k) le =
      Stays-column_def_round r (StaysRec-le le h) (column_defs r k)
        (Stays-column_defs k (omega (arith, le)))

  Stays-columns_loop : Stays n (λ s. column_defs r (remaining s) s)
  Stays-columns_loop = record {
    run = λ s v le. (Stays-column_defs (remaining s) le).run s v (omega arith);
  }

  -- The list of a table's columns and constraints keeps the invariant: its loops end.
  pub Stays-parse_column_and_constraint_list : Stays n (parse_column_and_constraint_list r)
  unfolding parse_column_and_constraint_list
  Stays-parse_column_and_constraint_list =
      search (stays_rules, Stays-columns_loop, Stays-table_loop) depth 24
