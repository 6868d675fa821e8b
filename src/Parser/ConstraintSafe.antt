-- ===== src/Parser/ConstraintSafe.antt =====
-- parser/parse_ddl.go: the constraints keep the invariant and consume a token.
use meyer.Base.{Bool, arith, refl, ℕ, ◌==◌, nat_eq}
use meyer.Token.{Token, Kind, kind_eq}
use meyer.Parser.Rec.{Rec}
use meyer.Parser.Rules.{StaysRec, class_rules, eats_rules, stays_rules}
use meyer.Parser.Stays.{Eats, Stays, Stays-Eats, Stays-le, Stays-if}
use meyer.Parser.Repeats.{Stays-many}
use meyer.Ast.Ddl.{ColumnConstraintKind, TableConstraintKind}
use meyer.Parser.TermSafe.{Stays-parse_term}
use meyer.Parser.WindowSafe.{Stays-parse_sort_list, Stays-parse_sort_order}
use meyer.Parser.SelectSafe.{Stays-parse_indexed_column_list}
use meyer.Parser.DmlSafe.{Stays-parse_resolve_type}
use meyer.Parser.References.{
  parse_defer_clause, parse_indexed_columns_opt, parse_initially, parse_on_conflict, parse_ref_act,
  parse_ref_args, parse_ref_match, parse_ref_on, parse_references, starts_ref_arg,
}
use meyer.Parser.Default.{
  paren_expr_of, parse_default_paren, parse_default_signed, parse_default_term, parse_default_value,
}
use meyer.Parser.Constraint.{
  column_checked, column_collation, column_computed, column_conflict, column_constraint_body,
  column_defaulted, column_deferred, column_foreign, column_not, column_primary,
  parse_column_constraint, parse_generated,
}
use meyer.Parser.TableConstraint.{
  parse_defer_opt, parse_table_constraint, table_checked, table_constraint_body, table_foreign,
  table_key,
}

module _ {n : ℕ} where
  pub Stays-parse_on_conflict : Stays n parse_on_conflict
  unfolding parse_on_conflict
  Stays-parse_on_conflict = search (class_rules, Stays-parse_resolve_type) depth 30

  pub Stays-parse_initially : Stays n parse_initially
  unfolding parse_initially
  Stays-parse_initially = search class_rules depth 30

  pub Stays-parse_ref_act : Stays n parse_ref_act
  unfolding parse_ref_act
  Stays-parse_ref_act = search class_rules depth 30

  pub Stays-parse_ref_match : (a : Token) → Stays n (parse_ref_match a)
  unfolding parse_ref_match
  Stays-parse_ref_match a = search class_rules depth 30

  pub Stays-parse_ref_on : (a : Token) → Stays n (parse_ref_on a)
  unfolding parse_ref_on
  Stays-parse_ref_on a = search (class_rules, Stays-parse_ref_act) depth 30

  pub Stays-parse_indexed_columns_opt : Stays n parse_indexed_columns_opt
  unfolding parse_indexed_columns_opt
  Stays-parse_indexed_columns_opt = search (class_rules, Stays-parse_indexed_column_list) depth 30

  Stays-parse_ref_args : Stays n parse_ref_args
  unfolding parse_ref_args
  Stays-parse_ref_args = Stays-many starts_ref_arg refl _ λ t.
      Stays-if (t.kind == Kind.match) (parse_ref_match t) (parse_ref_on t) (Stays-parse_ref_match t)
        (Stays-parse_ref_on t)

  Eats-parse_references : Eats n parse_references
  unfolding parse_references
  Eats-parse_references =
      search (eats_rules, stays_rules, Stays-parse_indexed_columns_opt, Stays-parse_ref_args) depth
        24

  Stays-parse_references : Stays n parse_references
  Stays-parse_references = Stays-le (omega arith) (Stays-Eats Eats-parse_references)

  Eats-parse_defer_clause : (start : ℕ) (negated : Bool) → Eats n (parse_defer_clause start negated)
  unfolding parse_defer_clause
  Eats-parse_defer_clause start negated =
      search (eats_rules, stays_rules, Stays-parse_initially) depth 24

  Stays-parse_defer_clause :
      (start : ℕ) (negated : Bool) → Stays n (parse_defer_clause start negated)
  Stays-parse_defer_clause start negated =
      Stays-le (omega arith) (Stays-Eats (Eats-parse_defer_clause start negated))

  Stays-parse_defer_opt : Stays n parse_defer_opt
  unfolding parse_defer_opt
  Stays-parse_defer_opt = search (stays_rules, Stays-parse_defer_clause) depth 24

  Eats-column_deferred : Eats n column_deferred
  unfolding column_deferred
  Eats-column_deferred = search (eats_rules, stays_rules, Eats-parse_defer_clause) depth 24

  Eats-column_foreign : Eats n column_foreign
  unfolding column_foreign
  Eats-column_foreign = search (eats_rules, stays_rules, Eats-parse_references) depth 24

  pub Stays-parse_default_term : Stays n parse_default_term
  unfolding parse_default_term
  Stays-parse_default_term = search (class_rules, Stays-parse_term) depth 30

  pub Stays-column_conflict : (a : ColumnConstraintKind) → Stays n (column_conflict a)
  unfolding column_conflict
  Stays-column_conflict a = search (class_rules, Stays-parse_on_conflict) depth 30

  pub Stays-column_not : (a : Token) → Stays n (column_not a)
  unfolding column_not
  Stays-column_not a =
      search (class_rules, Stays-column_conflict, Stays-parse_defer_clause) depth 30

  pub Stays-column_primary : (a : Token) → Stays n (column_primary a)
  unfolding column_primary
  Stays-column_primary a =
      search (class_rules, Stays-parse_on_conflict, Stays-parse_sort_order) depth 30

  pub Stays-column_collation : (a : Token) → Stays n (column_collation a)
  unfolding column_collation
  Stays-column_collation a = search class_rules depth 30

  pub Stays-table_foreign : (a : Token) → Stays n (table_foreign a)
  unfolding table_foreign
  Stays-table_foreign a =
      search
        (
          class_rules, Stays-parse_indexed_column_list, Stays-parse_references,
          Stays-parse_defer_opt,
        )
        depth 30

  pub Stays-parse_default_signed : (a : Token) → Stays n (parse_default_signed a)
  unfolding parse_default_signed
  Stays-parse_default_signed a = search (class_rules, Stays-parse_term) depth 30

module _ {n : ℕ} (r : Rec) (h : StaysRec n r) where
  pub Stays-paren_expr_of : Stays n (paren_expr_of r)
  unfolding paren_expr_of
  Stays-paren_expr_of = search (class_rules, h.expr) depth 30

  pub Stays-parse_default_paren : (a : Token) → Stays n (parse_default_paren r a)
  unfolding parse_default_paren
  Stays-parse_default_paren a = search (class_rules, h.expr) depth 30

  pub Stays-parse_default_value : Stays n (parse_default_value r)
  unfolding parse_default_value
  Stays-parse_default_value =
      search
        (
          class_rules, Stays-parse_default_term, Stays-parse_default_signed,
          Stays-parse_default_paren,
        )
        depth 30

  pub Stays-parse_generated : Stays n (parse_generated r)
  unfolding parse_generated
  Stays-parse_generated = search (class_rules, Stays-paren_expr_of) depth 30

  pub Stays-column_checked : (a : Token) → Stays n (column_checked r a)
  unfolding column_checked
  Stays-column_checked a = search (class_rules, Stays-paren_expr_of) depth 30

  pub Stays-column_defaulted : (a : Token) → Stays n (column_defaulted r a)
  unfolding column_defaulted
  Stays-column_defaulted a = search (class_rules, Stays-parse_default_value) depth 30

  pub Stays-column_computed : (a : Bool) → Stays n (column_computed r a)
  unfolding column_computed
  Stays-column_computed a = search (class_rules, Stays-parse_generated) depth 30

  pub Stays-table_key : (a : TableConstraintKind) (b : Bool) → Stays n (table_key r a b)
  unfolding table_key
  Stays-table_key a b =
      search (class_rules, Stays-parse_on_conflict, Stays-parse_sort_list) depth 30

  pub Stays-table_checked : (a : Token) → Stays n (table_checked r a)
  unfolding table_checked
  Stays-table_checked a =
      search (class_rules, Stays-parse_on_conflict, Stays-paren_expr_of) depth 30

  Eats-column_constraint_body : Eats n (column_constraint_body r)
  unfolding column_constraint_body
  Eats-column_constraint_body =
      search
        (
          eats_rules, class_rules, Eats-column_deferred, Eats-column_foreign, Stays-column_conflict,
          Stays-column_not, Stays-column_primary, Stays-column_checked, Stays-column_collation,
          Stays-column_defaulted, Stays-column_computed,
        )
        depth 40

  -- A constraint of a column consumes a token.
  pub Eats-parse_column_constraint : (start : ℕ) → Eats n (parse_column_constraint r start)
  unfolding parse_column_constraint
  Eats-parse_column_constraint start =
      search (eats_rules, class_rules, Eats-column_constraint_body) depth 24

  Eats-table_constraint_body : Eats n (table_constraint_body r)
  unfolding table_constraint_body
  Eats-table_constraint_body =
      search (eats_rules, class_rules, Stays-table_key, Stays-table_checked, Stays-table_foreign)
        depth 30

  -- A constraint of a table consumes a token.
  pub Eats-parse_table_constraint : (start : ℕ) → Eats n (parse_table_constraint r start)
  unfolding parse_table_constraint
  Eats-parse_table_constraint start =
      search (eats_rules, class_rules, Eats-table_constraint_body) depth 24
