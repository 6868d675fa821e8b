-- ===== src/Parser/Constraint.antt =====
-- parser/parse_ddl.go: the constraints of columns.
use meyer.Base.{Bool, Option, false, if◌then◌else◌, none, some, true, ℕ, ◌==◌, nat_eq}
use meyer.Token.{Kind, Token, kind_eq}
use meyer.Ast.{Ident}
use meyer.Ast.Expr.{Expr, an_expr, no_expr, sort_default}
use meyer.Ast.Dml.{conflict_default}
use meyer.Ast.Ddl.{
  ColumnConstraint, ColumnConstraintKind, column_check, column_collate, column_default,
  column_deferrable, column_generated, column_not_null, column_null, column_primary_key,
  column_references, column_unique,
}
use meyer.Parser.State.{Parser, cur_kind, gets, pure, ◌>>=◌, ◌>>◌}
use meyer.Parser.Look.{accept, expect, span, syntax_error}
use meyer.Parser.Names.{expect_ids, ident_of}
use meyer.Parser.Combine.{on, on_class}
use meyer.Parser.Rec.{Rec, cur_pos, extent}
use meyer.Parser.Window.{parse_sort_order}
use meyer.Parser.References.{parse_defer_clause, parse_on_conflict, parse_references}
use meyer.Parser.Default.{paren_expr_of, parse_default_value}
use meyer.Keywords.{is_plain_id}

-- A constraint of a kind, with no other field set.
abbrev column_of : ColumnConstraintKind → ColumnConstraint
column_of k = record {
  span = extent 0 0;
  name = none;
  kind = k;
  on_conflict = conflict_default;
  order = sort_default;
  auto_increment = false;
  expr = no_expr;
  collation = none;
  references = none;
  generated_kind = none;
  always_word = false;
  deferrable = none;
}

-- A constraint whose only field is its conflict clause.
unfoldable pub column_conflict : ColumnConstraintKind → Parser ColumnConstraint
unfolding parse_on_conflict
column_conflict k = do c ← parse_on_conflict; pure (record (column_of k) { on_conflict = c })

-- The case NOT of `parseColumnConstraint`, behind it.
unfoldable pub column_not : Token → Parser ColumnConstraint
unfolding on column_conflict parse_defer_clause
column_not t =
    on Kind.null (λ u. column_conflict column_not_null)
      (do
        d ← parse_defer_clause t.pos true
        pure (record (column_of column_deferrable) { deferrable = some d }))

-- The case DEFERRABLE.
unfoldable pub column_deferred : Parser ColumnConstraint
unfolding cur_pos parse_defer_clause
column_deferred = do
  start ← gets cur_pos
  d ← parse_defer_clause start false
  pure (record (column_of column_deferrable) { deferrable = some d })

-- The case PRIMARY, behind it.
unfoldable pub column_primary : Token → Parser ColumnConstraint
unfolding expect parse_sort_order parse_on_conflict accept
column_primary t = do
  expect Kind.key
  order ← parse_sort_order
  c ← parse_on_conflict
  auto ← accept Kind.autoincr
  pure (record (column_of column_primary_key) {
    order = order;
    on_conflict = c;
    auto_increment = auto;
  })

-- The case COLLATE, behind it.
unfoldable pub column_collation : Token → Parser ColumnConstraint
unfolding expect_ids
column_collation t = do
  n ← expect_ids
  pure (record (column_of column_collate) { collation = some n })

-- The case REFERENCES.
unfoldable pub column_foreign : Parser ColumnConstraint
unfolding parse_references
column_foreign = do
  fk ← parse_references
  pure (record (column_of column_references) { references = some fk })

module _ (r : Rec) where
  -- `parseGenerated`
  unfoldable pub parse_generated : Parser (Expr × Option Ident)
  unfolding paren_expr_of on_class is_plain_id ident_of
  parse_generated = do
    x ← paren_expr_of r
    on_class is_plain_id (λ t. do n ← gets (λ s. ident_of t s.src); pure (x, some n))
        (pure (x, none))

  -- The case CHECK of `parseColumnConstraint`, behind it.
  unfoldable pub column_checked : Token → Parser ColumnConstraint
  unfolding paren_expr_of
  column_checked t = do
    x ← paren_expr_of r
    pure (record (column_of column_check) { expr = an_expr x })

  -- The case DEFAULT, behind it.
  unfoldable pub column_defaulted : Token → Parser ColumnConstraint
  unfolding parse_default_value
  column_defaulted t = do
    x ← parse_default_value r
    pure (record (column_of column_default) { expr = an_expr x })

  -- The cases GENERATED and AS, behind AS; whether GENERATED is written.
  unfoldable pub column_computed : Bool → Parser ColumnConstraint
  unfolding parse_generated
  column_computed always = do
    g ← parse_generated
    pure (record (column_of column_generated) {
      expr = an_expr (g.0);
      generated_kind = g.1;
      always_word = always;
    })

  -- The switch of `parseColumnConstraint`.
  unfoldable pub column_constraint_body : Parser ColumnConstraint
  unfolding cur_kind column_deferred column_foreign on column_conflict column_not column_primary
      column_checked column_collation column_defaulted expect column_computed syntax_error
  column_constraint_body = do
    k ← gets cur_kind
    if k == Kind.deferrable
        then column_deferred
        else if k == Kind.references
        then column_foreign
        else on Kind.null (λ t. column_conflict column_null)
            (on Kind.not column_not (
              on Kind.primary column_primary (
                on Kind.unique (λ t. column_conflict column_unique)
                  (on Kind.check column_checked (
                    on Kind.collate column_collation (
                      on Kind.default column_defaulted (
                        on Kind.generated
                          (λ t. do expect Kind.always; expect Kind.as_kw; column_computed true)
                          (on Kind.as_kw (λ t. column_computed false) syntax_error))))))))

  -- `parseColumnConstraint`, from a lookahead that starts one.
  unfoldable pub parse_column_constraint : ℕ → Parser ColumnConstraint
  unfolding column_constraint_body span
  parse_column_constraint start = do
    c ← column_constraint_body
    sp ← gets (span start)
    pure (record c { span = sp })
