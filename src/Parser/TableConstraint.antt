-- ===== src/Parser/TableConstraint.antt =====
-- parser/parse_ddl.go: the constraints of tables.
use meyer.Base.{Bool, Option, [], false, if◌then◌else◌, none, some, true, ℕ}
use meyer.Token.{Kind, Token}
use meyer.Ast.Expr.{an_expr, no_expr, no_terms}
use meyer.Ast.Dml.{conflict_default}
use meyer.Ast.Ddl.{
  DeferClause, TableConstraint, TableConstraintKind, table_check, table_foreign_key,
  table_primary_key, table_unique,
}
use meyer.Parser.State.{Parser, at, gets, pure, ◌>>=◌, ◌>>◌}
use meyer.Parser.Look.{accept, expect, span, syntax_error}
use meyer.Parser.Combine.{on}
use meyer.Parser.Rec.{Rec, clause, cur_pos, extent}
use meyer.Parser.Window.{parse_sort_list}
use meyer.Parser.Select.{parse_indexed_column_list}
use meyer.Parser.References.{parse_defer_clause, parse_on_conflict, parse_references}
use meyer.Parser.Default.{paren_expr_of}

abbrev table_of : TableConstraintKind → TableConstraint
table_of k = record {
  span = extent 0 0;
  name = none;
  kind = k;
  columns = no_terms;
  auto_increment = false;
  on_conflict = conflict_default;
  expr = no_expr;
  fk_columns = [];
  references = none;
  deferrable = none;
}

-- The clause that may follow a foreign key of a table.
unfoldable pub parse_defer_opt : Parser (Option DeferClause)
unfolding cur_pos at parse_defer_clause clause
parse_defer_opt = do
  start ← gets cur_pos
  here ← gets (at Kind.deferrable)
  if here
      then (do d ← parse_defer_clause start false; pure (some d))
      else clause none Kind.not (do d ← parse_defer_clause start true; pure (some d))

-- The case FOREIGN of `parseTableConstraint`, behind it.
unfoldable pub table_foreign : Token → Parser TableConstraint
unfolding expect parse_indexed_column_list parse_references parse_defer_opt
table_foreign t = do
  expect Kind.key
  expect Kind.lp
  cs ← parse_indexed_column_list
  expect Kind.rp
  fk ← parse_references
  d ← parse_defer_opt
  pure (record (table_of table_foreign_key) {
    fk_columns = cs;
    references = some fk;
    deferrable = d;
  })

module _ (r : Rec) where
  -- The cases PRIMARY and UNIQUE of `parseTableConstraint`, behind the keywords.
  unfoldable pub table_key : TableConstraintKind → Bool → Parser TableConstraint
  unfolding expect parse_sort_list accept parse_on_conflict
  table_key k with_auto = do
    expect Kind.lp
    ts ← parse_sort_list r
    auto ← if with_auto then accept Kind.autoincr else pure false
    expect Kind.rp
    c ← parse_on_conflict
    pure (record (table_of k) { columns = ts; auto_increment = auto; on_conflict = c })

  -- The case CHECK, behind it.
  unfoldable pub table_checked : Token → Parser TableConstraint
  unfolding paren_expr_of parse_on_conflict
  table_checked t = do
    x ← paren_expr_of r
    c ← parse_on_conflict
    pure (record (table_of table_check) { expr = an_expr x; on_conflict = c })

  -- The switch of `parseTableConstraint`.
  unfoldable pub table_constraint_body : Parser TableConstraint
  unfolding on expect table_key table_checked table_foreign syntax_error
  table_constraint_body =
      on Kind.primary (λ t. do expect Kind.key; table_key table_primary_key true)
        (on Kind.unique (λ t. table_key table_unique false)
          (on Kind.check table_checked (on Kind.foreign table_foreign syntax_error)))

  -- `parseTableConstraint`
  unfoldable pub parse_table_constraint : ℕ → Parser TableConstraint
  unfolding table_constraint_body span
  parse_table_constraint start = do
    c ← table_constraint_body
    sp ← gets (span start)
    pure (record c { span = sp })
