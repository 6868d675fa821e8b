-- ===== src/Parser/Alter.antt =====
-- parser/parse_ddl.go: ALTER TABLE.
use meyer.Base.{Option, false, none, some}
use meyer.Token.{Kind}
use meyer.Ast.{Ident, QualifiedName}
use meyer.Ast.Expr.{an_expr, no_expr}
use meyer.Ast.Dml.{ConflictAction, conflict_default}
use meyer.Ast.Ddl.{
  AlterAction, AlterTableStmt, Command, alter_add_column, alter_add_constraint_check,
  alter_drop_column, alter_drop_constraint, alter_drop_not_null, alter_rename_column,
  alter_rename_table, alter_set_not_null, alter_table,
}
use meyer.Parser.State.{Parser, gets, pure, ◌>>=◌, ◌>>◌}
use meyer.Parser.Look.{accept, expect, span, syntax_error}
use meyer.Parser.Names.{expect_name, qualified_name}
use meyer.Parser.Combine.{on}
use meyer.Parser.Rec.{Rec, extent}
use meyer.Parser.References.{parse_on_conflict}
use meyer.Parser.Default.{paren_expr_of}
use meyer.Parser.Table.{parse_column_def}

-- An action of ALTER TABLE, with no other field set; the caller gives the span.
abbrev alter_of : QualifiedName → AlterAction → AlterTableStmt
alter_of table a = record {
  span = extent 0 0;
  table = table;
  action = a;
  column_keyword = false;
  column = none;
  new_name = none;
  constraint_name = none;
  column_def = none;
  expr = no_expr;
  on_conflict = conflict_default;
}

-- RENAME with a column.
unfoldable pub alter_rename_col : QualifiedName → Parser AlterTableStmt
unfolding accept expect_name expect
alter_rename_col table = do
  keyword ← accept Kind.column_kw
  old ← expect_name
  expect Kind.to
  new ← expect_name
  pure (record (alter_of table alter_rename_column) {
    column_keyword = keyword;
    column = some old;
    new_name = some new;
  })

-- The case RENAME of `parseAlterTable`, behind it.
unfoldable pub alter_rename : QualifiedName → Parser AlterTableStmt
unfolding on expect_name alter_rename_col
alter_rename table =
    on Kind.to
      (λ t. do
        n ← expect_name
        pure (record (alter_of table alter_rename_table) { new_name = some n }))
      (alter_rename_col table)

-- DROP with a column.
unfoldable pub alter_drop_col : QualifiedName → Parser AlterTableStmt
unfolding accept expect_name
alter_drop_col table = do
  keyword ← accept Kind.column_kw
  n ← expect_name
  pure (record (alter_of table alter_drop_column) { column_keyword = keyword; column = some n })

-- The case DROP.
unfoldable pub alter_drop : QualifiedName → Parser AlterTableStmt
unfolding on expect_name alter_drop_col
alter_drop table =
    on Kind.constraint
      (λ t. do
        n ← expect_name
        pure (record (alter_of table alter_drop_constraint) { constraint_name = some n }))
      (alter_drop_col table)

-- What the case ALTER does to its column: the action and its conflict clause.
unfoldable pub alter_null : Parser (AlterAction × ConflictAction)
unfolding on expect parse_on_conflict syntax_error
alter_null =
    on Kind.drop
      (λ t. do expect Kind.not; expect Kind.null; pure (alter_drop_not_null, conflict_default))
      (on Kind.set
        (λ t. do
          expect Kind.not
          expect Kind.null
          c ← parse_on_conflict
          pure (alter_set_not_null, c))
        syntax_error)

-- The case ALTER.
unfoldable pub alter_alter : QualifiedName → Parser AlterTableStmt
unfolding accept expect_name alter_null
alter_alter table = do
  keyword ← accept Kind.column_kw
  n ← expect_name
  a ← alter_null
  pure
      (record (alter_of table a.0) { column_keyword = keyword; column = some n; on_conflict = a.1 })

module _ (r : Rec) where
  -- The check that ADD adds.
  unfoldable pub alter_add_check : QualifiedName → Option Ident → Parser AlterTableStmt
  unfolding paren_expr_of parse_on_conflict
  alter_add_check table n = do
    x ← paren_expr_of r
    c ← parse_on_conflict
    pure (record (alter_of table alter_add_constraint_check) {
      constraint_name = n;
      expr = an_expr x;
      on_conflict = c;
    })

  -- The column that ADD adds.
  unfoldable pub alter_add_col : QualifiedName → Parser AlterTableStmt
  unfolding accept parse_column_def
  alter_add_col table = do
    keyword ← accept Kind.column_kw
    d ← parse_column_def r
    pure (record (alter_of table alter_add_column) {
      column_keyword = keyword;
      column = some d.name;
      column_def = some d;
    })

  -- The case ADD.
  unfoldable pub alter_add : QualifiedName → Parser AlterTableStmt
  unfolding on expect_name expect alter_add_check alter_add_col
  alter_add table =
      on Kind.constraint
        (λ t. do n ← expect_name; expect Kind.check; alter_add_check table (some n))
        (on Kind.check (λ t. alter_add_check table none) (alter_add_col table))

  -- The switch of `parseAlterTable`.
  unfoldable pub alter_action : QualifiedName → Parser AlterTableStmt
  unfolding on alter_rename alter_add alter_drop alter_alter syntax_error
  alter_action table =
      on Kind.rename (λ t. alter_rename table)
        (on Kind.add (λ t. alter_add table)
          (on Kind.drop (λ t. alter_drop table)
            (on Kind.alter (λ t. alter_alter table) syntax_error)))

  -- `parseAlterTable`
  unfoldable pub parse_alter_table : Parser Command
  unfolding expect qualified_name alter_action span
  parse_alter_table = do
    t ← expect Kind.alter
    expect Kind.table
    table ← qualified_name
    n ← alter_action table
    sp ← gets (span t.pos)
    pure (alter_table (record n { span = sp }))
