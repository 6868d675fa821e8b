-- ===== src/Parser/Ddl.antt =====
-- parser/parse_ddl.go: CREATE, and `parseSelectStmtOrDML`.
use meyer.Base.{Bool, [], false, if◌then◌else◌, not, true, ℕ, ◌==◌, ◌||◌, nat_eq}
use meyer.Token.{Kind, kind_eq}
use meyer.Ast.Expr.{With, a_select, a_with, no_select}
use meyer.Ast.Ddl.{
  Command, CreateIndexStmt, CreateTableStmt, CreateViewStmt, Dml, create_index, create_table,
  create_trigger, create_view, create_virtual_table, dml_delete, dml_insert, dml_select, dml_update,
}
use meyer.Parser.State.{Parser, cur, cur_kind, gets, pure, ◌>>=◌, ◌>>◌}
use meyer.Parser.Look.{accept, advance, expect, span, syntax_error}
use meyer.Parser.Names.{expect_name, qualified_name}
use meyer.Parser.Combine.{on}
use meyer.Parser.Rec.{Rec, expr_after, extent, prec_lowest}
use meyer.Parser.Window.{parse_sort_list}
use meyer.Parser.Select.{parse_with, parse_with_select}
use meyer.Parser.Dml.{parse_delete, parse_insert, parse_update}
use meyer.Parser.References.{parse_indexed_columns_opt}
use meyer.Parser.Table.{parse_column_and_constraint_list, parse_table_options}
use meyer.Parser.Drop.{parse_if_not_exists}
use meyer.Parser.VirtualTable.{parse_create_virtual_table}
use meyer.Parser.Trigger.{parse_create_trigger}

module _ (r : Rec) where
  -- `parseCreateTable` with AS.
  unfoldable pub create_table_as : CreateTableStmt → ℕ → Parser CreateTableStmt
  unfolding span
  create_table_as n start = do
    sel ← r.parse_select
    sp ← gets (span start)
    pure (record n { span = sp; select = a_select sel })

  -- `parseCreateTable` with columns.
  unfoldable pub create_table_columns : CreateTableStmt → ℕ → Parser CreateTableStmt
  unfolding expect parse_column_and_constraint_list parse_table_options span
  create_table_columns n start = do
    expect Kind.lp
    list ← parse_column_and_constraint_list r
    expect Kind.rp
    opts ← parse_table_options
    sp ← gets (span start)
    pure (record n { span = sp; columns = list.0; constraints = list.1; options = opts })

  -- `parseCreateTable`
  unfoldable pub parse_create_table : ℕ → Bool → Parser CreateTableStmt
  unfolding expect parse_if_not_exists qualified_name span on create_table_as create_table_columns
  parse_create_table start temp = do
    expect Kind.table
    guarded ← parse_if_not_exists
    name ← qualified_name
    let n : CreateTableStmt = record {
      span = extent 0 0;
      temp = temp;
      if_not_exists = guarded;
      name = name;
      columns = [];
      constraints = [];
      options = [];
      select = no_select;
    }
    on Kind.as_kw (λ t. create_table_as n start) (create_table_columns n start)

  -- `parseCreateIndex`
  unfoldable pub parse_create_index : ℕ → Bool → Parser CreateIndexStmt
  unfolding expect parse_if_not_exists qualified_name expect_name parse_sort_list expr_after span
  parse_create_index start unique = do
    expect Kind.index
    guarded ← parse_if_not_exists
    name ← qualified_name
    expect Kind.on
    table ← expect_name
    expect Kind.lp
    ts ← parse_sort_list r
    expect Kind.rp
    x ← expr_after r Kind.where_kw prec_lowest
    sp ← gets (span start)
    pure (record {
      span = sp;
      unique = unique;
      if_not_exists = guarded;
      name = name;
      table = table;
      columns = ts;
      filter = x;
    })

  -- `parseCreateView`
  unfoldable pub parse_create_view : ℕ → Bool → Parser CreateViewStmt
  unfolding expect parse_if_not_exists qualified_name parse_indexed_columns_opt span
  parse_create_view start temp = do
    expect Kind.view
    guarded ← parse_if_not_exists
    name ← qualified_name
    cols ← parse_indexed_columns_opt
    expect Kind.as_kw
    sel ← r.parse_select
    sp ← gets (span start)
    pure (record {
      span = sp;
      temp = temp;
      if_not_exists = guarded;
      name = name;
      columns = cols;
      select = sel;
    })

  -- The kinds of object that no TEMP precedes.
  unfoldable pub parse_create_other : ℕ → Parser Command
  unfolding cur_kind advance parse_create_index parse_create_virtual_table syntax_error
  parse_create_other start = do
    k ← gets cur_kind
    if k == Kind.unique
        then (do advance; n ← parse_create_index start true; pure (create_index n))
        else if k == Kind.index
        then (do n ← parse_create_index start false; pure (create_index n))
        else if k == Kind.virtual
        then (do n ← parse_create_virtual_table start; pure (create_virtual_table n))
        else syntax_error

  -- `parseCreate`
  unfoldable pub parse_create : Parser Command
  unfolding expect accept cur_kind parse_create_table parse_create_view parse_create_trigger
      syntax_error parse_create_other
  parse_create = do
    t ← expect Kind.create
    temp ← accept Kind.temp
    k ← gets cur_kind
    if k == Kind.table
        then (do n ← parse_create_table t.pos temp; pure (create_table n))
        else if k == Kind.view
        then (do n ← parse_create_view t.pos temp; pure (create_view n))
        else if k == Kind.trigger
        then (do n ← parse_create_trigger r t.pos temp; pure (create_trigger n))
        else if temp
        then syntax_error
        else parse_create_other t.pos

  -- `parseSelectStmtOrDML` behind its WITH clause.
  unfoldable pub parse_with_dml : With → ℕ → Parser Dml
  unfolding cur_kind parse_with_select parse_insert parse_update parse_delete syntax_error
  parse_with_dml w start = do
    k ← gets cur_kind
    if k == Kind.select || k == Kind.values
        then (do n ← parse_with_select r start (a_with w); pure (dml_select n))
        else if k == Kind.insert || k == Kind.replace
        then (do n ← parse_insert r (a_with w) start; pure (dml_insert n))
        else if k == Kind.update
        then (do n ← parse_update r (a_with w) start; pure (dml_update n))
        else if k == Kind.delete
        then (do n ← parse_delete r (a_with w) start; pure (dml_delete n))
        else syntax_error

  -- `parseSelectStmtOrDML`
  unfoldable pub parse_select_stmt_or_dml : Parser Dml
  unfolding cur parse_with parse_with_dml
  parse_select_stmt_or_dml = do
    t ← gets cur
    if not (t.kind == Kind.with)
        then (do n ← r.parse_select; pure (dml_select n))
        else (do w ← parse_with r; parse_with_dml w t.pos)
