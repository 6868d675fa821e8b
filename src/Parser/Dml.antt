-- ===== src/Parser/Dml.antt =====
-- parser/parse_dml.go: INSERT, UPDATE and DELETE. A statement that starts with WITH is given it and
-- where it starts.
use meyer.Base.{Bool, List, Option, [], false, if◌then◌else◌, not, true, ℕ}
use meyer.Token.{Kind}
use meyer.Ast.{Ident, QualifiedName, Span}
use meyer.Ast.Expr.{
  ExprOpt, LimitOpt, OrderingTerms, ResultColumns, SelectOpt, TableRefs, WithOpt, a_select,
  no_columns, no_limit, no_refs, no_select, no_terms, no_with,
}
use meyer.Ast.Dml.{
  ConflictAction, DeleteStmt, InsertStmt, SetPair, UpdateStmt, Upsert, conflict_abort,
  conflict_default, conflict_fail, conflict_ignore, conflict_replace, conflict_rollback,
}
use meyer.Parser.State.{Parser, gets, pure, ◌>>=◌, ◌>>◌}
use meyer.Parser.Look.{expect, span, syntax_error}
use meyer.Parser.Names.{xfullname}
use meyer.Parser.Combine.{on}
use meyer.Parser.Rec.{Rec, clause, expr_after, parse_id_list, prec_lowest}
use meyer.Parser.Window.{parse_order_by}
use meyer.Parser.From.{parse_from_list, parse_indexed_opt}
use meyer.Parser.Select.{parse_limit}
use meyer.Parser.Upsert.{parse_returning, parse_set_list, parse_upsert}

-- `parseResolveType`
unfoldable pub parse_resolve_type : Parser ConflictAction
unfolding on syntax_error
parse_resolve_type =
    on Kind.rollback (λ t. pure conflict_rollback)
      (on Kind.abort (λ t. pure conflict_abort)
        (on Kind.fail (λ t. pure conflict_fail)
          (on Kind.ignore (λ t. pure conflict_ignore)
            (on Kind.replace (λ t. pure conflict_replace) syntax_error))))

-- `parseOrConflict`
unfoldable pub parse_or_conflict : Parser ConflictAction
unfolding clause parse_resolve_type
parse_or_conflict = clause conflict_default Kind.or parse_resolve_type

-- The names in parentheses that may follow a table.
unfoldable pub parse_id_list_opt : Parser (List Ident)
unfolding clause parse_id_list expect
parse_id_list_opt = clause [] Kind.lp (do names ← parse_id_list; expect Kind.rp; pure names)

-- What `insertTarget` reads.
pub record InsertTarget : Type 0 where
  pub replace : Bool
  pub or_conflict : ConflictAction
  pub table : QualifiedName
  pub alias : Option Ident
  pub columns : List Ident

-- `insert_cmd`
unfoldable pub parse_insert_cmd : Parser (Bool × ConflictAction)
unfolding on expect parse_or_conflict
parse_insert_cmd =
    on Kind.replace (λ t. pure (true, conflict_default))
      (do expect Kind.insert; c ← parse_or_conflict; pure (false, c))

-- `insertTarget`
unfoldable pub insert_target : Parser InsertTarget
unfolding parse_insert_cmd expect xfullname parse_id_list_opt
insert_target = do
  cmd ← parse_insert_cmd
  expect Kind.into
  name ← xfullname
  cols ← parse_id_list_opt
  pure (record {
    replace = cmd.0;
    or_conflict = cmd.1;
    table = name.0;
    alias = name.1;
    columns = cols;
  })

-- What `deleteCore` reads.
pub record DeleteCore : Type 0 where
  pub table : QualifiedName
  pub alias : Option Ident
  pub indexed_by : Option Ident
  pub not_indexed : Bool

-- `deleteCore`
unfoldable pub delete_core : Parser DeleteCore
unfolding expect xfullname parse_indexed_opt
delete_core = do
  expect Kind.delete
  expect Kind.from
  name ← xfullname
  indexed ← parse_indexed_opt
  pure (record { table = name.0; alias = name.1; indexed_by = indexed.0; not_indexed = indexed.1 })

-- What `updateCore` reads.
pub record UpdateCore : Type 0 where
  pub or_conflict : ConflictAction
  pub table : QualifiedName
  pub alias : Option Ident
  pub indexed_by : Option Ident
  pub not_indexed : Bool
  pub set : List SetPair
  pub from : TableRefs

abbrev insert_stmt :
    WithOpt → InsertTarget → SelectOpt → Bool → List Upsert → ResultColumns → Span → InsertStmt
insert_stmt w tgt sel defaults us cols sp = record {
  span = sp;
  with = w;
  replace = tgt.replace;
  or_conflict = tgt.or_conflict;
  table = tgt.table;
  alias = tgt.alias;
  columns = tgt.columns;
  select = sel;
  default_values = defaults;
  upserts = us;
  returning = cols;
}

abbrev update_stmt :
    WithOpt → UpdateCore → ExprOpt → ResultColumns → OrderingTerms → LimitOpt → Span → UpdateStmt
update_stmt w c x cols order lim sp = record {
  span = sp;
  with = w;
  or_conflict = c.or_conflict;
  table = c.table;
  alias = c.alias;
  indexed_by = c.indexed_by;
  not_indexed = c.not_indexed;
  set = c.set;
  from = c.from;
  filter = x;
  returning = cols;
  order_by = order;
  limit = lim;
}

abbrev delete_stmt :
    WithOpt → DeleteCore → ExprOpt → ResultColumns → OrderingTerms → LimitOpt → Span → DeleteStmt
delete_stmt w c x cols order lim sp = record {
  span = sp;
  with = w;
  table = c.table;
  alias = c.alias;
  indexed_by = c.indexed_by;
  not_indexed = c.not_indexed;
  filter = x;
  returning = cols;
  order_by = order;
  limit = lim;
}

module _ (r : Rec) where
  -- The end of an INSERT with DEFAULT VALUES, behind DEFAULT.
  unfoldable pub insert_defaults : WithOpt → InsertTarget → ℕ → Parser InsertStmt
  unfolding expect parse_returning span
  insert_defaults w tgt start = do
    expect Kind.values
    cols ← parse_returning r
    sp ← gets (span start)
    pure (insert_stmt w tgt no_select true [] cols sp)

  -- The end of an INSERT with a query, as a trigger has it too.
  unfoldable pub insert_select : WithOpt → InsertTarget → ℕ → Parser InsertStmt
  unfolding parse_upsert span
  insert_select w tgt start = do
    sel ← r.parse_select
    u ← parse_upsert r
    sp ← gets (span start)
    pure (insert_stmt w tgt (a_select sel) false u.0 u.1 sp)

  -- `parseInsert`
  unfoldable pub parse_insert : WithOpt → ℕ → Parser InsertStmt
  unfolding insert_target on insert_defaults insert_select
  parse_insert w start = do
    tgt ← insert_target
    on Kind.default (λ t. insert_defaults w tgt start) (insert_select w tgt start)

  -- `parseWhereOptRet`
  unfoldable pub parse_where_opt_ret : Parser (ExprOpt × ResultColumns)
  unfolding expr_after parse_returning
  parse_where_opt_ret = do
    x ← expr_after r Kind.where_kw prec_lowest
    cols ← parse_returning r
    pure (x, cols)

  -- `parseUpdateDeleteLimit`
  unfoldable pub parse_update_delete_limit : Parser (OrderingTerms × LimitOpt)
  unfolding parse_order_by parse_limit
  parse_update_delete_limit = do
    enabled ← gets (λ s. s.opts.update_delete_limit)
    if not enabled
        then pure (no_terms, no_limit)
        else (do order ← parse_order_by r; lim ← parse_limit r; pure (order, lim))

  -- `updateCore`
  unfoldable pub update_core : Parser UpdateCore
  unfolding expect parse_or_conflict xfullname parse_indexed_opt parse_set_list clause
      parse_from_list
  update_core = do
    expect Kind.update
    c ← parse_or_conflict
    name ← xfullname
    indexed ← parse_indexed_opt
    expect Kind.set
    pairs ← parse_set_list r
    from ← clause no_refs Kind.from (parse_from_list r)
    pure (record {
      or_conflict = c;
      table = name.0;
      alias = name.1;
      indexed_by = indexed.0;
      not_indexed = indexed.1;
      set = pairs;
      from = from;
    })

  -- `parseUpdate`
  unfoldable pub parse_update : WithOpt → ℕ → Parser UpdateStmt
  unfolding update_core parse_where_opt_ret parse_update_delete_limit span
  parse_update w start = do
    c ← update_core
    b ← parse_where_opt_ret
    tail ← parse_update_delete_limit
    sp ← gets (span start)
    pure (update_stmt w c b.0 b.1 tail.0 tail.1 sp)

  -- `parseDelete`
  unfoldable pub parse_delete : WithOpt → ℕ → Parser DeleteStmt
  unfolding delete_core parse_where_opt_ret parse_update_delete_limit span
  parse_delete w start = do
    c ← delete_core
    b ← parse_where_opt_ret
    tail ← parse_update_delete_limit
    sp ← gets (span start)
    pure (delete_stmt w c b.0 b.1 tail.0 tail.1 sp)

  -- The case UPDATE of `parseTriggerCmd`.
  unfoldable pub trigger_update : ℕ → Parser UpdateStmt
  unfolding update_core expr_after span
  trigger_update start = do
    c ← update_core
    x ← expr_after r Kind.where_kw prec_lowest
    sp ← gets (span start)
    pure (update_stmt no_with c x no_columns no_terms no_limit sp)

  -- Its case INSERT or REPLACE.
  unfoldable pub trigger_insert : ℕ → Parser InsertStmt
  unfolding insert_target insert_select
  trigger_insert start = do tgt ← insert_target; insert_select no_with tgt start

  -- Its case DELETE.
  unfoldable pub trigger_delete : ℕ → Parser DeleteStmt
  unfolding delete_core expr_after span
  trigger_delete start = do
    c ← delete_core
    x ← expr_after r Kind.where_kw prec_lowest
    sp ← gets (span start)
    pure (delete_stmt no_with c x no_columns no_terms no_limit sp)
