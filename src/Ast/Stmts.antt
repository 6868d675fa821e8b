-- ===== src/Ast/Stmts.antt =====
-- ast/ast.go: statements, with `SetSpan`, `Pos` and `End`.
use meyer.Base.{Bool, refl, ◌≡◌}
use meyer.Ast.{Span}
use meyer.Ast.Expr.{Expr, select_stmt}
use meyer.Ast.Ddl.{
  Command, Dml, alter_table, create_index, create_table, create_trigger, create_view,
  create_virtual_table, dml, dml_delete, dml_insert, dml_select, dml_update, drop_index, drop_table,
  drop_trigger, drop_view,
}
use meyer.Ast.Misc.{
  MiscStmt, analyze, attach, begin, commit, detach, pragma, reindex, release, rollback, savepoint,
  vacuum,
}

pub data Stmt : Type 0 where
  misc : MiscStmt Expr → Stmt
  command : Command → Stmt

-- `ExplainStmt`
pub record ExplainStmt : Type 0 where
  pub span : Span
  pub query_plan : Bool
  pub stmt : Stmt

-- What `parseExplainable` returns.
pub data Explainable : Type 0 where
  explain : ExplainStmt → Explainable
  plain : Stmt → Explainable

module _ {E : Type 0} where
  -- `SetSpan` of the statements of ast/misc.go
  unfoldable pub set_misc_span : Span → MiscStmt E → MiscStmt E
  set_misc_span sp (begin n) = begin (record n { span = sp })
  set_misc_span sp (commit n) = commit (record n { span = sp })
  set_misc_span sp (rollback n) = rollback (record n { span = sp })
  set_misc_span sp (savepoint n) = savepoint (record n { span = sp })
  set_misc_span sp (release n) = release (record n { span = sp })
  set_misc_span sp (attach n) = attach (record n { span = sp })
  set_misc_span sp (detach n) = detach (record n { span = sp })
  set_misc_span sp (pragma n) = pragma (record n { span = sp })
  set_misc_span sp (vacuum n) = vacuum (record n { span = sp })
  set_misc_span sp (analyze n) = analyze (record n { span = sp })
  set_misc_span sp (reindex n) = reindex (record n { span = sp })

  -- `Pos` and `End` of a statement
  unfoldable pub misc_span : MiscStmt E → Span
  misc_span (begin n) = n.span
  misc_span (commit n) = n.span
  misc_span (rollback n) = n.span
  misc_span (savepoint n) = n.span
  misc_span (release n) = n.span
  misc_span (attach n) = n.span
  misc_span (detach n) = n.span
  misc_span (pragma n) = n.span
  misc_span (vacuum n) = n.span
  misc_span (analyze n) = n.span
  misc_span (reindex n) = n.span

  pub span-set_misc_span : (sp : Span) (n : MiscStmt E) → misc_span (set_misc_span sp n) ≡ sp
  unfolding misc_span set_misc_span
  span-set_misc_span sp (begin n) = refl
  span-set_misc_span sp (commit n) = refl
  span-set_misc_span sp (rollback n) = refl
  span-set_misc_span sp (savepoint n) = refl
  span-set_misc_span sp (release n) = refl
  span-set_misc_span sp (attach n) = refl
  span-set_misc_span sp (detach n) = refl
  span-set_misc_span sp (pragma n) = refl
  span-set_misc_span sp (vacuum n) = refl
  span-set_misc_span sp (analyze n) = refl
  span-set_misc_span sp (reindex n) = refl

-- `SetSpan` of a query and of the statements of ast/dml.go
unfoldable pub set_dml_span : Span → Dml → Dml
set_dml_span sp (dml_select (select_stmt _ w cs ops)) = dml_select (select_stmt sp w cs ops)
set_dml_span sp (dml_insert n) = dml_insert (record n { span = sp })
set_dml_span sp (dml_update n) = dml_update (record n { span = sp })
set_dml_span sp (dml_delete n) = dml_delete (record n { span = sp })

-- `Pos` and `End` of one
unfoldable pub dml_span : Dml → Span
dml_span (dml_select (select_stmt sp w cs ops)) = sp
dml_span (dml_insert n) = n.span
dml_span (dml_update n) = n.span
dml_span (dml_delete n) = n.span

pub span-set_dml_span : (sp : Span) (n : Dml) → dml_span (set_dml_span sp n) ≡ sp
unfolding dml_span set_dml_span
span-set_dml_span sp (dml_select (select_stmt _ w cs ops)) = refl
span-set_dml_span sp (dml_insert n) = refl
span-set_dml_span sp (dml_update n) = refl
span-set_dml_span sp (dml_delete n) = refl

-- `SetSpan` of the statements of ast/ddl.go
unfoldable pub set_command_span : Span → Command → Command
unfolding set_dml_span
set_command_span sp (dml n) = dml (set_dml_span sp n)
set_command_span sp (create_table n) = create_table (record n { span = sp })
set_command_span sp (create_index n) = create_index (record n { span = sp })
set_command_span sp (create_view n) = create_view (record n { span = sp })
set_command_span sp (create_trigger n) = create_trigger (record n { span = sp })
set_command_span sp (create_virtual_table n) = create_virtual_table (record n { span = sp })
set_command_span sp (drop_table n) = drop_table (record n { span = sp })
set_command_span sp (drop_view n) = drop_view (record n { span = sp })
set_command_span sp (drop_index n) = drop_index (record n { span = sp })
set_command_span sp (drop_trigger n) = drop_trigger (record n { span = sp })
set_command_span sp (alter_table n) = alter_table (record n { span = sp })

unfoldable pub command_span : Command → Span
unfolding dml_span
command_span (dml n) = dml_span n
command_span (create_table n) = n.span
command_span (create_index n) = n.span
command_span (create_view n) = n.span
command_span (create_trigger n) = n.span
command_span (create_virtual_table n) = n.span
command_span (drop_table n) = n.span
command_span (drop_view n) = n.span
command_span (drop_index n) = n.span
command_span (drop_trigger n) = n.span
command_span (alter_table n) = n.span

pub span-set_command_span : (sp : Span) (n : Command) → command_span (set_command_span sp n) ≡ sp
unfolding command_span set_command_span
span-set_command_span sp (dml n) = span-set_dml_span sp n
span-set_command_span sp (create_table n) = refl
span-set_command_span sp (create_index n) = refl
span-set_command_span sp (create_view n) = refl
span-set_command_span sp (create_trigger n) = refl
span-set_command_span sp (create_virtual_table n) = refl
span-set_command_span sp (drop_table n) = refl
span-set_command_span sp (drop_view n) = refl
span-set_command_span sp (drop_index n) = refl
span-set_command_span sp (drop_trigger n) = refl
span-set_command_span sp (alter_table n) = refl

-- `SetSpan`
unfoldable pub set_span : Span → Explainable → Explainable
unfolding set_misc_span set_command_span
set_span sp (explain n) = explain (record n { span = sp })
set_span sp (plain (misc n)) = plain (misc (set_misc_span sp n))
set_span sp (plain (command n)) = plain (command (set_command_span sp n))

-- `Pos` and `End`
unfoldable pub span_of_stmt : Explainable → Span
unfolding misc_span command_span
span_of_stmt (explain n) = n.span
span_of_stmt (plain (misc n)) = misc_span n
span_of_stmt (plain (command n)) = command_span n

pub span-set_span : (sp : Span) (n : Explainable) → span_of_stmt (set_span sp n) ≡ sp
unfolding span_of_stmt set_span
span-set_span sp (explain n) = refl
span-set_span sp (plain (misc n)) = span-set_misc_span sp n
span-set_span sp (plain (command n)) = span-set_command_span sp n
