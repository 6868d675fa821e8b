-- ===== src/Parser/Script.antt =====
-- parser/parser.go: the dispatch on a statement's keyword, the script loop and the entry points.
use meyer.Base.{
  Bool, List, Option, [], false, if◌then◌else◌, length, none, not, some, suc, true, zero, ℕ, ◌-◌,
  ◌==◌, ◌||◌, ◌∷◌, nat_eq,
}
use meyer.Token.{Kind, kind_eq}
use meyer.Ast.Expr.{Expr, no_with}
use meyer.Ast.Ddl.{Command, dml, dml_delete, dml_insert, dml_update}
use meyer.Ast.Misc.{
  MiscStmt, analyze, attach, begin, commit, detach, pragma, reindex, release, rollback, savepoint,
  vacuum,
}
use meyer.Ast.Stmts.{Explainable, Stmt, explain, misc, plain, set_span, command}
use meyer.Parser.State.{Parser, at, cur, flush_deferred, gets, out_of_fuel, pure, ◌>>=◌, ◌>>◌}
use meyer.Parser.Look.{advance, expect, prev_end, span, syntax_error}
use meyer.Parser.Rec.{extent, prec_lowest}
use meyer.Parser.Knot.{grammar, parse_expr}
use meyer.Parser.Dml.{parse_delete, parse_insert, parse_update}
use meyer.Parser.Drop.{parse_drop}
use meyer.Parser.Alter.{parse_alter_table}
use meyer.Parser.Ddl.{parse_create, parse_select_stmt_or_dml}
use meyer.Parser.Misc.{
  parse_analyze, parse_attach, parse_begin, parse_commit, parse_detach, parse_pragma, parse_reindex,
  parse_release, parse_rollback, parse_savepoint, parse_vacuum,
}

-- What the switch of `parseCmd` picks.
pub data Cmd : Type 0 where
  select_or_dml insert_cmd update_cmd delete_cmd create_cmd drop_cmd alter_cmd : Cmd
  begin_cmd commit_cmd rollback_cmd savepoint_cmd release_cmd attach_cmd : Cmd
  detach_cmd pragma_cmd vacuum_cmd analyze_cmd reindex_cmd : Cmd

abbrev is_select_or_dml : Kind → Bool
is_select_or_dml k = k == Kind.select || k == Kind.values || k == Kind.with

-- The switch of `parseCmd`.
unfoldable pub cmd_of : Kind → Option Cmd
cmd_of k =
    if is_select_or_dml k
    then some select_or_dml
    else if k == Kind.insert || k == Kind.replace
    then some insert_cmd
    else if k == Kind.update
    then some update_cmd
    else if k == Kind.delete
    then some delete_cmd
    else if k == Kind.create
    then some create_cmd
    else if k == Kind.drop
    then some drop_cmd
    else if k == Kind.alter
    then some alter_cmd
    else if k == Kind.begin
    then some begin_cmd
    else if k == Kind.commit || k == Kind.end
    then some commit_cmd
    else if k == Kind.rollback
    then some rollback_cmd
    else if k == Kind.savepoint
    then some savepoint_cmd
    else if k == Kind.release
    then some release_cmd
    else if k == Kind.attach
    then some attach_cmd
    else if k == Kind.detach
    then some detach_cmd
    else if k == Kind.pragma
    then some pragma_cmd
    else if k == Kind.vacuum
    then some vacuum_cmd
    else if k == Kind.analyze
    then some analyze_cmd
    else if k == Kind.reindex
    then some reindex_cmd
    else none

-- `if p.at(token.QUERY) { … }`
unfoldable pub parse_query_plan : Parser Bool
unfolding at advance expect
parse_query_plan = do
  query ← gets (at Kind.query)
  if query then (do advance; expect Kind.plan; pure true) else pure false

-- The end of a statement: its semicolon, or the last token where the input ends.
unfoldable pub parse_end : Parser ℕ
unfolding prev_end at cur advance syntax_error
parse_end = do
  end ← gets prev_end
  semi ← gets (at Kind.semi)
  eof ← gets (at Kind.eof)
  if semi
      then (do t ← gets cur; advance; pure t.end)
      else if not eof
      then syntax_error
      else pure end

abbrev as_command : {A : Type 0} → (A → Command) → Parser A → Parser Stmt
as_command build m = do n ← m; pure (command (build n))

abbrev as_misc : {A : Type 0} → (A → MiscStmt Expr) → Parser A → Parser Stmt
as_misc build m = do n ← m; pure (misc (build n))

-- `p.parseExpr(precLowest)`
abbrev parse_whole : Parser Expr
parse_whole = parse_expr prec_lowest

-- The case of `parseCmd` that is picked; `pos` is the lookahead's offset.
unfoldable pub run_cmd : Cmd → ℕ → Parser Stmt
unfolding parse_select_stmt_or_dml grammar parse_insert parse_update parse_delete parse_create
    parse_drop parse_alter_table parse_begin parse_commit parse_rollback parse_savepoint
    parse_release parse_attach parse_detach parse_pragma parse_vacuum parse_analyze parse_reindex
run_cmd select_or_dml pos = as_command dml (parse_select_stmt_or_dml grammar)
run_cmd insert_cmd pos = as_command (λ n. dml (dml_insert n)) (parse_insert grammar no_with pos)
run_cmd update_cmd pos = as_command (λ n. dml (dml_update n)) (parse_update grammar no_with pos)
run_cmd delete_cmd pos = as_command (λ n. dml (dml_delete n)) (parse_delete grammar no_with pos)
run_cmd create_cmd pos = as_command (λ n. n) (parse_create grammar)
run_cmd drop_cmd pos = as_command (λ n. n) parse_drop
run_cmd alter_cmd pos = as_command (λ n. n) (parse_alter_table grammar)
run_cmd begin_cmd pos = as_misc begin parse_begin
run_cmd commit_cmd pos = as_misc commit parse_commit
run_cmd rollback_cmd pos = as_misc rollback parse_rollback
run_cmd savepoint_cmd pos = as_misc savepoint parse_savepoint
run_cmd release_cmd pos = as_misc release parse_release
run_cmd attach_cmd pos = as_misc attach (parse_attach parse_whole)
run_cmd detach_cmd pos = as_misc detach (parse_detach parse_whole)
run_cmd pragma_cmd pos = as_misc pragma parse_pragma
run_cmd vacuum_cmd pos = as_misc vacuum (parse_vacuum parse_whole)
run_cmd analyze_cmd pos = as_misc analyze parse_analyze
run_cmd reindex_cmd pos = as_misc reindex parse_reindex

unfoldable pub run_cmd_opt : Option Cmd → ℕ → Parser Stmt
unfolding syntax_error run_cmd
run_cmd_opt none pos = syntax_error
run_cmd_opt (some c) pos = run_cmd c pos

-- `parseCmd`
unfoldable pub parse_cmd : Parser Stmt
unfolding cur run_cmd_opt cmd_of
parse_cmd = do t ← gets cur; run_cmd_opt (cmd_of t.kind) t.pos

-- `parseExplainable`
unfoldable pub parse_explainable : Parser Explainable
unfolding at parse_cmd advance parse_query_plan span
parse_explainable = do
  here ← gets (at Kind.explain)
  if not here then (do n ← parse_cmd; pure (plain n)) else (do
    t ← advance
    query ← parse_query_plan
    n ← parse_cmd
    extent ← gets (span t.pos)
    pure (explain (record { span = extent; query_plan = query; stmt = n })))

-- One statement of `parseScript`.
unfoldable pub parse_one : Parser Explainable
unfolding cur parse_explainable parse_end flush_deferred set_span
parse_one = do
  t ← gets cur
  stmt ← parse_explainable
  end ← parse_end
  flush_deferred
  pure (set_span (record { start = t.pos; stop = end }) stmt)

-- The loop of `parseScript`, with fuel for the tokens that are left.
unfoldable pub parse_stmts : ℕ → Parser (List Explainable)
unfolding at advance parse_one
parse_stmts zero = λ s. out_of_fuel
parse_stmts (suc fuel) = do
  eof ← gets (at Kind.eof)
  semi ← gets (at Kind.semi)
  if eof
      then pure []
      else if semi
      then (do advance; parse_stmts fuel)
      else (do stmt ← parse_one; rest ← parse_stmts fuel; pure (stmt ∷ rest))

-- `parseScript`
unfoldable pub parse_script : Parser (List Explainable)
unfolding parse_stmts
parse_script s = parse_stmts (length s.toks - s.i) s
