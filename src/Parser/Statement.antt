-- ===== src/Parser/Statement.antt =====
-- parser/parser.go: one statement keeps the invariant.
use meyer.Base.{Option, none, some, ℕ, arith}
use meyer.Parser.State.{Parser}
use meyer.Ast.Expr.{WithOpt}
use meyer.Parser.Combine.{remaining}
use meyer.Parser.Rec.{prec_lowest}
use meyer.Parser.Knot.{grammar}
use meyer.Parser.KnotSafe.{Safe-parse_expr, StaysRec-grammar}
use meyer.Parser.Dml.{parse_delete, parse_insert, parse_update}
use meyer.Parser.DmlSafe.{Stays-parse_delete, Stays-parse_insert, Stays-parse_update}
use meyer.Parser.Drop.{parse_drop}
use meyer.Parser.Alter.{parse_alter_table}
use meyer.Parser.Ddl.{parse_create, parse_select_stmt_or_dml}
use meyer.Parser.DdlSafe.{
  Stays-parse_alter_table, Stays-parse_create, Stays-parse_drop, Stays-parse_select_stmt_or_dml,
}
use meyer.Parser.Stays.{Stays}
use meyer.Parser.Safe.{Safe, Safe-bind, Safe-pure}
use meyer.Parser.NamesSafe.{name_rules}
use meyer.Parser.MiscSafe.{
  Safe-parse_analyze, Safe-parse_attach, Safe-parse_begin, Safe-parse_commit, Safe-parse_detach,
  Safe-parse_pragma, Safe-parse_reindex, Safe-parse_release, Safe-parse_rollback,
  Safe-parse_savepoint, Safe-parse_vacuum,
}
use meyer.Parser.Script.{
  Cmd, alter_cmd, analyze_cmd, attach_cmd, begin_cmd, commit_cmd, create_cmd, delete_cmd,
  detach_cmd, drop_cmd, insert_cmd, parse_cmd, parse_explainable, parse_query_plan, pragma_cmd,
  reindex_cmd, release_cmd, rollback_cmd, run_cmd, run_cmd_opt, savepoint_cmd, select_or_dml,
  update_cmd, vacuum_cmd,
}
use meyer.Ast.Stmts.{misc}
use meyer.Ast.Misc.{vacuum, detach, attach}

ruleset misc_rules = (
  name_rules, Safe-parse_begin, Safe-parse_commit, Safe-parse_rollback, Safe-parse_savepoint,
  Safe-parse_release, Safe-parse_attach, Safe-parse_detach, Safe-parse_pragma, Safe-parse_vacuum,
  Safe-parse_analyze, Safe-parse_reindex,
)

pub Safe-parse_query_plan : Safe parse_query_plan
unfolding parse_query_plan
Safe-parse_query_plan = search name_rules depth 24

Safe-of : {A : Type 0} {m : Parser A} → ((n : ℕ) → Stays n m) → Safe m
Safe-of h = record { run = λ s v. (h (remaining s)).run s v (omega arith) }

Safe-parse_select_stmt_or_dml : Safe (parse_select_stmt_or_dml grammar)
Safe-parse_select_stmt_or_dml =
    Safe-of λ n. Stays-parse_select_stmt_or_dml grammar (StaysRec-grammar n)

Safe-parse_insert : (w : WithOpt) (pos : ℕ) → Safe (parse_insert grammar w pos)
Safe-parse_insert w pos = Safe-of λ n. Stays-parse_insert grammar (StaysRec-grammar n) w pos

Safe-parse_update : (w : WithOpt) (pos : ℕ) → Safe (parse_update grammar w pos)
Safe-parse_update w pos = Safe-of λ n. Stays-parse_update grammar (StaysRec-grammar n) w pos

Safe-parse_delete : (w : WithOpt) (pos : ℕ) → Safe (parse_delete grammar w pos)
Safe-parse_delete w pos = Safe-of λ n. Stays-parse_delete grammar (StaysRec-grammar n) w pos

Safe-parse_create : Safe (parse_create grammar)
Safe-parse_create = Safe-of λ n. Stays-parse_create grammar (StaysRec-grammar n)

Safe-parse_drop : Safe parse_drop
Safe-parse_drop = Safe-of λ n. Stays-parse_drop

Safe-parse_alter_table : Safe (parse_alter_table grammar)
Safe-parse_alter_table = Safe-of λ n. Stays-parse_alter_table grammar (StaysRec-grammar n)

Safe-run_cmd : (c : Cmd) (pos : ℕ) → Safe (run_cmd c pos)
unfolding run_cmd
Safe-run_cmd begin_cmd pos = search misc_rules depth 12
Safe-run_cmd commit_cmd pos = search misc_rules depth 12
Safe-run_cmd rollback_cmd pos = search misc_rules depth 12
Safe-run_cmd savepoint_cmd pos = search misc_rules depth 12
Safe-run_cmd release_cmd pos = search misc_rules depth 12
Safe-run_cmd attach_cmd pos =
    Safe-bind _ _ (Safe-parse_attach _ (Safe-parse_expr prec_lowest))
      λ n. Safe-pure (misc (attach n))
Safe-run_cmd detach_cmd pos =
    Safe-bind _ _ (Safe-parse_detach _ (Safe-parse_expr prec_lowest))
      λ n. Safe-pure (misc (detach n))
Safe-run_cmd pragma_cmd pos = search misc_rules depth 12
Safe-run_cmd vacuum_cmd pos =
    Safe-bind _ _ (Safe-parse_vacuum _ (Safe-parse_expr prec_lowest))
      λ n. Safe-pure (misc (vacuum n))
Safe-run_cmd analyze_cmd pos = search misc_rules depth 12
Safe-run_cmd reindex_cmd pos = search misc_rules depth 12
Safe-run_cmd select_or_dml pos = search (misc_rules, Safe-parse_select_stmt_or_dml) depth 12
Safe-run_cmd insert_cmd pos = search (misc_rules, Safe-parse_insert) depth 12
Safe-run_cmd update_cmd pos = search (misc_rules, Safe-parse_update) depth 12
Safe-run_cmd delete_cmd pos = search (misc_rules, Safe-parse_delete) depth 12
Safe-run_cmd create_cmd pos = search (misc_rules, Safe-parse_create) depth 12
Safe-run_cmd drop_cmd pos = search (misc_rules, Safe-parse_drop) depth 12
Safe-run_cmd alter_cmd pos = search (misc_rules, Safe-parse_alter_table) depth 12

Safe-run_cmd_opt : (o : Option Cmd) (pos : ℕ) → Safe (run_cmd_opt o pos)
unfolding run_cmd_opt
Safe-run_cmd_opt none pos = search name_rules
Safe-run_cmd_opt (some c) pos = Safe-run_cmd c pos

Safe-parse_cmd : Safe parse_cmd
unfolding parse_cmd
Safe-parse_cmd = search (name_rules, Safe-run_cmd_opt) depth 12

pub Safe-parse_explainable : Safe parse_explainable
unfolding parse_explainable
Safe-parse_explainable = search (name_rules, Safe-parse_query_plan, Safe-parse_cmd) depth 24
