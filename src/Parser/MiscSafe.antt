-- ===== src/Parser/MiscSafe.antt =====
-- parser/parse_misc.go: the statements keep the invariant, given that the parser of expressions
-- does.
use meyer.Base.{Option, none, some}
use meyer.Token.{Kind}
use meyer.Ast.Misc.{TransactionType}
use meyer.Parser.State.{Parser}
use meyer.Parser.Safe.{Safe, Safe-bind, Safe-if, Safe-pure}
use meyer.Parser.NamesSafe.{name_rules}
use meyer.Parser.Misc.{
  parse_analyze, parse_attach, parse_begin, parse_commit, parse_detach, parse_expr_after,
  parse_name_opt, parse_pragma, parse_pragma_tail, parse_pragma_value, parse_reindex, parse_release,
  parse_rollback, parse_savepoint, parse_schema_opt, parse_trans_opt, parse_trans_type,
  parse_vacuum,
}
use meyer.Parser.Looks.{Safe-accept}

Safe-parse_trans_type : (o : Option TransactionType) → Safe (parse_trans_type o)
unfolding parse_trans_type
Safe-parse_trans_type none = search name_rules depth 24
Safe-parse_trans_type (some ty) = search name_rules depth 24

Safe-parse_trans_opt : Safe parse_trans_opt
unfolding parse_trans_opt
Safe-parse_trans_opt = search name_rules depth 24

pub Safe-parse_begin : Safe parse_begin
unfolding parse_begin
Safe-parse_begin = search (name_rules, Safe-parse_trans_type, Safe-parse_trans_opt) depth 24

pub Safe-parse_commit : Safe parse_commit
unfolding parse_commit
Safe-parse_commit = search (name_rules, Safe-parse_trans_opt) depth 24

pub Safe-parse_rollback : Safe parse_rollback
unfolding parse_rollback
Safe-parse_rollback = search (name_rules, Safe-parse_trans_opt) depth 24

pub Safe-parse_savepoint : Safe parse_savepoint
unfolding parse_savepoint
Safe-parse_savepoint = search name_rules depth 24

pub Safe-parse_release : Safe parse_release
unfolding parse_release
Safe-parse_release = search name_rules depth 24

Safe-parse_pragma_value : Safe parse_pragma_value
unfolding parse_pragma_value
Safe-parse_pragma_value = search name_rules depth 24

Safe-parse_pragma_tail : Safe parse_pragma_tail
unfolding parse_pragma_tail
Safe-parse_pragma_tail = search (name_rules, Safe-parse_pragma_value) depth 24

pub Safe-parse_pragma : Safe parse_pragma
unfolding parse_pragma
Safe-parse_pragma = search (name_rules, Safe-parse_pragma_tail) depth 24

Safe-parse_name_opt : Safe parse_name_opt
unfolding parse_name_opt
Safe-parse_name_opt = search name_rules depth 24

pub Safe-parse_analyze : Safe parse_analyze
unfolding parse_analyze
Safe-parse_analyze = search (name_rules, Safe-parse_name_opt) depth 24

pub Safe-parse_reindex : Safe parse_reindex
unfolding parse_reindex
Safe-parse_reindex = search (name_rules, Safe-parse_name_opt) depth 24

Safe-parse_schema_opt : Safe parse_schema_opt
unfolding parse_schema_opt
Safe-parse_schema_opt = search name_rules depth 24

module _ {Expr : Type 0} (parse_expr : Parser Expr) (safe_expr : Safe parse_expr) where
  Safe-parse_expr_after : (k : Kind) → Safe (parse_expr_after parse_expr k)
  unfolding parse_expr_after
  Safe-parse_expr_after k = Safe-bind _ _ (Safe-accept k) λ written.
      Safe-if written _ _ (Safe-bind _ _ safe_expr λ e. Safe-pure (some e)) (Safe-pure none)

  pub Safe-parse_attach : Safe (parse_attach parse_expr)
  unfolding parse_attach
  Safe-parse_attach = search (name_rules, Safe-parse_expr_after) depth 24

  pub Safe-parse_detach : Safe (parse_detach parse_expr)
  unfolding parse_detach
  Safe-parse_detach = search name_rules depth 24

  pub Safe-parse_vacuum : Safe (parse_vacuum parse_expr)
  unfolding parse_vacuum
  Safe-parse_vacuum = search (name_rules, Safe-parse_schema_opt, Safe-parse_expr_after) depth 24
