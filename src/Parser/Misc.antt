-- ===== src/Parser/Misc.antt =====
-- parser/parse_misc.go: the statements of transactions, attached databases, pragmas and
-- maintenance, over the parser of expressions, `p.parseExpr(precLowest)`.
use meyer.Base.{
  Bool, Bytes, Option, [], false, if◌then◌else◌, map, none, not, some, true, ◌==◌, ◌||◌, nat_eq,
}
use meyer.Token.{Kind, kind_eq}
use meyer.Keywords.{is_name}
use meyer.Ast.{Ident, QualifiedName}
use meyer.Ast.Misc.{
  AnalyzeStmt, AttachStmt, BeginStmt, CommitStmt, DetachStmt, PragmaStmt, ReindexStmt, ReleaseStmt,
  RollbackStmt, SavepointStmt, TransactionType, VacuumStmt, txn_deferred, txn_exclusive,
  txn_immediate,
}
use meyer.Parser.State.{Parser, at, cur_kind, gets, pure, ◌>>=◌, ◌>>◌}
use meyer.Parser.Look.{accept, advance, expect, span}
use meyer.Parser.Names.{expect_name, parse_signed_number, qualified_name, src_text}
use meyer.Keywords.Table.{upper}

-- The switch of `parseBegin` on the lookahead's kind.
unfoldable pub transaction_type : Kind → Option TransactionType
transaction_type k =
    if k == Kind.deferred
    then some txn_deferred
    else if k == Kind.immediate
    then some txn_immediate
    else if k == Kind.exclusive
    then some txn_exclusive
    else none

unfoldable pub parse_trans_type : Option TransactionType → Parser (TransactionType × Bool)
unfolding advance
parse_trans_type none = pure (txn_deferred, false)
parse_trans_type (some ty) = do advance; pure (ty, true)

-- `parseTransOpt`
unfoldable pub parse_trans_opt : Parser (Bool × Option Ident)
unfolding accept cur_kind expect_name
parse_trans_opt = do
  written ← accept Kind.transaction
  k ← gets cur_kind
  if not written
      then pure (false, none)
      else if is_name k
      then (do name ← expect_name; pure (true, some name))
      else pure (true, none)

-- `parseBegin`
unfoldable pub parse_begin : Parser BeginStmt
unfolding expect cur_kind transaction_type parse_trans_type parse_trans_opt span
parse_begin = do
  t ← expect Kind.begin
  k ← gets cur_kind
  ty ← parse_trans_type (transaction_type k)
  opt ← parse_trans_opt
  extent ← gets (span t.pos)
  pure (record {
    span = extent;
    type = ty.0;
    has_type = ty.1;
    has_transaction = opt.0;
    name = opt.1;
  })

-- `parseCommit`; `strings.ToUpper` meets the letters of COMMIT and END only.
unfoldable pub parse_commit : Parser CommitStmt
unfolding advance parse_trans_opt span
parse_commit = do
  t ← advance
  z ← src_text t
  opt ← parse_trans_opt
  extent ← gets (span t.pos)
  pure (record { span = extent; keyword = map upper z; has_transaction = opt.0; name = opt.1 })

-- `parseRollback`
unfoldable pub parse_rollback : Parser RollbackStmt
unfolding expect parse_trans_opt accept expect_name span
parse_rollback = do
  t ← expect Kind.rollback
  opt ← parse_trans_opt
  to ← accept Kind.to
  if to
      then (do
        keyword ← accept Kind.savepoint
        target ← expect_name
        extent ← gets (span t.pos)
        pure (record {
          span = extent;
          has_transaction = opt.0;
          name = opt.1;
          savepoint = some target;
          savepoint_keyword = keyword;
        }))
      else (do
        extent ← gets (span t.pos)
        pure (record {
          span = extent;
          has_transaction = opt.0;
          name = opt.1;
          savepoint = none;
          savepoint_keyword = false;
        }))

-- `parseSavepoint`
unfoldable pub parse_savepoint : Parser SavepointStmt
unfolding expect expect_name span
parse_savepoint = do
  t ← expect Kind.savepoint
  name ← expect_name
  extent ← gets (span t.pos)
  pure (record { span = extent; name = name })

-- `parseRelease`
unfoldable pub parse_release : Parser ReleaseStmt
unfolding expect accept expect_name span
parse_release = do
  t ← expect Kind.release
  keyword ← accept Kind.savepoint
  name ← expect_name
  extent ← gets (span t.pos)
  pure (record { span = extent; savepoint_keyword = keyword; name = name })

-- `parsePragmaValue`
unfoldable pub parse_pragma_value : Parser Bytes
unfolding cur_kind parse_signed_number advance expect_name
parse_pragma_value = do
  k ← gets cur_kind
  if k == Kind.plus || k == Kind.minus
      then parse_signed_number
      else if k == Kind.integer
          || k == Kind.float
          || k == Kind.on
          || k == Kind.delete
          || k == Kind.default
      then (advance >>= src_text)
      else (do name ← expect_name; pure name.raw)

-- The cases of `parsePragma` behind the name: the value, whether it is written, the parentheses.
unfoldable pub parse_pragma_tail : Parser (Bytes × Bool × Bool)
unfolding accept at advance parse_pragma_value expect
parse_pragma_tail = do
  eq ← accept Kind.eq
  lp ← gets (at Kind.lp)
  if eq
      then (do z ← parse_pragma_value; pure (z, true, false))
      else if lp
      then (do advance; z ← parse_pragma_value; expect Kind.rp; pure (z, true, true))
      else pure ([], false, false)

-- `parsePragma`
unfoldable pub parse_pragma : Parser PragmaStmt
unfolding expect qualified_name parse_pragma_tail span
parse_pragma = do
  t ← expect Kind.pragma
  name ← qualified_name
  tail ← parse_pragma_tail
  extent ← gets (span t.pos)
  pure (record { span = extent; name = name; value = tail.0; paren = tail.2; has_value = tail.1 })

-- The optional name of ANALYZE and REINDEX.
unfoldable pub parse_name_opt : Parser (Option QualifiedName)
unfolding cur_kind qualified_name
parse_name_opt = do
  k ← gets cur_kind
  if is_name k then (do name ← qualified_name; pure (some name)) else pure none

-- `parseAnalyze`
unfoldable pub parse_analyze : Parser AnalyzeStmt
unfolding expect parse_name_opt span
parse_analyze = do
  t ← expect Kind.analyze
  name ← parse_name_opt
  extent ← gets (span t.pos)
  pure (record { span = extent; name = name })

-- `parseReindex`
unfoldable pub parse_reindex : Parser ReindexStmt
unfolding expect parse_name_opt span
parse_reindex = do
  t ← expect Kind.reindex
  name ← parse_name_opt
  extent ← gets (span t.pos)
  pure (record { span = extent; name = name })

-- `if p.accept(k) { … = p.parseExpr(precLowest) }`
unfoldable pub parse_expr_after : {Expr : Type 0} → Parser Expr → Kind → Parser (Option Expr)
unfolding accept
parse_expr_after parse_expr k = do
  written ← accept k
  if written then (do e ← parse_expr; pure (some e)) else pure none

-- `parseAttach`
unfoldable pub parse_attach : {Expr : Type 0} → Parser Expr → Parser (AttachStmt Expr)
unfolding expect accept parse_expr_after span
parse_attach parse_expr = do
  t ← expect Kind.attach
  keyword ← accept Kind.database
  file ← parse_expr
  expect Kind.as_kw
  name ← parse_expr
  key ← parse_expr_after parse_expr Kind.key
  extent ← gets (span t.pos)
  pure (record { span = extent; has_database = keyword; file = file; name = name; key = key })

-- `parseDetach`
unfoldable pub parse_detach : {Expr : Type 0} → Parser Expr → Parser (DetachStmt Expr)
unfolding expect accept span
parse_detach parse_expr = do
  t ← expect Kind.detach
  keyword ← accept Kind.database
  name ← parse_expr
  extent ← gets (span t.pos)
  pure (record { span = extent; has_database = keyword; name = name })

-- The optional schema of VACUUM.
unfoldable pub parse_schema_opt : Parser (Option Ident)
unfolding cur_kind expect_name
parse_schema_opt = do
  k ← gets cur_kind
  if is_name k then (do name ← expect_name; pure (some name)) else pure none

-- `parseVacuum`
unfoldable pub parse_vacuum : {Expr : Type 0} → Parser Expr → Parser (VacuumStmt Expr)
unfolding expect parse_schema_opt parse_expr_after span
parse_vacuum parse_expr = do
  t ← expect Kind.vacuum
  schema ← parse_schema_opt
  into ← parse_expr_after parse_expr Kind.into
  extent ← gets (span t.pos)
  pure (record { span = extent; schema = schema; into = into })
