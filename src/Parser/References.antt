-- ===== src/Parser/References.antt =====
-- parser/parse_ddl.go: conflict clauses and foreign keys.
use meyer.Base.{Bool, List, [], false, if◌then◌else◌, none, some, true, ℕ, ◌==◌, ◌||◌, nat_eq}
use meyer.Token.{Kind, Token, kind_eq}
use meyer.Ast.Dml.{ConflictAction, conflict_default}
use meyer.Ast.Ddl.{
  DeferClause, ForeignKeyAction, ForeignKeyArg, ForeignKeyClause, IndexedColumn, fk_cascade,
  fk_no_action, fk_restrict, fk_set_default, fk_set_null,
}
use meyer.Parser.State.{Parser, gets, pure, ◌>>=◌, ◌>>◌}
use meyer.Parser.Look.{expect, span, syntax_error}
use meyer.Parser.Names.{expect_name, src_text}
use meyer.Parser.Combine.{expect_class, many, on}
use meyer.Parser.Rec.{clause}
use meyer.Parser.Select.{parse_indexed_column_list}
use meyer.Parser.Dml.{parse_resolve_type}

-- `parseOnConflict`
unfoldable pub parse_on_conflict : Parser ConflictAction
unfolding clause expect parse_resolve_type
parse_on_conflict = clause conflict_default Kind.on (do expect Kind.conflict; parse_resolve_type)

-- `INITIALLY DEFERRED` or `INITIALLY IMMEDIATE`: whether it is deferred, and written.
unfoldable pub parse_initially : Parser (Bool × Bool)
unfolding clause on syntax_error
parse_initially =
    clause (false, false) Kind.initially
      (on Kind.deferred (λ t. pure (true, true))
        (on Kind.immediate (λ t. pure (false, true)) syntax_error))

-- `parseDeferClause`
unfoldable pub parse_defer_clause : ℕ → Bool → Parser DeferClause
unfolding expect parse_initially span
parse_defer_clause start negated = do
  expect Kind.deferrable
  b ← parse_initially
  sp ← gets (span start)
  pure (record { span = sp; not = negated; initially_deferred = b.0; has_initially = b.1 })

-- `parseRefAct`
unfoldable pub parse_ref_act : Parser ForeignKeyAction
unfolding on syntax_error expect
parse_ref_act =
    on Kind.set
      (λ t.
        on Kind.null (λ u. pure fk_set_null)
          (on Kind.default (λ u. pure fk_set_default) syntax_error))
      (on Kind.cascade (λ t. pure fk_cascade)
        (on Kind.restrict (λ t. pure fk_restrict)
          (on Kind.no_kw (λ t. do expect Kind.action; pure fk_no_action) syntax_error)))

abbrev pub is_ref_event : Kind → Bool
is_ref_event k = k == Kind.insert || k == Kind.delete || k == Kind.update

abbrev pub starts_ref_arg : Kind → Bool
starts_ref_arg k = k == Kind.match || k == Kind.on

-- The argument MATCH of `parseReferences`, behind its keyword.
unfoldable pub parse_ref_match : Token → Parser ForeignKeyArg
unfolding expect_name span
parse_ref_match t = do
  n ← expect_name
  sp ← gets (span t.pos)
  pure (record { span = sp; match = some n; event = []; action = fk_no_action })

-- The argument ON of `parseReferences`, behind its keyword.
unfoldable pub parse_ref_on : Token → Parser ForeignKeyArg
unfolding expect_class parse_ref_act span
parse_ref_on t = do
  e ← expect_class is_ref_event
  z ← src_text e
  act ← parse_ref_act
  sp ← gets (span t.pos)
  pure (record { span = sp; match = none; event = z; action = act })

-- The columns in parentheses that may follow a name.
unfoldable pub parse_indexed_columns_opt : Parser (List IndexedColumn)
unfolding clause parse_indexed_column_list expect
parse_indexed_columns_opt =
    clause [] Kind.lp (do cs ← parse_indexed_column_list; expect Kind.rp; pure cs)

unfoldable pub parse_ref_args : Parser (List ForeignKeyArg)
unfolding many parse_ref_match parse_ref_on
parse_ref_args =
    many starts_ref_arg (λ t. if t.kind == Kind.match then parse_ref_match t else parse_ref_on t)

-- `parseReferences`
unfoldable pub parse_references : Parser ForeignKeyClause
unfolding expect expect_name parse_indexed_columns_opt parse_ref_args span
parse_references = do
  t ← expect Kind.references
  name ← expect_name
  cols ← parse_indexed_columns_opt
  args ← parse_ref_args
  sp ← gets (span t.pos)
  pure (record { span = sp; table = name; columns = cols; args = args })
