-- ===== src/Parser/Drop.antt =====
-- parser/parse_ddl.go: IF EXISTS and DROP.
use meyer.Base.{Bool, false, if◌then◌else◌, true, ◌==◌, ◌||◌, nat_eq}
use meyer.Token.{Kind, kind_eq}
use meyer.Ast.Ddl.{Command, DropStmt, drop_index, drop_table, drop_trigger, drop_view}
use meyer.Parser.State.{Parser, gets, pure, ◌>>=◌, ◌>>◌}
use meyer.Parser.Look.{expect, span}
use meyer.Parser.Names.{qualified_name}
use meyer.Parser.Combine.{expect_class}
use meyer.Parser.Rec.{clause}

-- `parseIfNotExists`
unfoldable pub parse_if_not_exists : Parser Bool
unfolding clause expect
parse_if_not_exists = clause false Kind.if_kw (do expect Kind.not; expect Kind.exists; pure true)

-- `parseIfExists`
unfoldable pub parse_if_exists : Parser Bool
unfolding clause expect
parse_if_exists = clause false Kind.if_kw (do expect Kind.exists; pure true)

abbrev pub is_dropped : Kind → Bool
is_dropped k = k == Kind.table || k == Kind.view || k == Kind.index || k == Kind.trigger

-- The switch at the end of `parseDrop`.
unfoldable pub drop_of : Kind → DropStmt → Command
drop_of k n =
    if k == Kind.table
    then drop_table n
    else if k == Kind.view
    then drop_view n
    else if k == Kind.index
    then drop_index n
    else drop_trigger n

-- `parseDrop`
unfoldable pub parse_drop : Parser Command
unfolding expect expect_class parse_if_exists qualified_name span drop_of
parse_drop = do
  t ← expect Kind.drop
  k ← expect_class is_dropped
  guarded ← parse_if_exists
  name ← qualified_name
  sp ← gets (span t.pos)
  pure (drop_of k.kind (record { span = sp; if_exists = guarded; name = name }))
