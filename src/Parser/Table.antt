-- ===== src/Parser/Table.antt =====
-- parser/parse_ddl.go: the columns, the constraints and the options of a table. A loop that a
-- CONSTRAINT clause may interrupt carries the name that waits for its constraint, and where it starts.
use meyer.Base.{
  Bool, List, Option, [], false, if◌then◌else◌, none, some, suc, true, zero, ℕ, ◌++◌, ◌==◌, ◌||◌,
  ◌∷◌, nat_eq,
}
use meyer.Token.{Kind, kind_eq}
use meyer.Keywords.{is_name}
use meyer.Ast.{Ident}
use meyer.Ast.Ddl.{ColumnConstraint, ColumnDef, TableConstraint, TableOption}
use meyer.Parser.State.{Parser, State, cur_kind, gets, out_of_fuel, pure, ◌>>=◌}
use meyer.Parser.Look.{accept, span}
use meyer.Parser.Names.{expect_name}
use meyer.Parser.Combine.{many, on, remaining}
use meyer.Parser.Rec.{Rec, cur_pos, extent}
use meyer.Parser.Term.{parse_type_token}
use meyer.Parser.Constraint.{parse_column_constraint}
use meyer.Parser.TableConstraint.{parse_table_constraint}

abbrev pub Pending : Type 0
Pending = Option (Ident × ℕ)

-- The constraint takes the pending name, and starts at its CONSTRAINT.
unfoldable pub name_column : Pending → ColumnConstraint → ColumnConstraint
unfolding span
name_column none c = c
name_column (some (n, start)) c = record c { name = some n; span = extent start c.span.stop }

unfoldable pub name_table : Pending → TableConstraint → TableConstraint
unfolding span
name_table none c = c
name_table (some (n, start)) c = record c { name = some n; span = extent start c.span.stop }

-- A lookahead for which `parseColumnConstraint` is not nil.
unfoldable pub starts_column_constraint : Kind → Bool
starts_column_constraint k =
    k == Kind.null
    || k == Kind.not
    || k == Kind.deferrable
    || k == Kind.primary
    || k == Kind.unique
    || k == Kind.check
    || k == Kind.collate
    || k == Kind.default
    || k == Kind.references
    || k == Kind.generated
    || k == Kind.as_kw

-- `atTableConstraint`
unfoldable pub at_table_constraint : State → Bool
unfolding cur_kind
at_table_constraint s =
    let k = cur_kind s in
    k == Kind.constraint
    || k == Kind.primary
    || k == Kind.unique
    || k == Kind.check
    || k == Kind.foreign

-- One option of `parseTableOptions`.
unfoldable pub parse_table_option : Parser TableOption
unfolding cur_pos accept expect_name span
parse_table_option = do
  start ← gets cur_pos
  negated ← accept Kind.without
  n ← expect_name
  sp ← gets (span start)
  pure (record { span = sp; without = negated; name = n })

-- The first option, which may be missing.
unfoldable pub parse_first_option : Parser (List TableOption)
unfolding cur_kind is_name parse_table_option
parse_first_option = do
  k ← gets cur_kind
  if k == Kind.without || is_name k then (do o ← parse_table_option; pure (o ∷ [])) else pure []

-- `parseTableOptions`
unfoldable pub parse_table_options : Parser (List TableOption)
unfolding parse_first_option many parse_table_option
parse_table_options = do
  first ← parse_first_option
  rest ← many (λ k. k == Kind.comma) (λ t. parse_table_option)
  pure (first ++ rest)

-- Whether the second loop goes on: the comma between constraints is optional.
unfoldable pub more_constraints : Parser (List TableConstraint) → Parser (List TableConstraint)
unfolding accept at_table_constraint
more_constraints rest = do
  comma ← accept Kind.comma
  here ← gets at_table_constraint
  if comma || here then rest else pure []

module _ (r : Rec) where
  -- A constraint in the loop of `parseColumnDef`, and the rest of the loop.
  unfoldable pub column_constraint_round :
      Pending → (Pending → Parser (List ColumnConstraint)) → Parser (List ColumnConstraint)
  unfolding cur_pos parse_column_constraint name_column
  column_constraint_round pending rest = do
    start ← gets cur_pos
    c ← parse_column_constraint r start
    cs ← rest none
    pure (name_column pending c ∷ cs)

  -- One round of that loop.
  unfoldable pub column_round :
      Pending → (Pending → Parser (List ColumnConstraint)) → Parser (List ColumnConstraint)
  unfolding on expect_name cur_kind starts_column_constraint column_constraint_round
  column_round pending rest =
      on Kind.constraint (λ t. do n ← expect_name; rest (some (n, t.pos)))
        (do
          k ← gets cur_kind
          if starts_column_constraint k then column_constraint_round pending rest else pure [])

  -- The loop of `parseColumnDef`, with fuel for the tokens that are left.
  unfoldable pub column_constraints : ℕ → Pending → Parser (List ColumnConstraint)
  unfolding column_round
  column_constraints zero pending = λ s. out_of_fuel
  column_constraints (suc fuel) pending = column_round pending (column_constraints fuel)

  -- `parseColumnDef`
  unfoldable pub parse_column_def : Parser ColumnDef
  unfolding cur_pos expect_name parse_type_token column_constraints span
  parse_column_def = do
    start ← gets cur_pos
    n ← expect_name
    ty ← parse_type_token
    cs ← λ s. column_constraints (remaining s) none s
    sp ← gets (span start)
    pure (record { span = sp; name = n; type = ty; constraints = cs })

  -- One round of the first loop of `parseColumnAndConstraintList`; the flag says that constraints
  -- follow the columns.
  unfoldable pub column_def_round : Parser (List ColumnDef × Bool) → Parser (List ColumnDef × Bool)
  unfolding parse_column_def on at_table_constraint
  column_def_round rest = do
    c ← parse_column_def
    on Kind.comma
        (λ t. do
          constraints ← gets at_table_constraint
          more ← if constraints then pure ([], true) else rest
          pure (c ∷ more.0, more.1))
        (pure (c ∷ [], false))

  unfoldable pub column_defs : ℕ → Parser (List ColumnDef × Bool)
  unfolding column_def_round
  column_defs zero = λ s. out_of_fuel
  column_defs (suc fuel) = column_def_round (column_defs fuel)

  -- One round of the second loop.
  unfoldable pub table_round :
      Pending → (Pending → Parser (List TableConstraint)) → Parser (List TableConstraint)
  unfolding on expect_name more_constraints cur_pos parse_table_constraint name_table
  table_round pending rest =
      on Kind.constraint (λ t. do n ← expect_name; more_constraints (rest (some (n, t.pos))))
        (do
          start ← gets cur_pos
          c ← parse_table_constraint r start
          cs ← more_constraints (rest none)
          pure (name_table pending c ∷ cs))

  unfoldable pub table_constraints : ℕ → Pending → Parser (List TableConstraint)
  unfolding table_round
  table_constraints zero pending = λ s. out_of_fuel
  table_constraints (suc fuel) pending = table_round pending (table_constraints fuel)

  -- `parseColumnAndConstraintList`
  unfoldable pub parse_column_and_constraint_list : Parser (List ColumnDef × List TableConstraint)
  unfolding column_defs table_constraints
  parse_column_and_constraint_list = do
    cols ← λ s. column_defs (remaining s) s
    cs ← if cols.1 then (λ s. table_constraints (remaining s) none s) else pure []
    pure (cols.0, cs)
