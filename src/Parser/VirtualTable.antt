-- ===== src/Parser/VirtualTable.antt =====
-- parser/parse_ddl.go: CREATE VIRTUAL TABLE and the text of its arguments.
use meyer.Base.{
  Bool, Bytes, List, [], drop, false, if◌then◌else◌, not, suc, take, true, zero, ℕ, ◌&&◌, ◌+◌, ◌-◌,
  ◌==◌, ◌∷◌, nat_eq,
}
use meyer.Token.{Kind, kind_eq}
use meyer.Ast.Ddl.{CreateVirtualTableStmt}
use meyer.Parser.State.{Parser, at, gets, out_of_fuel, pure, ◌>>=◌, ◌>>◌}
use meyer.Parser.Look.{expect, span, syntax_error}
use meyer.Parser.Names.{expect_name, qualified_name}
use meyer.Parser.Combine.{on_class, remaining}
use meyer.Parser.Rec.{clause, cur_pos}
use meyer.Parser.Drop.{parse_if_not_exists}

-- The source text of an argument.
abbrev source_text : ℕ → ℕ → Parser Bytes
source_text a b = gets (λ s. take (b - a) (drop a s.src))

unfoldable pub nest : Kind → ℕ → ℕ
nest k depth = if k == Kind.lp then depth + 1 else if k == Kind.rp then depth - 1 else depth

-- The end of an argument of `parseVTabArgs`, and the rest of its loop.
unfoldable pub vtab_comma : ℕ → ℕ → (ℕ → ℕ → ℕ → Parser (List Bytes)) → Parser (List Bytes)
unfolding cur_pos
vtab_comma a b rest = do z ← source_text a b; pos ← gets cur_pos; zs ← rest 0 pos pos; pure (z ∷ zs)

-- One round of `parseVTabArgs`: the depth, and where the argument starts and ends so far.
unfoldable pub vtab_round : ℕ → ℕ → ℕ → (ℕ → ℕ → ℕ → Parser (List Bytes)) → Parser (List Bytes)
unfolding at on_class vtab_comma nest syntax_error
vtab_round depth a b rest = do
  close ← gets (at Kind.rp)
  if close && depth == 0
      then (do z ← source_text a b; pure (z ∷ []))
      else on_class (λ k. not (k == Kind.eof))
          (λ t.
            if t.kind == Kind.comma && depth == 0
            then vtab_comma a b rest
            else rest (nest t.kind depth) a t.end)
          syntax_error

-- The loop of `parseVTabArgs`, with fuel for the tokens that are left.
unfoldable pub vtab_args : ℕ → ℕ → ℕ → ℕ → Parser (List Bytes)
unfolding vtab_round
vtab_args zero depth a b = λ s. out_of_fuel
vtab_args (suc fuel) depth a b = vtab_round depth a b (vtab_args fuel)

-- `parseVTabArgs`
unfoldable pub parse_vtab_args : Parser (List Bytes)
unfolding vtab_args cur_pos
parse_vtab_args s = vtab_args (remaining s) 0 (cur_pos s) (cur_pos s) s

-- The arguments in parentheses, and whether they are written.
unfoldable pub parse_vtab_args_opt : Parser (List Bytes × Bool)
unfolding clause parse_vtab_args expect
parse_vtab_args_opt =
    clause ([], false) Kind.lp (do args ← parse_vtab_args; expect Kind.rp; pure (args, true))

-- `parseCreateVirtualTable`
unfoldable pub parse_create_virtual_table : ℕ → Parser CreateVirtualTableStmt
unfolding expect parse_if_not_exists qualified_name expect_name parse_vtab_args_opt span
parse_create_virtual_table start = do
  expect Kind.virtual
  expect Kind.table
  guarded ← parse_if_not_exists
  name ← qualified_name
  expect Kind.using
  m ← expect_name
  args ← parse_vtab_args_opt
  sp ← gets (span start)
  pure (record {
    span = sp;
    if_not_exists = guarded;
    name = name;
    module_name = m;
    has_args = args.1;
    args = args.0;
  })
