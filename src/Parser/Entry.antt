-- ===== src/Parser/Entry.antt =====
-- parser/parser.go: `newParser` and the entry points. A panic with a `bail` that they recover is
-- the outcome `failed`; the state that `done` carries is dropped by the source.
use Prim.{Unit}
use meyer.Base.{Bytes, List, [], false, if◌then◌else◌, none, not, ◌∷◌}
use meyer.Token.{Kind, Token}
use meyer.Keywords.{codes}
use meyer.Lexer.Lex.{lex, lex_file}
use meyer.Ast.Expr.{Expr}
use meyer.Ast.Stmts.{Explainable}
use meyer.Parser.State.{
  Options, Outcome, Parser, State, and_then, at, failed, flush_deferred, gets, pure, ◌>>=◌, ◌>>◌,
}
use meyer.Parser.Look.{check_illegal, syntax_error}
use meyer.Parser.Rec.{prec_lowest}
use meyer.Parser.Knot.{parse_expr}
use meyer.Parser.Script.{parse_script}

-- `&parser{…}`
abbrev pub initial : Bytes → List Token → Options → State
initial src toks opts = record {
  src = src;
  toks = toks;
  i = 0;
  opts = opts;
  n_var = 0;
  var_nums = [];
  depth = 0;
  deferred = none;
  defer_index = 0;
}

-- `newParser`
unfoldable pub new_parser : Bytes → Options → Outcome (Unit {0})
unfolding check_illegal lex
new_parser src opts = check_illegal (initial src (lex src) opts)

abbrev pub default_options : Options
default_options = record { update_delete_limit = false }

-- `File`
pub record File : Type 0 where
  pub stmts : List Explainable
  pub trivia : List Token

-- `Options.ParseString`
unfoldable pub parse_string : Options → Bytes → Outcome (List Explainable)
unfolding new_parser parse_script
parse_string opts src = and_then (new_parser src opts) (λ _. parse_script)

-- `Options.ParseFile`
unfoldable pub parse_file : Options → Bytes → Outcome File
unfolding lex_file check_illegal parse_script
parse_file opts src =
    let (toks, trivia) = lex_file src in
    and_then (check_illegal (initial src toks opts))
      (λ _. parse_script >>= λ stmts. pure (record { stmts = stmts; trivia = trivia }))

-- The length test of `ParseStatement`.
unfoldable pub exactly_one : List Explainable → Parser Explainable
exactly_one (n ∷ []) = pure n
exactly_one _ = λ s.
    failed (record { message = codes "expected exactly one statement"; offset = none; sql = [] })

-- `Options.ParseStatement`
unfoldable pub parse_statement : Options → Bytes → Outcome Explainable
unfolding parse_string exactly_one
parse_statement opts src = and_then (parse_string opts src) exactly_one

-- The body of `ParseExpr` behind `newParser`.
unfoldable pub parse_whole_expr : Parser Expr
unfolding parse_expr at syntax_error flush_deferred
parse_whole_expr = do
  e ← parse_expr prec_lowest
  eof ← gets (at Kind.eof)
  if not eof then syntax_error else (do flush_deferred; pure e)

-- `ParseExpr`
unfoldable pub parse_expr_string : Bytes → Outcome Expr
unfolding new_parser parse_whole_expr
parse_expr_string src = and_then (new_parser src default_options) (λ _. parse_whole_expr)
