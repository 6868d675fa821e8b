-- ===== src/Parser/Tests.antt =====
-- The parser on inputs that can be followed in the source.
use Prim.{Unit}
use meyer.Base.{
  Bytes, List, Option, [], inl, inr, length, map, none, refl, some, ℕ, ◌∷◌, ◌≡◌, ◌⊎◌, arith, false,
  ◌==◌, Bool, true, nat_eq,
}
use meyer.Token.{Kind, kind_eq}
use meyer.Keywords.{can_fallback, codes, is_name}
use meyer.Lexer.Lex.{lex_file, lex}
use meyer.Lexer.Run.{run_lex}
use mathlib.Core.Option
use meyer.Ast.{Ident, Span}
use meyer.Ast.Misc.{pragma, rollback}
use meyer.Ast.Stmts.{plain, misc, Explainable, set_span, span_of_stmt}
use meyer.Parser.State.{
  Outcome, and_then, done, failed, out_of_fuel, pure, State, cur, cur_kind, defer_, flush_deferred,
  ◌>>=◌, ◌>>◌,
}
use meyer.Parser.Look.{expect, nested}
use meyer.Parser.Looks.{Safe-expect, Safe-nested}
use meyer.Parser.Loop.{Chain}
use meyer.Parser.Entry.{default_options, parse_file, parse_string, initial, parse_expr_string}
use meyer.Parser.Start.{lex-Tokens}
use meyer.Parser.Answer.{
  Answer, parse_file-parse_string, parse_string-Answer, initial-Valid, parse_expr_string-Answer,
}
use meyer.Parser.Quotes.{dequote-quoted, quoted}
use meyer.Parser.Quoted.{NameToken, lex-quoted}
use meyer.Parser.Names.{dequote}
use meyer.Parser.Deferred.{defer_-Rejected, Rejected}
use meyer.Parser.Safe.{Safe}

abbrev script : Bytes
script = codes "BEGIN IMMEDIATE; PRAGMA a.b = -1;; EXPLAIN ATTACH 1 AS 2"

parse_string-Answer_example :
    Answer script (Chain (length script) 0) (parse_string default_options script)
parse_string-Answer_example = parse_string-Answer default_options script

parse_file-parse_string_example :
    parse_file default_options script
    ≡ and_then
        (parse_string default_options script)
        (λ stmts. pure (record { stmts = stmts; trivia = (lex_file script).1 }))
parse_file-parse_string_example = parse_file-parse_string default_options script

-- The start and the end of each statement, or where the parse failed.
abbrev starts : List Explainable → List Span
starts ns = map span_of_stmt ns

abbrev outcome_spans : Outcome (List Explainable) → List Span ⊎ Option ℕ
outcome_spans (done ns s) = inl (starts ns)
outcome_spans (failed e) = inr e.offset
outcome_spans out_of_fuel = inr none

parse_script_spans :
    outcome_spans (parse_string default_options script)
    ≡ inl (
        record { start = 0; stop = 16 }
        ∷ record { start = 17; stop = 33 }
        ∷ record { start = 35; stop = 56 }
        ∷ [])
unfolding run_lex parse_string span_of_stmt set_span is_name can_fallback
parse_script_spans = refl

parse_string_error :
    outcome_spans (parse_string default_options (codes "BEGIN; PRAGMA = 1")) ≡ inr (some 14)
unfolding run_lex parse_string span_of_stmt set_span is_name can_fallback
parse_string_error = refl

dequote-quoted_example : dequote (quoted b'"' (codes "a\"b")) b'"' ≡ codes "a\"b"
dequote-quoted_example = dequote-quoted b'"' (codes "a\"b")

lex-quoted_example : NameToken b'\'' (codes "it's")
lex-quoted_example = lex-quoted b'\'' (codes "it's") (inr (inl refl)) refl

abbrev one : State
one = initial (codes "1") (lex (codes "1")) default_options

one-legal : (cur_kind one == Kind.illegal) ≡ false
unfolding run_lex cur_kind cur
one-legal = refl

defer_-Rejected_example : Rejected (codes "1") (
    (defer_ (codes "near \"#1\": syntax error") 0 >> expect Kind.integer >>= λ _. flush_deferred)
      one)
defer_-Rejected_example =
    defer_-Rejected (expect Kind.integer) (codes "near \"#1\": syntax error") 0 one
      (Safe-expect Kind.integer)
      (initial-Valid (codes "1") (lex (codes "1")) default_options (lex-Tokens (codes "1"))
        one-legal)
      (omega arith)

parse_expr_string-Answer_example :
    Answer (codes "12 -- x") (λ _. Unit {0}) (parse_expr_string (codes "12 -- x"))
parse_expr_string-Answer_example = parse_expr_string-Answer (codes "12 -- x")

Safe-nested_example : Safe (nested (expect Kind.integer))
Safe-nested_example = Safe-nested (expect Kind.integer) (Safe-expect Kind.integer)

-- The name, the value and the parentheses of a pragma.
abbrev pragma_of : Outcome (List Explainable) → Option (Bytes × Bytes × Bool)
pragma_of (done (plain (misc (pragma n)) ∷ ns) s) = some (n.name.name.name, n.value, n.paren)
pragma_of _ = none

parse_pragma_paren :
    pragma_of (parse_string default_options (codes "pragma main.\"a\"\"b\" ( - 0x1F );"))
    ≡ some (codes "a\"b", codes "-0x1F", true)
unfolding run_lex parse_string set_span is_name can_fallback
parse_pragma_paren = refl

-- The transaction, the target and the keyword of a rollback.
abbrev rollback_of : Outcome (List Explainable) → Option (Bool × Option Bytes × Bool)
rollback_of (done (plain (misc (rollback n)) ∷ ns) s) =
    some (n.has_transaction, Option.map (λ (i : Ident). i.name) n.savepoint, n.savepoint_keyword)
rollback_of _ = none

parse_rollback_to :
    rollback_of (parse_string default_options (codes "ROLLBACK TRANSACTION TO [a b]"))
    ≡ some (true, some (codes "a b"), false)
unfolding run_lex parse_string set_span is_name can_fallback
parse_rollback_to = refl
