-- ===== src/Corpus/Tests.antt =====
-- The requirement that a small case derives.
use meyer.Base.{[], false, length, none, refl, some, ◌∷◌, ◌≡◌}
use meyer.Keywords.{codes}
use meyer.Token.{Kind, Token}
use meyer.Lexer.Run.{run_lex}
use meyer.Lexer.Lex.{lex}
use meyer.Parser.State.{State, cur}
use meyer.Parser.Look.{check_illegal, syntax_error}
use meyer.Parser.Entry.{initial, default_options}
use meyer.Corpus.Expect.{Case, StmtResult, expected, is_failure, is_syntax_error, is_unreached}
use meyer.Corpus.Messages.{Checks, Family, messages-Family}
use meyer.Corpus.Unreached.{Requires, exempt, expected-Requires, first_failure, is_unreached-exempt}

abbrev semantic : StmtResult
semantic = record {
  offset = 0;
  ok = false;
  rc = 1;
  err_offset = none;
  message = codes "no such table: t";
  tail = 5;
}

abbrev syntactic : StmtResult
syntactic = record {
  offset = 8;
  ok = false;
  rc = 1;
  err_offset = some 12;
  message = codes "near \"x\": syntax error";
  tail = 13;
}

abbrev small_case : Case
small_case = record {
  name = codes "c";
  sql = codes "DROP t;\nDROP x\n";
  results = semantic ∷ syntactic ∷ [];
}

expected-small_case : expected small_case ≡ record {
  ok = false;
  message = codes "near \"x\": syntax error";
  offset = some 12;
  unreached = record { start = 5; end = 8 } ∷ [];
  truncated = false;
}
unfolding expected is_failure is_syntax_error
expected-small_case = refl

expected-Requires_example : Requires (first_failure small_case.results) (expected small_case)
expected-Requires_example = expected-Requires small_case

is_unreached-exempt_example :
    is_unreached (expected small_case) (some 6)
    ≡ exempt (length small_case.sql) 6 small_case.results
is_unreached-exempt_example = is_unreached-exempt small_case 6

-- A text that starts with an illegal token.
abbrev illegal_start : State
illegal_start = initial (codes "\"x") (lex (codes "\"x")) default_options

illegal_start-kind : (cur illegal_start).kind ≡ Kind.illegal
unfolding cur run_lex
illegal_start-kind = refl

messages-Family_example : Family (syntax_error {A = Token} illegal_start) × Checks illegal_start
messages-Family_example = messages-Family illegal_start

illegal_start-Family : Family (check_illegal illegal_start)
illegal_start-Family = (messages-Family illegal_start).1.illegal illegal_start-kind
