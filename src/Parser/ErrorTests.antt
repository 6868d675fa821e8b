-- ===== src/Parser/ErrorTests.antt =====
-- Inputs that the parser rejects, and how their errors read.
use meyer.Base.{Bytes, refl, some, true, false, ◌≡◌, ◌==◌, arith, nat_eq}
use meyer.Token.{Kind, Token, text, kind_eq}
use meyer.Keywords.{can_fallback, codes, is_idj, is_ids, is_name, is_id, is_plain_id}
use meyer.Lexer.Lex.{lex}
use meyer.Lexer.Run.{run_lex}
use meyer.Ast.Expr.{BindParam}
use meyer.Ast.Stmts.{set_span}
use meyer.Parser.State.{Error, State, cur, cur_kind, done, failed, flush_deferred, ◌>>=◌}
use meyer.Parser.Entry.{default_options, initial, parse_string}
use meyer.Parser.Safe.{Valid}
use meyer.Parser.Start.{lex-Tokens}
use meyer.Parser.Answer.{initial-Valid}
use meyer.Parser.KnotSafe.{Safe-parse_expr}
use meyer.Parser.Knot.{parse_expr}
use meyer.Parser.Bind.{bind_param, is_register}
use meyer.Parser.Deferred.{Rejected}
use meyer.Parser.Register.{bind_param-Rejected}
use meyer.Parser.Render.{Located, error_string}
use meyer.Parser.Report.{parse_string-Located}

abbrev cut_off : Bytes
cut_off = codes "SELECT 1;\n SELECT"

abbrev cut_off_error : Error
cut_off_error = record { message = codes "incomplete input"; offset = some 17; sql = cut_off }

cut_off-failed : parse_string default_options cut_off ≡ failed cut_off_error
unfolding run_lex parse_string set_span can_fallback is_name is_idj is_ids is_id is_plain_id
cut_off-failed = refl

parse_string-Located_example : Located cut_off cut_off_error (error_string cut_off_error)
parse_string-Located_example =
    parse_string-Located default_options cut_off cut_off_error cut_off-failed

error_string-cut_off : error_string cut_off_error ≡ codes "2:8: incomplete input"
unfolding error_string
error_string-cut_off = refl

abbrev register : State
register = initial (codes "#1") (lex (codes "#1")) default_options

abbrev register_token : Token
register_token = record { kind = Kind.variable; pos = 0; end = 2 }

register-legal : (cur_kind register == Kind.illegal) ≡ false
unfolding run_lex cur_kind cur
register-legal = refl

register-Valid : Valid register
register-Valid =
    initial-Valid (codes "#1") (lex (codes "#1")) default_options (lex-Tokens (codes "#1"))
      register-legal

register-is_register : is_register (text register_token (codes "#1")) ≡ true
unfolding is_register
register-is_register = refl

bind_param-Rejected_example :
    (b : BindParam) × (u : State) × (bind_param register_token register ≡ done b u)
    × Rejected (codes "#1") ((parse_expr 8 >>= λ _. flush_deferred) u)
bind_param-Rejected_example =
    bind_param-Rejected (parse_expr 8) register_token register (Safe-parse_expr 8) register-Valid
      (omega arith) register-is_register
