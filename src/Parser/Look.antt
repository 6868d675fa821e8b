-- ===== src/Parser/Look.antt =====
-- parser/parser.go: the lookahead operations, the syntax errors, the recursion limit and spans.
use Prim.{Unit, tt}
use meyer.Base.{
  Bool, Bytes, false, get_or, if◌then◌else◌, length, ltb, suc, true, zero, ℕ, ◌+◌, ◌-◌, ◌==◌, ◌++◌,
  List, nat_eq,
}
use meyer.Token.{Kind, Token, text, kind_eq}
use meyer.Keywords.{codes}
use meyer.Ast.{Span}
use meyer.Parser.State.{Parser, State, done, cur, at, fail, gets, pure, ◌>>◌, ◌>>=◌, raise}
use meyer.Lexer.Lex.{eof_token}

unfoldable pub unrecognized : Bytes → Bytes
unrecognized z = codes "unrecognized token: \"" ++ z ++ codes "\""

unfoldable pub near : Bytes → Bytes
near z = codes "near \"" ++ z ++ codes "\": syntax error"

-- `checkIllegal`
unfoldable pub check_illegal : Parser (Unit {0})
unfolding cur fail unrecognized
check_illegal s =
    let t = cur s in
    if t.kind == Kind.illegal then fail (unrecognized (text t s.src)) t.pos s else done tt s

-- The move of `advance`.
unfoldable pub step : Parser (Unit {0})
step s = done tt (if ltb s.i (length s.toks - 1) then record s { i = s.i + 1 } else s)

-- The deferred error becomes final once its token is consumed.
unfoldable pub check_deferred : Parser (Unit {0})
unfolding raise
check_deferred s = if ltb s.defer_index s.i then raise s.deferred s else done tt s

-- `advance`
unfoldable pub advance : Parser Token
unfolding step check_deferred check_illegal
advance = do t ← gets cur; step; check_deferred; check_illegal; pure t

-- `syntaxErrorAt`
unfoldable pub syntax_error_at : {A : Type 0} → Token → Parser A
unfolding fail near
syntax_error_at t s =
    if t.kind == Kind.eof
    then fail (codes "incomplete input") t.pos s
    else fail (near (text t s.src)) t.pos s

-- `syntaxError`
unfoldable pub syntax_error : {A : Type 0} → Parser A
unfolding syntax_error_at
syntax_error s = syntax_error_at (cur s) s

-- `accept`
unfoldable pub accept : Kind → Parser Bool
unfolding advance
accept k = do here ← gets (at k); if here then (advance >> pure true) else pure false

-- `expect`
unfoldable pub expect : Kind → Parser Token
unfolding advance syntax_error
expect k = do here ← gets (at k); if here then advance else syntax_error

-- `maxDepth`
abbrev pub max_depth : ℕ
max_depth = 10000

-- `enter`
unfoldable pub enter : Parser (Unit {0})
unfolding cur fail
enter s =
    let s' = record s { depth = s.depth + 1 } in
    if ltb max_depth s'.depth then fail (codes "Recursion limit") (cur s').pos s' else done tt s'

-- `leave`
unfoldable pub leave : Parser (Unit {0})
leave s = done tt (record s { depth = s.depth - 1 })

-- A function that enters and defers its leave. A failure ends the parse, so the depth is not read
-- again.
unfoldable pub nested : {A : Type 0} → Parser A → Parser A
unfolding enter leave
nested m = do enter; a ← m; leave; pure a

unfoldable pub end_before : List Token → ℕ → ℕ
end_before toks zero = 0
end_before toks (suc j) = (get_or toks j (eof_token 0)).end

-- `prevEnd`
unfoldable pub prev_end : State → ℕ
unfolding end_before
prev_end s = end_before s.toks s.i

-- `span`
unfoldable pub span : ℕ → State → Span
unfolding prev_end
span start s = record { start = start; stop = prev_end s }

-- `spanOf`
abbrev pub span_of : Token → Span
span_of t = record { start = t.pos; stop = t.end }
