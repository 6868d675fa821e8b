-- ===== src/Parser/Answer.antt =====
-- parser/parser.go: what the entry points return.
use meyer.Base.{
  Bytes, List, arith, false, length, none, true, ◌==◌, ◌≡◌, Bool-cases, inl, inr, refl, ◌-◌, ap,
  ◌∙◌, nat_eq,
}
use meyer.Token.{Kind, Token, kind_eq}
use meyer.Parser.State.{
  Error, Outcome, State, at, cur_kind, done, failed, Options, Parser, and_then, cur, fail,
  out_of_fuel, pure, ◌>>=◌,
}
use meyer.Parser.Look.{check_illegal, end_before, prev_end}
use meyer.Parser.Safe.{Good, Tokens, Valid, Extends-refl}
use meyer.Parser.Post.{Post-map, Post, returns, stops, Post-bind, Safe-Post, syntax_error-Post}
use meyer.Parser.Entry.{
  new_parser, parse_string, initial, parse_file, default_options, parse_expr_string,
  parse_whole_expr,
}
use meyer.Parser.Script.{parse_script}
use meyer.Parser.Looks.{token-Good}
use meyer.Parser.Rec.{prec_lowest}
use meyer.Parser.KnotSafe.{Safe-parse_expr}
use meyer.Parser.Spans.{flush_deferred-Post}
use meyer.Parser.Loop.{Chain, parse_stmts-Post}
use meyer.Lexer.Lex.{lex, lex_file}
use meyer.Parser.Start.{lex-Tokens}
use meyer.Lexer.Consumed.{lex-lex_file}

-- An answer for the input `src`: a value with `R`, from a parse that read all of the input and
-- left no deferred error, or an error of the input.
pub data Answer {ℓ κ} {A : Type ℓ} (src : Bytes) (R : A → Type κ) : Outcome A → Type (ℓ ⊔ κ) where
  accepts :
      {a : A} {s : State}
      → s.src ≡ src
      → at Kind.eof s ≡ true
      → s.deferred ≡ none
      → R a
      → Answer src R (done a s)
  rejects : {e : Error} → Good src e → Answer src R (failed e)

-- What a parse of all the input leaves behind.
abbrev pub Finished {ℓ κ} : {A : Type ℓ} → (A → Type κ) → A → State → Type κ
Finished R a s = (at Kind.eof s ≡ true) × (s.deferred ≡ none) × R a

Post-Answer {ℓ κ} :
    {A : Type ℓ} {R : A → Type κ} {s : State} {o : Outcome A}
    → Post s (Finished R) o
    → Answer s.src R o
Post-Answer (returns v x f) = accepts x.src f.0 f.1 f.2
Post-Answer (stops g) = rejects g

pub initial-Valid :
    (src : Bytes) (toks : List Token) (opts : Options)
    → Tokens src toks
    → (cur_kind (initial src toks opts) == Kind.illegal) ≡ false
    → Valid (initial src toks opts)
initial-Valid src toks opts ts legal = record {
  tokens = ts;
  in_range = ts.nonempty;
  legal = legal;
  shallow = omega arith;
  pending = λ e h. cc h;
}

-- A parse that starts with the check of the first token.
start-Answer {ℓ κ} :
    {A : Type ℓ} {R : A → Type κ} (src : Bytes) (toks : List Token) (opts : Options) (m : Parser A)
    → Tokens src toks
    → (Valid (initial src toks opts)
        → Post (initial src toks opts) (Finished R) (m (initial src toks opts)))
    → Answer src R (and_then (check_illegal (initial src toks opts)) (λ _. m))
unfolding check_illegal fail
start-Answer src toks opts m ts run =
    let s : State = initial src toks opts in
    elim (Bool-cases (cur_kind s == Kind.illegal)) [
      | inl e ↦ unfold cur_kind cur in rw e (rejects (token-Good s _ 0 ts))
      | inr e ↦
          let h = Post-Answer (run (initial-Valid src toks opts ts e)) in
          unfold cur_kind cur in rw e h
    ]

and_then_assoc {ℓ κ μ} :
    {A : Type ℓ} {B : Type κ} {C : Type μ} (o : Outcome A) (f : A → Parser B) (h : B → Parser C)
    → and_then o (λ a. f a >>= h) ≡ and_then (and_then o f) h
and_then_assoc (done a s) f h = refl
and_then_assoc (failed e) f h = refl
and_then_assoc out_of_fuel f h = refl

parse_script-Post :
    (src : Bytes) (toks : List Token) (opts : Options)
    → Valid (initial src toks opts)
    → Post
        (initial src toks opts)
        (Finished (Chain (length src) 0))
        (parse_script (initial src toks opts))
unfolding parse_script
parse_script-Post src toks opts v =
    Post-map (parse_stmts-Post (length toks - 0) (initial src toks opts) v refl (omega arith))
      (λ ns t _ _ p. (p.at_end, p.clean, unfold prev_end end_before in p.chain))

-- ParseString answers every input, never out of fuel: it accepts with statements whose spans are in
-- source order, do not overlap and lie inside the input, having read all of it with no deferred
-- error left; or it rejects with an error of this input whose offset is known and lies inside it.
pub parse_string-Answer :
    (opts : Options) (src : Bytes) → Answer src (Chain (length src) 0) (parse_string opts src)
unfolding parse_string new_parser
parse_string-Answer opts src =
    start-Answer src (lex src) opts parse_script (lex-Tokens src)
      (parse_script-Post src (lex src) opts)

-- ParseFile accepts and rejects like ParseString, and with the same statements: its answer is
-- that of ParseString with the trivia of LexFile beside the statements.
pub parse_file-parse_string :
    (opts : Options) (src : Bytes)
    → parse_file opts src
      ≡ and_then
          (parse_string opts src)
          (λ stmts. pure (record { stmts = stmts; trivia = (lex_file src).1 }))
unfolding parse_file parse_string new_parser
parse_file-parse_string opts src =
    rw (lex-lex_file src) (and_then_assoc (check_illegal (initial src (lex_file src).0 opts)) _ _)

parse_whole_expr-Post :
    (s : State) → Valid s → Post s (Finished (λ _. Unit {0})) (parse_whole_expr s)
unfolding parse_whole_expr
parse_whole_expr-Post s v =
    Post-bind {R = λ _ _. Unit {0}} _ (Safe-Post s (Safe-parse_expr prec_lowest) v) λ e t w x _.
      elim (Bool-cases (at Kind.eof t)) [
        | inl eof ↦ rw eof (
            Post-bind _ (flush_deferred-Post t w) λ _ u z y same.
              returns z (Extends-refl u)
                (ap (at Kind.eof) same.0 ∙ eof, ap (λ (q : State). q.deferred) same.0 ∙ same.1, tt))
        | inr more ↦ rw more (syntax_error-Post t w)
      ]

-- ParseExpr answers every input, never out of fuel: it accepts having read all of it with no
-- deferred error left, or it rejects with an error of this input whose offset is known and lies
-- inside it.
pub parse_expr_string-Answer : (src : Bytes) → Answer src (λ _. Unit {0}) (parse_expr_string src)
unfolding parse_expr_string new_parser
parse_expr_string-Answer src =
    start-Answer src (lex src) default_options (parse_whole_expr) (lex-Tokens src)
      (parse_whole_expr-Post (initial src (lex src) default_options))
