-- ===== src/Parser/Spans.antt =====
-- parser/parser.go: the end of a statement, and what one statement of the script leaves.
use Prim.{Unit}
use meyer.Base.{
  Bool-cases, Option, ap, false, inl, inr, none, refl, some, true, ℕ, ◌<◌, ◌==◌, ◌≡◌, ◌⊎◌, arith,
  suc, sym, ltb, ltb→le, ltb→lt, subst, ◌∙◌, nat_eq,
}
use meyer.Token.{Kind, kind_eq, Token}
use meyer.Ast.Stmts.{Explainable, span_of_stmt, span-set_span}
use meyer.Parser.State.{Error, State, at, cur, cur_kind, flush_deferred, raise}
use meyer.Parser.Look.{prev_end, end_before}
use meyer.Parser.Safe.{Ensures, Extends-refl, Valid, holds, rejects, Extends, Extends-trans}
use meyer.Parser.Looks.{Safe-flush_deferred}
use meyer.Parser.Script.{parse_end, parse_one}
use meyer.Parser.Statement.{Safe-parse_explainable}
use meyer.Parser.Post.{
  returns, stops, Advanced, Post, Post-bind, Safe-Post, advance-Post, syntax_error-Post,
}

at-one : (j k : Kind) (s : State) → at j s ≡ true → (j == k) ≡ false → at k s ≡ false
unfolding at
at-one j k s h e = let same = (kind_eq.same_iff (cur_kind s) j).0 h in rw same e

at-same : (k : Kind) (s s' : State) → s'.toks ≡ s.toks → s'.i ≡ s.i → at k s' ≡ at k s
unfolding at cur_kind cur
at-same k s s' ts i = let same : cur s' ≡ cur s = cc (ts, i) in ap (λ (t : Token). t.kind == k) same

-- The token before the lookahead, behind a step.
prev_end-step : (s s' : State) → s'.i ≡ suc s.i → s'.toks ≡ s.toks → prev_end s' ≡ (cur s).end
unfolding prev_end end_before cur
prev_end-step s s' i ts = rw (i, ts) refl

-- A statement ends with the last token consumed; it consumes one, or the input is at its end.
pub record Ended (s : State) (end : ℕ) (s' : State) : Type 0 where
  pub stop : end ≡ prev_end s'
  pub moves : (s.i < s'.i) ⊎ (at Kind.eof s' ≡ true)

moves-on :
    (s s' : State)
    → at Kind.eof s ≡ false
    → Extends s s'
    → ((s.i < s'.i) ⊎ (at Kind.eof s' ≡ true))
    → s.i < s'.i
moves-on s s' more x (inl lt) = lt
moves-on s s' more x (inr eof) = elim (Bool-cases (ltb s.i s'.i)) [
  | inl lt ↦ ltb→lt _ _ lt
  | inr ge ↦
      let i : s'.i ≡ s.i = omega (arith, ltb→le _ _ ge, x.forward) in
      cc (more, eof, at-same Kind.eof s s' x.toks i)
]

moves-past :
    (r s s' : State)
    → Extends r s
    → (s.i < s'.i) ⊎ (at Kind.eof s' ≡ true)
    → (r.i < s'.i) ⊎ (at Kind.eof s' ≡ true)
moves-past r s s' x (inl lt) = inl (omega (arith, x.forward))
moves-past r s s' x (inr eof) = inr eof

parse_end-Post : (s : State) → Valid s → Post s (Ended s) (parse_end s)
unfolding parse_end
parse_end-Post s v = elim (Bool-cases (at Kind.semi s)) [
  | inl semi ↦ rw semi (
      Post-bind {R = Advanced s} _ (advance-Post s v) λ t s' w x a.
        let move = a.moves (at-one Kind.semi Kind.eof s semi refl) in
        returns w (Extends-refl s') (record {
          stop = sym (prev_end-step s s' (omega (arith, move)) x.toks);
          moves = inl (omega (arith, move));
        }))
  | inr not_semi ↦ elim (Bool-cases (at Kind.eof s)) [
    | inl eof ↦
        rw (not_semi, eof) (returns v (Extends-refl s) (record { stop = refl; moves = inr eof }))
    | inr more ↦ rw (not_semi, more) (syntax_error-Post s v)
  ]
]

raise-Post :
    (s : State) (o : Option Error)
    → Ensures s (raise o s)
    → Post s (λ _ s'. (s' ≡ s) × (o ≡ none)) (raise o s)
unfolding raise
raise-Post s none (holds v x) = returns v x (refl, refl)
raise-Post s (some e) (rejects g) = stops g

pub flush_deferred-Post :
    (s : State) → Valid s → Post s (λ _ s'. (s' ≡ s) × (s.deferred ≡ none)) (flush_deferred s)
unfolding flush_deferred
flush_deferred-Post s v = raise-Post s s.deferred ((Safe-flush_deferred).run s v)

-- One statement: its span starts at the lookahead and stops with the last token it consumes, of
-- which there is one, and it leaves no deferred error.
pub record Parsed (s : State) (n : Explainable) (s' : State) : Type 0 where
  pub span : span_of_stmt n ≡ record { start = (cur s).pos; stop = prev_end s' }
  pub moves : s.i < s'.i
  pub clean : s'.deferred ≡ none

pub parse_one-Post : (s : State) → Valid s → at Kind.eof s ≡ false → Post s (Parsed s) (parse_one s)
unfolding parse_one
parse_one-Post s v more =
    Post-bind {R = λ _ _. Unit {0}} _ (Safe-Post s (Safe-parse_explainable) v) λ n s1 v1 x1 _.
      Post-bind _ (parse_end-Post s1 v1) λ end s2 v2 x2 ended.
        Post-bind _ (flush_deferred-Post s2 v2) λ u s3 v3 x3 same.
          returns v3 (Extends-refl s3) (record {
            span =
                span-set_span _ n
                ∙ ap (λ e. record { start = (cur s).pos; stop = e })
                    (ended.stop ∙ ap prev_end (sym same.0));
            moves =
                subst (λ z. s.i < z.i) (sym same.0)
                  (moves-on s s2 more (Extends-trans x1 x2) (moves-past s s1 s2 x1 ended.moves));
            clean = ap (λ (z : State). z.deferred) same.0 ∙ same.1;
          })
