-- ===== src/Parser/Loop.antt =====
-- parser/parser.go: the script loop returns within its fuel, and the spans of its statements are
-- in source order.
use meyer.Base.{
  Bytes, List, [], arith, get_or, length, suc, zero, ℕ, ◌+◌, ◌<◌, ◌∷◌, ◌≤◌, Bool-cases, inl, inr,
  ltb, ltb→le, ltb→lt, none, subst, sym, true, ◌≡◌, ap, ◌∙◌,
}
use meyer.Token.{Token, Kind}
use meyer.Lexer.Lex.{eof_token}
use meyer.Ast.Stmts.{Explainable, span_of_stmt}
use meyer.Parser.State.{State, at, cur}
use meyer.Parser.Look.{prev_end, end_before}
use meyer.Parser.Safe.{Tokens, Valid, Extends-refl, Extends}
use meyer.Parser.Script.{parse_stmts}
use meyer.Parser.Post.{returns, Post, Advanced, Post-bind, Post-map, advance-Post}
use meyer.Parser.Spans.{Parsed, parse_one-Post}

-- From offset `lo` on, each statement starts behind the one before and ends before `hi`.
pub data Chain (hi : ℕ) : ℕ → List Explainable → Type 0 where
  last : {lo : ℕ} → lo ≤ hi → Chain hi lo []
  next :
      {lo : ℕ} {n : Explainable} {ns : List Explainable}
      → lo ≤ (span_of_stmt n).start
      → (span_of_stmt n).start ≤ (span_of_stmt n).stop
      → Chain hi (span_of_stmt n).stop ns
      → Chain hi lo (n ∷ ns)

Chain-weaken : {hi lo lo' : ℕ} (ns : List Explainable) → lo' ≤ lo → Chain hi lo ns → Chain hi lo' ns
Chain-weaken [] le (last h) = last (omega arith)
Chain-weaken (n ∷ ns) le (next a b c) = next (omega arith) b c

module _ {src : Bytes} {toks : List Token} (ts : Tokens src toks) where
  end_before-inside : (i : ℕ) → end_before toks i ≤ length src
  unfolding end_before
  end_before-inside zero = omega arith
  end_before-inside (suc j) = ts.inside j

  end_before-pos : (i : ℕ) → i < length toks → end_before toks i ≤ (get_or toks i (eof_token 0)).pos
  unfolding end_before
  end_before-pos zero h = omega arith
  end_before-pos (suc j) h = ts.ordered j h

  pos-end_before :
      (i n : ℕ) → i < n → n ≤ length toks → (get_or toks i (eof_token 0)).pos ≤ end_before toks n
  unfolding end_before
  pos-end_before i zero lt h = absurd (omega arith)
  pos-end_before i (suc n) lt h = elim (Bool-cases (ltb i n)) [
    | inl below ↦ omega (
      arith,
      pos-end_before i n (ltb→lt _ _ below) (omega arith),
      end_before-pos n (omega arith),
      ts.start n,
    )
    | inr at_n ↦
        let same : i ≡ n = omega (arith, ltb→le _ _ at_n) in
        subst (λ j. (get_or toks j (eof_token 0)).pos ≤ (get_or toks n (eof_token 0)).end)
          (sym same) (ts.start n)
  ]

-- What the loop leaves: the statements in source order, the end of the input, nothing deferred.
pub record Script (s : State) (ns : List Explainable) (s' : State) : Type 0 where
  pub chain : Chain (length s.src) (prev_end s) ns
  pub at_end : at Kind.eof s' ≡ true
  pub clean : s'.deferred ≡ none

-- The extents of the state `s`, its source and the end of the token before, against a later one.
Later : State → State → Type 0
Later s s' = (prev_end s ≤ (cur s).pos) × ((cur s).pos ≤ prev_end s') × (prev_end s ≤ prev_end s')

later : (s s' : State) → Valid s → Valid s' → Extends s s' → s.i < s'.i → Later s s'
unfolding Later prev_end cur
later s s' v w x lt =
    let before = end_before-pos v.tokens s.i v.in_range in
    let behind =
      pos-end_before v.tokens s.i s'.i lt (omega (arith, w.in_range, ap length x.toks)) in
    (before, rw (x.toks) behind, rw (x.toks) (omega (arith, before, behind)))

Script-Later :
    {s s' t : State} {ns : List Explainable}
    → Later s s'
    → Extends s s'
    → Script s' ns t
    → Script s ns t
unfolding Later
Script-Later {s' = s'} {ns = ns} l x p = record {
  chain = Chain-weaken ns l.2 (subst (λ z. Chain (length z) (prev_end s') ns) x.src p.chain);
  at_end = p.at_end;
  clean = p.clean;
}

Script-next :
    {s s' t : State} {n : Explainable} {ns : List Explainable}
    → Later s s'
    → Extends s s'
    → Parsed s n s'
    → Script s' ns t
    → Script s (n ∷ ns) t
unfolding Later
Script-next {s = s} {s' = s'} {ns = ns} l x q p = record {
  chain =
      next (rw q.span l.0) (rw q.span l.1)
        (rw q.span (subst (λ z. Chain (length z) (prev_end s') ns) x.src p.chain));
  at_end = p.at_end;
  clean = p.clean;
}

pub parse_stmts-Post :
    (fuel : ℕ) (s : State)
    → Valid s
    → s.deferred ≡ none
    → length s.toks ≤ s.i + fuel
    → Post s (Script s) (parse_stmts fuel s)
unfolding parse_stmts
parse_stmts-Post zero s v clean enough = absurd (omega (arith, v.in_range))
parse_stmts-Post (suc fuel) s v clean enough = elim (Bool-cases (at Kind.eof s)) [
  | inl eof ↦ rw eof (
      returns v (Extends-refl s)
        (record { chain = last (end_before-inside v.tokens s.i); at_end = eof; clean = clean }))
  | inr more ↦ elim (Bool-cases (at Kind.semi s)) [
    | inl semi ↦
        rw (more, semi)
          (Post-bind {R = Advanced s} _ (advance-Post s v) λ t s' w x a.
            let i = a.moves more in
            let rest =
              parse_stmts-Post fuel s' w (a.deferred ∙ clean)
                (omega (arith, i, ap length x.toks)) in
            Post-map rest (λ ns t _ _ p. Script-Later (later s s' v w x (omega (arith, i))) x p))
    | inr stmt ↦
        rw (more, stmt)
          (Post-bind _ (parse_one-Post s v more) λ n s' w x p.
            Post-bind _
              (parse_stmts-Post fuel s' w p.clean (omega (arith, p.moves, ap length x.toks)))
              λ ns t u y q.
                returns u (Extends-refl t) (Script-next (later s s' v w x p.moves) x p q))
  ]
]
