-- ===== src/Parser/Looks.antt =====
-- parser/parser.go: the lookahead operations keep the invariant and fail with errors of the input.
use meyer.Base.{
  Bool-cases, Bytes, arith, get_or, inl, inr, length, ltb, refl, some, ℕ, ◌+◌, ◌-◌, ◌<◌, ◌==◌, ◌≡◌,
  ◌≤◌, Option, ltb→le, ltb→lt, none, nat_eq,
}
use meyer.Token.{Kind, Token, kind_eq}
use meyer.Lexer.Lex.{eof_token}
use meyer.Parser.State.{
  State, and_then, cur, cur_kind, pure, Error, Parser, flush_deferred, raise, ◌>>=◌, Outcome,
  defer_, ◌>>◌, keep_first,
}
use meyer.Parser.Look.{
  advance, check_illegal, syntax_error, accept, check_deferred, expect, max_depth, nested, leave,
}
use meyer.Parser.Safe.{
  Ensures, Extends-refl, Good, Safe, Valid, rejects, Extends-Ensures, Tokens, holds, safe_rules,
}

pub token-Good :
    (s : State) (msg : Bytes) (j : ℕ)
    → Tokens s.src s.toks
    → Good s.src
        (record { message = msg; offset = some (get_or s.toks j (eof_token 0)).pos; sql = s.src })
token-Good s msg j ts = record {
  offset = (get_or s.toks j (eof_token 0)).pos;
  known = refl;
  inside = omega (arith, ts.start j, ts.inside j);
  sql = refl;
}

pub Safe-syntax_error : {A : Type 0} → Safe (syntax_error {A = A})
unfolding syntax_error cur
Safe-syntax_error = record {
  run = λ s v. elim (Bool-cases ((cur s).kind == Kind.eof)) [
    | inl e ↦ rw e (rejects (token-Good s _ s.i v.tokens))
    | inr e ↦ rw e (rejects (token-Good s _ s.i v.tokens))
  ];
}

-- What holds of the state between the move of `advance` and its checks.
record Moved (s : State) : Type 0 where
  tokens : Tokens s.src s.toks
  in_range : s.i < length s.toks
  shallow : s.depth ≤ max_depth
  pending : (e : Error) → s.deferred ≡ some e → Good s.src e

check_illegal-Ensures :
    (s : State) (t : Token)
    → Moved s
    → ((e : Error) → s.deferred ≡ some e → s.i ≤ s.defer_index)
    → Ensures s (and_then (check_illegal s) (λ _. pure t))
unfolding check_illegal
check_illegal-Ensures s t m behind = elim (Bool-cases (cur_kind s == Kind.illegal)) [
  | inl e ↦ unfold cur_kind cur in rw e (rejects (token-Good s _ s.i m.tokens))
  | inr e ↦
      unfold cur_kind cur in
      rw e (
        holds
          (record {
            tokens = m.tokens;
            in_range = m.in_range;
            legal = e;
            shallow = m.shallow;
            pending = λ d h. (m.pending d h, behind d h);
          })
          (Extends-refl s))
]

raise-Ensures :
    {A : Type 0} (s : State) (o : Option Error) (f : Parser A)
    → ((e : Error) → o ≡ some e → Good s.src e)
    → (o ≡ none → Ensures s (f s))
    → Ensures s (and_then (raise o s) (λ _. f))
unfolding raise
raise-Ensures s none f good h = h refl
raise-Ensures s (some e) f good h = rejects (good e refl)

check_deferred-Ensures :
    (s : State) (t : Token)
    → Moved s
    → Ensures s (and_then (check_deferred s) (λ _ s'. and_then (check_illegal s') (λ _. pure t)))
unfolding check_deferred
check_deferred-Ensures s t m = elim (Bool-cases (ltb s.defer_index s.i)) [
  | inl f ↦ rw f (
      raise-Ensures s s.deferred (check_illegal >>= λ _. pure t) m.pending
        (λ e. check_illegal-Ensures s t m (λ d h. cc (e, h))))
  | inr f ↦ rw f (check_illegal-Ensures s t m (λ _ h. ltb→le _ _ f))
]

pub Safe-advance : Safe advance
unfolding advance
Safe-advance = record {
  run = λ s v. elim (Bool-cases (ltb s.i (length s.toks - 1))) [
    | inl e ↦
        let s' = record s { i = s.i + 1 } in
        rw e (
          Extends-Ensures {s = s'}
            (record {
              src = refl;
              toks = refl;
              opts = refl;
              depth = refl;
              forward = omega arith;
              deferred = λ d h. h;
              defer_index = λ d h. refl;
            })
            (check_deferred-Ensures s' (cur s) (record {
              tokens = v.tokens;
              in_range = omega (arith, ltb→lt _ _ e);
              shallow = v.shallow;
              pending = λ d h. (v.pending d h).0;
            })))
    | inr e ↦ rw e (
        check_deferred-Ensures s (cur s) (record {
          tokens = v.tokens;
          in_range = v.in_range;
          shallow = v.shallow;
          pending = λ d h. (v.pending d h).0;
        }))
  ];
}

pub Safe-accept : (k : Kind) → Safe (accept k)
unfolding accept
Safe-accept k = search (safe_rules, Safe-advance)

pub Safe-expect : (k : Kind) → Safe (expect k)
unfolding expect
Safe-expect k = search (safe_rules, Safe-advance, Safe-syntax_error)

raise_last-Ensures :
    (s : State) (o : Option Error)
    → Valid s
    → ((e : Error) → o ≡ some e → Good s.src e)
    → Ensures s (raise o s)
unfolding raise
raise_last-Ensures s none v good = holds v (Extends-refl s)
raise_last-Ensures s (some e) v good = rejects (good e refl)

pub Safe-flush_deferred : Safe flush_deferred
unfolding flush_deferred
Safe-flush_deferred = record {
  run = λ s v. raise_last-Ensures s s.deferred v (λ e h. (v.pending e h).0);
}

abbrev pub deeper : State → State
deeper s = record s { depth = s.depth + 1 }

pub deeper-Valid : (s : State) → Valid s → s.depth + 1 ≤ max_depth → Valid (deeper s)
unfolding cur_kind cur
deeper-Valid s v le = record {
  tokens = v.tokens;
  in_range = v.in_range;
  legal = v.legal;
  shallow = le;
  pending = v.pending;
}

pub leave-Ensures :
    {A : Type 0} {s : State} {o : Outcome A}
    → Valid s
    → Ensures (deeper s) o
    → Ensures s (and_then o (λ a. leave >> pure a))
unfolding leave cur_kind cur
leave-Ensures v (rejects g) = rejects g
leave-Ensures v (holds w x) =
    holds
      (record {
        tokens = w.tokens;
        in_range = w.in_range;
        legal = w.legal;
        shallow = omega (arith, w.shallow);
        pending = w.pending;
      })
      (record {
        src = x.src;
        toks = x.toks;
        opts = x.opts;
        depth = omega (arith, x.depth);
        forward = x.forward;
        deferred = x.deferred;
        defer_index = x.defer_index;
      })

pub nested-Ensures :
    {A : Type 0} (m : Parser A) (s : State)
    → Valid s
    → (Valid (deeper s) → Ensures (deeper s) (m (deeper s)))
    → Ensures s (nested m s)
unfolding nested cur_kind cur
nested-Ensures m s v run = elim (Bool-cases (ltb max_depth (s.depth + 1))) [
  | inl e ↦ rw e (rejects (token-Good (deeper s) _ s.i v.tokens))
  | inr e ↦ rw e (leave-Ensures v (run (deeper-Valid s v (ltb→le _ _ e))))
]

-- A safe function stays safe between enter and leave: from a valid state it returns in a valid state
-- at the depth it was called at, or fails with an error of the input, the recursion limit included.
pub Safe-nested : {A : Type 0} (m : Parser A) → Safe m → Safe (nested m)
Safe-nested m h = record { run = λ s v. nested-Ensures m s v (h.run (deeper s)) }

keep_first-Ensures :
    (s : State) (o : Option Error) (msg : Bytes) (offset : ℕ)
    → Valid s
    → offset ≤ length s.src
    → s.deferred ≡ o
    → Ensures s (keep_first o msg offset s)
unfolding keep_first cur_kind cur
keep_first-Ensures s (some e) msg offset v inside h = holds v (Extends-refl s)
keep_first-Ensures s none msg offset v inside h =
    holds
      (record {
        tokens = v.tokens;
        in_range = v.in_range;
        legal = v.legal;
        shallow = v.shallow;
        pending = λ e he.
            (record { offset = offset; known = cc he; inside = inside; sql = cc he }, omega arith);
      })
      (record {
        src = refl;
        toks = refl;
        opts = refl;
        depth = refl;
        forward = omega arith;
        deferred = λ e he. cc (he, h);
        defer_index = λ e he. cc (he, h);
      })

pub defer_-Ensures :
    (s : State) (msg : Bytes) (offset : ℕ)
    → Valid s
    → offset ≤ length s.src
    → Ensures s (defer_ msg offset s)
unfolding defer_
defer_-Ensures s msg offset v inside = keep_first-Ensures s s.deferred msg offset v inside refl
