-- ===== src/Parser/Precedence.antt =====
-- parser/parse_expr.go: where an expression ends. The precedence climbing leaves no operator behind
-- that binds at least as tightly as it was asked for.
use meyer.Base.{
  Bool, Bool-cases, false, if◌then◌else◌, inl, inr, ltb, not, subst, true, ℕ, ◌&&◌, ◌==◌, ◌||◌, ◌≡◌,
  refl, suc, zero, ◌-◌, nat_eq,
}
use meyer.Token.{Kind, Token, kind_eq}
use meyer.Ast.Expr.{Expr}
use meyer.Parser.State.{
  Error, Outcome, Parser, State, and_then, cur_kind, done, failed, out_of_fuel, pure, ◌>>=◌, cur,
  peek,
}
use meyer.Parser.Look.{advance, enter, leave, nested}
use meyer.Parser.Combine.{on_operator, remaining}
use meyer.Parser.Rec.{peek_kind, prec_collate, prec_compare, Rec}
use meyer.Parser.Term.{infix_op}
use meyer.Parser.Operators.{
  ends_infix, is_infix, not_prec, null_check, null_test_of, operator_step, operators, parse_between,
  parse_binary, parse_collate, parse_in, parse_is, parse_like, parse_negated, expr_body,
  parse_operators, parse_prefix,
}
use meyer.Parser.Knot.{productions, parse_expr}

-- A test of precedence `prec_compare` in the climbing loop.
unfoldable pub compares : Kind → Bool
compares k =
    (k == Kind.isnull || k == Kind.notnull)
    || k == Kind.is
    || (k == Kind.like_kw || k == Kind.match)
    || k == Kind.between
    || k == Kind.in_kw

-- The precedence of a token as an operator behind an operand, from the kinds of the token and of the
-- one behind it; 0 where it is none.
unfoldable pub token_prec : Kind → Kind → ℕ
unfolding is_infix infix_op not_prec compares
token_prec k next =
    if is_infix k
    then (infix_op k).prec
    else if k == Kind.collate
    then prec_collate
    else if compares k
    then prec_compare
    else if k == Kind.not
    then not_prec next
    else 0

-- Whether the lookahead is an operator of precedence `min` or above.
unfoldable pub binds : ℕ → State → Bool
unfolding token_prec cur_kind peek_kind
binds min s = let prec = token_prec (cur_kind s) (peek_kind 1 s) in ltb 0 prec && not (ltb prec min)

-- A run that returns leaves a state with `Q`.
pub record Leaves {A : Type 0} (Q : State → Type 0) (o : Outcome A) : Type 0 where
  pub holds : (a : A) (t : State) → o ≡ done a t → Q t

module _ {A : Type 0} {Q : State → Type 0} where
  Leaves-done : (a : A) (s : State) → Q s → Leaves Q (done a s)
  Leaves-done a s q = record { holds = λ b t e. subst Q (cc e) q }

  Leaves-failed : (e : Error) → Leaves {A = A} Q (failed e)
  Leaves-failed e = record { holds = λ b t h. cc h }

  Leaves-out_of_fuel : Leaves {A = A} Q out_of_fuel
  Leaves-out_of_fuel = record { holds = λ b t h. cc h }

module _ {A B : Type 0} {Q : State → Type 0} where
  Leaves-and_then :
      (o : Outcome A) (f : A → Parser B)
      → ((a : A) (s : State) → Leaves Q (f a s))
      → Leaves Q (and_then o f)
  Leaves-and_then (done a s) f h = h a s
  Leaves-and_then (failed e) f h = Leaves-failed e
  Leaves-and_then out_of_fuel f h = Leaves-out_of_fuel

module _ {Q : State → Type 0} (x : Expr) (c : Expr → Parser Expr)
    (hc : (y : Expr) (u : State) → Leaves Q (c y u)) where
  Leaves-on_operator :
      (p ends : Kind → Bool) (f : Token → Parser Expr) (m : Parser Expr) (s : State)
      → (p (cur_kind s) ≡ true → ends (cur_kind s) ≡ true → Q s)
      → (p (cur_kind s) ≡ false → Leaves Q (m s))
      → Leaves Q (on_operator p ends (pure x) (λ t. f t >>= c) m s)
  unfolding on_operator
  Leaves-on_operator p ends f m s hs hm = elim (Bool-cases (p (cur_kind s))) [
    | inl e ↦ elim (Bool-cases (ends (cur_kind s))) [
      | inl d ↦ rw (e, d) (Leaves-done x s (hs e d))
      | inr d ↦
          rw (e, d)
            (Leaves-and_then (advance s) (λ t. f t >>= c) λ t u. Leaves-and_then (f t u) c hc)
    ]
    | inr e ↦ rw e (hm e)
  ]

unfoldable pub Blocked : ℕ → State → Type 0
Blocked min s = binds min s ≡ false

blocked : (prec min : ℕ) → ltb prec min ≡ true → (ltb 0 prec && not (ltb prec min)) ≡ false
blocked prec min h = elim (Bool-cases (ltb 0 prec)) [ inl e ↦ rw (e, h) refl | inr e ↦ rw e refl ]

or_none : (a b : Bool) → (a || (b && false)) ≡ true → a ≡ true
or_none true b h = refl
or_none false true h = h
or_none false false h = h

ends_infix-lt :
    (min : ℕ) (k : Kind) → ends_infix min false k ≡ true → ltb (infix_op k).prec min ≡ true
unfolding ends_infix
ends_infix-lt min k h = or_none _ _ h

module _ (min : ℕ) (s : State) where
  Blocked-infix :
      is_infix (cur_kind s) ≡ true → ends_infix min false (cur_kind s) ≡ true → Blocked min s
  unfolding Blocked binds token_prec
  Blocked-infix e d = rw e (blocked _ min (ends_infix-lt min (cur_kind s) d))

  Blocked-collate :
      is_infix (cur_kind s) ≡ false
      → (cur_kind s == Kind.collate) ≡ true
      → ltb prec_collate min ≡ true
      → Blocked min s
  unfolding Blocked binds token_prec
  Blocked-collate e0 e d = rw (e0, e) (blocked prec_collate min d)

  Blocked-compare :
      is_infix (cur_kind s) ≡ false
      → (cur_kind s == Kind.collate) ≡ false
      → compares (cur_kind s) ≡ true
      → ltb prec_compare min ≡ true
      → Blocked min s
  unfolding Blocked binds token_prec
  Blocked-compare e0 e1 e d = rw (e0, e1, e) (blocked prec_compare min d)

  Blocked-not :
      is_infix (cur_kind s) ≡ false
      → (cur_kind s == Kind.collate) ≡ false
      → compares (cur_kind s) ≡ false
      → (cur_kind s == Kind.not) ≡ true
      → ltb (not_prec (peek_kind 1 s)) min ≡ true
      → Blocked min s
  unfolding Blocked binds token_prec
  Blocked-not e0 e1 e2 e d = rw (e0, e1, e2, e) (blocked _ min d)

  Blocked-none :
      is_infix (cur_kind s) ≡ false
      → (cur_kind s == Kind.collate) ≡ false
      → compares (cur_kind s) ≡ false
      → (cur_kind s == Kind.not) ≡ false
      → Blocked min s
  unfolding Blocked binds token_prec
  Blocked-none e0 e1 e2 e = rw (e0, e1, e2, e) refl

module _ (r : Rec) (min : ℕ) (x : Expr) (c : Expr → Parser Expr)
    (hc : (y : Expr) (u : State) → Leaves (Blocked min) (c y u)) where
  Leaves-operator_step : (s : State) → Leaves (Blocked min) (operator_step r min false x c s)
  unfolding operator_step compares
  Leaves-operator_step s =
      Leaves-on_operator x c hc is_infix (ends_infix min false) (parse_binary r x) _ s
        (Blocked-infix min s)
        λ e0.
          Leaves-on_operator x c hc (λ k. k == Kind.collate) (λ k. ltb prec_collate min)
            (λ t. parse_collate x) _ s (Blocked-collate min s e0)
            λ e1.
              Leaves-on_operator x c hc (λ k. k == Kind.isnull || k == Kind.notnull)
                (λ k. ltb prec_compare min) (λ t. null_check (null_test_of t.kind) x) _ s
                (λ e. Blocked-compare min s e0 e1 (rw e refl))
                λ e2.
                  Leaves-on_operator x c hc (λ k. k == Kind.is) (λ k. ltb prec_compare min)
                    (parse_is r x) _ s (λ e. Blocked-compare min s e0 e1 (rw (e2, e) refl))
                    λ e3.
                      Leaves-on_operator x c hc (λ k. k == Kind.like_kw || k == Kind.match)
                        (λ k. ltb prec_compare min) (parse_like r false x) _ s
                        (λ e. Blocked-compare min s e0 e1 (rw (e2, e3, e) refl))
                        λ e4.
                          Leaves-on_operator x c hc (λ k. k == Kind.between)
                            (λ k. ltb prec_compare min) (parse_between r false x) _ s
                            (λ e. Blocked-compare min s e0 e1 (rw (e2, e3, e4, e) refl))
                            λ e5.
                              Leaves-on_operator x c hc (λ k. k == Kind.in_kw)
                                (λ k. ltb prec_compare min) (parse_in r false x) _ s
                                (λ e. Blocked-compare min s e0 e1 (rw (e2, e3, e4, e5, e) refl))
                                λ e6.
                                  Leaves-on_operator x c hc (λ k. k == Kind.not)
                                    (λ k. ltb (not_prec (peek_kind 1 s)) min)
                                    (λ t. parse_negated r x) (pure x) s
                                    (Blocked-not min s e0 e1 (rw (e2, e3, e4, e5, e6) refl))
                                    λ e7.
                                      Leaves-done x s
                                        (Blocked-none min s e0 e1 (rw (e2, e3, e4, e5, e6) refl) e7)

module _ (r : Rec) (min : ℕ) where
  Leaves-operators :
      (fuel : ℕ) (x : Expr) (s : State) → Leaves (Blocked min) (operators r fuel min false x s)
  unfolding operators
  Leaves-operators zero x s = Leaves-out_of_fuel
  Leaves-operators (suc fuel) x s =
      Leaves-operator_step r min x (operators r fuel min false) (Leaves-operators fuel) s

module _ {A B : Type 0} {Q : State → Type 0} where
  Leaves-then :
      (o : Outcome A) (f : A → Parser B)
      → Leaves Q o
      → ((a : A) (s : State) → Q s → Leaves Q (f a s))
      → Leaves Q (and_then o f)
  Leaves-then (done a s) f q h = h a s (q.holds a s refl)
  Leaves-then (failed e) f q h = Leaves-failed e
  Leaves-then out_of_fuel f q h = Leaves-out_of_fuel

-- The lookahead does not depend on the depth.
Blocked-leave :
    (min : ℕ) (s : State) → Blocked min s → Blocked min (record s { depth = s.depth - 1 })
unfolding Blocked binds cur_kind peek_kind peek cur
Blocked-leave min s h = h

Leaves-expr_body : (r : Rec) (min : ℕ) (s : State) → Leaves (Blocked min) (expr_body r min s)
unfolding expr_body nested leave parse_operators
Leaves-expr_body r min s = Leaves-and_then (enter s) _ λ _ u.
    Leaves-then (and_then (parse_prefix r u) (parse_operators r min false)) _
      (Leaves-and_then (parse_prefix r u) (parse_operators r min false)
        λ x v. Leaves-operators r min (remaining v) x v)
      λ x v q. Leaves-done x (record v { depth = v.depth - 1 }) (Blocked-leave min v q)

pub Leaves-productions :
    (n min : ℕ) (s : State) → Leaves (Blocked min) ((productions n).parse_expr min s)
unfolding productions
Leaves-productions zero min s = Leaves-out_of_fuel
Leaves-productions (suc n) min s = Leaves-expr_body (productions n) min s

-- Where parseExpr returns, the lookahead is no operator of the precedence it was asked for or above:
-- neither one of the infix table nor COLLATE, a null test, IS, LIKE, MATCH, BETWEEN or IN, nor NOT,
-- whose precedence depends on the token behind it.
pub parse_expr-maximal :
    (min : ℕ) (s t : State) (x : Expr) → parse_expr min s ≡ done x t → binds min t ≡ false
unfolding parse_expr Blocked
parse_expr-maximal min s t x h = (Leaves-productions (remaining s) min s).holds x t h
