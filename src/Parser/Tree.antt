-- ===== src/Parser/Tree.antt =====
-- parser/parse_expr.go: the loop of `parseOperators` and the tree that `parseExpr` returns.
use meyer.Base.{
  Bool, ◌≡◌, Bool-cases, arith, false, inl, inr, ltb, refl, subst, suc, sym, true, zero, ℕ, ◌-◌,
  ◌==◌, ◌||◌, ◌≤◌, nat_eq,
}
use meyer.Ast.Expr.{Expr}
use meyer.Token.{Kind, Token, kind_eq}
use meyer.Parser.State.{Parser, State, and_then, cur, cur_kind, done, peek, pure, ◌>>=◌}
use meyer.Parser.Look.{advance, enter, leave, nested}
use meyer.Parser.Combine.{on_operator, remaining}
use meyer.Parser.Rec.{Rec, peek_kind, prec_collate, prec_compare, prec_not}
use meyer.Parser.Term.{infix_op}
use meyer.Parser.Operators.{
  ends_infix, expr_body, is_infix, not_prec, null_check, null_test_of, operator_step, operators,
  parse_between, parse_binary, parse_collate, parse_in, parse_is, parse_like, parse_negated,
  parse_operators, parse_prefix,
}
use meyer.Parser.Knot.{parse_expr, productions}
use meyer.Parser.Precedence.{Blocked, Leaves-productions, compares, token_prec}
use meyer.Parser.Grouped.{Grouped, left_prec, null_prec, prec_at}
use meyer.Parser.Grouping.{
  Gives, Gives-and_then, Gives-done, Gives-out_of_fuel, Gives-then, Good, advance-cur,
}
use meyer.Parser.Climbing.{
  Climbs, Gives-between, Gives-binary, Gives-collate, Gives-in, Gives-is, Gives-like, Gives-negated,
  Gives-null_check, Gives-prefix, Left, Left-Good,
}

module _ (s : State) where
  prec_at-infix : is_infix (cur_kind s) ≡ true → prec_at s ≡ (infix_op (cur_kind s)).prec
  unfolding prec_at token_prec
  prec_at-infix e = rw e refl

  prec_at-collate :
      is_infix (cur_kind s) ≡ false → (cur_kind s == Kind.collate) ≡ true → prec_at s ≡ prec_collate
  unfolding prec_at token_prec
  prec_at-collate e0 e = rw (e0, e) refl

  prec_at-compare :
      is_infix (cur_kind s) ≡ false
      → (cur_kind s == Kind.collate) ≡ false
      → compares (cur_kind s) ≡ true
      → prec_at s ≡ prec_compare
  unfolding prec_at token_prec
  prec_at-compare e0 e1 e = rw (e0, e1, e) refl

  prec_at-not :
      is_infix (cur_kind s) ≡ false
      → (cur_kind s == Kind.collate) ≡ false
      → compares (cur_kind s) ≡ false
      → (cur_kind s == Kind.not) ≡ true
      → prec_at s ≡ not_prec (peek_kind 1 s)
  unfolding prec_at token_prec
  prec_at-not e0 e1 e2 e = rw (e0, e1, e2, e) refl

or_left : (a b : Bool) → (a || b) ≡ false → a ≡ false
or_left true b h = h
or_left false b h = refl

ends_infix-false :
    (min : ℕ) (k : Kind) → ends_infix min false k ≡ false → ltb (infix_op k).prec min ≡ false
unfolding ends_infix
ends_infix-false min k h = or_left _ _ h

not_prec-range : (k : Kind) → (prec_not ≤ not_prec k) × (not_prec k ≤ prec_compare)
unfolding not_prec
not_prec-range k = elim (Bool-cases (k == Kind.null)) [
  | inl e ↦ rw e (omega arith, omega arith)
  | inr e ↦ rw e (omega arith, omega arith)
]

module _ (min : ℕ) (x : Expr) (s : State) (g : Good min x s) where
  Left-not :
      prec_at s ≡ not_prec (peek_kind 1 s)
      → ltb (not_prec (peek_kind 1 s)) min ≡ false
      → Left min prec_not prec_compare x
  Left-not e h =
      let (lo, hi) = not_prec-range (peek_kind 1 s) in
      let l = Left-Good min (not_prec (peek_kind 1 s)) x s g e h in
      record {
        low = omega (arith, l.low, hi);
        fits = omega (arith, l.fits, lo);
        grouped = l.grouped;
      }

  Left-null :
      (t : Token)
      → Left min prec_compare prec_compare x
      → Left min (null_prec (null_test_of t.kind)) prec_compare x
  unfolding null_prec
  Left-null t l = elim (Bool-cases (t.kind == Kind.notnull)) [ inl e ↦ rw e l | inr e ↦ rw e l ]

  module _ (c : Expr → Parser Expr)
      (hc : (y : Expr) (u : State) → Good min y u → Gives (Good min) (c y u)) where
    Gives-on_operator :
        (p ends : Kind → Bool) (f : Token → Parser Expr) (m : Parser Expr)
        → (p (cur_kind s) ≡ true
            → ends (cur_kind s) ≡ false
            → (t : Token) → t ≡ cur s
            → (u : State) → Gives (Good min) (f t u))
        → (p (cur_kind s) ≡ false → Gives (Good min) (m s))
        → Gives (Good min) (on_operator p ends (pure x) (λ t. f t >>= c) m s)
    unfolding on_operator
    Gives-on_operator p ends f m hf hm = elim (Bool-cases (p (cur_kind s))) [
      | inl e ↦ elim (Bool-cases (ends (cur_kind s))) [
        | inl d ↦ rw (e, d) (Gives-done x s g)
        | inr d ↦
            rw (e, d)
              (Gives-then (advance s) (λ t. f t >>= c) (advance-cur s)
                λ t u q. Gives-then (f t u) c (hf e d t q u) hc)
      ]
      | inr e ↦ rw e (hm e)
    ]

    module _ (r : Rec) (h : Climbs r) where
      Gives-operator_step : Gives (Good min) (operator_step r min false x c s)
      unfolding operator_step compares left_prec cur_kind
      Gives-operator_step =
          Gives-on_operator is_infix (ends_infix min false) (parse_binary r x) _
            (λ e d t q u. Gives-binary r h min x t u (
              subst (λ v. Left min (infix_op v.kind).prec (infix_op v.kind).prec x) (sym q)
                (Left-Good min _ x s g (prec_at-infix s e) (ends_infix-false min (cur_kind s) d))))
            λ e0.
              Gives-on_operator (λ k. k == Kind.collate) (λ k. ltb prec_collate min)
                (λ t. parse_collate x) _
                (λ e d t q u.
                  Gives-collate min x u (Left-Good min _ x s g (prec_at-collate s e0 e) d))
                λ e1.
                  let left : compares (cur_kind s) ≡ true
                      → ltb prec_compare min ≡ false
                      → Left min prec_compare prec_compare x =
                    λ e d. Left-Good min _ x s g (prec_at-compare s e0 e1 e) d in
                  Gives-on_operator (λ k. k == Kind.isnull || k == Kind.notnull)
                    (λ k. ltb prec_compare min) (λ t. null_check (null_test_of t.kind) x) _
                    (λ e d t q u.
                      Gives-null_check min (null_test_of t.kind) x u
                        (Left-null t (left (rw e refl) d)))
                    λ e2.
                      Gives-on_operator (λ k. k == Kind.is) (λ k. ltb prec_compare min)
                        (parse_is r x) _
                        (λ e d t q u. Gives-is r h min x t u (left (rw (e2, e) refl) d))
                        λ e3.
                          Gives-on_operator (λ k. k == Kind.like_kw || k == Kind.match)
                            (λ k. ltb prec_compare min) (parse_like r false x) _
                            (λ e d t q u.
                              Gives-like r h min false x t u (left (rw (e2, e3, e) refl) d))
                            λ e4.
                              Gives-on_operator (λ k. k == Kind.between) (λ k. ltb prec_compare min)
                                (parse_between r false x) _
                                (λ e d t q u.
                                  Gives-between r h min false x t u
                                    (left (rw (e2, e3, e4, e) refl) d))
                                λ e5.
                                  Gives-on_operator (λ k. k == Kind.in_kw)
                                    (λ k. ltb prec_compare min) (parse_in r false x) _
                                    (λ e d t q u.
                                      Gives-in r h min false x t u
                                        (left (rw (e2, e3, e4, e5, e) refl) d))
                                    λ e6.
                                      Gives-on_operator (λ k. k == Kind.not)
                                        (λ k. ltb (not_prec (peek_kind 1 s)) min)
                                        (λ t. parse_negated r x) (pure x)
                                        (λ e d t q u. Gives-negated r h min x u (
                                          Left-not
                                            (prec_at-not s e0 e1 (rw (e2, e3, e4, e5, e6) refl) e)
                                            d))
                                        λ e7. Gives-done x s g

-- The lookahead does not depend on the depth.
Good-leave :
    (min : ℕ) (x : Expr) (s : State) → Good min x s → Good min x (record s { depth = s.depth - 1 })
unfolding prec_at cur_kind peek_kind peek cur
Good-leave min x s g = record { grouped = g.grouped; fits = g.fits }

module _ (r : Rec) (h : Climbs r) (min : ℕ) where
  Gives-operators :
      (fuel : ℕ) (x : Expr) (s : State)
      → Good min x s
      → Gives (Good min) (operators r fuel min false x s)
  unfolding operators
  Gives-operators zero x s g = Gives-out_of_fuel
  Gives-operators (suc fuel) x s g =
      Gives-operator_step min x s g (operators r fuel min false) (Gives-operators fuel) r h

  Gives-expr_body : (s : State) → Gives (Good min) (expr_body r min s)
  unfolding expr_body nested leave parse_operators
  Gives-expr_body s = Gives-and_then (enter s) _ λ _ u.
      Gives-then (and_then (parse_prefix r u) (parse_operators r min false)) _
        (Gives-then (parse_prefix r u) (parse_operators r min false) (Gives-prefix r h min u)
          λ x v g. Gives-operators (remaining v) x v g)
        λ x v g. Gives-done x (record v { depth = v.depth - 1 }) (Good-leave min x v g)

Climbs-productions : (n : ℕ) → Climbs (productions n)
unfolding productions Blocked
Climbs-productions zero = record { expr = λ min s. Gives-out_of_fuel }
Climbs-productions (suc n) = record {
  expr = λ min s. record {
    holds = λ x t e. record {
      good = (Gives-expr_body (productions n) (Climbs-productions n) min s).holds x t e;
      ends = (Leaves-productions (suc n) min s).holds x t e;
    };
  };
}

-- The tree that parseExpr returns is grouped by precedence: the binary operators and
-- comparisons down its left side have the precedence it was asked for or above, a left operand
-- does not end in the operand of an operator that is weaker than its own, where a comparison
-- that starts with NOT counts as NOT, and a right operand, like the operand of a prefix
-- operator, is grouped in the same way for stronger operators alone. The lower bound of a
-- BETWEEN is left out.
pub parse_expr-Grouped :
    (min : ℕ) (s t : State) (x : Expr) → parse_expr min s ≡ done x t → Grouped min x
unfolding parse_expr
parse_expr-Grouped min s t x e =
    let f = ((Climbs-productions (remaining s)).expr min s).holds x t e in f.good.grouped
