-- ===== src/Parser/Progress.antt =====
-- parser/parse_expr.go and parser/parse_select.go: expressions and queries consume a token.
use meyer.Base.{ap, arith, length, refl, subst, suc, zero, ℕ, ◌<◌, ◌≡◌, ◌≤◌}
use meyer.Parser.State.{Outcome, Parser, State, done}
use meyer.Parser.Combine.{remaining}
use meyer.Parser.Safe.{Valid}
use meyer.Parser.Post.{Post, returns, stops}
use meyer.Parser.Stays.{Eats}
use meyer.Parser.OperatorsSafe.{Eats-expr_body}
use meyer.Parser.SelectSafe.{Eats-select_body}
use meyer.Parser.Knot.{parse_expr, parse_select, productions}
use meyer.Parser.KnotSafe.{StaysRec-productions}

-- A run that returns has moved on in the token slice.
abbrev Moves : {A : Type 0} → State → Outcome A → Type 0
Moves {A = A} s o = (a : A) (t : State) → o ≡ done a t → s.i < t.i

module _ {A : Type 0} {n : ℕ} where
  Post-Moves :
      {s : State} {o : Outcome A}
      → Post s (λ _ t. remaining t ≤ n) o
      → remaining s ≡ suc n
      → Moves s o
  Post-Moves (stops g) e a t h = cc h
  Post-Moves {s} (returns {a} {s'} v x fewer) e b t h =
      let same : length s'.toks ≡ length s.toks = ap length x.toks in
      let i : s.i < s'.i = omega (arith, same, fewer, e) in
      let final : s' ≡ t = cc h in subst (λ (z : State). s.i < z.i) final i

module _ {A : Type 0} (m : ℕ → Parser A) (eats : (n : ℕ) → Eats n (m (suc n))) where
  remaining-Moves : (s : State) (k : ℕ) → Valid s → remaining s ≡ k → Moves s (m k s)
  remaining-Moves s zero v e = absurd (omega (arith, e, v.in_range))
  remaining-Moves s (suc n) v e = Post-Moves ((eats n).run s v (omega (arith, e))) e

-- From a valid state, parseExpr consumes a token wherever it returns.
pub parse_expr-Moves : (min : ℕ) (s : State) → Valid s → Moves s (parse_expr min s)
unfolding parse_expr productions
parse_expr-Moves min s v =
    remaining-Moves (λ n. (productions n).parse_expr min)
      (λ n. Eats-expr_body (productions n) (StaysRec-productions n) min) s (remaining s) v refl

-- From a valid state, parseSelect consumes a token wherever it returns.
pub parse_select-Moves : (s : State) → Valid s → Moves s (parse_select s)
unfolding parse_select productions
parse_select-Moves s v =
    remaining-Moves (λ n. (productions n).parse_select)
      (λ n. Eats-select_body (productions n) (StaysRec-productions n)) s (remaining s) v refl
