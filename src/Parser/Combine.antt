-- ===== src/Parser/Combine.antt =====
-- parser/parser.go, parser/parse_expr.go and parser/parse_select.go: the shapes of control flow that
-- the productions share. A loop over the tokens runs on fuel, as much as there are tokens left.
use meyer.Base.{Bool, List, [], if◌then◌else◌, length, suc, zero, ℕ, ◌-◌, ◌==◌, ◌∷◌, nat_eq}
use meyer.Token.{Kind, Token, kind_eq}
use meyer.Parser.State.{Parser, State, cur_kind, gets, out_of_fuel, pure, ◌>>=◌}
use meyer.Parser.Look.{advance, syntax_error}

-- How many tokens are left, the end of the input included.
abbrev pub remaining : State → ℕ
remaining s = length s.toks - s.i

-- A switch with one case: a lookahead of the class is consumed.
unfoldable pub on_class : {A : Type 0} → (Kind → Bool) → (Token → Parser A) → Parser A → Parser A
unfolding cur_kind advance
on_class p then_run else_run = do
  k ← gets cur_kind
  if p k then (advance >>= then_run) else else_run

-- `if p.at(k) { p.advance(); … }`, and `if p.accept(k) { … }`
unfoldable pub on : {A : Type 0} → Kind → (Token → Parser A) → Parser A → Parser A
unfolding on_class
on k then_run else_run = on_class (λ j. j == k) then_run else_run

-- A case of the climbing loop: its operator is consumed, unless it ends the expression.
unfoldable pub on_operator :
    {A : Type 0}
    → (Kind → Bool)
    → (Kind → Bool)
    → Parser A
    → (Token → Parser A)
    → Parser A
    → Parser A
unfolding cur_kind advance
on_operator p ends stop then_run else_run = do
  k ← gets cur_kind
  if p k then (if ends k then stop else (advance >>= then_run)) else else_run

-- An error for a lookahead outside the class.
unfoldable pub expect_class : (Kind → Bool) → Parser Token
unfolding cur_kind advance syntax_error
expect_class p = do k ← gets cur_kind; if p k then advance else syntax_error

unfoldable pub repeat : {A : Type 0} → (Kind → Bool) → (Token → Parser A) → ℕ → Parser (List A)
unfolding on_class
repeat p item zero = λ s. out_of_fuel
repeat p item (suc fuel) =
    on_class p (λ t. do x ← item t; xs ← repeat p item fuel; pure (x ∷ xs)) (pure [])

-- `for p.at(k) { … }` where the class decides, and the items follow its token.
unfoldable pub many : {A : Type 0} → (Kind → Bool) → (Token → Parser A) → Parser (List A)
unfolding repeat
many p item s = repeat p item (remaining s) s

-- `for { item; if !p.accept(token.COMMA) { return } }`
unfoldable pub comma_list : {A : Type 0} → Parser A → Parser (List A)
unfolding many
comma_list item = do x ← item; xs ← many (λ k. k == Kind.comma) (λ t. item); pure (x ∷ xs)
