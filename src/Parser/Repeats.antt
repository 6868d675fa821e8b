-- ===== src/Parser/Repeats.antt =====
-- parser/parser.go, parser/parse_expr.go and parser/parse_select.go: the loops over the tokens, the
-- recursion limit and the names keep the invariant, from the states with at most `n` tokens left.
use meyer.Base.{
  Bool, Bool-cases, [], arith, false, inl, inr, ltb, ltb→le, refl, suc, zero, ℕ, ◌+◌, ◌==◌, ◌∷◌,
  ◌≡◌, ◌≤◌, nat_eq,
}
use meyer.Token.{Kind, Token, kind_eq}
use meyer.Keywords.{is_name}
use meyer.Parser.State.{Outcome, Parser, State, and_then, at, cur, cur_kind, done, pure, ◌>>◌}
use meyer.Parser.Look.{expect, leave, max_depth, nested}
use meyer.Parser.Combine.{comma_list, expect_class, many, remaining, repeat}
use meyer.Parser.Safe.{Ensures, Valid, holds}
use meyer.Parser.Looks.{deeper, deeper-Valid, leave-Ensures, nested-Ensures, token-Good}
use meyer.Parser.Post.{Post, returns, stops, syntax_error-Post}
use meyer.Parser.Names.{expect_name, qualified_name, take_ident}
use meyer.Parser.NamesSafe.{Safe-expect_name, look_rules}
use meyer.Parser.Stays.{
  Eats, Eats-bind, Eats-expect_class, Stays, Stays-Safe, Stays-bind, Stays-gets, Stays-le,
  Stays-on_class_eats, Stays-pure, Stays-zero, advance_bind-Fewer,
}

module _ {A : Type 0} {n : ℕ} (p : Kind → Bool) (h : p Kind.eof ≡ false) where
  Stays-repeat :
      (item : Token → Parser A) (k : ℕ)
      → k ≤ n
      → ((t : Token) → Stays n (item t))
      → Stays k (repeat p item k)
  unfolding repeat
  Stays-repeat item zero le hi = Stays-zero
  Stays-repeat item (suc k) le hi =
      Stays-on_class_eats p h _ _
        (λ t. Stays-bind _ _ (Stays-le (omega (arith, le)) (hi t)) λ x.
          Stays-bind _ _ (Stays-repeat item k (omega (arith, le)) hi) λ xs. Stays-pure (x ∷ xs))
        (Stays-pure [])

  pub Stays-many :
      (item : Token → Parser A) → ((t : Token) → Stays n (item t)) → Stays n (many p item)
  unfolding many
  Stays-many item hi = record {
    run = λ s v le. (Stays-repeat item (remaining s) le hi).run s v (omega arith);
  }

returns_with :
    {A : Type 0} {R : A → State → Type 0} {s t : State} {a : A}
    → Ensures s (done a t)
    → R a t
    → Post s R (done a t)
returns_with (holds v x) r = returns v x r

module _ {A : Type 0} {n : ℕ} where
  pub Stays-comma_list : (item : Parser A) → Stays n item → Stays n (comma_list item)
  unfolding comma_list
  Stays-comma_list item h = Stays-bind _ _ h λ x.
      Stays-bind _ _ (Stays-many (λ k. k == Kind.comma) refl (λ t. item) (λ t. h))
        λ xs. Stays-pure (x ∷ xs)

  pub Stays-nested : (m : Parser A) → Stays n m → Stays n (nested m)
  Stays-nested m h = record { run = λ s v le. nested-Ensures m s v λ w. h.run (deeper s) w le }

  leave-Fewer :
      {s : State} {o : Outcome A}
      → Valid s
      → Post (deeper s) (λ _ t. remaining t ≤ n) o
      → Post s (λ _ t. remaining t ≤ n) (and_then o (λ a. leave >> pure a))
  unfolding leave
  leave-Fewer v (stops g) = stops g
  leave-Fewer v (returns w x r) = returns_with (leave-Ensures v (holds w x)) r

  pub Eats-nested : (m : Parser A) → Eats n m → Eats n (nested m)
  unfolding nested cur_kind cur
  Eats-nested m h = record {
    run = λ s v le. elim (Bool-cases (ltb max_depth (s.depth + 1))) [
      | inl e ↦ rw e (stops (token-Good (deeper s) _ s.i v.tokens))
      | inr e ↦ rw e (leave-Fewer v (h.run (deeper s) (deeper-Valid s v (ltb→le _ _ e)) le))
    ];
  }

module _ {n : ℕ} where
  pub Eats-expect : (k : Kind) → (Kind.eof == k) ≡ false → Eats n (expect k)
  unfolding expect expect_class at
  Eats-expect k h = Eats-expect_class (λ j. j == k) h

  pub Eats-expect_name : Eats n expect_name
  unfolding expect_name take_ident is_name
  Eats-expect_name = record {
    run = λ s v le. elim (Bool-cases (is_name (cur_kind s))) [
      | inl e ↦ rw e (advance_bind-Fewer is_name refl _ (λ t. Stays-gets _) s v e le)
      | inr e ↦ rw e (syntax_error-Post s v)
    ];
  }

  pub Eats-qualified_name : Eats n qualified_name
  unfolding qualified_name
  Eats-qualified_name =
      Eats-bind _ _ Eats-expect_name
        λ t. Stays-Safe (search (look_rules, Safe-expect_name) depth 24)
