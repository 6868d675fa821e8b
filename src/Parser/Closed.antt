-- ===== src/Parser/Closed.antt =====
-- parser/parse_expr.go: the expressions that `parsePrimary` returns.
use meyer.Base.{Bool, false, if◌then◌else◌, refl, true, ℕ, ◌==◌, ◌≡◌, Bool-cases, inl, inr, nat_eq}
use meyer.Ast.Expr.{
  Expr, between_expr, binary_expr, bind_param_expr, case_expr, cast_expr, collate_expr, exists_expr,
  func_call, ident_expr, in_expr, is_expr, like_expr, literal_expr, null_check_expr, paren_expr,
  qualified_ref, raise_expr, star_expr, subquery_expr, unary_expr, vector_expr, LiteralKind,
}
use meyer.Token.{Kind, Token, kind_eq}
use meyer.Parser.State.{Parser, cur_kind, gets, pure, ◌>>=◌, Error, cur, fail, failed}
use meyer.Parser.Look.{advance, syntax_error, syntax_error_at}
use meyer.Parser.Combine.{on, on_class}
use meyer.Parser.Rec.{prec_unary, Rec}
use meyer.Parser.Compound.{Yields, Yields-bind, Yields-pure}
use meyer.Parser.Grouped.{Grouped, room}
use meyer.Parser.Term.{
  parse_ctime, parse_qualified_ref, parse_literal, parse_qnumber, parse_string_literal, parse_term,
}
use meyer.Parser.Primary.{
  parse_vector, parse_paren, parse_subquery, parse_cast, parse_func_call, parse_raise, parse_named,
  parse_exists, parse_paren_expr, parse_case, parse_primary,
}
use meyer.Parser.Bind.{bind_param}

unfoldable closed : Expr → Bool
closed (binary_expr sp op x y) = false
closed (unary_expr sp op x) = false
closed (like_expr sp op neg x y escape) = false
closed (is_expr sp neg distinct x y) = false
closed (between_expr sp neg x lo hi) = false
closed (null_check_expr sp test x) = false
closed (in_expr sp neg x parens list q table args has_args) = false
closed (collate_expr sp x n) = false
closed _ = true

-- The expression is no operator.
unfoldable pub IsClosed : Expr → Type 0
unfolding closed
IsClosed x = closed x ≡ true

pub IsClosed-Grouped : (min : ℕ) (x : Expr) → IsClosed x → Grouped min x × (room x ≡ prec_unary)
unfolding IsClosed closed Grouped room
IsClosed-Grouped min (ident_expr n) h = (tt, refl)
IsClosed-Grouped min (qualified_ref sp ns) h = (tt, refl)
IsClosed-Grouped min (star_expr sp n) h = (tt, refl)
IsClosed-Grouped min (literal_expr l) h = (tt, refl)
IsClosed-Grouped min (bind_param_expr b) h = (tt, refl)
IsClosed-Grouped min (paren_expr sp x) h = (tt, refl)
IsClosed-Grouped min (case_expr sp a b c) h = (tt, refl)
IsClosed-Grouped min (cast_expr sp x t) h = (tt, refl)
IsClosed-Grouped min (func_call sp n d a s xs o f w) h = (tt, refl)
IsClosed-Grouped min (exists_expr sp q) h = (tt, refl)
IsClosed-Grouped min (subquery_expr sp q) h = (tt, refl)
IsClosed-Grouped min (vector_expr sp xs) h = (tt, refl)
IsClosed-Grouped min (raise_expr sp a m) h = (tt, refl)
IsClosed-Grouped min (binary_expr sp op x y) h = absurd (cc h)
IsClosed-Grouped min (unary_expr sp op x) h = absurd (cc h)
IsClosed-Grouped min (like_expr sp op neg x y e) h = absurd (cc h)
IsClosed-Grouped min (is_expr sp neg distinct x y) h = absurd (cc h)
IsClosed-Grouped min (between_expr sp neg x lo hi) h = absurd (cc h)
IsClosed-Grouped min (null_check_expr sp test x) h = absurd (cc h)
IsClosed-Grouped min (in_expr sp neg x parens list q table args has_args) h = absurd (cc h)
IsClosed-Grouped min (collate_expr sp x n) h = absurd (cc h)

Yields-closed : (x : Expr) → closed x ≡ true → Yields IsClosed (pure x)
unfolding IsClosed
Yields-closed x h = Yields-pure x h

module _ {A : Type 0} {P : A → Type 0} where
  Yields-if : (b : Bool) (m k : Parser A) → Yields P m → Yields P k → Yields P (if b then m else k)
  Yields-if true m k hm hk = hm
  Yields-if false m k hm hk = hk

  Yields-on :
      (k : Kind) (f : Token → Parser A) (m : Parser A)
      → ((t : Token) → Yields P (f t))
      → Yields P m
      → Yields P (on k f m)
  unfolding on on_class
  Yields-on k f m hf hm =
      Yields-bind (gets cur_kind) _
        λ j. Yields-if (j == k) (advance >>= f) m (Yields-bind advance f hf) hm

  Yields-fails : (e : Error) → Yields P (λ s. failed e)
  Yields-fails e = record { value = λ s a t h. absurd (cc h) }

  Yields-syntax_error : Yields P syntax_error
  unfolding syntax_error syntax_error_at fail
  Yields-syntax_error = record {
    value = λ s a t h. elim (Bool-cases ((cur s).kind == Kind.eof)) [
      | inl e ↦ absurd (cc (h, e))
      | inr e ↦ absurd (cc (h, e))
    ];
  }

module _ where
  Closed-parse_literal : (k : LiteralKind) (t : Token) → Yields IsClosed (parse_literal k t)
  unfolding parse_literal closed
  Closed-parse_literal k t = search (Yields-bind, Yields-closed) depth 12

  Closed-parse_string_literal : (t : Token) → Yields IsClosed (parse_string_literal t)
  unfolding parse_string_literal closed
  Closed-parse_string_literal t = search (Yields-bind, Yields-closed) depth 12

  Closed-parse_qnumber : (t : Token) → Yields IsClosed (parse_qnumber t)
  unfolding parse_qnumber closed
  Closed-parse_qnumber t = search (Yields-bind, Yields-closed) depth 12

  Closed-parse_ctime : (t : Token) → Yields IsClosed (parse_ctime t)
  unfolding parse_ctime closed
  Closed-parse_ctime t = search (Yields-bind, Yields-closed) depth 12

  Closed-parse_term : Yields IsClosed parse_term
  unfolding parse_term
  Closed-parse_term =
      search
        (
          Yields-on, Closed-parse_literal, Closed-parse_string_literal, Closed-parse_qnumber,
          Closed-parse_ctime, Yields-syntax_error,
        )
        depth 24

  Closed-parse_qualified_ref : Yields IsClosed parse_qualified_ref
  unfolding parse_qualified_ref closed
  Closed-parse_qualified_ref = search (Yields-bind, Yields-on, Yields-closed) depth 24

module _ (r : Rec) where
  Closed-parse_paren_expr : Yields IsClosed (parse_paren_expr r)
  unfolding parse_paren_expr parse_subquery parse_paren parse_vector closed
  Closed-parse_paren_expr = search (Yields-bind, Yields-if, Yields-closed) depth 24

  Closed-parse_case : Yields IsClosed (parse_case r)
  unfolding parse_case closed
  Closed-parse_case = search (Yields-bind, Yields-closed) depth 24

  Closed-parse_raise : Yields IsClosed (parse_raise r)
  unfolding parse_raise closed
  Closed-parse_raise = search (Yields-bind, Yields-closed) depth 24

  Closed-parse_cast : (t : Token) → Yields IsClosed (parse_cast r t)
  unfolding parse_cast closed
  Closed-parse_cast t = search (Yields-bind, Yields-closed) depth 24

  Closed-parse_exists : (t : Token) → Yields IsClosed (parse_exists r t)
  unfolding parse_exists closed
  Closed-parse_exists t = search (Yields-bind, Yields-closed) depth 24

  Closed-parse_func_call : (t : Token) → Yields IsClosed (parse_func_call r t)
  unfolding parse_func_call closed
  Closed-parse_func_call t = search (Yields-bind, Yields-closed) depth 24

  Closed-parse_named : (next : Kind) → Yields IsClosed (parse_named r next)
  unfolding parse_named closed
  Closed-parse_named next =
      search
        (Yields-bind, Yields-if, Yields-closed, Closed-parse_qualified_ref, Closed-parse_func_call)
        depth 24

  Closed-bind_param : (t : Token) → Yields IsClosed (bind_param t >>= λ b. pure (bind_param_expr b))
  unfolding closed
  Closed-bind_param t = search (Yields-bind, Yields-closed) depth 12

  pub Closed-parse_primary : Yields IsClosed (parse_primary r)
  unfolding parse_primary
  Closed-parse_primary =
      search
        (
          Yields-bind, Yields-if, Yields-on, Closed-parse_paren_expr, Closed-parse_term,
          Closed-parse_qualified_ref, Closed-parse_case, Closed-parse_raise, Closed-parse_cast,
          Closed-parse_exists, Closed-bind_param, Closed-parse_named,
        )
        depth 40
