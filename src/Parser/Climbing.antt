-- ===== src/Parser/Climbing.antt =====
-- parser/parse_expr.go: the operators of `parseOperators`, each of which keeps the tree grouped.
use meyer.Parser.Primary.{parse_primary}
use meyer.Base.{
  Bool, ◌≡◌, Bool-cases, false, inl, inr, ltb, ltb→le, refl, subst, true, ℕ, ◌+◌, ◌==◌, ◌≤◌, ◌||◌,
  nat_eq,
}
use meyer.Ast.Expr.{Expr, NullTest, Operator, like_expr, op_bit_not, op_not, test_not_null_words}
use meyer.Token.{Kind, Token, text, kind_eq}
use meyer.Parser.State.{State, pure, ◌>>◌}
use meyer.Parser.Look.{accept, expect, syntax_error}
use meyer.Parser.Rec.{Rec, clause, expr_after, prec_collate, prec_compare, prec_not, prec_unary}
use meyer.Parser.Term.{infix_op}
use meyer.Parser.Operators.{
  null_check, parse_between, parse_binary, parse_collate, parse_in, parse_in_body, parse_in_list,
  parse_in_table, parse_is, parse_like, parse_negated, parse_paren_args, parse_prefix, parse_unary,
  sign_of,
}
use meyer.Parser.Grouped.{Grouped, left_prec, null_prec, prec_at, prefix_prec, room}
use meyer.Parser.Closed.{Closed-parse_primary}
use meyer.Parser.Grouping.{
  Fine, Fine-room, Gives, Gives-and_then, Gives-closed, Gives-done, Gives-on, Gives-on_class,
  Gives-syntax_error, Gives-then, Good, Good-end, op_prec-operator_of,
}
use meyer.Parser.Names.{qualified_name, expect_ids}
use meyer.Ast.{Ident, Span}
use meyer.Parser.Combine.{on}

-- What the productions that a production calls return.
pub record Climbs (r : Rec) : Type 0 where
  pub expr : (min : ℕ) (s : State) → Gives (Fine min) (r.parse_expr min s)

-- A left operand of an operator between the precedences `p` and `q`.
pub record Left (min p q : ℕ) (x : Expr) : Type 0 where
  pub low : min ≤ q
  pub fits : p ≤ room x
  pub grouped : Grouped min x

pub Left-Good :
    (min p : ℕ) (x : Expr) (s : State)
    → Good min x s
    → prec_at s ≡ p
    → ltb p min ≡ false
    → Left min p p x
Left-Good min p x s g e h = record {
  low = ltb→le p min h;
  fits = subst (λ n. n ≤ room x) e g.fits;
  grouped = g.grouped;
}

module _ (min : ℕ) where
  pub Gives-collate :
      (x : Expr) (s : State)
      → Left min prec_collate prec_collate x
      → Gives (Good min) (parse_collate x s)
  unfolding parse_collate Grouped room
  Gives-collate x s l =
      Gives-and_then (expect_ids s) _
        λ n u. Gives-done _ u (Good-end min _ u (l.low, l.fits, l.grouped) refl)

  pub Gives-null_check :
      (test : NullTest) (x : Expr) (s : State)
      → Left min (null_prec test) prec_compare x
      → Gives (Good min) (null_check test x s)
  unfolding null_check Grouped room
  Gives-null_check test x s l = Gives-done _ s (Good-end min _ s (l.low, l.fits, l.grouped) refl)

sign_prec : (k : Kind) → prefix_prec (sign_of k) ≡ prec_unary
unfolding prefix_prec
sign_prec k = elim (Bool-cases (k == Kind.minus)) [ inl e ↦ rw e refl | inr e ↦ rw e refl ]

module _ (r : Rec) (h : Climbs r) (min : ℕ) where
  Gives-unary :
      (op : Operator) (m : ℕ)
      → prefix_prec op ≡ m
      → (t : Token) (s : State) → Gives (Good min) (parse_unary r op (m + 1) t s)
  unfolding parse_unary Grouped room
  Gives-unary op m e t s = Gives-then (r.parse_expr (m + 1) s) _ (h.expr (m + 1) s) λ x u g.
      Gives-done _ u (record { grouped = rw e g.good.grouped; fits = rw e (Fine-room m x u g) })

  pub Gives-prefix : (s : State) → Gives (Good min) (parse_prefix r s)
  unfolding parse_prefix prefix_prec
  Gives-prefix s = Gives-on Kind.not _ _ s (Gives-unary op_not prec_not refl) (
      Gives-on Kind.bitnot _ _ s (Gives-unary op_bit_not prec_unary refl) (
        Gives-on_class (λ k. k == Kind.plus || k == Kind.minus)
          (λ t. parse_unary r (sign_of t.kind) (prec_unary + 1) t) (parse_primary r) s
          (λ t. Gives-unary (sign_of t.kind) prec_unary (sign_prec t.kind) t)
          (Gives-closed min _ s (Closed-parse_primary r))))

  pub Gives-binary :
      (x : Expr) (t : Token) (s : State)
      → Left min (infix_op t.kind).prec (infix_op t.kind).prec x
      → Gives (Good min) (parse_binary r x t s)
  unfolding parse_binary Grouped room
  Gives-binary x t s l = Gives-then (r.parse_expr _ s) _ (h.expr _ s) λ y u g.
      Gives-done _ u (record {
        grouped =
            rw (op_prec-operator_of t (text t s.src)) (l.low, l.fits, l.grouped, g.good.grouped);
        fits = rw (op_prec-operator_of t (text t s.src)) (Fine-room _ y u g);
      })

  pub Gives-is :
      (x : Expr) (t : Token) (s : State)
      → Left min prec_compare prec_compare x
      → Gives (Good min) (parse_is r x t s)
  unfolding parse_is Grouped room
  Gives-is x t s l = Gives-and_then (accept Kind.not s) _ λ neg u.
      Gives-and_then (clause false Kind.distinct (do expect Kind.from; pure true) u) _ λ d v.
        Gives-then (r.parse_expr (prec_compare + 1) v) _ (h.expr (prec_compare + 1) v) λ y w g.
          Gives-done _ w (record {
            grouped = (l.low, l.fits, l.grouped, g.good.grouped);
            fits = Fine-room prec_compare y w g;
          })

  -- The rest of a LIKE behind its right operand.
  Gives-escape :
      (neg : Bool) (x y : Expr) (s : State)
      → Left min (left_prec neg) prec_compare x
      → Fine (prec_compare + 1) y s
      → Gives
          (λ e t. (sp : Span) (op : Ident) → Good min (like_expr sp op neg x y e) t)
          (expr_after r Kind.escape (prec_compare + 1) s)
  unfolding expr_after clause Grouped room
  Gives-escape neg x y s l g =
      Gives-on Kind.escape _ _ s
        (λ t u.
          Gives-then (r.parse_expr (prec_compare + 1) u) _ (h.expr (prec_compare + 1) u) λ z v d.
            Gives-done _ v λ sp op. record {
              grouped = (l.low, l.fits, l.grouped, g.good.grouped, d.good.grouped);
              fits = Fine-room prec_compare z v d;
            })
        (Gives-done _ s λ sp op. record {
          grouped = (l.low, l.fits, l.grouped, g.good.grouped);
          fits = Fine-room prec_compare y s g;
        })

  pub Gives-like :
      (neg : Bool) (x : Expr) (t : Token) (s : State)
      → Left min (left_prec neg) prec_compare x
      → Gives (Good min) (parse_like r neg x t s)
  unfolding parse_like
  Gives-like neg x t s l =
      Gives-then (r.parse_expr (prec_compare + 1) s) _ (h.expr (prec_compare + 1) s) λ y u g.
        Gives-then (expr_after r Kind.escape (prec_compare + 1) u) _ (Gives-escape neg x y u l g)
          λ e v p. Gives-done _ v (p _ _)

  pub Gives-between :
      (neg : Bool) (x : Expr) (t : Token) (s : State)
      → Left min (left_prec neg) prec_compare x
      → Gives (Good min) (parse_between r neg x t s)
  unfolding parse_between Grouped room
  Gives-between neg x t s l = Gives-and_then (r.parse_between_bound s) _ λ lo u.
      Gives-and_then (expect Kind.and u) _ λ _ v.
        Gives-then (r.parse_expr (prec_compare + 1) v) _ (h.expr (prec_compare + 1) v) λ hi w g.
          Gives-done _ w (record {
            grouped = (l.low, l.fits, l.grouped, g.good.grouped);
            fits = Fine-room prec_compare hi w g;
          })

  pub Gives-in :
      (neg : Bool) (x : Expr) (t : Token) (s : State)
      → Left min (left_prec neg) prec_compare x
      → Gives (Good min) (parse_in r neg x t s)
  unfolding parse_in parse_in_list parse_in_table Grouped room
  Gives-in neg x t s l =
      Gives-on Kind.lp _ _ s
        (λ p u. Gives-and_then (parse_in_body r u) _ λ b v.
          Gives-and_then (expect Kind.rp v) _
            λ _ w. Gives-done _ w (Good-end min _ w (l.low, l.fits, l.grouped) refl))
        (Gives-and_then (qualified_name s) _ λ n v.
          Gives-and_then (parse_paren_args r v) _
            λ a w. Gives-done _ w (Good-end min _ w (l.low, l.fits, l.grouped) refl))

  pub Gives-negated :
      (x : Expr) (s : State)
      → Left min prec_not prec_compare x
      → Gives (Good min) (parse_negated r x s)
  unfolding parse_negated left_prec null_prec
  Gives-negated x s l =
      let last = on Kind.in_kw (parse_in r true x) syntax_error in
      let between = on Kind.between (parse_between r true x) last in
      Gives-on Kind.null _ _ s (λ t u. Gives-null_check min test_not_null_words x u l)
        (Gives-on_class (λ k. k == Kind.like_kw || k == Kind.match) (parse_like r true x) between s
          (λ t u. Gives-like true x t u l)
          (Gives-on Kind.between (parse_between r true x) last s (λ t u. Gives-between true x t u l)
            (Gives-on Kind.in_kw (parse_in r true x) syntax_error s (λ t u. Gives-in true x t u l)
              (Gives-syntax_error s))))
