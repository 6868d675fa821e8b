-- ===== src/Parser/PrimarySafe.antt =====
-- parser/parse_expr.go: `parsePrimary` keeps the invariant and consumes a token.
use meyer.Base.{List, [], false, refl, ℕ, ◌==◌, ◌∷◌, ◌≡◌, nat_eq}
use meyer.Token.{Kind, Token, kind_eq}
use meyer.Keywords.{is_idj}
use meyer.Ast.Expr.{CaseWhen, Expr}
use meyer.Parser.Combine.{expect_class, many}
use meyer.Parser.Rec.{Rec, prec_lowest}
use meyer.Parser.Rules.{Stays-syntax_error, StaysRec, eats_rules, rec_rules, stays_rules}
use meyer.Parser.Stays.{Eats, Eats-expect_class, Stays, Stays-pure}
use meyer.Parser.Repeats.{Stays-many}
use meyer.Parser.Reads.{Eats-on_token, Reads-bind_param}
use meyer.Parser.Term.{parse_qualified_ref}
use meyer.Parser.TermSafe.{Eats-parse_term, Stays-parse_type_token}
use meyer.Parser.WindowSafe.{Stays-parse_order_by, Stays-parse_window}
use meyer.Parser.Primary.{
  parse_call_args, parse_call_body, parse_case, parse_case_operand, parse_case_when, parse_cast,
  parse_distinct, parse_exists, parse_filter, parse_filter_over, parse_func_call, parse_named,
  parse_over, parse_over_name, parse_paren, parse_paren_expr, parse_primary, parse_raise,
  parse_raise_action, parse_subquery, parse_vector, some_whens,
}

is_idj-eof : is_idj Kind.eof ≡ false
unfolding is_idj
is_idj-eof = refl

module _ {n : ℕ} where
  Eats-idj : Eats n (expect_class is_idj)
  Eats-idj = Eats-expect_class is_idj is_idj-eof

  Stays-some_whens : (xs : List CaseWhen) → Stays n (some_whens xs)
  unfolding some_whens
  Stays-some_whens [] = Stays-syntax_error
  Stays-some_whens (x ∷ xs) = Stays-pure _

  Eats-parse_qualified_ref : Eats n parse_qualified_ref
  unfolding parse_qualified_ref
  Eats-parse_qualified_ref = search (eats_rules, stays_rules) depth 24

  pub Stays-parse_distinct : Stays n parse_distinct
  unfolding parse_distinct
  Stays-parse_distinct = search rec_rules depth 30

module _ {n : ℕ} (r : Rec) (h : StaysRec n r) where
  pub Stays-parse_cast : (a : Token) → Stays n (parse_cast r a)
  unfolding parse_cast
  Stays-parse_cast a = search (rec_rules, h.expr, Stays-parse_type_token) depth 30

  pub Stays-parse_exists : (a : Token) → Stays n (parse_exists r a)
  unfolding parse_exists
  Stays-parse_exists a = search rec_rules depth 30

  pub Stays-parse_subquery : (a : ℕ) → Stays n (parse_subquery r a)
  unfolding parse_subquery
  Stays-parse_subquery a = search rec_rules depth 30

  Stays-rest : Stays n (many (λ k. k == Kind.comma) (λ t. r.parse_expr prec_lowest))
  Stays-rest = Stays-many _ refl (λ t. r.parse_expr prec_lowest) (λ t. h.expr prec_lowest)

  pub Stays-parse_vector : (a : ℕ) (b : Expr) → Stays n (parse_vector r a b)
  unfolding parse_vector
  Stays-parse_vector a b = search (rec_rules, Stays-rest) depth 30

  pub Stays-parse_paren : (a : ℕ) → Stays n (parse_paren r a)
  unfolding parse_paren
  Stays-parse_paren a = search (rec_rules, h.expr, Stays-parse_vector) depth 30

  pub Stays-parse_case_when : (a : Token) → Stays n (parse_case_when r a)
  unfolding parse_case_when
  Stays-parse_case_when a = search (rec_rules, h.expr) depth 30

  pub Stays-parse_case_operand : Stays n (parse_case_operand r)
  unfolding parse_case_operand
  Stays-parse_case_operand = search (rec_rules, h.expr) depth 30

  pub Stays-parse_raise_action : Stays n (parse_raise_action r)
  unfolding parse_raise_action
  Stays-parse_raise_action = search (rec_rules, h.expr) depth 30

  pub Stays-parse_call_args : Stays n (parse_call_args r)
  unfolding parse_call_args
  Stays-parse_call_args = search rec_rules depth 30

  pub Stays-parse_call_body : Stays n (parse_call_body r)
  unfolding parse_call_body
  Stays-parse_call_body =
      search (rec_rules, Stays-parse_distinct, Stays-parse_call_args, Stays-parse_order_by) depth 30

  pub Stays-parse_filter : Stays n (parse_filter r)
  unfolding parse_filter
  Stays-parse_filter = search (rec_rules, h.expr) depth 30

  pub Stays-parse_over_name : (a : ℕ) → Stays n (parse_over_name r a)
  unfolding parse_over_name
  Stays-parse_over_name a = search rec_rules depth 30

  pub Stays-parse_over : (a : Token) → Stays n (parse_over r a)
  unfolding parse_over
  Stays-parse_over a = search (rec_rules, Stays-parse_over_name, Stays-parse_window) depth 30

  pub Stays-parse_filter_over : Stays n (parse_filter_over r)
  unfolding parse_filter_over
  Stays-parse_filter_over = search (rec_rules, Stays-parse_filter, Stays-parse_over) depth 30

  pub Stays-parse_func_call : (a : Token) → Stays n (parse_func_call r a)
  unfolding parse_func_call
  Stays-parse_func_call a =
      search (rec_rules, Stays-parse_call_body, Stays-parse_filter_over) depth 30

  Stays-pairs : Stays n (many (λ k. k == Kind.when) (parse_case_when r))
  Stays-pairs = Stays-many _ refl (parse_case_when r) Stays-parse_case_when

  Eats-parse_paren_expr : Eats n (parse_paren_expr r)
  unfolding parse_paren_expr
  Eats-parse_paren_expr =
      search (eats_rules, rec_rules, Stays-parse_subquery, Stays-parse_paren) depth 30

  Eats-parse_case : Eats n (parse_case r)
  unfolding parse_case
  Eats-parse_case =
      search (eats_rules, rec_rules, Stays-parse_case_operand, Stays-pairs, Stays-some_whens) depth
        30

  Eats-parse_raise : Eats n (parse_raise r)
  unfolding parse_raise
  Eats-parse_raise = search (eats_rules, rec_rules, Stays-parse_raise_action) depth 30

  Eats-parse_named : (next : Kind) → Eats n (parse_named r next)
  unfolding parse_named
  Eats-parse_named next =
      search (eats_rules, rec_rules, Eats-parse_qualified_ref, Eats-idj, Stays-parse_func_call)
        depth 30

  -- A primary expression consumes a token.
  pub Eats-parse_primary : Eats n (parse_primary r)
  unfolding parse_primary
  Eats-parse_primary =
      search
        (
          eats_rules, Eats-on_token, Reads-bind_param, Eats-parse_paren_expr, Eats-parse_term,
          Eats-parse_qualified_ref, Eats-parse_case, Eats-parse_raise, Eats-parse_named,
          Stays-parse_cast, Stays-parse_exists,
        )
        depth 30
