-- ===== src/Parser/Rules.antt =====
-- parser/parser.go: the rules by which the productions keep the invariant, from the states with at
-- most `n` tokens left, and by which they consume a token.
use meyer.Base.{Bool, Option, false, ℕ, ◌==◌, ◌≡◌, nat_eq}
use meyer.Token.{Kind, Token, kind_eq}
use meyer.Parser.State.{Parser, State, cur_kind, gets, pure, ◌>>=◌}
use meyer.Parser.Look.{accept, advance, expect, syntax_error}
use meyer.Parser.Names.{expect_ids, expect_name, parse_signed_number, qualified_name, xfullname}
use meyer.Parser.Combine.{on, on_class, expect_class}
use meyer.Parser.Looks.{Safe-accept, Safe-advance, Safe-expect, Safe-syntax_error}
use meyer.Parser.NamesSafe.{
  Safe-expect_ids, Safe-expect_name, Safe-parse_signed_number, Safe-qualified_name, Safe-xfullname,
}
use meyer.Parser.Stays.{
  Eats, Eats-bind_last, Eats-on_class, Stays, Stays-Safe, Stays-bind, Stays-gets, Stays-if,
  Stays-pure, Eats-bind, Eats-if, Eats-syntax_error,
}
use meyer.Parser.Repeats.{
  Stays-comma_list, Stays-nested, Eats-expect, Eats-expect_name, Eats-nested, Eats-qualified_name,
}
use meyer.Parser.Rec.{Rec, clause, expr_after, exprs_by, parse_args, parse_expr_list, parse_id_list}
use meyer.Ast.Expr.{JoinOperator}
use meyer.Parser.Safe.{Safe-gets}

module _ {n : ℕ} where
  pub Stays-advance : Stays n advance
  Stays-advance = Stays-Safe Safe-advance

  pub Stays-accept : (k : Kind) → Stays n (accept k)
  Stays-accept k = Stays-Safe (Safe-accept k)

  pub Stays-expect : (k : Kind) → Stays n (expect k)
  Stays-expect k = Stays-Safe (Safe-expect k)

  pub Stays-expect_name : Stays n expect_name
  Stays-expect_name = Stays-Safe Safe-expect_name

  pub Stays-expect_ids : Stays n expect_ids
  Stays-expect_ids = Stays-Safe Safe-expect_ids

  pub Stays-qualified_name : Stays n qualified_name
  Stays-qualified_name = Stays-Safe Safe-qualified_name

  pub Stays-xfullname : Stays n xfullname
  Stays-xfullname = Stays-Safe Safe-xfullname

  pub Stays-parse_signed_number : Stays n parse_signed_number
  Stays-parse_signed_number = Stays-Safe Safe-parse_signed_number

module _ {n : ℕ} where
  pub Stays-expect_class : (p : Kind → Bool) → Stays n (expect_class p)
  unfolding expect_class
  Stays-expect_class p =
      Stays-bind _ _ (Stays-gets cur_kind)
        λ k. Stays-if (p k) _ _ Stays-advance (Stays-Safe Safe-syntax_error)

module _ {A : Type 0} {n : ℕ} where
  pub Stays-syntax_error : Stays n (syntax_error {A = A})
  Stays-syntax_error = Stays-Safe Safe-syntax_error

  pub Stays-on_class :
      (p : Kind → Bool) (f : Token → Parser A) (m : Parser A)
      → ((t : Token) → Stays n (f t))
      → Stays n m
      → Stays n (on_class p f m)
  unfolding on_class
  Stays-on_class p f m hf hm =
      Stays-bind _ _ (Stays-gets cur_kind)
        λ k. Stays-if (p k) (advance >>= f) m (Stays-bind _ _ Stays-advance hf) hm

  pub Stays-on :
      (k : Kind) (f : Token → Parser A) (m : Parser A)
      → ((t : Token) → Stays n (f t))
      → Stays n m
      → Stays n (on k f m)
  unfolding on
  Stays-on k f m hf hm = Stays-on_class (λ j. j == k) f m hf hm

  pub Stays-clause : (d : A) (k : Kind) (m : Parser A) → Stays n m → Stays n (clause d k m)
  unfolding clause
  Stays-clause d k m h = Stays-on k (λ t. m) (pure d) (λ t. h) (Stays-pure d)

  pub Eats-on :
      (k : Kind) (f : Token → Parser A) (m : Parser A)
      → (Kind.eof == k) ≡ false
      → ((t : Token) → Stays n (f t))
      → Eats n m
      → Eats n (on k f m)
  unfolding on
  Eats-on k f m h hf hm = Eats-on_class (λ j. j == k) h f m hf hm

  pub Eats-bind_gets :
      {B : Type 0} (f : State → B) (m : B → Parser A)
      → ((b : B) → Eats n (m b))
      → Eats n (gets f >>= m)
  Eats-bind_gets f m h = Eats-bind_last _ _ (Safe-gets f) h

pub ruleset stays_rules = (
  Stays-bind, Stays-pure, Stays-gets, Stays-if, Stays-on, Stays-clause, Stays-advance, Stays-accept,
  Stays-expect, Stays-expect_name, Stays-expect_ids, Stays-qualified_name, Stays-xfullname,
  Stays-parse_signed_number, Stays-syntax_error, Stays-comma_list, Stays-nested,
)

-- What the productions rely on of the functions through which they recurse.
pub record StaysRec (n : ℕ) (r : Rec) : Type 0 where
  pub expr : (min : ℕ) → Stays n (r.parse_expr min)
  pub between_bound : Stays n r.parse_between_bound
  pub select : Stays n r.parse_select
  pub table_ref : (join : Option JoinOperator) → Stays n (r.parse_table_ref join)

module _ {n : ℕ} where
  pub Stays-parse_id_list : Stays n parse_id_list
  unfolding parse_id_list
  Stays-parse_id_list = search stays_rules depth 24

module _ {n : ℕ} (r : Rec) (h : StaysRec n r) where
  pub Stays-parse_expr_list : Stays n (parse_expr_list r)
  unfolding parse_expr_list
  Stays-parse_expr_list = search (stays_rules, h.expr) depth 24

  pub Stays-expr_after : (k : Kind) (min : ℕ) → Stays n (expr_after r k min)
  unfolding expr_after
  Stays-expr_after k min = search (stays_rules, h.expr) depth 24

  pub Stays-exprs_by : (k : Kind) → Stays n (exprs_by r k)
  unfolding exprs_by
  Stays-exprs_by k = search (stays_rules, Stays-parse_expr_list) depth 24

  pub Stays-parse_args : Stays n (parse_args r)
  unfolding parse_args
  Stays-parse_args = search (stays_rules, Stays-parse_expr_list) depth 24

pub ruleset rec_rules = (
  stays_rules, Stays-parse_id_list, Stays-parse_expr_list, Stays-expr_after, Stays-exprs_by,
  Stays-parse_args,
)

pub ruleset eats_rules = (
  Eats-bind, Eats-bind_gets, Eats-if, Eats-on, Eats-expect, Eats-expect_name, Eats-qualified_name,
  Eats-syntax_error, Eats-nested,
)

pub ruleset class_rules = (rec_rules, Stays-on_class, Stays-expect_class)
