-- ===== src/Parser/Grouping.antt =====
-- parser/parse_expr.go: the precedence climbing builds the tree that the precedences ask for.
use meyer.Base.{
  Bool, ◌≡◌, Bool-cases, Bytes, arith, false, inl, inr, ltb, not, refl, subst, true, ℕ, ◌&&◌, ◌+◌,
  ◌==◌, ◌≤◌, nat_eq,
}
use meyer.Ast.Expr.{Expr, op_ptr2}
use meyer.Token.{Kind, Token, kind_eq}
use meyer.Parser.State.{
  Error, Outcome, Parser, State, and_then, cur, cur_kind, done, failed, out_of_fuel, fail,
}
use meyer.Parser.Look.{advance, check_deferred, check_illegal, step, syntax_error, syntax_error_at}
use meyer.Parser.Combine.{on, on_class}
use meyer.Parser.Rec.{prec_unary}
use meyer.Parser.Term.{infix_op}
use meyer.Parser.Operators.{operator_of}
use meyer.Parser.Compound.{Yields}
use meyer.Parser.Precedence.{binds}
use meyer.Parser.Grouped.{Grouped, lesser, op_prec, op_prec-infix_op, prec_at, prec_at-le, room}
use meyer.Parser.Closed.{IsClosed, IsClosed-Grouped}
use meyer.Keywords.Find.{bytes_beq}
use meyer.Keywords.{codes}

-- A run that returns gives a value and a state with `Q`.
pub record Gives {A : Type 0} (Q : A → State → Type 0) (o : Outcome A) : Type 0 where
  pub holds : (a : A) (t : State) → o ≡ done a t → Q a t

module _ {A : Type 0} {Q : A → State → Type 0} where
  pub Gives-done : (a : A) (s : State) → Q a s → Gives Q (done a s)
  Gives-done a s q = record {
    holds = λ b t e. subst (λ v. Q b v) (cc e) (subst (λ c. Q c s) (cc e) q);
  }

  Gives-failed : (e : Error) → Gives Q (failed e)
  Gives-failed e = record { holds = λ b t h. absurd (cc h) }

  pub Gives-out_of_fuel : Gives Q out_of_fuel
  Gives-out_of_fuel = record { holds = λ b t h. absurd (cc h) }

module _ {A B : Type 0} {P : A → State → Type 0} {Q : B → State → Type 0} where
  pub Gives-then :
      (o : Outcome A) (f : A → Parser B)
      → Gives P o
      → ((a : A) (s : State) → P a s → Gives Q (f a s))
      → Gives Q (and_then o f)
  Gives-then (done a s) f p h = h a s (p.holds a s refl)
  Gives-then (failed e) f p h = Gives-failed e
  Gives-then out_of_fuel f p h = Gives-out_of_fuel

module _ {A B : Type 0} {Q : B → State → Type 0} where
  pub Gives-and_then :
      (o : Outcome A) (f : A → Parser B)
      → ((a : A) (s : State) → Gives Q (f a s))
      → Gives Q (and_then o f)
  Gives-and_then (done a s) f h = h a s
  Gives-and_then (failed e) f h = Gives-failed e
  Gives-and_then out_of_fuel f h = Gives-out_of_fuel

module _ {A : Type 0} {Q : A → State → Type 0} where
  pub Gives-on :
      (k : Kind) (f : Token → Parser A) (m : Parser A) (s : State)
      → ((t : Token) (u : State) → Gives Q (f t u))
      → Gives Q (m s)
      → Gives Q (on k f m s)
  unfolding on on_class
  Gives-on k f m s hf hm = elim (Bool-cases (cur_kind s == k)) [
    | inl e ↦ rw e (Gives-and_then (advance s) f hf)
    | inr e ↦ rw e hm
  ]

  pub Gives-on_class :
      (p : Kind → Bool) (f : Token → Parser A) (m : Parser A) (s : State)
      → ((t : Token) (u : State) → Gives Q (f t u))
      → Gives Q (m s)
      → Gives Q (on_class p f m s)
  unfolding on_class
  Gives-on_class p f m s hf hm = elim (Bool-cases (p (cur_kind s))) [
    | inl e ↦ rw e (Gives-and_then (advance s) f hf)
    | inr e ↦ rw e hm
  ]

  pub Gives-syntax_error : (s : State) → Gives Q (syntax_error s)
  unfolding syntax_error syntax_error_at fail
  Gives-syntax_error s = elim (Bool-cases ((cur s).kind == Kind.eof)) [
    | inl e ↦ rw e (Gives-failed _)
    | inr e ↦ rw e (Gives-failed _)
  ]

-- The token that `advance` returns is the lookahead.
pub advance-cur : (s : State) → Gives (λ t _. t ≡ cur s) (advance s)
unfolding advance
advance-cur s = Gives-and_then (step s) _ λ _ u.
    Gives-and_then (check_deferred u) _
      λ _ v. Gives-and_then (check_illegal v) _ λ _ w. Gives-done (cur s) w refl

-- An expression that the loop holds in front of the lookahead.
pub record Good (min : ℕ) (x : Expr) (s : State) : Type 0 where
  pub grouped : Grouped min x
  pub fits : prec_at s ≤ room x

-- An expression that `parseExpr` returns.
pub record Fine (min : ℕ) (x : Expr) (s : State) : Type 0 where
  pub good : Good min x s
  pub ends : binds min s ≡ false

pub lesser-le : (n p q : ℕ) → n ≤ p → n ≤ q → n ≤ lesser p q
unfolding lesser
lesser-le n p q h d = elim (Bool-cases (ltb p q)) [ inl e ↦ rw e h | inr e ↦ rw e d ]

unbound_le : (n p : ℕ) → (ltb 0 n && not (ltb n (p + 1))) ≡ false → n ≤ p
unbound_le n p h = ground arith

-- Behind a right operand no operator binds more tightly than its own.
Fine-le : (p : ℕ) (x : Expr) (s : State) → Fine (p + 1) x s → prec_at s ≤ p
unfolding binds prec_at
Fine-le p x s h = unbound_le _ p h.ends

pub Fine-room : (p : ℕ) (x : Expr) (s : State) → Fine (p + 1) x s → prec_at s ≤ lesser p (room x)
Fine-room p x s h = lesser-le _ p _ (Fine-le p x s h) h.good.fits

-- An operand that ends in a token of its own.
pub Good-end : (min : ℕ) (x : Expr) (s : State) → Grouped min x → room x ≡ prec_unary → Good min x s
Good-end min x s g e = record { grouped = g; fits = rw e (prec_at-le s) }

pub Gives-closed :
    (min : ℕ) (m : Parser Expr) (s : State) → Yields IsClosed m → Gives (Good min) (m s)
Gives-closed min m s h = record {
  holds = λ x t e. let (g, d) = IsClosed-Grouped min x (h.value s x t e) in Good-end min x t g d;
}

and_left : (a b : Bool) → (a && b) ≡ true → a ≡ true
and_left true b h = refl
and_left false b h = h

ptr_prec : (k : Kind) → (k == Kind.ptr) ≡ true → op_prec op_ptr2 ≡ (infix_op k).prec
unfolding infix_op op_prec
ptr_prec k h = rw ((kind_eq.same_iff k Kind.ptr).0 h) refl

-- The infix operator of a token has the precedence of the table.
pub op_prec-operator_of :
    (t : Token) (raw : Bytes) → op_prec (operator_of t raw) ≡ (infix_op t.kind).prec
unfolding operator_of
op_prec-operator_of t raw = elim (Bool-cases (t.kind == Kind.ptr && bytes_beq raw (codes "->>"))) [
  | inl e ↦ rw e (ptr_prec t.kind (and_left _ _ e))
  | inr e ↦ rw e (op_prec-infix_op t.kind)
]
