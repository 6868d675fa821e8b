-- ===== src/Parser/Compound.antt =====
-- parser/parse_select.go: the shape of a compound query, which the comment on `SelectStmt` states.
use meyer.Base.{
  Bool, List, [], ap, false, if◌then◌else◌, length, refl, subst, suc, true, zero, ℕ, ◌∷◌, ◌≡◌,
}
use meyer.Ast.{Span}
use meyer.Ast.Expr.{
  CompoundOp, Cores, SelectCore, SelectStmt, WithOpt, core_cons, no_cores, no_with, select_stmt,
}
use meyer.Parser.State.{
  Outcome, Parser, State, and_then, done, failed, out_of_fuel, pure, ◌>>=◌, ◌>>◌, gets,
}
use meyer.Parser.Look.{nested, enter, leave, span}
use meyer.Parser.Combine.{remaining}
use meyer.Parser.Rec.{Rec}
use meyer.Parser.Select.{
  core_list, op_list, parse_select_no_with, parse_with_select, select_body, set_with, select_chain,
}
use meyer.Parser.Knot.{parse_select, productions}

-- A run that returns gives a value with `P`.
pub record Yields {A : Type 0} (P : A → Type 0) (m : Parser A) : Type 0 where
  pub value : (s : State) (a : A) (t : State) → m s ≡ done a t → P a

pub and_then-done :
    {A B : Type 0} (o : Outcome A) (f : A → Parser B) (b : B) (t : State)
    → and_then o f ≡ done b t
    → (a : A) × (u : State) × (o ≡ done a u) × (f a u ≡ done b t)
and_then-done (done a u) f b t h = (a, u, refl, h)
and_then-done (failed e) f b t h = absurd (cc h)
and_then-done out_of_fuel f b t h = absurd (cc h)

module _ {A : Type 0} {P : A → Type 0} where
  pub Yields-pure : (a : A) → P a → Yields P (pure a)
  Yields-pure a p = record { value = λ s b t h. subst P (cc h) p }

  pub Yields-fuel : Yields P (λ s. out_of_fuel)
  Yields-fuel = record { value = λ s b t h. absurd (cc h) }

  -- The value of the last part.
  pub Yields-bind :
      {B : Type 0} (m : Parser B) (f : B → Parser A)
      → ((b : B) → Yields P (f b))
      → Yields P (m >>= f)
  Yields-bind m f h = record {
    value = λ s a t e. let (b, u, _, d) = and_then-done (m s) f a t e in (h b).value u a t d;
  }

module _ {A B : Type 0} {P : A → Type 0} {Q : B → Type 0} where
  -- The value of the last part, from what the first yields.
  Yields-then :
      (m : Parser B) (f : B → Parser A)
      → Yields Q m
      → ((b : B) → Q b → Yields P (f b))
      → Yields P (m >>= f)
  Yields-then m f hm hf = record {
    value = λ s a t e.
        let (b, u, e', d) = and_then-done (m s) f a t e in (hf b (hm.value s b u e')).value u a t d;
  }

module _ {A : Type 0} {P : A → Type 0} where
  Yields-nested : (m : Parser A) → Yields P m → Yields P (nested m)
  unfolding nested
  Yields-nested m h =
      Yields-bind enter (λ _. m >>= λ a. leave >> pure a)
        λ _.
          Yields-then m (λ a. leave >> pure a) h
            λ a p. Yields-bind leave (λ _. pure a) λ _. Yields-pure a p

unfoldable pub count_cores : Cores → ℕ
count_cores no_cores = 0
count_cores (core_cons c cs) = suc (count_cores cs)

-- The query has one operator less than it has cores.
unfoldable pub Compounded : SelectStmt → Type 0
unfolding count_cores
Compounded (select_stmt sp w cs ops) = count_cores cs ≡ suc (length ops)

core_list-op_list :
    (rest : List (CompoundOp × SelectCore)) → count_cores (core_list rest) ≡ length (op_list rest)
unfolding count_cores core_list op_list
core_list-op_list [] = refl
core_list-op_list ((op, core) ∷ rest) = ap suc (core_list-op_list rest)

Yields-stmt :
    (sp : Span) (first : SelectCore) (rest : List (CompoundOp × SelectCore))
    → Yields Compounded
        (pure (select_stmt sp no_with (core_cons first (core_list rest)) (op_list rest)))
unfolding Compounded count_cores
Yields-stmt sp first rest = Yields-pure _ (ap suc (core_list-op_list rest))

Yields-set_with :
    (w : WithOpt) (sp : Span) (n : SelectStmt)
    → Compounded n
    → Yields Compounded (pure (set_with w sp n))
unfolding Compounded set_with
Yields-set_with w sp (select_stmt _ _ cs ops) h = Yields-pure _ h

Yields-if :
    (b : Bool) (m k : Parser SelectStmt)
    → Yields Compounded m
    → Yields Compounded k
    → Yields Compounded (if b then m else k)
Yields-if true m k hm hk = hm
Yields-if false m k hm hk = hk

module _ (r : Rec) where
  Yields-select_chain : Yields Compounded (select_chain r)
  unfolding select_chain
  Yields-select_chain = search (Yields-bind, Yields-stmt) depth 12

  Yields-select_no_with : Yields Compounded (parse_select_no_with r)
  unfolding parse_select_no_with
  Yields-select_no_with = Yields-nested (select_chain r) Yields-select_chain

  Yields-sealed :
      (start : ℕ) (w : WithOpt) (n : SelectStmt)
      → Compounded n
      → Yields Compounded (gets (span start) >>= λ sp. pure (set_with w sp n))
  Yields-sealed start w n h =
      Yields-bind (gets (span start)) (λ sp. pure (set_with w sp n)) λ sp. Yields-set_with w sp n h

  Yields-with_select : (start : ℕ) (w : WithOpt) → Yields Compounded (parse_with_select r start w)
  unfolding parse_with_select
  Yields-with_select start w =
      Yields-then (parse_select_no_with r) _ Yields-select_no_with (Yields-sealed start w)

  Yields-select_body : Yields Compounded (select_body r)
  unfolding select_body
  Yields-select_body = search (Yields-bind, Yields-if, Yields-with_select) depth 12

Yields-productions : (n : ℕ) → Yields Compounded (productions n).parse_select
unfolding productions
Yields-productions zero = Yields-fuel
Yields-productions (suc n) = Yields-select_body (productions n)

-- A query that parseSelect returns has one compound operator less than it has cores, so it has a
-- core.
pub parse_select-compound :
    (s t : State) (n : SelectStmt) → parse_select s ≡ done n t → Compounded n
unfolding parse_select
parse_select-compound s t n h = (Yields-productions (remaining s)).value s n t h
