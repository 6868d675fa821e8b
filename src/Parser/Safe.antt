-- ===== src/Parser/Safe.antt =====
-- parser/parser.go: the invariant of the parser's state and what every parsing function promises,
-- with a rule for each way to build one.
use meyer.Base.{
  Bool, Bytes, List, arith, false, get_or, if◌then◌else◌, length, refl, some, subst, suc, true, ℕ,
  ◌-◌, ◌<◌, ◌==◌, ◌∙◌, ◌≡◌, ◌≤◌, nat_eq,
}
use meyer.Token.{Kind, Token, kind_eq}
use meyer.Lexer.Lex.{eof_token}
use meyer.Parser.State.{
  Error, Outcome, Parser, State, and_then, cur_kind, done, failed, gets, pure, ◌>>=◌,
}
use meyer.Parser.Look.{max_depth}

-- The token slice is one that the tokenizer makes of `src`.
pub record Tokens (src : Bytes) (toks : List Token) : Type 0 where
  pub nonempty : 0 < length toks
  pub ends : (get_or toks (length toks - 1) (eof_token 0)).kind ≡ Kind.eof
  pub start : (j : ℕ) → (get_or toks j (eof_token 0)).pos ≤ (get_or toks j (eof_token 0)).end
  pub inside : (j : ℕ) → (get_or toks j (eof_token 0)).end ≤ length src
  pub ordered :
      (j : ℕ)
      → suc j < length toks
      → (get_or toks j (eof_token 0)).end ≤ (get_or toks (suc j) (eof_token 0)).pos

-- An error of this input: its offset is known and lies inside it.
pub record Good (src : Bytes) (e : Error) : Type 0 where
  pub offset : ℕ
  pub known : e.offset ≡ some offset
  pub inside : offset ≤ length src
  pub sql : e.sql ≡ src

pub record Valid (s : State) : Type 0 where
  pub tokens : Tokens s.src s.toks
  pub in_range : s.i < length s.toks
  pub legal : (cur_kind s == Kind.illegal) ≡ false
  pub shallow : s.depth ≤ max_depth
  pub pending : (e : Error) → s.deferred ≡ some e → Good s.src e × (s.i ≤ s.defer_index)

-- What a function that returns leaves of the state it is given.
pub record Extends (s s' : State) : Type 0 where
  pub src : s'.src ≡ s.src
  pub toks : s'.toks ≡ s.toks
  pub opts : s'.opts ≡ s.opts
  pub depth : s'.depth ≡ s.depth
  pub forward : s.i ≤ s'.i
  pub deferred : (e : Error) → s.deferred ≡ some e → s'.deferred ≡ some e
  pub defer_index : (e : Error) → s.deferred ≡ some e → s'.defer_index ≡ s.defer_index

pub Extends-refl : (s : State) → Extends s s
Extends-refl s = record {
  src = refl;
  toks = refl;
  opts = refl;
  depth = refl;
  forward = omega arith;
  deferred = λ e h. h;
  defer_index = λ e h. refl;
}

pub Extends-trans : {r s t : State} → Extends r s → Extends s t → Extends r t
Extends-trans p q = record {
  src = q.src ∙ p.src;
  toks = q.toks ∙ p.toks;
  opts = q.opts ∙ p.opts;
  depth = q.depth ∙ p.depth;
  forward = omega (arith, p.forward, q.forward);
  deferred = λ e h. q.deferred e (p.deferred e h);
  defer_index = λ e h. q.defer_index e (p.deferred e h) ∙ p.defer_index e h;
}

-- An outcome from state `s`: a value in a state that extends it, or an error of its input.
pub data Ensures {ℓ} {A : Type ℓ} (s : State) : Outcome A → Type ℓ where
  holds : {a : A} {s' : State} → Valid s' → Extends s s' → Ensures s (done a s')
  rejects : {e : Error} → Good s.src e → Ensures s (failed e)

-- From every valid state `m` returns within its fuel, in a valid state, or fails with an error of
-- the input.
pub record Safe {ℓ} {A : Type ℓ} (m : Parser A) : Type ℓ where
  pub run : (s : State) → Valid s → Ensures s (m s)

pub Extends-Ensures {ℓ} :
    {A : Type ℓ} {r s : State} {o : Outcome A} → Extends r s → Ensures s o → Ensures r o
Extends-Ensures x (holds v y) = holds v (Extends-trans x y)
Extends-Ensures x (rejects {e} g) = rejects (subst (λ z. Good z e) x.src g)

pub Ensures-and_then {ℓ κ} :
    {A : Type ℓ} {B : Type κ} {s : State} {o : Outcome A} (f : A → Parser B)
    → Ensures s o
    → ((a : A) → Safe (f a))
    → Ensures s (and_then o f)
Ensures-and_then f (rejects g) k = rejects g
Ensures-and_then f (holds {a} {s'} v x) k = Extends-Ensures x ((k a).run s' v)

module _ {ℓ κ} {A : Type ℓ} {B : Type κ} where
  pub Safe-bind :
      (m : Parser A) (f : A → Parser B) → Safe m → ((a : A) → Safe (f a)) → Safe (m >>= f)
  Safe-bind m f hm hf = record { run = λ s v. Ensures-and_then f (hm.run s v) hf }

module _ {ℓ} {A : Type ℓ} where
  pub Safe-pure : (a : A) → Safe (pure a)
  Safe-pure a = record { run = λ s v. holds v (Extends-refl s) }

  pub Safe-gets : (f : State → A) → Safe (gets f)
  Safe-gets f = record { run = λ s v. holds v (Extends-refl s) }

  pub Safe-if : (b : Bool) (m n : Parser A) → Safe m → Safe n → Safe (if b then m else n)
  Safe-if true m n hm hn = hm
  Safe-if false m n hm hn = hn

pub ruleset safe_rules = (Safe-bind, Safe-pure, Safe-gets, Safe-if)
