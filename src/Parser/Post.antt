-- ===== src/Parser/Post.antt =====
-- parser/parser.go: postconditions on a run's value and final state, with rules for the operations
-- that the script loop is made of.
use Prim.{Unit, tt}
use meyer.Base.{
  Option, if◌then◌else◌, length, ltb, none, refl, some, subst, ◌+◌, ◌-◌, ◌==◌, ◌≡◌, Bool, false,
  true, ◌<◌, Bool-cases, ap, arith, get_or, inl, inr, ltb→le, ltb→lt, ◌∙◌, nat_eq,
}
use meyer.Token.{Kind, Token, kind_eq}
use meyer.Parser.State.{
  Error, Outcome, Parser, State, and_then, cur, done, fail, failed, pure, raise, at, cur_kind,
  ◌>>=◌,
}
use meyer.Parser.Look.{advance, check_illegal, check_deferred, step, syntax_error}
use meyer.Parser.Safe.{Ensures, Extends, Extends-trans, Good, Safe, Valid, holds, rejects}
use meyer.Lexer.Lex.{eof_token}
use meyer.Parser.Looks.{token-Good, Safe-advance}

-- `Ensures`, with `R` of the value and the final state.
pub data Post {ℓ κ} {A : Type ℓ} (s : State) (R : A → State → Type κ)
    : Outcome A → Type (ℓ ⊔ κ) where
  returns : {a : A} {s' : State} → Valid s' → Extends s s' → R a s' → Post s R (done a s')
  stops : {e : Error} → Good s.src e → Post s R (failed e)

module _ {ℓ κ} {A : Type ℓ} {R : A → State → Type κ} where
  pub Post-Ensures : {s : State} {o : Outcome A} → Post s R o → Ensures s o
  Post-Ensures (returns v x h) = holds v x
  Post-Ensures (stops g) = rejects g

  pub Post-of :
      {s : State} (o : Outcome A)
      → Ensures s o
      → ((a : A) (s' : State) → o ≡ done a s' → R a s')
      → Post s R o
  Post-of o (holds v x) h = returns v x (h _ _ refl)
  Post-of o (rejects g) h = stops g

  pub Post-map {μ} :
      {Q : A → State → Type μ} {s : State} {o : Outcome A}
      → Post s R o
      → ((a : A) (s' : State) → Valid s' → Extends s s' → R a s' → Q a s')
      → Post s Q o
  Post-map (returns v x h) k = returns v x (k _ _ v x h)
  Post-map (stops g) k = stops g

  pub Extends-Post : {r s : State} {o : Outcome A} → Extends r s → Post s R o → Post r R o
  Extends-Post x (returns v y h) = returns v (Extends-trans x y) h
  Extends-Post x (stops {e} g) = stops (subst (λ z. Good z e) x.src g)

module _ {ℓ κ ℓ' κ'} {A : Type ℓ} {B : Type ℓ'} {R : A → State → Type κ}
    {Q : B → State → Type κ'} where
  pub Post-bind :
      {s : State} {o : Outcome A} (f : A → Parser B)
      → Post s R o
      → ((a : A) (s' : State) → Valid s' → Extends s s' → R a s' → Post s' Q (f a s'))
      → Post s Q (and_then o f)
  Post-bind f (stops g) k = stops g
  Post-bind f (returns {a} {s'} v x h) k = Extends-Post x (k a s' v x h)

pub Safe-Post {ℓ} :
    {A : Type ℓ} {m : Parser A} (s : State) → Safe m → Valid s → Post s (λ _ _. Unit {0}) (m s)
Safe-Post s h v = Post-of _ (h.run s v) (λ _ _ _. tt)

abbrev pub moved : State → State
moved s = if ltb s.i (length s.toks - 1) then record s { i = s.i + 1 } else s

-- A run that gets past a check left the state as it was.
check-done :
    {A : Type 0} (b : Bool) (o : Option Error) (s : State) (f : Parser A) (a : A) (s' : State)
    → and_then (if b then raise o s else done tt s) (λ _. f) ≡ done a s'
    → f s ≡ done a s'
unfolding raise
check-done false o s f a s' h = h
check-done true none s f a s' h = h
check-done true (some e) s f a s' h = cc

check_illegal-done :
    (s : State) (t a : Token) (s' : State)
    → and_then (check_illegal s) (λ _. pure t) ≡ done a s'
    → done t s ≡ done a s'
unfolding check_illegal fail raise
check_illegal-done s t a s' h = check-done ((cur s).kind == Kind.illegal) (some _) s (pure t) a s' h

pub advance-done :
    (s : State) (a : Token) (s' : State) → advance s ≡ done a s' → (a ≡ cur s) × (s' ≡ moved s)
unfolding advance check_deferred step
advance-done s a s' h =
    let e =
      check_illegal-done (moved s) (cur s) a s'
        (check-done _ (moved s).deferred (moved s) (check_illegal >>= λ _. pure (cur s)) a s' h) in
    (cc e, cc e)

-- `advance` returns the lookahead; before the end of the input it moves on by one token.
pub record Advanced (s : State) (t : Token) (s' : State) : Type 0 where
  pub token : t ≡ cur s
  pub moves : at Kind.eof s ≡ false → s'.i ≡ s.i + 1
  pub deferred : s'.deferred ≡ s.deferred

last_token : (s : State) → Valid s → at Kind.eof s ≡ false → s.i < length s.toks - 1
unfolding at cur_kind cur
last_token s v h = elim (Bool-cases (ltb s.i (length s.toks - 1))) [
  | inl e ↦ ltb→lt _ _ e
  | inr e ↦
      let i : s.i ≡ length s.toks - 1 = omega (arith, ltb→le _ _ e, v.in_range) in
      let k = ap (λ j. (get_or s.toks j (eof_token 0)).kind) i ∙ v.tokens.ends in
      cc (h, (kind_eq.same_iff (cur s).kind Kind.eof).1 k)
]

moved-Advanced : (s : State) → Valid s → Advanced s (cur s) (moved s)
moved-Advanced s v = elim (Bool-cases (ltb s.i (length s.toks - 1))) [
  | inl e ↦ rw e (record { token = refl; moves = λ h. refl; deferred = refl })
  | inr e ↦ rw e (record {
    token = refl;
    moves = λ h. absurd (omega (arith, ltb→le _ _ e, last_token s v h));
    deferred = refl;
  })
]

pub advance-Post : (s : State) → Valid s → Post s (Advanced s) (advance s)
advance-Post s v =
    Post-of (advance s) ((Safe-advance).run s v)
      (λ a s' h. let (t, m) = advance-done s a s' h in rw (t, m) (moved-Advanced s v))

pub syntax_error-Post {κ} :
    {A : Type 0} {R : A → State → Type κ} (s : State) → Valid s → Post s R (syntax_error s)
unfolding syntax_error fail cur
syntax_error-Post s v = elim (Bool-cases ((cur s).kind == Kind.eof)) [
  | inl e ↦ rw e (stops (token-Good s _ s.i v.tokens))
  | inr e ↦ rw e (stops (token-Good s _ s.i v.tokens))
]
