-- ===== src/Parser/Stays.antt =====
-- parser/parser.go: what a parsing function promises from the states with at most `n` tokens left,
-- and that a function which succeeds has consumed one, with a rule for each way to build one. A
-- loop or a recursion over the tokens that are left is safe by these.
use Prim.{Unit, tt}
use meyer.Base.{
  ap, arith, length, suc, ℕ, ◌≡◌, ◌≤◌, Bool, Bool-cases, false, if◌then◌else◌, inl, inr, true, ◌==◌,
  nat_eq,
}
use meyer.Parser.State.{Outcome, Parser, State, and_then, ◌>>=◌, at, cur_kind, gets, pure}
use meyer.Parser.Combine.{remaining, expect_class, on_class, on_operator}
use meyer.Parser.Safe.{
  Ensures, Extends, Extends-Ensures, Safe, Valid, holds, rejects, Safe-gets, Safe-pure,
}
use meyer.Parser.Post.{
  Post, Post-Ensures, Post-bind, Safe-Post, Post-map, advance-Post, returns, stops,
  syntax_error-Post, Post-of,
}
use meyer.Token.{kind_eq, Token, Kind}
use meyer.Parser.Look.{advance, syntax_error}

-- `Safe`, from the states with at most `n` tokens left.
pub record Stays {ℓ} {A : Type ℓ} (n : ℕ) (m : Parser A) : Type ℓ where
  pub run : (s : State) → Valid s → remaining s ≤ n → Ensures s (m s)

-- From the states with at most `n + 1` tokens left: a success leaves at most `n`.
pub record Eats {ℓ} {A : Type ℓ} (n : ℕ) (m : Parser A) : Type ℓ where
  pub run : (s : State) → Valid s → remaining s ≤ suc n → Post s (λ _ t. remaining t ≤ n) (m s)

pub Stays-Safe {ℓ} : {A : Type ℓ} {n : ℕ} {m : Parser A} → Safe m → Stays n m
Stays-Safe h = record { run = λ s v _. h.run s v }

pub Stays-Eats {ℓ} : {A : Type ℓ} {n : ℕ} {m : Parser A} → Eats n m → Stays (suc n) m
Stays-Eats h = record { run = λ s v le. Post-Ensures (h.run s v le) }

pub Stays-le {ℓ} : {A : Type ℓ} {k n : ℕ} {m : Parser A} → k ≤ n → Stays n m → Stays k m
Stays-le le h = record { run = λ s v kle. h.run s v (omega (arith, le, kle)) }

-- No valid state has read all of its tokens.
pub Stays-zero {ℓ} : {A : Type ℓ} {m : Parser A} → Stays 0 m
Stays-zero = record { run = λ s v le. absurd (omega (arith, le, v.in_range)) }

remaining-Extends : {s t : State} {n : ℕ} → Extends s t → remaining s ≤ n → remaining t ≤ n
remaining-Extends {s} {t} x le =
    let e : length t.toks ≡ length s.toks = ap length x.toks in omega (arith, e, x.forward, le)

pub Fewer {ℓ} :
    {A : Type ℓ} {s : State} {n : ℕ} {o : Outcome A}
    → Ensures s o
    → remaining s ≤ n
    → Post s (λ _ t. remaining t ≤ n) o
Fewer (holds v x) le = returns v x (remaining-Extends x le)
Fewer (rejects g) le = stops g

Ensures-bind {ℓ κ} :
    {A : Type ℓ} {B : Type κ} {s : State} {o : Outcome A} (f : A → Parser B)
    → Ensures s o
    → ((a : A) (t : State) → Valid t → Extends s t → Ensures t (f a t))
    → Ensures s (and_then o f)
Ensures-bind f (rejects g) k = rejects g
Ensures-bind f (holds {a} {s'} v x) k = Extends-Ensures x (k a s' v x)

module _ {ℓ κ} {A : Type ℓ} {B : Type κ} {n : ℕ} where
  pub Stays-bind :
      (m : Parser A) (f : A → Parser B) → Stays n m → ((a : A) → Stays n (f a)) → Stays n (m >>= f)
  Stays-bind m f hm hf = record {
    run =
        λ s v le. Ensures-bind f (hm.run s v le) λ a t w x. (hf a).run t w (remaining-Extends x le);
  }

  -- The first part consumes a token.
  pub Eats-bind :
      (m : Parser A) (f : A → Parser B) → Eats n m → ((a : A) → Stays n (f a)) → Eats n (m >>= f)
  Eats-bind m f hm hf = record {
    run = λ s v le. Post-bind f (hm.run s v le) λ a t w x fewer. Fewer ((hf a).run t w fewer) fewer;
  }

  -- The second part does.
  pub Eats-bind_last :
      (m : Parser A) (f : A → Parser B) → Safe m → ((a : A) → Eats n (f a)) → Eats n (m >>= f)
  Eats-bind_last m f hm hf = record {
    run = λ s v le.
        Post-bind f (Safe-Post s hm v) λ a t w x _. (hf a).run t w (remaining-Extends x le);
  }

module _ {ℓ} {A : Type ℓ} {n : ℕ} where
  pub Stays-pure : (a : A) → Stays n (pure a)
  Stays-pure a = Stays-Safe (Safe-pure a)

  pub Stays-gets : (f : State → A) → Stays n (gets f)
  Stays-gets f = Stays-Safe (Safe-gets f)

  pub Stays-if : (b : Bool) (m k : Parser A) → Stays n m → Stays n k → Stays n (if b then m else k)
  Stays-if true m k hm hk = hm
  Stays-if false m k hm hk = hk

  pub Eats-if : (b : Bool) (m k : Parser A) → Eats n m → Eats n k → Eats n (if b then m else k)
  Eats-if true m k hm hk = hm
  Eats-if false m k hm hk = hk

module _ {A : Type 0} {n : ℕ} where
  pub Eats-syntax_error : Eats n (syntax_error {A = A})
  Eats-syntax_error = record { run = λ s v le. syntax_error-Post s v }

pub not_at_eof :
    (p : Kind → Bool) (s : State)
    → p Kind.eof ≡ false
    → p (cur_kind s) ≡ true
    → at Kind.eof s ≡ false
unfolding at
not_at_eof p s h e = elim (Bool-cases (cur_kind s == Kind.eof)) [
  | inl eof ↦ let k = (kind_eq.same_iff (cur_kind s) Kind.eof).0 eof in absurd (cc (h, e, ap p k))
  | inr more ↦ more
]

advance-Fewer :
    (s : State) (n : ℕ)
    → Valid s
    → at Kind.eof s ≡ false
    → remaining s ≤ suc n
    → Post s (λ _ t. remaining t ≤ n) (advance s)
advance-Fewer s n v more le = Post-map (advance-Post s v) λ t u w x a.
    let e : length u.toks ≡ length s.toks = ap length x.toks in
    omega (arith, e, a.moves more, le, v.in_range)

pub Eats-expect_class : {n : ℕ} (p : Kind → Bool) → p Kind.eof ≡ false → Eats n (expect_class p)
unfolding expect_class
Eats-expect_class {n} p h = record {
  run = λ s v le. elim (Bool-cases (p (cur_kind s))) [
    | inl e ↦ rw e (advance-Fewer s n v (not_at_eof p s h e) le)
    | inr e ↦ rw e (syntax_error-Post s v)
  ];
}

module _ {A : Type 0} {n : ℕ} (p : Kind → Bool) (h : p Kind.eof ≡ false) where
  pub advance_bind-Fewer :
      (f : Token → Parser A)
      → ((t : Token) → Stays n (f t))
      → (s : State) → Valid s
      → p (cur_kind s) ≡ true
      → remaining s ≤ suc n
      → Post s (λ _ t. remaining t ≤ n) (and_then (advance s) f)
  advance_bind-Fewer f hf s v e le =
      Post-bind f (advance-Fewer s n v (not_at_eof p s h e) le)
        λ t u w x fewer. Fewer ((hf t).run u w fewer) fewer

  pub Eats-on_class :
      (f : Token → Parser A) (m : Parser A)
      → ((t : Token) → Stays n (f t))
      → Eats n m
      → Eats n (on_class p f m)
  unfolding on_class
  Eats-on_class f m hf hm = record {
    run = λ s v le. elim (Bool-cases (p (cur_kind s))) [
      | inl e ↦ rw e (advance_bind-Fewer f hf s v e le)
      | inr e ↦ rw e (hm.run s v le)
    ];
  }

  pub Stays-on_class_eats :
      (f : Token → Parser A) (m : Parser A)
      → ((t : Token) → Stays n (f t))
      → Stays (suc n) m
      → Stays (suc n) (on_class p f m)
  unfolding on_class
  Stays-on_class_eats f m hf hm = record {
    run = λ s v le. elim (Bool-cases (p (cur_kind s))) [
      | inl e ↦ rw e (Post-Ensures (advance_bind-Fewer f hf s v e le))
      | inr e ↦ rw e (hm.run s v le)
    ];
  }

  pub Stays-on_operator_eats :
      (ends : Kind → Bool) (stop : Parser A) (f : Token → Parser A) (m : Parser A)
      → Stays (suc n) stop
      → ((t : Token) → Stays n (f t))
      → Stays (suc n) m
      → Stays (suc n) (on_operator p ends stop f m)
  unfolding on_operator
  Stays-on_operator_eats ends stop f m hs hf hm = record {
    run = λ s v le. elim (Bool-cases (p (cur_kind s))) [
      | inl e ↦ elim (Bool-cases (ends (cur_kind s))) [
        | inl d ↦ rw (e, d) (hs.run s v le)
        | inr d ↦ rw (e, d) (Post-Ensures (advance_bind-Fewer f hf s v e le))
      ]
      | inr e ↦ rw e (hm.run s v le)
    ];
  }

module _ {ℓ κ} {A : Type ℓ} {B : Type κ} {n : ℕ} where
  -- The second part consumes a token, and the first returns.
  pub Eats-bind_tail :
      (m : Parser A) (f : A → Parser B)
      → Stays (suc n) m
      → ((a : A) → Eats n (f a))
      → Eats n (m >>= f)
  Eats-bind_tail m f hm hf = record {
    run = λ s v le.
        let p : Post s (λ _ _. Unit {0}) (m s) = Post-of (m s) (hm.run s v le) (λ _ _ _. tt) in
        Post-bind f p λ a t w x _. (hf a).run t w (remaining-Extends x le);
  }
