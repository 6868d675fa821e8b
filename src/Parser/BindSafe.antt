-- ===== src/Parser/BindSafe.antt =====
-- parser/parse_expr.go: `bindParam` and `dequoteNumber` keep the invariant of the state.
use Prim.{Unit, tt}
use meyer.Base.{Bool-cases, Bytes, arith, inl, inr, length, refl, ℕ, ◌≤◌}
use meyer.Token.{Token, text}
use meyer.Parser.State.{Parser, State, cur, cur_kind, fail, ◌>>=◌}
use meyer.Parser.Look.{advance}
use meyer.Parser.Safe.{
  Ensures, Ensures-and_then, Extends-refl, Safe, Safe-bind, Safe-pure, Valid, holds, rejects,
}
use meyer.Parser.Looks.{defer_-Ensures}
use meyer.Parser.Post.{Post-Ensures, Post-bind, Post-of, advance-Post}
use meyer.Parser.Bind.{assign_number, bind_param, check_register, is_register, param_of}
use meyer.Parser.Number.{Dequoted, dequote_number, digits, fail_misplaced, misplaced}

check_register-Ensures :
    (raw : Bytes) (pos : ℕ) (s : State)
    → Valid s
    → pos ≤ length s.src
    → Ensures s (check_register raw pos s)
unfolding check_register
check_register-Ensures raw pos s v inside = elim (Bool-cases (is_register raw)) [
  | inl e ↦ rw e (defer_-Ensures s _ pos v inside)
  | inr e ↦ rw e (holds v (Extends-refl s))
]

pub Safe-assign_number : (raw : Bytes) → Safe (assign_number raw)
unfolding assign_number cur_kind cur
Safe-assign_number raw = record {
  run = λ s v.
      holds
        (record {
          tokens = v.tokens;
          in_range = v.in_range;
          legal = v.legal;
          shallow = v.shallow;
          pending = v.pending;
        })
        (record {
          src = refl;
          toks = refl;
          opts = refl;
          depth = refl;
          forward = omega arith;
          deferred = λ e h. h;
          defer_index = λ e h. refl;
        });
}

-- bindParam on a token that starts inside the input returns in a valid state: an error it reports
-- is deferred.
pub bind_param-Ensures :
    (t : Token) (s : State) → Valid s → t.pos ≤ length s.src → Ensures s (bind_param t s)
unfolding bind_param
bind_param-Ensures t s v inside =
    Ensures-and_then _ (check_register-Ensures (text t s.src) t.pos s v inside) (λ _.
      Safe-bind _ _ (Safe-assign_number (text t s.src))
        (λ n. Safe-pure (param_of t (text t s.src) n)))

fail_misplaced-Ensures :
    (d : Dequoted) (pos : ℕ) (s : State)
    → Valid s
    → pos ≤ length s.src
    → Ensures s (fail_misplaced d pos s)
unfolding fail_misplaced fail
fail_misplaced-Ensures (digits z) pos s v inside = holds v (Extends-refl s)
fail_misplaced-Ensures (misplaced z) pos s v inside =
    rejects (record { offset = pos; known = refl; inside = inside; sql = refl })

pub dequote_number-Ensures :
    (t : Token) (s : State) → Valid s → t.pos ≤ length s.src → Ensures s (dequote_number t s)
unfolding dequote_number
dequote_number-Ensures t s v inside = fail_misplaced-Ensures _ t.pos s v inside

pub cur-inside : (s : State) → Valid s → (cur s).pos ≤ length s.src
unfolding cur
cur-inside s v = omega (arith, v.tokens.start s.i, v.tokens.inside s.i)

-- What follows an `advance` may rely on the token: it starts inside the input.
Safe-advance_token :
    {A : Type 0} (f : Token → Parser A)
    → ((t : Token) (s : State) → Valid s → t.pos ≤ length s.src → Ensures s (f t s))
    → Safe (advance >>= f)
Safe-advance_token f h = record {
  run = λ s v. Post-Ensures {R = λ _ _. Unit {0}} (
      Post-bind f (advance-Post s v) (λ t s' w x a.
        let inside : t.pos ≤ length s'.src = rw (a.token, x.src) (cur-inside s v) in
        Post-of (f t s') (h t s' w inside) (λ _ _ _. tt)));
}

-- Consuming the lookahead and reading it as a bind parameter, from a valid state, returns in a valid
-- state or fails with an error of the input.
pub Safe-bind_param : Safe (advance >>= bind_param)
Safe-bind_param = Safe-advance_token bind_param bind_param-Ensures

-- So does consuming it and reading it as a number with separators.
pub Safe-dequote_number : Safe (advance >>= dequote_number)
Safe-dequote_number = Safe-advance_token dequote_number dequote_number-Ensures
