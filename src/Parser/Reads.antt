-- ===== src/Parser/Reads.antt =====
-- parser/parse_expr.go: the functions that report an error at the token they are given: they rely on
-- that it starts inside the input.
use meyer.Base.{Bool-cases, ap, arith, false, inl, inr, length, ℕ, ◌==◌, ◌≡◌, ◌≤◌, nat_eq}
use meyer.Token.{Kind, Token, kind_eq}
use meyer.Ast.Expr.{bind_param_expr}
use meyer.Parser.State.{Parser, State, cur_kind, pure, ◌>>=◌}
use meyer.Parser.Combine.{on, on_class}
use meyer.Parser.Safe.{Ensures, Ensures-and_then, Safe, Safe-pure, Valid, safe_rules}
use meyer.Parser.Post.{Post-bind, advance-Post}
use meyer.Parser.Bind.{bind_param}
use meyer.Parser.Number.{dequote_number}
use meyer.Parser.BindSafe.{bind_param-Ensures, cur-inside, dequote_number-Ensures}
use meyer.Parser.Stays.{Eats, Fewer, not_at_eof}
use meyer.Parser.Term.{parse_qnumber}

-- `Safe`, of a function on tokens that start inside the input.
pub record Reads {A : Type 0} (f : Token → Parser A) : Type 0 where
  pub run : (t : Token) (s : State) → Valid s → t.pos ≤ length s.src → Ensures s (f t s)

module _ {A : Type 0} {n : ℕ} (k : Kind) (h : (Kind.eof == k) ≡ false) where
  pub Eats-on_token : (f : Token → Parser A) (m : Parser A) → Reads f → Eats n m → Eats n (on k f m)
  unfolding on on_class
  Eats-on_token f m hf hm = record {
    run = λ s v le. elim (Bool-cases (cur_kind s == k)) [
      | inl e ↦ rw e (
          Post-bind f (advance-Post s v) λ t u w x a.
            let inside : t.pos ≤ length u.src = rw (a.token, x.src) (cur-inside s v) in
            let same : length u.toks ≡ length s.toks = ap length x.toks in
            let more = a.moves (not_at_eof (λ j. j == k) s h e) in
            Fewer (hf.run t u w inside) (omega (arith, same, more, le, v.in_range)))
      | inr e ↦ rw e (hm.run s v le)
    ];
  }

Reads-bind :
    {A B : Type 0} (f : Token → Parser A) (g : Token → A → Parser B)
    → Reads f
    → ((t : Token) (a : A) → Safe (g t a))
    → Reads (λ t. f t >>= g t)
Reads-bind f g hf hg = record {
  run = λ t s v inside. Ensures-and_then (g t) (hf.run t s v inside) (hg t);
}

pub Reads-bind_param : Reads (λ t. bind_param t >>= λ b. pure (bind_param_expr b))
Reads-bind_param =
    Reads-bind bind_param (λ t b. pure (bind_param_expr b)) (record { run = bind_param-Ensures })
      (λ t b. Safe-pure (bind_param_expr b))

pub Reads-parse_qnumber : Reads parse_qnumber
unfolding parse_qnumber
Reads-parse_qnumber =
    Reads-bind dequote_number _ (record { run = dequote_number-Ensures })
      (λ t z. search safe_rules depth 12)
