-- ===== src/Parser/Register.antt =====
-- parser/parse_expr.go: "#NNN", which the tokenizer reads as a variable and the grammar rejects.
use meyer.Base.{◌≡◌, ◌≤◌, true, subst, length, refl}
use meyer.Token.{Token, text}
use meyer.Ast.Expr.{BindParam}
use meyer.Parser.State.{Parser, State, defer_, done, flush_deferred, ◌>>=◌, and_then}
use meyer.Parser.Look.{near}
use meyer.Parser.Bind.{
  number_param, assign_number, bind_param, check_register, is_register, param_of,
}
use meyer.Parser.Safe.{Ensures, Safe, Valid}
use meyer.Parser.Looks.{defer_-Ensures}
use meyer.Parser.Deferred.{Ensures-done, Rejected, flush-Rejected, kept}
use meyer.Parser.BindSafe.{Safe-assign_number}

-- Reading "#" and a digit as a bind parameter returns one, and defers an error: whatever safe function
-- runs next, the parse is rejected by the time the deferred error is flushed, with an error of the
-- input.
pub bind_param-Rejected :
    {A : Type 0} (m : Parser A) (t : Token) (s : State)
    → Safe m
    → Valid s
    → t.pos ≤ length s.src
    → is_register (text t s.src) ≡ true
    → (b : BindParam) × (u : State) × (bind_param t s ≡ done b u)
      × Rejected s.src ((m >>= λ _. flush_deferred) u)
unfolding bind_param check_register defer_ assign_number
bind_param-Rejected m t s hm v inside h =
    let raw = text t s.src in
    let (e, s', ran, pending) = kept s s.deferred (near raw) t.pos refl in
    let (w, x) =
      Ensures-done (subst (Ensures s) ran (defer_-Ensures s (near raw) t.pos v inside)) in
    let (w', x') = Ensures-done ((Safe-assign_number raw).run s' w) in
    let r = number_param raw s'.n_var s'.var_nums in
    let u = record s' { n_var = r.n_var; var_nums = r.var_nums } in
    (
      param_of t raw r.number,
      u,
      rw (h, ran) refl,
      subst (λ z. Rejected z (and_then (m u) (λ _. flush_deferred))) x.src
          (flush-Rejected w' pending (hm.run u w')),
    )
