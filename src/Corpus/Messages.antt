-- ===== src/Corpus/Messages.antt =====
-- internal/testfile/testfile.go and parser/parser.go: the messages that the parser fails with are
-- in the syntax-error family.
use Prim.{tt}
use meyer.Base.{
  Bytes, [], ap, append_assoc, arith, drop, leb, length, length-append, nat_beq_iff, refl, subst,
  true, ◌++◌, ◌+◌, ◌-◌, ◌∙◌, ◌∷◌, ◌≡◌, Bool-cases, inl, inr, sym, ◌==◌, nat_eq,
}
use meyer.Keywords.{codes}
use meyer.Keywords.Find.{bytes_beq, bytes_beq_iff}
use meyer.Parser.Look.{near, unrecognized, syntax_error, check_illegal}
use meyer.Corpus.Expect.{framed, has_prefix, is_syntax_error}
use meyer.Parser.State.{cur, failed, State, Error, Outcome, fail, done}
use meyer.Token.{text, Kind, Token, kind_eq}

has_prefix-append : (p z : Bytes) → has_prefix p (p ++ z) ≡ true
unfolding has_prefix
has_prefix-append [] z = refl
has_prefix-append (c ∷ p) z = rw ((nat_beq_iff c c).1 refl) (has_prefix-append p z)

drop-append : (a b : Bytes) → drop (length a) (a ++ b) ≡ b
drop-append [] b = refl
drop-append (c ∷ a) b = drop-append a b

framed-append : (pre z post : Bytes) → framed pre post (pre ++ z ++ post) ≡ true
unfolding framed
framed-append pre z post =
    let total = length-append (pre ++ z) post in
    let head = length-append pre z in
    let long : leb (length pre + length post) (length (pre ++ z ++ post)) ≡ true = ground arith in
    let at_post : length (pre ++ z ++ post) - length post ≡ length (pre ++ z) = omega arith in
    let starts : has_prefix pre (pre ++ z ++ post) ≡ true =
      subst (λ w. has_prefix pre w ≡ true) (sym (append_assoc pre z post))
        (has_prefix-append pre (z ++ post)) in
    let ends : bytes_beq (drop (length (pre ++ z ++ post) - length post) (pre ++ z ++ post)) post
        ≡ true =
      (bytes_beq_iff _ post).1
        (ap (λ n. drop n (pre ++ z ++ post)) at_post ∙ drop-append (pre ++ z) post) in
    rw (starts, long, ends) refl

near-is_syntax_error : (z : Bytes) → is_syntax_error (near z) ≡ true
unfolding near is_syntax_error
near-is_syntax_error z =
    ground (arith, framed-append (codes "near \"") z (codes "\": syntax error"))

incomplete-is_syntax_error : is_syntax_error (codes "incomplete input") ≡ true
unfolding is_syntax_error
incomplete-is_syntax_error = refl

unrecognized-is_syntax_error : (z : Bytes) → is_syntax_error (unrecognized z) ≡ true
unfolding unrecognized is_syntax_error
unrecognized-is_syntax_error z =
    ground (arith, framed-append (codes "unrecognized token: \"") z (codes "\""))

-- The error of a failed run is in the syntax-error family.
pub data Family {ℓ} {A : Type ℓ} : Outcome A → Type ℓ where
  family : {e : Error} → is_syntax_error e.message ≡ true → Family (failed e)

syntax_error-Family : {A : Type 0} (s : State) → Family (syntax_error {A = A} s)
unfolding syntax_error fail
syntax_error-Family s = elim (Bool-cases ((cur s).kind == Kind.eof)) [
  | inl e ↦ rw e (family incomplete-is_syntax_error)
  | inr e ↦ rw e (family (near-is_syntax_error (text (cur s) s.src)))
]

-- What the check of the lookahead does, by whether it is illegal.
pub record Checks (s : State) : Type 0 where
  pub illegal : (cur s).kind ≡ Kind.illegal → Family (check_illegal s)
  pub legal : ¬ ((cur s).kind ≡ Kind.illegal) → check_illegal s ≡ done tt s

check_illegal-Checks : (s : State) → Checks s
unfolding check_illegal fail
check_illegal-Checks s = elim (Bool-cases ((cur s).kind == Kind.illegal)) [
  | inl e ↦ record {
    illegal = λ h. rw e (family (unrecognized-is_syntax_error (text (cur s) s.src)));
    legal = λ h. absurd (h ((kind_eq.same_iff (cur s).kind Kind.illegal).0 e));
  }
  | inr e ↦ record {
    illegal =
        λ h. let yes = (kind_eq.same_iff (cur s).kind Kind.illegal).1 h in absurd (cc (e, yes));
    legal = λ h. rw e refl;
  }
]

-- A syntax error at the lookahead fails in every state, and the check for an illegal lookahead fails
-- where the lookahead is illegal and passes otherwise; each fails with a message of the syntax-error
-- family, which the corpus compares word for word.
pub messages-Family : (s : State) → Family (syntax_error {A = Token} s) × Checks s
messages-Family s = (syntax_error-Family s, check_illegal-Checks s)
