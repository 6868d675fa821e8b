-- ===== src/Parser/State.antt =====
-- parser/parser.go: the error type, the options, the parser's state and the error channel. A
-- panic that carries a `bail` is the outcome `failed`.
use Prim.{Unit, tt}
use meyer.Base.{
  Bool, Bytes, List, Option, get_or, if◌then◌else◌, leb, length, none, some, ℕ, ◌+◌, ◌-◌, ◌==◌,
  nat_eq,
}
use meyer.Token.{Kind, Token, kind_eq}
use meyer.Lexer.Lex.{eof_token}

-- `Error`; an unknown offset, -1 in the source, is `none`.
pub record Error : Type 0 where
  pub message : Bytes
  pub offset : Option ℕ
  pub sql : Bytes

pub record Options : Type 0 where
  pub update_delete_limit : Bool

-- `parser`; the map of named parameters is an association list.
pub record State : Type 0 where
  pub src : Bytes
  pub toks : List Token
  pub i : ℕ
  pub opts : Options
  pub n_var : ℕ
  pub var_nums : List (Bytes × ℕ)
  pub depth : ℕ
  pub deferred : Option Error
  pub defer_index : ℕ

-- `out_of_fuel` has no counterpart in the source.
pub data Outcome {ℓ} (A : Type ℓ) : Type ℓ where
  done : A → State → Outcome A
  failed : Error → Outcome A
  out_of_fuel : Outcome A

abbrev pub Parser {ℓ} : Type ℓ → Type ℓ
Parser A = State → Outcome A

abbrev pub and_then {ℓ κ} : {A : Type ℓ} {B : Type κ} → Outcome A → (A → Parser B) → Outcome B
and_then (done a s) f = f a s
and_then (failed e) f = failed e
and_then out_of_fuel f = out_of_fuel

infixl 5 ◌>>=◌ ◌>>◌
abbrev pub ◌>>=◌ {ℓ κ} : {A : Type ℓ} {B : Type κ} → Parser A → (A → Parser B) → Parser B
(m >>= f) s = and_then (m s) f

abbrev pub ◌>>◌ {ℓ κ} : {A : Type ℓ} {B : Type κ} → Parser A → Parser B → Parser B
m >> k = m >>= λ _. k

abbrev pub pure {ℓ} : {A : Type ℓ} → A → Parser A
pure a s = done a s

abbrev pub gets {ℓ} : {A : Type ℓ} → (State → A) → Parser A
gets f s = done (f s) s

-- `cur`; out of range the source panics.
unfoldable pub cur : State → Token
cur s = get_or s.toks s.i (eof_token 0)

-- `peek`
unfoldable pub peek : ℕ → State → Token
peek n s =
    let len = length s.toks in
    if leb len (s.i + n)
    then get_or s.toks (len - 1) (eof_token 0)
    else get_or s.toks (s.i + n) (eof_token 0)

-- `p.cur().Kind`
unfoldable pub cur_kind : State → Kind
unfolding cur
cur_kind s = (cur s).kind

-- `at`
unfoldable pub at : Kind → State → Bool
unfolding cur_kind
at k s = cur_kind s == k

-- `fail`
unfoldable pub fail : {A : Type 0} → Bytes → ℕ → Parser A
fail msg offset s = failed (record { message = msg; offset = some offset; sql = s.src })

-- The panic with a deferred error, if there is one.
unfoldable pub raise : Option Error → Parser (Unit {0})
raise none s = done tt s
raise (some e) s = failed e

-- `defer_` by the error that is deferred already.
unfoldable pub keep_first : Option Error → Bytes → ℕ → Parser (Unit {0})
keep_first none msg offset s =
    let e : Error = record { message = msg; offset = some offset; sql = s.src } in
    done tt (record s { deferred = some e; defer_index = s.i })
keep_first (some e) msg offset s = done tt s

-- `defer_`
unfoldable pub defer_ : Bytes → ℕ → Parser (Unit {0})
unfolding keep_first
defer_ msg offset s = keep_first s.deferred msg offset s

-- `flushDeferred`
unfoldable pub flush_deferred : Parser (Unit {0})
unfolding raise
flush_deferred s = raise s.deferred s
