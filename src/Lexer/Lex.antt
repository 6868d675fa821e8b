-- ===== src/Lexer/Lex.antt =====
-- lexer/lexer.go: `lex`, `Lex`, `LexFile` and the pass over the window keywords.
use meyer.Base.{
  Bool, Bytes, List, Option, [], false, if◌then◌else◌, none, not, some, suc, true, zero, ℕ, ◌&&◌,
  ◌++◌, ◌+◌, ◌-◌, ◌==◌, ◌||◌, ◌∷◌, nat_eq,
}
use meyer.Token.{Kind, Token, kind_eq}
use meyer.Keywords.{can_fallback}
use meyer.Lexer.Scan.{scan}

-- What the loop of `lex` leaves: both slices, the flag, and the offset where it stopped.
pub record Lexed : Type 0 where
  pub toks : List Token
  pub trivia : List Token
  pub ambiguous : Bool
  pub stop : ℕ

abbrev pub is_trivia : Kind → Bool
is_trivia k = k == Kind.space || k == Kind.comment

abbrev pub is_window : Kind → Bool
is_window k = k == Kind.window || k == Kind.over || k == Kind.filter

-- One round of the loop, on the token from `i` to `j`.
unfoldable pub emit : Bool → Kind → ℕ → ℕ → Lexed → Lexed
emit keep k i j rest =
    let t : Token = record { kind = k; pos = i; end = j } in
    if not (is_trivia k)
    then record rest { toks = t ∷ rest.toks; ambiguous = is_window k || rest.ambiguous }
    else if keep
    then record rest { trivia = t ∷ rest.trivia }
    else rest

-- `if n == 0 { n = 1 }`
abbrev pub taken : ℕ → ℕ
taken n = if n == 0 then 1 else n

-- The loop of `lex` at offset `i`, on the input from there on. The second argument counts the
-- bytes of the last token that its `i += n` has still to pass.
unfoldable pub lex_from : Bool → ℕ → Bytes → ℕ → Lexed
unfolding emit
lex_from keep skip [] i = record { toks = []; trivia = []; ambiguous = false; stop = i + skip }
lex_from keep (suc skip) (c ∷ z) i = lex_from keep skip z (i + 1)
lex_from keep zero (c ∷ z) i =
    let t = scan (c ∷ z) in
    let n = taken t.1 in
    let rest = lex_from keep (n - 1) z (i + 1) in
    if t.0 == Kind.eof
    then record { toks = []; trivia = []; ambiguous = false; stop = i }
    else emit keep t.0 i (i + n) rest

abbrev pub kind_at : List Token → ℕ → Kind
kind_at [] i = Kind.eof
kind_at (t ∷ ts) zero = t.kind
kind_at (t ∷ ts) (suc i) = kind_at ts i

-- `asID`
unfoldable pub as_id : Kind → Kind
as_id k =
    if k == Kind.id
      || k == Kind.string
      || k == Kind.join_kw
      || k == Kind.window
      || k == Kind.over
      || can_fallback k
    then Kind.id
    else k

-- `prev == token.RP`; there is none before the first token.
abbrev pub after_rp : Option Kind → Bool
after_rp none = false
after_rp (some k) = k == Kind.rp

-- The switch of `resolveWindowKeywords` on a token's kind, the last kind resolved and the tokens
-- behind.
unfoldable pub resolve_kind : Option Kind → Kind → List Token → Kind
resolve_kind prev k ts =
    if k == Kind.window
    then (if as_id (kind_at ts 0) == Kind.id && kind_at ts 1 == Kind.as_kw then k else Kind.id)
    else if k == Kind.over
    then (if after_rp prev && (kind_at ts 0 == Kind.lp || as_id (kind_at ts 0) == Kind.id)
        then k
        else Kind.id)
    else if k == Kind.filter
    then (if after_rp prev && kind_at ts 0 == Kind.lp then k else Kind.id)
    else k

unfoldable pub resolve : Option Kind → List Token → List Token
resolve prev [] = []
resolve prev (t ∷ ts) =
    let k = resolve_kind prev t.kind ts in record t { kind = k } ∷ resolve (some k) ts

abbrev pub resolve_window_keywords : List Token → List Token
resolve_window_keywords = resolve none

abbrev pub eof_token : ℕ → Token
eof_token i = record { kind = Kind.eof; pos = i; end = i }

unfoldable pub lex_with : Bytes → Bool → List Token × List Token
unfolding lex_from
lex_with src keep =
    let l = lex_from keep 0 src 0 in
    let toks = if l.ambiguous then resolve_window_keywords l.toks else l.toks in
    (toks ++ eof_token l.stop ∷ [], l.trivia)

unfoldable pub lex : Bytes → List Token
unfolding lex_with
lex src = (lex_with src false).0

unfoldable pub lex_file : Bytes → List Token × List Token
unfolding lex_with
lex_file src = lex_with src true
