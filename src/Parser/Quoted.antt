-- ===== src/Parser/Quoted.antt =====
-- lexer/lexer.go and parser/parser.go: a quoted name is one name token, and `identOf` gives the
-- name back.
use meyer.Base.{
  Bool, Bytes, [], all, false, length, not, true, ℕ, ◌++◌, ◌+◌, ◌==◌, ◌∷◌, ◌≡◌, Bool-cases, arith,
  inl, inr, if◌then◌else◌, length-append, refl, ◌⊎◌, drop, ap, suc, ◌||◌, ◌∙◌, ◌-◌, take, leb,
  subst, sym, nat_eq,
}
use meyer.Token.{Kind, Token, text, kind_eq}
use meyer.Lexer.Literal.{scan_quoted, scan_quote}
use meyer.Parser.Quotes.{double, same_byte, quoted, dequote-quoted}
use meyer.Lexer.Scan.{scan}
use meyer.Lexer.Lex.{is_window, is_trivia, emit, lex_from, taken, eof_token, lex}
use meyer.Lexer.Chars.{is_space_start}
use meyer.Lexer.Tiles.{lex_from-drop}
use meyer.Keywords.{is_name, can_fallback}
use meyer.Parser.Names.{ident_of, name_of}

abbrev pub no_nul : Bytes → Bool
no_nul name = all (λ c. not (c == 0)) name

-- The scan of the literal behind its first delimiter.
scan_quoted-double :
    (d : ℕ) (name : Bytes) (n : ℕ)
    → (d == 0) ≡ false
    → no_nul name ≡ true
    → scan_quoted d false (double d name ++ d ∷ []) n ≡ (d, n + length (double d name))
unfolding scan_quoted double
scan_quoted-double d [] n nz h = ground (arith, same_byte d)
scan_quoted-double d (c ∷ z) n nz h = elim (Bool-cases (c == d)) [
  | inl e ↦ rw e (ground (arith, same_byte d, scan_quoted-double d z (n + 1 + 1)))
  | inr e ↦ rw e (ground (arith, scan_quoted-double d z (n + 1)))
]

-- The three quoting styles whose delimiter opens and closes.
abbrev pub IsQuote : ℕ → Type 0
IsQuote d = (d ≡ b'"') ⊎ (d ≡ b'\'') ⊎ (d ≡ b'`')

quote-ne-zero : (d : ℕ) → IsQuote d → (d == 0) ≡ false
quote-ne-zero d q = ground arith

scan-IsQuote : (d : ℕ) (r : Bytes) → IsQuote d → scan (d ∷ r) ≡ scan_quote d r
unfolding scan is_space_start
scan-IsQuote d r (inl e) = rw e refl
scan-IsQuote d r (inr (inl e)) = rw e refl
scan-IsQuote d r (inr (inr e)) = rw e refl

-- STRING between single quotes and ID otherwise.
quote_kind : ℕ → Kind
quote_kind d = if d == b'\'' then Kind.string else Kind.id

scan-quoted :
    (d : ℕ) (name : Bytes)
    → IsQuote d
    → no_nul name ≡ true
    → scan (quoted d name) ≡ (quote_kind d, length (quoted d name))
unfolding quoted scan_quote quote_kind
scan-quoted d name q h =
    rw
      (
        scan-IsQuote d (double d name ++ d ∷ []) q,
        scan_quoted-double d name 1 (quote-ne-zero d q) h,
        length-append (double d name) (d ∷ []),
      )
      (ground (arith, quote-ne-zero d q))

drop-length : (z : Bytes) → drop (length z) z ≡ []
drop-length [] = refl
drop-length (c ∷ z) = drop-length z

lex_from-skip :
    (r : Bytes)
    → lex_from false (length r) r 1
      ≡ record { toks = []; trivia = []; ambiguous = false; stop = length r + 1 }
unfolding lex_from
lex_from-skip r =
    lex_from-drop false (length r) r 1 (omega arith)
    ∙ ap (λ z. lex_from false 0 z (1 + length r)) (drop-length r)
    ∙ ap (λ j. record { toks = []; trivia = []; ambiguous = false; stop = j }) (omega arith)

taken-suc : (n : ℕ) → taken (suc n) ≡ suc n
taken-suc n = ground arith

pred_suc : (n : ℕ) → suc n - 1 ≡ n
pred_suc n = omega arith

-- The loop on an input that one token takes whole.
lex_from-whole :
    (k : Kind) (c : ℕ) (r : Bytes)
    → scan (c ∷ r) ≡ (k, suc (length r))
    → (k == Kind.eof) ≡ false
    → is_trivia k ≡ false
    → lex_from false 0 (c ∷ r) 0 ≡ record {
      toks = record { kind = k; pos = 0; end = 0 + suc (length r) } ∷ [];
      trivia = [];
      ambiguous = is_window k || false;
      stop = length r + 1;
    }
unfolding lex_from emit
lex_from-whole k c r e not_eof not_trivia = rw e (
    rw not_eof (
      rw (taken-suc (length r))
        (rw (pred_suc (length r)) (rw (lex_from-skip r) (rw not_trivia refl)))))

take-length : (z : Bytes) → take (length z) z ≡ z
take-length [] = refl
take-length (c ∷ z) = ap (λ w. c ∷ w) (take-length z)

text_whole : (k : Kind) (z : Bytes) → text (record { kind = k; pos = 0; end = length z }) z ≡ z
text_whole k z = ap (λ n. take n z) (omega arith) ∙ take-length z

name_of-quoted : (d : ℕ) (name : Bytes) → IsQuote d → name_of (quoted d name) ≡ name
unfolding name_of quoted
name_of-quoted d name (inl e) =
    subst (λ c. name_of (quoted c name) ≡ name) (sym e) (dequote-quoted b'"' name)
name_of-quoted d name (inr (inl e)) =
    subst (λ c. name_of (quoted c name) ≡ name) (sym e) (dequote-quoted b'\'' name)
name_of-quoted d name (inr (inr e)) =
    subst (λ c. name_of (quoted c name) ≡ name) (sym e) (dequote-quoted b'`' name)

quoted-long : (d : ℕ) (name : Bytes) → leb 2 (length (quoted d name)) ≡ true
unfolding quoted
quoted-long d name = ground (arith, length-append (double d name) (d ∷ []))

name-ident_of :
    (t : Token) (src raw : Bytes)
    → text t src ≡ raw
    → leb 2 (length raw) ≡ true
    → (ident_of t src).name ≡ name_of raw
unfolding ident_of
name-ident_of t src raw e long = rw e (rw long refl)

quote_kind-plain :
    (d : ℕ)
    → ((quote_kind d == Kind.eof) ≡ false)
      × (is_trivia (quote_kind d) ≡ false)
      × (is_window (quote_kind d) ≡ false)
      × (is_name (quote_kind d) ≡ true)
unfolding quote_kind
quote_kind-plain d = elim (Bool-cases (d == b'\'')) [
  | inl e ↦ unfold is_name can_fallback in rw e (refl, refl, refl, refl)
  | inr e ↦ unfold is_name can_fallback in rw e (refl, refl, refl, refl)
]

lex-whole :
    (k : Kind) (c : ℕ) (r : Bytes)
    → scan (c ∷ r) ≡ (k, suc (length r))
    → (k == Kind.eof) ≡ false
    → is_trivia k ≡ false
    → is_window k ≡ false
    → lex (c ∷ r)
      ≡ record { kind = k; pos = 0; end = suc (length r) } ∷ eof_token (suc (length r)) ∷ []
unfolding lex
lex-whole k c r e not_eof not_trivia not_window = rw (lex_from-whole k c r e not_eof not_trivia) (
    rw not_window (
      ap (λ n. record { kind = k; pos = 0; end = n } ∷ eof_token (length r + 1) ∷ []) (omega arith)
      ∙ ap (λ n. record { kind = k; pos = 0; end = suc (length r) } ∷ eof_token n ∷ [])
          (omega arith)))

-- The token of a quoted name.
pub record NameToken (d : ℕ) (name : Bytes) : Type 0 where
  pub token : Token
  pub single : lex (quoted d name) ≡ token ∷ eof_token token.end ∷ []
  pub kind : is_name token.kind ≡ true
  pub spelling : (ident_of token (quoted d name)).name ≡ name

-- A name without a NUL byte, written between double quotes, single quotes or backquotes with each
-- of these inside it doubled, is one token that may stand for a name, and `identOf` of that token
-- gives the name back.
pub lex-quoted : (d : ℕ) (name : Bytes) → IsQuote d → no_nul name ≡ true → NameToken d name
lex-quoted d name q h =
    let (not_eof, not_trivia, not_window, named) = quote_kind-plain d in
    let t : Token = record { kind = quote_kind d; pos = 0; end = length (quoted d name) } in
    let scanned = scan-quoted d name q h in
    record {
      token = t;
      single =
          unfold quoted in
          lex-whole (quote_kind d) d (double d name ++ d ∷ []) scanned not_eof not_trivia
            not_window;
      kind = named;
      spelling =
          name-ident_of t (quoted d name) (quoted d name)
            (text_whole (quote_kind d) (quoted d name)) (quoted-long d name)
          ∙ name_of-quoted d name q;
    }
