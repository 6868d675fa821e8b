-- ===== src/Parser/Start.antt =====
-- The token slices that the tokenizer makes are those that the parser's invariant asks for.
use meyer.Base.{
  Bytes, List, [], ap, arith, get_or, length, refl, subst, suc, sym, zero, ℕ, ◌++◌, ◌-◌, ◌<◌, ◌∷◌,
  ◌≡◌, ◌≤◌, length-append, ◌∙◌,
}
use meyer.Token.{Token}
use meyer.Lexer.Lex.{eof_token, lex, lex_file}
use meyer.Lexer.Tiles.{Tiles, done, token, trivia}
use meyer.Lexer.Consumed.{lex-lex_file, lex_file-Tiled}
use meyer.Parser.Safe.{Tokens}

-- The tokens with the EOF token behind them.
abbrev closed : ℕ → List Token → List Token
closed stop ts = ts ++ eof_token stop ∷ []

get_or-closed :
    (stop : ℕ) (ts : List Token)
    → get_or (closed stop ts) (length ts) (eof_token 0) ≡ eof_token stop
get_or-closed stop [] = refl
get_or-closed stop (t ∷ ts) = get_or-closed stop ts

closed-last :
    (stop : ℕ) (ts : List Token)
    → get_or (closed stop ts) (length (closed stop ts) - 1) (eof_token 0) ≡ eof_token stop
closed-last stop ts =
    let count = length-append ts (eof_token stop ∷ []) in
    let i : length (closed stop ts) - 1 ≡ length ts = omega (arith, count) in
    ap (λ j. get_or (closed stop ts) j (eof_token 0)) i ∙ get_or-closed stop ts

Tiles-le : {stop i : ℕ} {ts vs : List Token} → Tiles stop i ts vs → i ≤ stop
Tiles-le (done e) = omega (arith, e)
Tiles-le (token p lt k h) = omega (arith, lt, Tiles-le h)
Tiles-le (trivia p lt k h) = omega (arith, lt, Tiles-le h)

Tiles-first :
    {stop i : ℕ} {ts vs : List Token}
    → Tiles stop i ts vs
    → i ≤ (get_or (closed stop ts) 0 (eof_token 0)).pos
Tiles-first (done e) = omega (arith, e)
Tiles-first (token p lt k h) = omega (arith, p)
Tiles-first (trivia p lt k h) = omega (arith, lt, Tiles-first h)

Tiles-inside :
    {stop i : ℕ} {ts vs : List Token}
    → Tiles stop i ts vs
    → (j : ℕ) → (get_or (closed stop ts) j (eof_token 0)).end ≤ stop
Tiles-inside (done e) zero = omega arith
Tiles-inside (done e) (suc j) = omega arith
Tiles-inside (token p lt k h) zero = Tiles-le h
Tiles-inside (token p lt k h) (suc j) = Tiles-inside h j
Tiles-inside (trivia p lt k h) j = Tiles-inside h j

Tiles-start :
    {stop i : ℕ} {ts vs : List Token}
    → Tiles stop i ts vs
    → (j : ℕ)
    → (get_or (closed stop ts) j (eof_token 0)).pos ≤ (get_or (closed stop ts) j (eof_token 0)).end
Tiles-start (done e) zero = omega arith
Tiles-start (done e) (suc j) = omega arith
Tiles-start (token p lt k h) zero = omega (arith, p, lt)
Tiles-start (token p lt k h) (suc j) = Tiles-start h j
Tiles-start (trivia p lt k h) j = Tiles-start h j

Tiles-ordered :
    {stop i : ℕ} {ts vs : List Token}
    → Tiles stop i ts vs
    → (j : ℕ) → suc j < length (closed stop ts)
    → (get_or (closed stop ts) j (eof_token 0)).end
      ≤ (get_or (closed stop ts) (suc j) (eof_token 0)).pos
Tiles-ordered (done e) j lt = absurd (omega arith)
Tiles-ordered (token p lt k h) zero _ = Tiles-first h
Tiles-ordered (token p lt k h) (suc j) below = Tiles-ordered h j (omega arith)
Tiles-ordered (trivia p lt k h) j below = Tiles-ordered h j below

-- The tokens of `LexFile`, which are those of `Lex`, meet what the parser's invariant asks for.
pub lex_file-Tokens : (src : Bytes) → Tokens src (lex_file src).0
lex_file-Tokens src =
    let t = lex_file-Tiled src in
    subst (Tokens src) (sym t.ends) (record {
      nonempty = omega (arith, length-append t.body (eof_token t.stop ∷ []));
      ends = ap (λ (z : Token). z.kind) (closed-last t.stop t.body);
      start = Tiles-start t.tiles;
      inside = λ j. omega (arith, Tiles-inside t.tiles j, t.inside);
      ordered = Tiles-ordered t.tiles;
    })

pub lex-Tokens : (src : Bytes) → Tokens src (lex src)
lex-Tokens src = subst (Tokens src) (sym (lex-lex_file src)) (lex_file-Tokens src)
