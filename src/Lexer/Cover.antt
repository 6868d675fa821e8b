-- ===== src/Lexer/Cover.antt =====
-- Counting the spans over a byte: a tiling covers each byte of its range once.
use meyer.Base.{
  Bytes, List, [], arith, if◌then◌else◌, leb, ltb, ℕ, ◌&&◌, ◌++◌, ◌+◌, ◌<◌, ◌∷◌, ◌≡◌, ◌≤◌, refl,
}
use meyer.Token.{Token}
use meyer.Lexer.Tiles.{Tiles, done, token, trivia}
use meyer.Lexer.Consumed.{lex_file-Tiled, Tiled}
use meyer.Lexer.Lex.{lex_file, eof_token}

-- How many of the spans hold the byte at offset `b`.
abbrev pub covers : ℕ → List Token → ℕ
covers b [] = 0
covers b (t ∷ ts) = (if leb t.pos b && ltb b t.end then 1 else 0) + covers b ts

Tiles-le : {stop i : ℕ} {ts vs : List Token} → Tiles stop i ts vs → i ≤ stop
Tiles-le (done e) = omega arith
Tiles-le (token e h k rest) = omega (arith, Tiles-le rest)
Tiles-le (trivia e h k rest) = omega (arith, Tiles-le rest)

covers_before :
    (b : ℕ) {stop i : ℕ} {ts vs : List Token}
    → Tiles stop i ts vs
    → b < i
    → covers b ts + covers b vs ≡ 0
covers_before b (done e) h = omega arith
covers_before b (token {t} e k n rest) h = ground (arith, covers_before b rest)
covers_before b (trivia {t} e k n rest) h = ground (arith, covers_before b rest)

Tiles-covers :
    (b : ℕ) {stop i : ℕ} {ts vs : List Token}
    → Tiles stop i ts vs
    → i ≤ b
    → b < stop
    → covers b ts + covers b vs ≡ 1
Tiles-covers b (done e) h k = absurd (omega arith)
Tiles-covers b (token {t} {ts = ts} {vs = vs} e k n rest) h l =
    ground (arith, Tiles-covers b rest, covers_before b rest)
Tiles-covers b (trivia {t} {ts = ts} {vs = vs} e k n rest) h l =
    ground (arith, Tiles-covers b rest, covers_before b rest)

covers-append : (b : ℕ) (ts us : List Token) → covers b (ts ++ us) ≡ covers b ts + covers b us
covers-append b [] us = omega arith
covers-append b (t ∷ ts) us = omega (arith, covers-append b ts us)

covers_beyond :
    (b : ℕ) {stop i : ℕ} {ts vs : List Token}
    → Tiles stop i ts vs
    → stop ≤ b
    → covers b ts + covers b vs ≡ 0
covers_beyond b (done e) h = omega arith
covers_beyond b (token {t} e k n rest) h = ground (arith, covers_beyond b rest, Tiles-le rest)
covers_beyond b (trivia {t} e k n rest) h = ground (arith, covers_beyond b rest, Tiles-le rest)

-- The offset of the last token.
abbrev pub last_pos : List Token → ℕ
last_pos [] = 0
last_pos (t ∷ []) = t.pos
last_pos (t ∷ u ∷ ts) = last_pos (u ∷ ts)

last_pos-eof : (ts : List Token) (stop : ℕ) → last_pos (ts ++ eof_token stop ∷ []) ≡ stop
last_pos-eof [] stop = refl
last_pos-eof (t ∷ []) stop = refl
last_pos-eof (t ∷ u ∷ ts) stop = last_pos-eof (u ∷ ts) stop

covers-Tiled :
    (src : Bytes) {ts vs : List Token} (b : ℕ)
    → Tiled src ts vs
    → covers b ts + covers b vs ≡ (if ltb b (last_pos ts) then 1 else 0)
covers-Tiled src b t =
    rw (t.ends, last_pos-eof t.body t.stop)
      (rw (covers-append b t.body (eof_token t.stop ∷ []))
        (ground (arith, Tiles-covers b t.tiles, covers_beyond b t.tiles)))

-- Every byte before the offset of EOF, the last token, belongs to exactly one token or trivia span
-- of `LexFile`, and no byte from there on to any.
pub lex_file-covers :
    (src : Bytes) (b : ℕ)
    → covers b (lex_file src).0 + covers b (lex_file src).1
      ≡ (if ltb b (last_pos (lex_file src).0) then 1 else 0)
lex_file-covers src b = covers-Tiled src b (lex_file-Tiled src)
