-- ===== src/Lexer/Tiles.antt =====
-- The tokens and the trivia of `lex` tile the input that it consumes.
use meyer.Base.{
  Bool, Bytes, List, [], ap, arith, drop, false, length, refl, suc, true, zero, ℕ, ◌+◌, ◌<◌, ◌∙◌,
  ◌∷◌, ◌≡◌, ◌≤◌, Bool-cases, Option, inl, inr, subst, ◌-◌, ◌==◌, nat_eq,
}
use meyer.Token.{Token, Kind, kind_eq}
use meyer.Lexer.Window.{resolve_kind-cases}
use meyer.Lexer.Lex.{resolve, Lexed, is_trivia, lex_from, emit, resolve_kind}
use meyer.Lexer.Scan.{scan}
use meyer.Lexer.Bounds.{Fits}
use meyer.Lexer.Fits.{scan-Fits}

-- From offset `i` to `stop` the tokens and the trivia, each in order, follow one another with
-- no gap, none of them empty; the trivia are SPACE and COMMENT tokens and the tokens are not.
pub data Tiles (stop : ℕ) : ℕ → List Token → List Token → Type 0 where
  done : {i : ℕ} → i ≡ stop → Tiles stop i [] []
  token :
      {t : Token} {i : ℕ} {ts vs : List Token}
      → t.pos ≡ i
      → i < t.end
      → is_trivia t.kind ≡ false
      → Tiles stop t.end ts vs
      → Tiles stop i (t ∷ ts) vs
  trivia :
      {t : Token} {i : ℕ} {ts vs : List Token}
      → t.pos ≡ i
      → i < t.end
      → is_trivia t.kind ≡ true
      → Tiles stop t.end ts vs
      → Tiles stop i ts (t ∷ vs)

-- The loop passes the rest of a token byte by byte.
pub lex_from-drop :
    (keep : Bool) (skip : ℕ) (z : Bytes) (i : ℕ)
    → skip ≤ length z
    → lex_from keep skip z i ≡ lex_from keep 0 (drop skip z) (i + skip)
unfolding lex_from
lex_from-drop keep zero z i h = ap (lex_from keep 0 z) (omega arith)
lex_from-drop keep (suc skip) [] i h = absurd (omega arith)
lex_from-drop keep (suc skip) (c ∷ z) i h =
    lex_from-drop keep skip z (i + 1) (omega arith)
    ∙ ap (lex_from keep 0 (drop skip z)) (omega arith)

abbrev Good : ℕ → Lexed → Type 0
Good i l = Tiles l.stop i l.toks l.trivia

emit-Good : (k : Kind) (i j : ℕ) (l : Lexed) → i < j → Good j l → Good i (emit true k i j l)
unfolding emit
emit-Good k i j l h g = elim (Bool-cases (is_trivia k)) [
  | inl e ↦ rw e (trivia refl h e g)
  | inr e ↦ rw e (token refl h e g)
]

-- `if n == 0 { n = 1 }` never has anything to do.
pub scan-ne-eof_Fits :
    (c : ℕ) (r : Bytes) → ((scan (c ∷ r)).0 == Kind.eof) ≡ false → Fits (c ∷ r) (scan (c ∷ r)).1
unfolding scan
scan-ne-eof_Fits c r h = scan-Fits c r (λ e. cc (h, zero_byte e))
  where
    zero_byte : c ≡ 0 → ((scan (c ∷ r)).0 == Kind.eof) ≡ true
    zero_byte e = ground arith

pub lex_from-Good :
    (skip : ℕ) (z : Bytes) (i j : ℕ)
    → i + skip ≡ j
    → skip ≤ length z
    → Good j (lex_from true skip z i)
unfolding lex_from
lex_from-Good zero [] i j e h = done (omega arith)
lex_from-Good (suc skip) [] i j e h = absurd (omega arith)
lex_from-Good (suc skip) (c ∷ z) i j e h =
    lex_from-Good skip z (i + 1) j (omega arith) (omega arith)
lex_from-Good zero (c ∷ z) i j e h =
    let n = (scan (c ∷ z)).1 in
    elim (Bool-cases ((scan (c ∷ z)).0 == Kind.eof)) [
      | inl stops ↦ rw stops (done (omega arith))
      | inr goes ↦
          let fits = scan-ne-eof_Fits c z goes in
          let nonzero : (n == 0) ≡ false = ground arith in
          let rest = lex_from-Good (n - 1) z (i + 1) (i + n) (omega arith) (omega arith) in
          rw (goes, nonzero)
            (subst
              (λ k. Good k (emit true (scan (c ∷ z)).0 i (i + n) (lex_from true (n - 1) z (i + 1))))
              (let same : i ≡ j = omega arith in same)
              (emit-Good (scan (c ∷ z)).0 i (i + n) (lex_from true (n - 1) z (i + 1)) (omega arith)
                rest))
    ]

-- Resolving the window keywords renames tokens: their number and offsets stay, and none becomes
-- trivia.
resolve_kind-is_trivia :
    (prev : Option Kind) (k : Kind) (ts : List Token)
    → is_trivia k ≡ false
    → is_trivia (resolve_kind prev k ts) ≡ false
resolve_kind-is_trivia prev k ts h = elim (resolve_kind-cases prev k ts) [
  | inl e ↦ rw e h
  | inr e ↦ rw e refl
]

pub resolve-Tiles :
    {stop i : ℕ} {ts vs : List Token} (prev : Option Kind)
    → Tiles stop i ts vs
    → Tiles stop i (resolve prev ts) vs
unfolding resolve
resolve-Tiles prev (done e) = done e
resolve-Tiles prev (token {t} {ts = ts} e h k rest) =
    token e h (resolve_kind-is_trivia prev t.kind ts k) (resolve-Tiles _ rest)
resolve-Tiles prev (trivia e h k rest) = trivia e h k (resolve-Tiles prev rest)
