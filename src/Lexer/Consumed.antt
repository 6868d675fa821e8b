-- ===== src/Lexer/Consumed.antt =====
-- `LexFile` as a whole: what its two slices tile, where they end, and what a NUL byte does.
use meyer.Base.{
  Bool, Bool-cases, Bytes, List, [], ap, arith, false, inl, inr, length, refl, suc, true, zero, ℕ,
  ◌+◌, ◌-◌, ◌==◌, ◌||◌, ◌∷◌, ◌≡◌, ◌≤◌, if◌then◌else◌, none, or-eq-false, sym, ◌++◌, nat_eq,
}
use meyer.Token.{Kind, Token, kind_eq}
use meyer.Lexer.Chars.{at}
use meyer.Lexer.Lex.{
  Lexed, emit, is_trivia, is_window, lex_from, resolve, eof_token, lex, lex_file,
  resolve_window_keywords, taken,
}
use meyer.Lexer.Tiles.{scan-ne-eof_Fits, Tiles, lex_from-Good, resolve-Tiles}
use meyer.Lexer.Stop.{scan-eof}
use meyer.Lexer.Scan.{scan}
use meyer.Lexer.Window.{resolve-NoWindow, NoWindow}
use meyer.Lexer.Nul.{nul}
use meyer.Lexer.NulScan.{scan-nul}

-- The loop stops inside the input, where a read gives 0.
abbrev StopsIn : ℕ → Bytes → ℕ → Type 0
StopsIn i z stop = (m : ℕ) × (stop ≡ i + m) × (m ≤ length z) × (at z m ≡ 0)

emit-stop : (keep : Bool) (k : Kind) (i j : ℕ) (l : Lexed) → (emit keep k i j l).stop ≡ l.stop
unfolding emit
emit-stop keep k i j l = ground arith

lex_from-StopsIn :
    (keep : Bool) (skip : ℕ) (z : Bytes) (i : ℕ)
    → skip ≤ length z
    → StopsIn i z (lex_from keep skip z i).stop
unfolding lex_from
lex_from-StopsIn keep zero [] i h = (0, refl, omega arith, refl)
lex_from-StopsIn keep (suc skip) [] i h = absurd (omega arith)
lex_from-StopsIn keep (suc skip) (c ∷ z) i h =
    let (m, e, le, zero_at) = lex_from-StopsIn keep skip z (i + 1) (omega arith) in
    (suc m, omega (arith, e), omega (arith, le), zero_at)
lex_from-StopsIn keep zero (c ∷ z) i h = elim (Bool-cases ((scan (c ∷ z)).0 == Kind.eof)) [
  | inl stops ↦ rw stops ((0, omega arith, omega arith, scan-eof c z stops))
  | inr goes ↦
      let n = (scan (c ∷ z)).1 in
      let fits = scan-ne-eof_Fits c z goes in
      let nonzero : (n == 0) ≡ false = ground arith in
      let (m, e, le, zero_at) = lex_from-StopsIn keep (n - 1) z (i + 1) (omega arith) in
      let same = emit-stop keep (scan (c ∷ z)).0 i (i + n) (lex_from keep (n - 1) z (i + 1)) in
      rw (goes, nonzero) ((suc m, omega (arith, e, same), omega (arith, le), zero_at))
]

-- What the loop leaves without the trivia is what it leaves with them.
abbrev SameTokens : Lexed → Lexed → Type 0
SameTokens l m = (l.toks ≡ m.toks) × (l.ambiguous ≡ m.ambiguous) × (l.stop ≡ m.stop)

emit-SameTokens :
    (k : Kind) (i j : ℕ) (l m : Lexed)
    → SameTokens l m
    → SameTokens (emit false k i j l) (emit true k i j m)
unfolding emit
emit-SameTokens k i j l m h = elim (Bool-cases (is_trivia k)) [
  | inl e ↦ rw e h
  | inr e ↦
      rw e
        (ap (◌∷◌ (record { kind = k; pos = i; end = j })) h.0, ap (λ b. is_window k || b) h.1, h.2)
]

lex_from-SameTokens :
    (skip : ℕ) (z : Bytes) (i : ℕ) → SameTokens (lex_from false skip z i) (lex_from true skip z i)
unfolding lex_from
lex_from-SameTokens skip [] i = (refl, refl, refl)
lex_from-SameTokens (suc skip) (c ∷ z) i = lex_from-SameTokens skip z (i + 1)
lex_from-SameTokens zero (c ∷ z) i = elim (Bool-cases ((scan (c ∷ z)).0 == Kind.eof)) [
  | inl stops ↦ rw stops ((refl, refl, refl))
  | inr goes ↦
      let n = taken (scan (c ∷ z)).1 in
      rw goes (
        emit-SameTokens (scan (c ∷ z)).0 i (i + n) (lex_from false (n - 1) z (i + 1))
          (lex_from true (n - 1) z (i + 1)) (lex_from-SameTokens (n - 1) z (i + 1)))
]

-- Unless the flag is up, no token is one of the three keywords.
emit-ambiguous :
    (k : Kind) (i j : ℕ) (l : Lexed)
    → (l.ambiguous ≡ false → NoWindow l.toks)
    → (emit true k i j l).ambiguous ≡ false
    → NoWindow (emit true k i j l).toks
unfolding emit
emit-ambiguous k i j l h = elim (Bool-cases (is_trivia k)) [
  | inl e ↦ rw e h
  | inr e ↦
      rw e (λ f. let parts = or-eq-false (is_window k) l.ambiguous f in rw parts.0 (h parts.1))
]

lex_from-ambiguous :
    (skip : ℕ) (z : Bytes) (i : ℕ)
    → (lex_from true skip z i).ambiguous ≡ false
    → NoWindow (lex_from true skip z i).toks
unfolding lex_from
lex_from-ambiguous skip [] i = λ h. refl
lex_from-ambiguous (suc skip) (c ∷ z) i = lex_from-ambiguous skip z (i + 1)
lex_from-ambiguous zero (c ∷ z) i = elim (Bool-cases ((scan (c ∷ z)).0 == Kind.eof)) [
  | inl stops ↦ rw stops (λ h. refl)
  | inr goes ↦
      let n = taken (scan (c ∷ z)).1 in
      rw goes (
        emit-ambiguous (scan (c ∷ z)).0 i (i + n) (lex_from true (n - 1) z (i + 1))
          (lex_from-ambiguous (n - 1) z (i + 1)))
]

resolve_if_ambiguous :
    (l : Lexed)
    → (l.ambiguous ≡ false → NoWindow l.toks)
    → (if l.ambiguous then resolve_window_keywords l.toks else l.toks) ≡ resolve none l.toks
resolve_if_ambiguous l h = elim (Bool-cases l.ambiguous) [
  | inl e ↦ rw e refl
  | inr e ↦ rw e (sym (resolve-NoWindow none l.toks (h e)))
]

-- The tokens of `LexFile` are those of the loop with the window keywords resolved, and EOF.
abbrev pub whole : Bytes → Lexed
whole src = lex_from true 0 src 0

pub lex_file-tokens :
    (src : Bytes)
    → (lex_file src).0 ≡ resolve none (whole src).toks ++ eof_token (whole src).stop ∷ []
unfolding lex_file
lex_file-tokens src =
    ap (λ ts. ts ++ eof_token (whole src).stop ∷ [])
      (resolve_if_ambiguous (whole src) (lex_from-ambiguous 0 src 0))

-- `Lex` returns the tokens of `LexFile`.
pub lex-lex_file : (src : Bytes) → lex src ≡ (lex_file src).0
unfolding lex lex_file
lex-lex_file src = let same = lex_from-SameTokens 0 src 0 in rw (same.0, same.1, same.2)

-- What `LexFile` promises of the input it consumes: `stop` is where the tokens end.
pub record Tiled (src : Bytes) (tokens trivia : List Token) : Type 0 where
  pub body : List Token
  pub stop : ℕ
  pub ends : tokens ≡ body ++ eof_token stop ∷ []
  pub tiles : Tiles stop 0 body trivia
  pub inside : stop ≤ length src
  pub at_stop : at src stop ≡ 0

-- The tokens of `LexFile` before its EOF token and its trivia tile the input from offset 0 to the
-- offset of EOF, which is where the input ends or has a NUL byte.
pub lex_file-Tiled : (src : Bytes) → Tiled src (lex_file src).0 (lex_file src).1
lex_file-Tiled src =
    let (m, e, le, zero_at) = lex_from-StopsIn true 0 src 0 (omega arith) in
    let stops : (whole src).stop ≡ m = omega arith in
    record {
      body = resolve none (whole src).toks;
      stop = (whole src).stop;
      ends = lex_file-tokens src;
      tiles =
          unfold lex_file in
          resolve-Tiles none (lex_from-Good 0 src 0 0 (omega arith) (omega arith));
      inside = rw stops le;
      at_stop = rw stops zero_at;
    }

-- Under a NUL byte the loop reads what it reads at the end of the input.
lex_from-nul :
    (s : Bytes) (keep : Bool) (skip : ℕ) (z : Bytes) (i : ℕ)
    → skip ≤ length z
    → lex_from keep skip (nul s z) i ≡ lex_from keep skip z i
unfolding lex_from
lex_from-nul s keep zero [] i h =
    unfold scan in
    ap (λ k. record { toks = []; trivia = []; ambiguous = false; stop = k }) (omega arith)
lex_from-nul s keep (suc skip) [] i h = absurd (omega arith)
lex_from-nul s keep (suc skip) (c ∷ z) i h = lex_from-nul s keep skip z (i + 1) (omega arith)
lex_from-nul s keep zero (c ∷ z) i h =
    rw (scan-nul s c z) (elim (Bool-cases ((scan (c ∷ z)).0 == Kind.eof)) [
      | inl stops ↦ rw stops refl
      | inr goes ↦
          let n = taken (scan (c ∷ z)).1 in
          let fits = scan-ne-eof_Fits c z goes in
          let short : n - 1 ≤ length z = ground arith in
          rw (lex_from-nul s keep (n - 1) z (i + 1) short) refl
    ])

-- A NUL byte ends the input, wherever it stands and whatever follows it: the tokens and the trivia
-- are those of the text before it.
pub lex_file-nul : (src rest : Bytes) → lex_file (src ++ 0 ∷ rest) ≡ lex_file src
unfolding lex_file
lex_file-nul src rest = rw (lex_from-nul rest true 0 src 0 (omega arith))
