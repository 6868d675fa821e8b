-- ===== src/Lexer/Resolved.antt =====
-- lexer/lexer.go: `resolveWindowKeywords` in place is the rule of tokenize.c at each token.
use meyer.Base.{
  ◌≡◌, Bool-cases, Bytes, List, Option, [], ap, arith, drop, false, if◌then◌else◌, inl, inr, none,
  refl, some, suc, zero, ℕ, ◌&&◌, ◌++◌, ◌+◌, ◌==◌, ◌||◌, ◌∙◌, ◌∷◌, nat_eq,
}
use meyer.Token.{Kind, Token, kind_eq}
use meyer.Lexer.Lex.{after_rp, as_id, eof_token, is_window, kind_at, lex, resolve, resolve_kind}
use meyer.Lexer.Window.{resolve_kind-cases, resolve_kind-other}
use meyer.Lexer.Consumed.{lex-lex_file, lex_file-tokens, whole}

-- The kind in front of a token, in the tokens as they were scanned.
unfoldable pub kind_before : Option Kind → List Token → ℕ → Option Kind
kind_before prev ts zero = prev
kind_before prev [] (suc i) = none
kind_before prev (t ∷ ts) (suc i) = kind_before (some t.kind) ts i

-- The start and the end of each token.
unfoldable pub extents : List Token → List (ℕ × ℕ)
extents [] = []
extents (t ∷ ts) = (t.pos, t.end) ∷ extents ts

-- The tokens `us` are the tokens `ts` with the three keywords resolved, each by the kinds that were
-- scanned around it.
pub record Resolved (ts us : List Token) : Type 0 where
  pub extents_kept : extents us ≡ extents ts
  pub other : (i : ℕ) → is_window (kind_at ts i) ≡ false → kind_at us i ≡ kind_at ts i
  pub window :
      (i : ℕ)
      → kind_at ts i ≡ Kind.window
      → kind_at us i ≡ (
          if as_id (kind_at ts (i + 1)) == Kind.id && kind_at ts (i + 2) == Kind.as_kw
          then Kind.window
          else Kind.id)
  pub over :
      (i : ℕ)
      → kind_at ts i ≡ Kind.over
      → kind_at us i ≡ (
          if after_rp (kind_before none ts i)
            && (kind_at ts (i + 1) == Kind.lp || as_id (kind_at ts (i + 1)) == Kind.id)
          then Kind.over
          else Kind.id)
  pub filter :
      (i : ℕ)
      → kind_at ts i ≡ Kind.filter
      → kind_at us i ≡ (
          if after_rp (kind_before none ts i) && kind_at ts (i + 1) == Kind.lp
          then Kind.filter
          else Kind.id)

-- The pass neither makes nor takes away a closing parenthesis.
after_rp-resolve_kind :
    (prev : Option Kind) (k : Kind) (ts : List Token)
    → after_rp (some (resolve_kind prev k ts)) ≡ after_rp (some k)
after_rp-resolve_kind prev k ts = elim (Bool-cases (k == Kind.rp)) [
  | inl e ↦
      let same = (kind_eq.same_iff k Kind.rp).0 e in
      rw same (ap (λ j. j == Kind.rp) (resolve_kind-other prev Kind.rp ts refl))
  | inr e ↦ elim (resolve_kind-cases prev k ts) [
    | inl same ↦ rw same refl
    | inr id ↦ rw (id, e) refl
  ]
]

resolve_kind-after_rp :
    (p q : Option Kind) (k : Kind) (ts : List Token)
    → after_rp p ≡ after_rp q
    → resolve_kind p k ts ≡ resolve_kind q k ts
unfolding resolve_kind
resolve_kind-after_rp p q k ts h = rw h refl

-- The kind at an index, from the tokens as they were scanned.
kind_at-resolve :
    (p q : Option Kind) (ts : List Token) (i : ℕ)
    → after_rp p ≡ after_rp q
    → kind_at (resolve p ts) i ≡ resolve_kind (kind_before q ts i) (kind_at ts i) (drop (suc i) ts)
unfolding resolve kind_before
kind_at-resolve p q [] i h = unfold resolve_kind in refl
kind_at-resolve p q (t ∷ ts) zero h = resolve_kind-after_rp p q t.kind ts h
kind_at-resolve p q (t ∷ ts) (suc i) h =
    kind_at-resolve (some (resolve_kind p t.kind ts)) (some t.kind) ts i
      (after_rp-resolve_kind p t.kind ts)

kind_at-drop : (n : ℕ) (ts : List Token) (i : ℕ) → kind_at (drop n ts) i ≡ kind_at ts (n + i)
kind_at-drop zero ts i = ap (kind_at ts) (omega arith)
kind_at-drop (suc n) [] i = refl
kind_at-drop (suc n) (t ∷ ts) i =
    let e : suc (n + i) ≡ suc n + i = omega arith in kind_at-drop n ts i ∙ ap (kind_at (t ∷ ts)) e

extents-resolve : (p : Option Kind) (ts : List Token) → extents (resolve p ts) ≡ extents ts
unfolding extents resolve
extents-resolve p [] = refl
extents-resolve p (t ∷ ts) =
    ap (◌∷◌ (t.pos, t.end)) (extents-resolve (some (resolve_kind p t.kind ts)) ts)

module _ (ts : List Token) (i : ℕ) where
  behind : (n : ℕ) → kind_at (drop (suc i) ts) n ≡ kind_at ts (i + suc n)
  behind n = kind_at-drop (suc i) ts n ∙ ap (kind_at ts) (omega arith)

  -- The pass at a token of a known kind.
  at_kind :
      (k : Kind)
      → kind_at ts i ≡ k
      → kind_at (resolve none ts) i ≡ resolve_kind (kind_before none ts i) k (drop (suc i) ts)
  at_kind k e =
      kind_at-resolve none none ts i refl
      ∙ ap (λ j. resolve_kind (kind_before none ts i) j (drop (suc i) ts)) e

pub resolve-Resolved : (ts : List Token) → Resolved ts (resolve none ts)
resolve-Resolved ts = record {
  extents_kept = extents-resolve none ts;
  other = λ i h. kind_at-resolve none none ts i refl ∙ resolve_kind-other _ (kind_at ts i) _ h;
  window = λ i e.
      at_kind ts i Kind.window e ∙ unfold resolve_kind in rw (behind ts i 0, behind ts i 1) refl;
  over = λ i e. at_kind ts i Kind.over e ∙ unfold resolve_kind in rw (behind ts i 0) refl;
  filter = λ i e. at_kind ts i Kind.filter e ∙ unfold resolve_kind in rw (behind ts i 0) refl;
}

-- The tokens of Lex are the scanned tokens, with their extents, and the EOF token. WINDOW stays a
-- keyword exactly before a name and AS, OVER exactly behind a closing parenthesis and before an
-- opening one or a name, FILTER exactly between a closing and an opening parenthesis, where the
-- kinds around it are those that were scanned; elsewhere the three are ID, and every other kind
-- stays.
pub lex-Resolved :
    (src : Bytes)
    → (us : List Token) × (lex src ≡ us ++ eof_token (whole src).stop ∷ [])
      × Resolved (whole src).toks us
lex-Resolved src = (
  resolve none (whole src).toks,
  lex-lex_file src ∙ lex_file-tokens src,
  resolve-Resolved (whole src).toks,
)
