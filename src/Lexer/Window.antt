-- ===== src/Lexer/Window.antt =====
-- `resolveWindowKeywords`: what it keeps, and where WINDOW, OVER and FILTER stay keywords.
use meyer.Base.{
  Bool, Bool-cases, List, Option, arith, false, if◌then◌else◌, inl, inr, refl, true, ◌==◌, ◌≡◌, ◌⊎◌,
  &&-eq-true, [], all, ap, not, not-eq-true, some, ◌∙◌, ◌∷◌, nat_eq,
}
use meyer.Token.{Kind, Token, kind_eq}
use meyer.Lexer.Lex.{resolve_kind, is_window, resolve}

kept_or_id :
    (b : Bool) (k : Kind)
    → ((if b then k else Kind.id) ≡ k) ⊎ ((if b then k else Kind.id) ≡ Kind.id)
kept_or_id true k = inl refl
kept_or_id false k = inr refl

-- A kind is kept or becomes ID.
pub resolve_kind-cases :
    (prev : Option Kind) (k : Kind) (ts : List Token)
    → (resolve_kind prev k ts ≡ k) ⊎ (resolve_kind prev k ts ≡ Kind.id)
unfolding resolve_kind
resolve_kind-cases prev k ts = elim (Bool-cases (k == Kind.window)) [
  | inl e ↦ rw e (kept_or_id _ k)
  | inr e ↦ elim (Bool-cases (k == Kind.over)) [
    | inl f ↦ rw (e, f) (kept_or_id _ k)
    | inr f ↦ elim (Bool-cases (k == Kind.filter)) [
      | inl g ↦ rw (e, f, g) (kept_or_id _ k)
      | inr g ↦ rw (e, f, g) (inl refl)
    ]
  ]
]

-- A kind that is none of the three stays.
pub resolve_kind-other :
    (prev : Option Kind) (k : Kind) (ts : List Token)
    → is_window k ≡ false
    → resolve_kind prev k ts ≡ k
unfolding resolve_kind
resolve_kind-other prev k ts h =
    let tests : (k == Kind.window ≡ false) × (k == Kind.over ≡ false) × (k == Kind.filter ≡ false) =
      ground arith in
    rw (tests.0, tests.1, tests.2)

-- No token is one of the three keywords.
abbrev pub NoWindow : List Token → Type 0
NoWindow ts = all (λ t. not (is_window t.kind)) ts ≡ true

pub resolve-NoWindow : (prev : Option Kind) (ts : List Token) → NoWindow ts → resolve prev ts ≡ ts
unfolding resolve
resolve-NoWindow prev [] h = refl
resolve-NoWindow prev (t ∷ ts) h =
    let parts = &&-eq-true (not (is_window t.kind)) (all (λ t. not (is_window t.kind)) ts) h in
    let plain = resolve_kind-other prev t.kind ts (not-eq-true _ parts.0) in
    ap (λ k. record t { kind = k } ∷ resolve (some k) ts) plain
    ∙ ap (◌∷◌ t) (resolve-NoWindow (some t.kind) ts parts.1)
