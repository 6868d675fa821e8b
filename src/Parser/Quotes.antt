-- ===== src/Parser/Quotes.antt =====
-- parser/parser.go: `dequote` and `identOf` undo the quoting of a name.
use meyer.Base.{
  Bool-cases, Bytes, [], ap, false, if◌then◌else◌, inl, inr, nat_beq_iff, refl, sym, true, ℕ, ◌++◌,
  ◌==◌, ◌∷◌, ◌≡◌, arith, nat_eq,
}
use meyer.Token.{kind_eq}
use meyer.Parser.Names.{collapse, dequote, has_byte, trim_last}

-- The name with each delimiter doubled.
unfoldable pub double : ℕ → Bytes → Bytes
double d [] = []
double d (c ∷ z) = if c == d then d ∷ d ∷ double d z else c ∷ double d z

-- The name as it is written between delimiters.
unfoldable pub quoted : ℕ → Bytes → Bytes
unfolding double
quoted d name = d ∷ double d name ++ d ∷ []

pub same_byte : (d : ℕ) → (d == d) ≡ true
same_byte d = (nat_beq_iff d d).1 refl

trim_last-append : (d : ℕ) (z : Bytes) → trim_last d (z ++ d ∷ []) ≡ z
unfolding trim_last
trim_last-append d [] = rw (same_byte d) refl
trim_last-append d (c ∷ []) = rw (same_byte d) refl
trim_last-append d (c ∷ b ∷ z) = ap (λ w. c ∷ w) (trim_last-append d (b ∷ z))

collapse-double : (d : ℕ) (name : Bytes) → collapse d false (double d name) ≡ name
unfolding collapse double
collapse-double d [] = refl
collapse-double d (c ∷ z) = elim (Bool-cases (c == d)) [
  | inl e ↦ rw (e, same_byte d, collapse-double d z) (ap (λ b. b ∷ z) (sym ((nat_beq_iff c d).0 e)))
  | inr e ↦ rw (e, e, collapse-double d z) refl
]

has_byte-double : (d : ℕ) (name : Bytes) → has_byte d (double d name) ≡ false → double d name ≡ name
unfolding has_byte double
has_byte-double d [] h = refl
has_byte-double d (c ∷ z) h = ground (arith, has_byte-double d z, same_byte d)

-- Stripping the delimiters and collapsing the doubled ones gives back any name that is written
-- between delimiters of its own with each delimiter inside it doubled.
pub dequote-quoted : (d : ℕ) (name : Bytes) → dequote (quoted d name) d ≡ name
unfolding dequote quoted
dequote-quoted d name =
    rw (trim_last-append d (double d name)) (elim (Bool-cases (has_byte d (double d name))) [
      | inl e ↦ rw e (collapse-double d name)
      | inr e ↦ rw e (has_byte-double d name e)
    ])
