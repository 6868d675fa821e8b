-- ===== src/Parser/Fold.antt =====
-- parser/parse_select.go: which names strings.ToUpper takes to a keyword.
use meyer.Base.{
  Bool, Bytes, [], arith, drop, false, get_or, leb, true, ℕ, ◌&&◌, ◌+◌, ◌==◌, ◌||◌, ◌∷◌, ◌≡◌,
  &&-eq-true, Bool-cases, all, inl, inr, ltb, nat_beq_iff, refl, nat_eq,
}
use meyer.Keywords.Table.{upper}
use meyer.Keywords.Find.{bytes_beq}
use meyer.Parser.From.{to_upper}

-- The two bytes of U+017F, which is an S, and of U+0131, which is an I.
abbrev long_s : ℕ → ℕ → Bool
long_s c d = c == 197 && d == 191

abbrev dotless_i : ℕ → ℕ → Bool
dotless_i c d = c == 196 && d == 177

-- A name spells a keyword in upper case: each letter is the keyword's or its small letter, or one of
-- the two characters for S and I.
unfoldable pub spells : Bytes → Bytes → Bool
spells [] [] = true
spells (c ∷ z) [] = false
spells [] (k ∷ ks) = false
spells (c ∷ z) (k ∷ ks) =
    ((c == k || c == k + 32) && spells z ks)
    || (((k == b'S' && long_s c (get_or z 0 0)) || (k == b'I' && dotless_i c (get_or z 0 0)))
        && spells (drop 1 z) ks)

abbrev pub is_capital : ℕ → Bool
is_capital k = leb b'A' k && leb k b'Z'

upper_eq : (c k : ℕ) → is_capital k ≡ true → (upper c == k) ≡ (c == k || c == k + 32)
unfolding upper
upper_eq c k h = ground arith

eq_swap : (a b : ℕ) → (a == b) ≡ (b == a)
eq_swap a b = ground arith

-- The cases of a letter that is one of the two characters, and of any other.
case_long : (u v n t : Bool) → (u && t) ≡ ((false && n) || (((u && true) || (v && false)) && t))
case_long true v n t = refl
case_long false true n t = refl
case_long false false n t = refl

case_dotless : (u v n t : Bool) → (v && t) ≡ ((false && n) || (((u && false) || (v && true)) && t))
case_dotless true true n t = refl
case_dotless true false n t = refl
case_dotless false true n t = refl
case_dotless false false n t = refl

case_plain : (u v x t : Bool) → x ≡ (x || (((u && false) || (v && false)) && t))
case_plain u v true t = refl
case_plain true true false t = refl
case_plain true false false t = refl
case_plain false true false t = refl
case_plain false false false t = refl

no_letter : (a k : ℕ) → ltb 122 a ≡ true → is_capital k ≡ true → (a == k || a == k + 32) ≡ false
no_letter a k h d = ground arith

-- A second byte is taken with the first.
drop-to_upper :
    (n : ℕ) (z : Bytes)
    → (n == 197) ≡ false
    → (n == 196) ≡ false
    → (get_or z 0 0 == n) ≡ true
    → ltb 0 n ≡ true
    → drop 1 (to_upper z) ≡ to_upper (drop 1 z)
unfolding to_upper
drop-to_upper n [] a b h p = absurd (ground arith)
drop-to_upper n (d ∷ z) a b h p = let e = (nat_beq_iff d n).0 h in rw (e, a, b) refl

to_upper-nil : (c : ℕ) (z : Bytes) → bytes_beq (to_upper (c ∷ z)) [] ≡ false
unfolding to_upper
to_upper-nil c z = elim (Bool-cases (long_s c (get_or z 0 0))) [
  | inl e ↦ rw e refl
  | inr e ↦ elim (Bool-cases (dotless_i c (get_or z 0 0))) [
    | inl d ↦ rw (e, d) refl
    | inr d ↦ rw (e, d) refl
  ]
]

-- One letter, from what is known of the letters behind it.
to_upper-letter :
    (k : ℕ) (ks : Bytes) (c : ℕ) (z : Bytes)
    → is_capital k ≡ true
    → bytes_beq (to_upper z) ks ≡ spells z ks
    → bytes_beq (to_upper (drop 1 z)) ks ≡ spells (drop 1 z) ks
    → bytes_beq (to_upper (c ∷ z)) (k ∷ ks) ≡ spells (c ∷ z) (k ∷ ks)
unfolding spells to_upper
to_upper-letter k ks c z capital here behind = elim (Bool-cases (long_s c (get_or z 0 0))) [
  | inl e ↦
      let both = &&-eq-true (c == 197) (get_or z 0 0 == 191) e in
      let first = (nat_beq_iff c 197).0 both.0 in
      let second = drop-to_upper 191 z refl refl both.1 refl in
      rw (first, both.1, second, behind, eq_swap b'S' k, no_letter 197 k refl capital)
        (case_long (k == b'S') (k == b'I') (spells z ks) (spells (drop 1 z) ks))
  | inr e ↦ elim (Bool-cases (dotless_i c (get_or z 0 0))) [
    | inl d ↦
        let both = &&-eq-true (c == 196) (get_or z 0 0 == 177) d in
        let first = (nat_beq_iff c 196).0 both.0 in
        let second = drop-to_upper 177 z refl refl both.1 refl in
        rw (first, both.1, second, behind, eq_swap b'I' k, no_letter 196 k refl capital)
          (case_dotless (k == b'S') (k == b'I') (spells z ks) (spells (drop 1 z) ks))
    | inr d ↦
        rw (e, d, here, upper_eq c k capital)
          (case_plain (k == b'S') (k == b'I') ((c == k || c == k + 32) && spells z ks)
            (spells (drop 1 z) ks))
  ]
]

-- A name is a keyword in upper case exactly where it spells the keyword.
pub to_upper-spells :
    (ks w : Bytes) → all is_capital ks ≡ true → bytes_beq (to_upper w) ks ≡ spells w ks
unfolding spells to_upper
to_upper-spells [] [] h = refl
to_upper-spells [] (c ∷ z) h = to_upper-nil c z
to_upper-spells (k ∷ ks) [] h = refl
to_upper-spells (k ∷ ks) (c ∷ z) h =
    let capital = &&-eq-true (is_capital k) (all is_capital ks) h in
    to_upper-letter k ks c z capital.0 (to_upper-spells ks z capital.1)
      (to_upper-spells ks (drop 1 z) capital.1)
