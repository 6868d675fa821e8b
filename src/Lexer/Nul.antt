-- ===== src/Lexer/Nul.antt =====
-- A NUL byte ends a token where the end of the input would: `scan` reads nothing behind it.
use meyer.Base.{
  Bool, Bytes, [], ap, arith, drop, false, if◌then◌else◌, length, refl, suc, take, zero, ℕ, ◌++◌,
  ◌+◌, ◌∷◌, ◌≡◌, ◌≤◌, Bool-cases, inl, inr, true, ◌∙◌,
}
use meyer.Token.{Kind}
use meyer.Lexer.Chars.{at, is_digit, is_hex, is_id_char, run_of}
use meyer.Lexer.Number.{
  as_float, has_exponent, is_hex_number, scan_digits, scan_exponent, scan_fraction,
  scan_number_tail, scan_number,
}
use meyer.Lexer.Bounds.{
  at-past, is_hex_number-length, scan_digits-Between, scan_digits-drop-Between,
  scan_exponent-Between, scan_fraction-Between,
}

has_exponent-length : (z : Bytes) (n : ℕ) → has_exponent z n ≡ true → n + 2 ≤ length z
unfolding is_digit
has_exponent-length z n h = ground (arith, at-past z n, at-past z (n + 1))

-- `s` is what stands behind the NUL.
module _ (s : Bytes) where
  abbrev pub nul : Bytes → Bytes
  nul z = z ++ 0 ∷ s

  pub at-nul : (z : Bytes) (n : ℕ) → n ≤ length z → at (nul z) n ≡ at z n
  at-nul [] zero h = refl
  at-nul [] (suc n) h = absurd (omega arith)
  at-nul (c ∷ z) zero h = refl
  at-nul (c ∷ z) (suc n) h = at-nul z n (omega arith)

  pub drop-nul : (z : Bytes) (n : ℕ) → n ≤ length z → drop n (nul z) ≡ nul (drop n z)
  drop-nul z zero h = refl
  drop-nul [] (suc n) h = absurd (omega arith)
  drop-nul (c ∷ z) (suc n) h = drop-nul z n (omega arith)

  pub take-nul : (z : Bytes) (n : ℕ) → n ≤ length z → take n (nul z) ≡ take n z
  take-nul z zero h = refl
  take-nul [] (suc n) h = absurd (omega arith)
  take-nul (c ∷ z) (suc n) h = ap (◌∷◌ c) (take-nul z n (omega arith))

  pub run_of-nul : (p : ℕ → Bool) (z : Bytes) → p 0 ≡ false → run_of p (nul z) ≡ run_of p z
  unfolding run_of
  run_of-nul p [] h = rw h
  run_of-nul p (c ∷ z) h = rw (run_of-nul p z h)

  pub run_of-drop-nul :
      (p : ℕ → Bool) (z : Bytes) (n : ℕ)
      → p 0 ≡ false
      → n ≤ length z
      → run_of p (drop n (nul z)) ≡ run_of p (drop n z)
  run_of-drop-nul p z n h k = rw (drop-nul z n k) (run_of-nul p (drop n z) h)

  scan_digits-nul :
      (p : ℕ → Bool) (z : Bytes) (kind : Kind) (n : ℕ)
      → p 0 ≡ false
      → scan_digits p (nul z) (kind, n) ≡ scan_digits p z (kind, n)
  unfolding scan_digits
  scan_digits-nul p [] kind n h = rw h
  scan_digits-nul p (c ∷ z) kind n h =
      rw (scan_digits-nul p z (if p c then kind else Kind.qnumber) (n + 1) h)

  scan_digits-drop-nul :
      (p : ℕ → Bool) (z : Bytes) (kind : Kind) (n k : ℕ)
      → p 0 ≡ false
      → k ≤ length z
      → scan_digits p (drop k (nul z)) (kind, n) ≡ scan_digits p (drop k z) (kind, n)
  scan_digits-drop-nul p z kind n k h i =
      rw (drop-nul z k i) (scan_digits-nul p (drop k z) kind n h)

  scan_fraction-nul :
      (z : Bytes) (kind : Kind) (n : ℕ)
      → n ≤ length z
      → scan_fraction (nul z) (kind, n) ≡ scan_fraction z (kind, n)
  unfolding scan_fraction is_digit
  scan_fraction-nul z kind n h = ground (
    arith,
    at-past z n,
    at-nul z n,
    scan_digits-drop-nul is_digit z (as_float kind) (n + 1) (n + 1),
  )

  has_exponent-nul : (z : Bytes) (n : ℕ) → n ≤ length z → has_exponent (nul z) n ≡ has_exponent z n
  unfolding is_digit
  has_exponent-nul z n h =
      ground (arith, at-past z n, at-past z (n + 1), at-nul z n, at-nul z (n + 1), at-nul z (n + 2))

  scan_exponent-nul :
      (z : Bytes) (kind : Kind) (n : ℕ)
      → n ≤ length z
      → scan_exponent (nul z) (kind, n) ≡ scan_exponent z (kind, n)
  unfolding scan_exponent is_digit
  scan_exponent-nul z kind n h = elim (Bool-cases (has_exponent z n)) [
    | inl e ↦ rw (
      has_exponent-nul z n h,
      e,
      scan_digits-drop-nul is_digit z (as_float kind) (n + 2) (n + 2) refl
          (has_exponent-length z n e),
    )
    | inr e ↦ rw (has_exponent-nul z n h, e)
  ]

  scan_number_tail-nul :
      (z : Bytes) (kind : Kind) (n : ℕ)
      → n ≤ length z
      → scan_number_tail (nul z) (kind, n) ≡ scan_number_tail z (kind, n)
  unfolding scan_number_tail is_id_char
  scan_number_tail-nul z kind n h = rw (at-nul z n h, run_of-drop-nul is_id_char z n refl h)

  is_hex_number-nul : (z : Bytes) → is_hex_number (nul z) ≡ is_hex_number z
  unfolding is_hex
  is_hex_number-nul [] = refl
  is_hex_number-nul (c ∷ []) = ground arith
  is_hex_number-nul (c ∷ d ∷ []) = refl
  is_hex_number-nul (c ∷ d ∷ e ∷ z) = refl

  pub scan_number-nul : (z : Bytes) → scan_number (nul z) ≡ scan_number z
  unfolding scan_number is_hex is_digit
  scan_number-nul z =
      let k = scan_digits is_digit z (Kind.integer, 0) in
      let whole : k.1 ≤ length z = omega (arith, scan_digits-Between is_digit z Kind.integer 0) in
      let f = scan_fraction z k in
      let fraction = scan_fraction-Between z k.0 k.1 whole in
      let e = scan_exponent z f in
      let exponent = scan_exponent-Between z f.0 f.1 fraction.1 in
      elim (Bool-cases (is_hex_number z)) [
        | inl hex ↦
            let g = scan_digits is_hex (drop 3 z) (Kind.integer, 3) in
            let long = is_hex_number-length z hex in
            let digits = scan_digits-drop-Between is_hex z Kind.integer 3 long in
            rw (is_hex_number-nul z, hex)
              (rw (scan_digits-drop-nul is_hex z Kind.integer 3 3 refl long)
                (scan_number_tail-nul z g.0 g.1 digits.1))
        | inr dec ↦
            rw (is_hex_number-nul z, dec)
              (rw (scan_digits-nul is_digit z Kind.integer 0 refl) (
                ap (λ x. scan_number_tail (nul z) (scan_exponent (nul z) x))
                  (scan_fraction-nul z k.0 k.1 whole)
                ∙ ap (scan_number_tail (nul z)) (scan_exponent-nul z f.0 f.1 fraction.1)
                ∙ scan_number_tail-nul z e.0 e.1 exponent.1))
      ]
