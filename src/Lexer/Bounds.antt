-- ===== src/Lexer/Bounds.antt =====
-- `scan` takes at least one byte and stays inside the input.
use meyer.Base.{
  Bool, Bytes, [], arith, drop, if◌then◌else◌, length, length-drop, refl, suc, zero, ℕ, ◌+◌, ◌∷◌,
  ◌≡◌, ◌≤◌, true, ◌<◌, ◌==◌, ◌||◌, Bool-cases, inl, inr, nat_eq,
}
use meyer.Token.{Kind, kind_eq}
use meyer.Lexer.Chars.{at, is_digit, is_id_char, run_of, is_hex}
use meyer.Lexer.Number.{
  as_float, scan_digits, scan_exponent, scan_fraction, scan_number_tail, scan_number, is_hex_number,
}

pub run_of-le : (p : ℕ → Bool) (z : Bytes) → run_of p z ≤ length z
unfolding run_of
run_of-le p [] = omega arith
run_of-le p (c ∷ z) = ground (arith, run_of-le p z)

pub run_of-drop-le :
    (p : ℕ → Bool) (n : ℕ) (z : Bytes) → n ≤ length z → n + run_of p (drop n z) ≤ length z
run_of-drop-le p n z h = omega (arith, run_of-le p (drop n z), length-drop n z)

-- A read past the end gives 0.
pub at-past : (z : Bytes) (n : ℕ) → length z ≤ n → at z n ≡ 0
at-past [] n h = refl
at-past (c ∷ z) zero h = absurd (omega arith)
at-past (c ∷ z) (suc n) h = at-past z n (omega arith)

abbrev pub Between : ℕ → ℕ → ℕ → Type 0
Between lo hi n = (lo ≤ n) × (n ≤ hi)

pub scan_digits-Between :
    (p : ℕ → Bool) (z : Bytes) (kind : Kind) (n : ℕ)
    → Between n (n + length z) (scan_digits p z (kind, n)).1
unfolding scan_digits
scan_digits-Between p [] kind n = omega arith
scan_digits-Between p (c ∷ z) kind n =
    ground (arith, scan_digits-Between p z (if p c then kind else Kind.qnumber) (n + 1))

pub scan_digits-drop-Between :
    (p : ℕ → Bool) (z : Bytes) (kind : Kind) (n : ℕ)
    → n ≤ length z
    → Between n (length z) (scan_digits p (drop n z) (kind, n)).1
scan_digits-drop-Between p z kind n h =
    omega (arith, scan_digits-Between p (drop n z) kind n, length-drop n z)

module _ (z : Bytes) (kind : Kind) (n : ℕ) (h : n ≤ length z) where
  pub scan_fraction-Between : Between n (length z) (scan_fraction z (kind, n)).1
  unfolding scan_fraction
  scan_fraction-Between =
      ground (arith, at-past z n, scan_digits-drop-Between is_digit z (as_float kind) (n + 1))

  pub scan_exponent-Between : Between n (length z) (scan_exponent z (kind, n)).1
  unfolding scan_exponent is_digit
  scan_exponent-Between = ground (
    arith,
    at-past z n,
    at-past z (n + 1),
    at-past z (n + 2),
    scan_digits-drop-Between is_digit z (as_float kind) (n + 2),
  )

  pub scan_number_tail-Between : Between n (length z) (scan_number_tail z (kind, n)).1
  unfolding scan_number_tail
  scan_number_tail-Between = ground (arith, run_of-drop-le is_id_char n z)

-- What `scan` owes its caller on the input `z`.
abbrev pub Fits : Bytes → ℕ → Type 0
Fits z n = Between 1 (length z) n

scan_digits_pos :
    (c : ℕ) (r : Bytes) → is_digit c ≡ true → 0 < (scan_digits is_digit (c ∷ r) (Kind.integer, 0)).1
unfolding scan_digits
scan_digits_pos c r e = ground (arith, scan_digits-Between is_digit r Kind.integer 1)

scan_fraction_dot :
    (c : ℕ) (r : Bytes)
    → c ≡ b'.'
    → 0 < (scan_fraction (c ∷ r) (scan_digits is_digit (c ∷ r) (Kind.integer, 0))).1
unfolding scan_digits scan_fraction is_digit
scan_fraction_dot c r e = ground (arith, scan_digits-Between is_digit r Kind.float 1)

-- A number that has a first byte has it read by the digits or by the fraction.
pub scan_whole-pos :
    (c : ℕ) (r : Bytes)
    → (is_digit c || c == b'.') ≡ true
    → 0 < (scan_fraction (c ∷ r) (scan_digits is_digit (c ∷ r) (Kind.integer, 0))).1
scan_whole-pos c r h = elim (Bool-cases (is_digit c)) [
  | inl e ↦
      let k = scan_digits is_digit (c ∷ r) (Kind.integer, 0) in
      let fits = scan_digits-Between is_digit (c ∷ r) Kind.integer 0 in
      let more = scan_fraction-Between (c ∷ r) k.0 k.1 (omega arith) in
      omega (arith, more, scan_digits_pos c r e)
  | inr e ↦ scan_fraction_dot c r (ground arith)
]

pub is_hex_number-length : (z : Bytes) → is_hex_number z ≡ true → 3 ≤ length z
unfolding is_hex
is_hex_number-length z h = ground (arith, at-past z 2)

pub scan_number-Fits :
    (c : ℕ) (r : Bytes) → (is_digit c || c == b'.') ≡ true → Fits (c ∷ r) (scan_number (c ∷ r)).1
unfolding scan_number
scan_number-Fits c r h =
    let k = scan_digits is_digit (c ∷ r) (Kind.integer, 0) in
    let whole = scan_digits-Between is_digit (c ∷ r) Kind.integer 0 in
    let f = scan_fraction (c ∷ r) k in
    let fraction = scan_fraction-Between (c ∷ r) k.0 k.1 (omega arith) in
    let e = scan_exponent (c ∷ r) f in
    let exponent = scan_exponent-Between (c ∷ r) f.0 f.1 fraction.1 in
    elim (Bool-cases (is_hex_number (c ∷ r))) [
      | inl hex ↦
          let g = scan_digits is_hex (drop 2 r) (Kind.integer, 3) in
          let digits =
            scan_digits-drop-Between is_hex (c ∷ r) Kind.integer 3
              (is_hex_number-length (c ∷ r) hex) in
          rw hex (omega (arith, digits, scan_number_tail-Between (c ∷ r) g.0 g.1 digits.1))
      | inr dec ↦ rw dec (
          omega (
            arith,
            scan_whole-pos c r h,
            exponent,
            scan_number_tail-Between (c ∷ r) e.0 e.1 exponent.1,
          ))
    ]
