-- ===== src/Parser/Render.antt =====
-- parser/parser.go: `Error.Error`, which renders an error with its line and column.
use meyer.Base.{
  Bool-cases, Bytes, Option, [], ap, arith, false, if◌then◌else◌, inl, inr, leb, length, ltb,
  ltb→le, ltb→lt, none, refl, some, suc, true, zero, ℕ, ◌%◌, ◌*◌, ◌++◌, ◌+◌, ◌-◌, ◌/◌, ◌<◌, ◌∙◌,
  ◌∷◌, ◌≡◌, Bool, subst, ◌≤◌, ◌&&◌, ◌==◌, append_assoc, nat_eq,
}
use meyer.Keywords.{codes}
use meyer.Parser.State.{Error}
use meyer.Parser.Safe.{Good}
use meyer.Parser.Position.{line_col, Position, line_col-Position}

-- The decimal digits before `rest`, with fuel for the number.
unfoldable pub decimal_from : ℕ → ℕ → Bytes → Bytes
decimal_from zero n rest = rest
decimal_from (suc fuel) n rest = elim (ltb n 10) [
  | true ↦ (b'0' + n) ∷ rest
  | false ↦ decimal_from fuel (n / 10) ((b'0' + n % 10) ∷ rest)
]

-- "%d"
unfoldable pub decimal : ℕ → Bytes
unfolding decimal_from
decimal n = decimal_from (n + 1) n []

unfoldable pub with_position : ℕ × ℕ → Bytes → Bytes
unfolding decimal
with_position (line, col) msg = decimal line ++ codes ":" ++ decimal col ++ codes ": " ++ msg

-- `Error.Error`, by the offset.
unfoldable pub render_at : Option ℕ → Error → Bytes
unfolding line_col with_position
render_at none e = e.message
render_at (some offset) e =
    if ltb (length e.sql) offset then e.message else with_position (line_col e.sql offset) e.message

-- `Error.Error`
unfoldable pub error_string : Error → Bytes
unfolding render_at
error_string e = render_at e.offset e

-- The number at the start of a text, and what stands behind it.
unfoldable pub read_number : ℕ → Bytes → ℕ × Bytes
read_number acc [] = (acc, [])
read_number acc (c ∷ z) =
    let rest = read_number (acc * 10 + (c - b'0')) z in
    if leb b'0' c && leb c b'9' then rest else (acc, c ∷ z)

-- A text without a text that it starts with.
unfoldable pub strip : Bytes → Bytes → Option Bytes
strip [] z = some z
strip (c ∷ p) [] = none
strip (c ∷ p) (d ∷ z) = if c == d then strip p z else none

-- The message behind the column.
unfoldable read_message : ℕ → ℕ → Option Bytes → Option (ℕ × ℕ × Bytes)
read_message line col none = none
read_message line col (some msg) = some (line, col, msg)

unfoldable read_behind_col : ℕ → ℕ × Bytes → Option (ℕ × ℕ × Bytes)
unfolding read_message strip
read_behind_col line (col, z) = read_message line col (strip (codes ": ") z)

unfoldable read_col : ℕ → Option Bytes → Option (ℕ × ℕ × Bytes)
unfolding read_behind_col read_number
read_col line none = none
read_col line (some z) = read_behind_col line (read_number 0 z)

unfoldable read_behind_line : ℕ × Bytes → Option (ℕ × ℕ × Bytes)
unfolding read_col strip
read_behind_line (line, z) = read_col line (strip (codes ":") z)

-- The line, the column and the message of a rendered error.
unfoldable pub read_position : Bytes → Option (ℕ × ℕ × Bytes)
unfolding read_behind_line read_number
read_position z = read_behind_line (read_number 0 z)

read_number-digit :
    (acc d : ℕ) (rest : Bytes)
    → d < 10
    → read_number acc ((b'0' + d) ∷ rest) ≡ read_number (acc * 10 + d) rest
unfolding read_number
read_number-digit acc d rest h =
    let low : leb b'0' (b'0' + d) ≡ true = ground arith in
    let high : leb (b'0' + d) b'9' ≡ true = ground arith in
    let same : b'0' + d - b'0' ≡ d = omega arith in rw (low, high, same) refl

decimal_from-cases :
    (fuel n : ℕ) (rest : Bytes) (b : Bool)
    → ltb n 10 ≡ b
    → decimal_from (suc fuel) n rest
      ≡ (if b then (b'0' + n) ∷ rest else decimal_from fuel (n / 10) ((b'0' + n % 10) ∷ rest))
unfolding decimal_from
decimal_from-cases fuel n rest true h =
    ap
      (λ (c : Bool). elim c [
        | true ↦ (b'0' + n) ∷ rest
        | false ↦ decimal_from fuel (n / 10) ((b'0' + n % 10) ∷ rest)
      ])
      h
decimal_from-cases fuel n rest false h =
    ap
      (λ (c : Bool). elim c [
        | true ↦ (b'0' + n) ∷ rest
        | false ↦ decimal_from fuel (n / 10) ((b'0' + n % 10) ∷ rest)
      ])
      h

decimal_from-append :
    (fuel n : ℕ) (a b : Bytes) → decimal_from fuel n a ++ b ≡ decimal_from fuel n (a ++ b)
unfolding decimal_from
decimal_from-append zero n a b = refl
decimal_from-append (suc fuel) n a b = elim (Bool-cases (ltb n 10)) [
  | inl small ↦
      rw (decimal_from-cases fuel n a true small, decimal_from-cases fuel n (a ++ b) true small)
        refl
  | inr large ↦
      rw (decimal_from-cases fuel n a false large, decimal_from-cases fuel n (a ++ b) false large)
        (decimal_from-append fuel (n / 10) ((b'0' + n % 10) ∷ a) b)
]

read_number-decimal_from :
    (fuel n : ℕ) (rest : Bytes)
    → n < fuel
    → read_number 0 (decimal_from fuel n rest) ≡ read_number n rest
read_number-decimal_from zero n rest h = absurd (omega arith)
read_number-decimal_from (suc fuel) n rest h = elim (Bool-cases (ltb n 10)) [
  | inl small ↦
      let zero_n : 0 * 10 + n ≡ n = omega arith in
      rw (decimal_from-cases fuel n rest true small)
        (read_number-digit 0 n rest (ltb→lt _ _ small) ∙ ap (λ k. read_number k rest) zero_n)
  | inr large ↦
      let big = ltb→le _ _ large in
      let n_split : n / 10 * 10 + n % 10 ≡ n = omega arith in
      rw (decimal_from-cases fuel n rest false large) (
        read_number-decimal_from fuel (n / 10) ((b'0' + n % 10) ∷ rest) (omega (arith, big))
        ∙ read_number-digit (n / 10) (n % 10) rest (omega arith)
        ∙ ap (λ k. read_number k rest) n_split)
]

-- A number that is written is read back in front of a colon.
read_number-decimal : (n : ℕ) (z : Bytes) → read_number 0 (decimal n ++ b':' ∷ z) ≡ (n, b':' ∷ z)
unfolding decimal
read_number-decimal n z =
    ap (read_number 0) (decimal_from-append (n + 1) n [] (b':' ∷ z))
    ∙ read_number-decimal_from (n + 1) n (b':' ∷ z) (omega arith)
    ∙ unfold read_number in refl

behind_line :
    (line : ℕ) (z : Bytes)
    → read_behind_line (line, b':' ∷ z) ≡ read_behind_col line (read_number 0 z)
unfolding read_behind_line read_col strip
behind_line line z = refl

behind_col :
    (line col : ℕ) (msg : Bytes)
    → read_behind_col line (col, b':' ∷ b' ' ∷ msg) ≡ some (line, col, msg)
unfolding read_behind_col read_message strip
behind_col line col msg = refl

with_position-right :
    (line col : ℕ) (msg : Bytes)
    → with_position (line, col) msg ≡ decimal line ++ (b':' ∷ (decimal col ++ (b':' ∷ b' ' ∷ msg)))
unfolding with_position
with_position-right line col msg = simp append_assoc

read_position-with_position :
    (line col : ℕ) (msg : Bytes)
    → read_position (with_position (line, col) msg) ≡ some (line, col, msg)
unfolding read_position
read_position-with_position line col msg =
    ap read_position (with_position-right line col msg)
    ∙ ap read_behind_line (read_number-decimal line (decimal col ++ (b':' ∷ b' ' ∷ msg)))
    ∙ behind_line line (decimal col ++ (b':' ∷ b' ' ∷ msg))
    ∙ ap (read_behind_col line) (read_number-decimal col (b' ' ∷ msg))
    ∙ behind_col line col msg

render_at-some :
    (o : Option ℕ) (e : Error) (offset : ℕ)
    → o ≡ some offset
    → offset ≤ length e.sql
    → render_at o e ≡ with_position (line_col e.sql offset) e.message
unfolding render_at
render_at-some none e offset h le = cc h
render_at-some (some k) e offset h le =
    let same : k ≡ offset = cc h in
    let inside : ltb (length e.sql) offset ≡ false = ground arith in rw same (rw inside refl)

-- The text tells where in the input the error lies, and its message.
pub record Located (src : Bytes) (e : Error) (z : Bytes) : Type 0 where
  pub offset : ℕ
  pub known : e.offset ≡ some offset
  pub position : ℕ × ℕ
  pub place : Position src offset position
  pub text : read_position z ≡ some (position.0, position.1, e.message)

pub error_string-Located : (src : Bytes) (e : Error) → Good src e → Located src e (error_string e)
unfolding error_string
error_string-Located src e g =
    let here = render_at-some e.offset e g.offset g.known (rw (g.sql) g.inside) in
    let written =
      subst (λ z. error_string e ≡ with_position (line_col z g.offset) e.message) g.sql here in
    record {
      offset = g.offset;
      known = g.known;
      position = line_col src g.offset;
      place = line_col-Position src g.offset g.inside;
      text =
          ap read_position written
          ∙ read_position-with_position (line_col src g.offset).0 (line_col src g.offset).1
              e.message;
    }
