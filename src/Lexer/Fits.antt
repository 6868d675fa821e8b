-- ===== src/Lexer/Fits.antt =====
-- `scan` takes at least one byte and stays inside the input: the longer tokens, and the switch.
use meyer.Base.{
  Bool, Bytes, [], arith, false, if◌then◌else◌, length, not, ℕ, ◌&&◌, ◌+◌, ◌==◌, ◌∷◌, ◌≤◌, drop,
  length-drop, ◌≢◌, nat_eq,
}
use meyer.Token.{kind_eq}
use meyer.Lexer.Chars.{is_id_char, at, run_of, is_hex, is_keyword_char, is_digit, is_space}
use meyer.Lexer.Literal.{
  scan_args, ends_args, in_bracket, scan_bracket, scan_name, scan_quote, scan_quoted, scan_variable,
  in_blob, scan_blob,
}
use meyer.Lexer.Scan.{
  scan_block, in_line, scan_bom, scan_greater, scan_ident, scan_keyword, scan_less, scan_minus,
  scan_slash, scan_x, scan,
}
use meyer.Lexer.Scan.{scan}
use meyer.Lexer.Bounds.{Between, Fits, at-past, run_of-le, run_of-drop-le, scan_number-Fits}

pub scan_args-Between : (z : Bytes) (n : ℕ) → Between (n + 1) (n + 1 + length z) (scan_args z n).1
unfolding scan_args
scan_args-Between z n =
    let m = run_of (λ c. not (ends_args c)) z in
    ground (arith, run_of-le (λ c. not (ends_args c)) z, at-past z m)

pub scan_name-Between :
    (skip : Bool) (z : Bytes) (n nid : ℕ) → Between n (n + length z) (scan_name skip z n nid).1
unfolding scan_name
scan_name-Between skip [] n nid = omega arith
scan_name-Between skip (c ∷ z) n nid = ground (
  arith,
  scan_args-Between z n,
  scan_name-Between (not skip && not (is_id_char c) && (c == b':' && at z 0 == b':')) z (n + 1)
      (if not skip && is_id_char c then nid + 1 else nid),
)

pub scan_variable-Fits : (c : ℕ) (r : Bytes) → Fits (c ∷ r) (scan_variable r).1
unfolding scan_variable
scan_variable-Fits c r = omega (arith, scan_name-Between false r 1 0)

scan_block-Between : (z : Bytes) (prev n : ℕ) → Between n (n + length z) (scan_block z prev n)
unfolding scan_block
scan_block-Between [] prev n = omega arith
scan_block-Between (c ∷ z) prev n = ground (arith, scan_block-Between z c (n + 1))

-- The end of a quoted token: a delimiter found there is one more byte.
abbrev with_delim : ℕ × ℕ → ℕ
with_delim (last, n) = n + (if last == 0 then 0 else 1)

pub scan_quoted-Between :
    (delim : ℕ) (skip : Bool) (z : Bytes) (n : ℕ)
    → (n ≤ (scan_quoted delim skip z n).1)
      × (with_delim (scan_quoted delim skip z n) ≤ n + length z)
unfolding scan_quoted
scan_quoted-Between delim skip [] n = omega arith
scan_quoted-Between delim skip (c ∷ z) n =
    ground
      (arith, scan_quoted-Between delim (not skip && (c == delim && at z 0 == delim)) z (n + 1))

pub scan_quote-Fits : (delim c : ℕ) (r : Bytes) → Fits (c ∷ r) (scan_quote delim r).1
unfolding scan_quote
scan_quote-Fits delim c r = ground (arith, scan_quoted-Between delim false r 1)

pub scan_bracket-Fits : (c : ℕ) (r : Bytes) → Fits (c ∷ r) (scan_bracket (c ∷ r)).1
unfolding scan_bracket
scan_bracket-Fits c r = ground (arith, run_of-le in_bracket r, at-past r (run_of in_bracket r))

scan_ident-Fits :
    (c : ℕ) (r : Bytes) (n : ℕ) → n ≤ length r → Fits (c ∷ r) (scan_ident (c ∷ r) (n + 1)).1
unfolding scan_ident
scan_ident-Fits c r n h = omega (arith, run_of-drop-le is_id_char (n + 1) (c ∷ r))

scan_blob-Fits : (z : Bytes) (n : ℕ) → 1 ≤ n → n ≤ length z → Fits z (scan_blob z n).1
unfolding scan_blob
scan_blob-Fits z n h k =
    ground
      (arith, run_of-drop-le in_blob n z, at-past z n, at-past z (n + run_of in_blob (drop n z)))

scan_x-Fits : (c : ℕ) (r : Bytes) → Fits (c ∷ r) (scan_x (c ∷ r)).1
unfolding scan_x
scan_x-Fits c r = ground (
  arith,
  at-past r 0,
  scan_ident-Fits c r 0,
  run_of-drop-le is_hex 2 (c ∷ r),
  scan_blob-Fits (c ∷ r) (2 + run_of is_hex (drop 1 r)),
)

scan_bom-Fits : (c : ℕ) (r : Bytes) → Fits (c ∷ r) (scan_bom (c ∷ r)).1
unfolding scan_bom
scan_bom-Fits c r = ground (arith, at-past r 0, at-past r 1, scan_ident-Fits c r 0)

scan_keyword-Fits : (c : ℕ) (r : Bytes) → Fits (c ∷ r) (scan_keyword (c ∷ r)).1
unfolding scan_keyword is_keyword_char is_id_char
scan_keyword-Fits c r =
    let n = 2 + run_of is_keyword_char (drop 1 r) in
    ground (
      arith,
      at-past r 0,
      at-past (c ∷ r) n,
      scan_ident-Fits c r 0,
      scan_ident-Fits c r n,
      run_of-drop-le is_keyword_char 2 (c ∷ r),
    )

scan_minus-Fits : (c : ℕ) (r : Bytes) → Fits (c ∷ r) (scan_minus (c ∷ r)).1
unfolding scan_minus
scan_minus-Fits c r = ground (arith, at-past r 0, at-past r 1, run_of-drop-le in_line 2 (c ∷ r))

scan_slash-Fits : (c : ℕ) (r : Bytes) → Fits (c ∷ r) (scan_slash (c ∷ r)).1
unfolding scan_slash
scan_slash-Fits c r =
    ground
      (arith, at-past r 0, at-past r 1, scan_block-Between (drop 2 r) (at r 1) 3, length-drop 2 r)

scan_less-Fits : (c : ℕ) (r : Bytes) → Fits (c ∷ r) (scan_less (c ∷ r)).1
unfolding scan_less
scan_less-Fits c r = ground (arith, at-past r 0)

scan_greater-Fits : (c : ℕ) (r : Bytes) → Fits (c ∷ r) (scan_greater (c ∷ r)).1
unfolding scan_greater
scan_greater-Fits c r = ground (arith, at-past r 0)

-- The switch: at a byte that is no NUL, `scan` takes at least one byte and none past the end.
pub scan-Fits : (c : ℕ) (r : Bytes) → c ≢ 0 → Fits (c ∷ r) (scan (c ∷ r)).1
unfolding scan
scan-Fits c r h = ground (
  arith,
  at-past r 0,
  run_of-le is_space r,
  scan_minus-Fits c r,
  scan_slash-Fits c r,
  scan_less-Fits c r,
  scan_greater-Fits c r,
  scan_quote-Fits c c r,
  scan_number-Fits c r,
  scan_bracket-Fits c r,
  run_of-le is_digit r,
  scan_variable-Fits c r,
  scan_x-Fits c r,
  scan_bom-Fits c r,
  scan_keyword-Fits c r,
  scan_ident-Fits c r 0,
)
