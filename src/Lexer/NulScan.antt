-- ===== src/Lexer/NulScan.antt =====
-- A NUL byte ends every token where the end of the input would: the longer tokens, and the switch.
use meyer.Base.{
  Bool, Bytes, [], arith, drop, false, length, not, refl, true, ℕ, ◌+◌, ◌<◌, ◌∷◌, ◌≡◌, ◌≢◌, ◌≤◌,
  if◌then◌else◌, ◌&&◌, ◌==◌, nat_eq,
}
use meyer.Lexer.Chars.{is_id_char, is_space, run_of, at, is_hex, is_keyword_char, is_digit}
use meyer.Lexer.Literal.{
  scan_blob, ends_args, in_blob, in_bracket, scan_args, scan_bracket, scan_name, scan_quote,
  scan_quoted, scan_variable,
}
use meyer.Lexer.Scan.{
  scan_block, scan_ident, in_line, scan_bom, scan_greater, scan_keyword, scan_less, scan_minus,
  scan_slash, scan_x, scan,
}
use meyer.Lexer.Bounds.{run_of-drop-le, run_of-le, at-past}
use meyer.Lexer.Nul.{nul, at-nul, run_of-drop-nul, run_of-nul, scan_number-nul, take-nul}

-- Where the second byte of a pair is there, the input goes on.
pair_nonempty :
    (a : Bool) (c d : ℕ) (z : Bytes) → 0 < d → (a && (c == d && at z 0 == d)) ≡ true → z ≢ []
pair_nonempty a c d [] h e = absurd (ground arith)
pair_nonempty a c d (x ∷ z) h e = cc

module _ (s : Bytes) where
  scan_args-nul : (z : Bytes) (n : ℕ) → scan_args (nul s z) n ≡ scan_args z n
  unfolding scan_args is_space
  scan_args-nul z n =
      let p : ℕ → Bool = λ c. not (ends_args c) in
      rw (run_of-nul s p z refl, at-nul s z (run_of p z) (run_of-le p z))

  scan_name-nul :
      (skip : Bool) (z : Bytes) (n nid : ℕ)
      → (skip ≡ true → z ≢ [])
      → scan_name skip (nul s z) n nid ≡ scan_name skip z n nid
  unfolding scan_name is_id_char
  scan_name-nul true [] n nid h = absurd (h refl refl)
  scan_name-nul false [] n nid h = refl
  scan_name-nul skip (c ∷ z) n nid h =
      let pair = not skip && not (is_id_char c) && (c == b':' && at z 0 == b':') in
      let more : pair ≡ true → z ≢ [] =
        pair_nonempty (not skip && not (is_id_char c)) c b':' z (omega arith) in
      rw (at-nul s z 0 (omega arith)) (
        rw (
          scan_name-nul pair z (n + 1) (if not skip && is_id_char c then nid + 1 else nid) more,
          scan_args-nul z n,
        ))

  scan_variable-nul : (r : Bytes) → scan_variable (nul s r) ≡ scan_variable r
  unfolding scan_variable
  scan_variable-nul r = scan_name-nul false r 1 0 (λ e. cc)

  scan_block-nul : (z : Bytes) (prev n : ℕ) → scan_block (nul s z) prev n ≡ scan_block z prev n
  unfolding scan_block
  scan_block-nul [] prev n = ground arith
  scan_block-nul (c ∷ z) prev n = rw (scan_block-nul z c (n + 1))

  scan_quoted-nul :
      (delim : ℕ) (skip : Bool) (z : Bytes) (n : ℕ)
      → (skip ≡ true → z ≢ [])
      → 0 < delim
      → scan_quoted delim skip (nul s z) n ≡ scan_quoted delim skip z n
  unfolding scan_quoted
  scan_quoted-nul delim true [] n h k = absurd (h refl refl)
  scan_quoted-nul delim false [] n h k = refl
  scan_quoted-nul delim skip (c ∷ z) n h k =
      let pair = not skip && (c == delim && at z 0 == delim) in
      let more : pair ≡ true → z ≢ [] = pair_nonempty (not skip) c delim z k in
      rw (at-nul s z 0 (omega arith)) (rw (scan_quoted-nul delim pair z (n + 1) more k))

  scan_quote-nul :
      (delim : ℕ) (r : Bytes) → 0 < delim → scan_quote delim (nul s r) ≡ scan_quote delim r
  unfolding scan_quote
  scan_quote-nul delim r h = rw (scan_quoted-nul delim false r 1 (λ e. cc) h)

  scan_bracket-nul : (c : ℕ) (r : Bytes) → scan_bracket (c ∷ nul s r) ≡ scan_bracket (c ∷ r)
  unfolding scan_bracket
  scan_bracket-nul c r =
      rw (run_of-nul s in_bracket r refl)
        (rw (at-nul s (c ∷ r) (1 + run_of in_bracket r) (omega (arith, run_of-le in_bracket r))))

  scan_blob-nul : (z : Bytes) (n : ℕ) → n ≤ length z → scan_blob (nul s z) n ≡ scan_blob z n
  unfolding scan_blob
  scan_blob-nul z n h =
      rw (at-nul s z n h, run_of-drop-nul s in_blob z n refl h)
        (ground (
          arith,
          at-nul s z n,
          at-nul s z (n + run_of in_blob (drop n z)),
          run_of-drop-le in_blob n z,
        ))

  scan_ident-nul : (z : Bytes) (n : ℕ) → n ≤ length z → scan_ident (nul s z) n ≡ scan_ident z n
  unfolding scan_ident is_id_char
  scan_ident-nul z n h = rw (run_of-drop-nul s is_id_char z n refl h)

  scan_x-nul : (c : ℕ) (r : Bytes) → scan_x (c ∷ nul s r) ≡ scan_x (c ∷ r)
  unfolding scan_x is_hex
  scan_x-nul c [] = scan_ident-nul (c ∷ []) 1 (omega arith)
  scan_x-nul c (d ∷ r) = rw (run_of-nul s is_hex r refl) (
      rw (
        scan_ident-nul (c ∷ d ∷ r) 1 (omega arith),
        scan_blob-nul (c ∷ d ∷ r) (2 + run_of is_hex r) (omega (arith, run_of-le is_hex r)),
      ))

  scan_bom-nul : (c : ℕ) (r : Bytes) → scan_bom (c ∷ nul s r) ≡ scan_bom (c ∷ r)
  unfolding scan_bom
  scan_bom-nul c r =
      ground (arith, at-past r 0, at-nul s r 0, at-nul s r 1, scan_ident-nul (c ∷ r) 1)

  scan_keyword-nul : (c : ℕ) (r : Bytes) → scan_keyword (c ∷ nul s r) ≡ scan_keyword (c ∷ r)
  unfolding scan_keyword is_keyword_char is_id_char
  scan_keyword-nul c [] = scan_ident-nul (c ∷ []) 1 (omega arith)
  scan_keyword-nul c (d ∷ r) =
      let z : Bytes = c ∷ d ∷ r in
      let n = 2 + run_of is_keyword_char r in
      ground (
        arith,
        run_of-nul s is_keyword_char r,
        run_of-le is_keyword_char r,
        at-nul s z n,
        at-past z n,
        scan_ident-nul z 1,
        scan_ident-nul z (n + 1),
        take-nul s z n,
      )

  scan_minus-nul : (c : ℕ) (r : Bytes) → scan_minus (c ∷ nul s r) ≡ scan_minus (c ∷ r)
  unfolding scan_minus
  scan_minus-nul c r =
      ground
        (arith, at-past r 0, at-nul s r 0, at-nul s r 1, run_of-drop-nul s in_line (c ∷ r) 2 refl)

  scan_slash-nul : (c : ℕ) (r : Bytes) → scan_slash (c ∷ nul s r) ≡ scan_slash (c ∷ r)
  unfolding scan_slash
  scan_slash-nul c [] = ground arith
  scan_slash-nul c (d ∷ []) = ground arith
  scan_slash-nul c (d ∷ e ∷ r) = rw (scan_block-nul r e 3)

  scan_less-nul : (c : ℕ) (r : Bytes) → scan_less (c ∷ nul s r) ≡ scan_less (c ∷ r)
  unfolding scan_less
  scan_less-nul c r = rw (at-nul s r 0 (omega arith))

  scan_greater-nul : (c : ℕ) (r : Bytes) → scan_greater (c ∷ nul s r) ≡ scan_greater (c ∷ r)
  unfolding scan_greater
  scan_greater-nul c r = rw (at-nul s r 0 (omega arith))

  pub scan-nul : (c : ℕ) (r : Bytes) → scan (c ∷ nul s r) ≡ scan (c ∷ r)
  unfolding scan is_space is_digit
  scan-nul c r =
      rw (at-nul s r 0 (omega arith), run_of-nul s is_space r refl, run_of-nul s is_digit r refl)
        (ground (
          arith,
          scan_minus-nul c r,
          scan_slash-nul c r,
          scan_less-nul c r,
          scan_greater-nul c r,
          scan_quote-nul c r,
          scan_number-nul s (c ∷ r),
          scan_bracket-nul c r,
          scan_variable-nul r,
          scan_x-nul c r,
          scan_bom-nul c r,
          scan_keyword-nul c r,
          scan_ident-nul (c ∷ r) 1,
        ))
