-- ===== src/Parser/Number.antt =====
-- parser/parse_expr.go: `dequoteNumber`, which works in place on a copy of the token's bytes.
use meyer.Base.{
  Bool, Bytes, [], get_or, if◌then◌else◌, leb, length, ltb, not, suc, take, zero, ℕ, ◌&&◌, ◌+◌, ◌-◌,
  ◌==◌, ◌||◌, ◌∷◌, nat_eq,
}
use meyer.Token.{Token, text, kind_eq}
use meyer.Parser.State.{Parser, fail, pure}
use meyer.Parser.Look.{unrecognized}

-- `isHexDigit`
unfoldable pub is_hex_digit : ℕ → Bool
is_hex_digit c = leb b'0' c && leb c b'9' || leb b'a' c && leb c b'f' || leb b'A' c && leb c b'F'

-- `isok`, by whether the number is hexadecimal.
unfoldable pub is_ok : Bool → ℕ → Bool
unfolding is_hex_digit
is_ok hex c = if hex then is_hex_digit c else leb b'0' c && leb c b'9'

-- `bHex`
unfoldable pub is_hex_number : Bytes → Bool
is_hex_number z =
    ltb 1 (length z) && get_or z 0 0 == b'0' && (get_or z 1 0 == b'x' || get_or z 1 0 == b'X')

-- `buf[out] = c`
unfoldable pub set_at : ℕ → ℕ → Bytes → Bytes
set_at out c [] = []
set_at zero c (b ∷ z) = c ∷ z
set_at (suc out) c (b ∷ z) = b ∷ set_at out c z

-- What the loop ends with: the bytes of the number, or those that the error shows.
pub data Dequoted : Type 0 where
  digits : Bytes → Dequoted
  misplaced : Bytes → Dequoted

-- The loop over the rest `z` of the buffer from byte `i` on, `out` bytes written. Nothing behind
-- byte `i` is written yet, so `z` holds the bytes of the token.
unfoldable pub dequote_from : Bool → Bytes → ℕ → ℕ → Bytes → Dequoted
unfolding is_ok set_at
dequote_from hex [] i out buf = digits (take out buf)
dequote_from hex (c ∷ z) i out buf =
    let sep = c == b'_' in
    let prev_ok = ltb 0 out && is_ok hex (get_or buf (out - 1) 0) in
    let next_ok = ltb (i + 1) (length buf) && is_ok hex (get_or buf (i + 1) 0) in
    let rest =
      dequote_from hex z (i + 1) (if sep then out else out + 1)
        (if sep then buf else set_at out c buf) in
    if sep && (not prev_ok || not next_ok) then misplaced buf else rest

unfoldable pub fail_misplaced : Dequoted → ℕ → Parser Bytes
unfolding unrecognized fail
fail_misplaced (digits z) pos = pure z
fail_misplaced (misplaced buf) pos = fail (unrecognized buf) pos

-- `dequoteNumber`
unfoldable pub dequote_number : Token → Parser Bytes
unfolding is_hex_number dequote_from fail_misplaced
dequote_number t s =
    let z = text t s.src in fail_misplaced (dequote_from (is_hex_number z) z 0 0 z) t.pos s
