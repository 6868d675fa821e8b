-- ===== src/Lexer/Chars.antt =====
-- lexer/lexer.go: the character classes, on bytes as numbers, and reads past the end.
use meyer.Base.{
  Bool, Bytes, [], get_or, if◌then◌else◌, leb, not, suc, ℕ, ◌&&◌, ◌==◌, ◌||◌, ◌∷◌, nat_eq,
}

abbrev within : ℕ → ℕ → ℕ → Bool
within lo hi c = leb lo c && leb c hi

unfoldable pub is_space : ℕ → Bool
is_space c = c == b' ' || within b'\t' b'\r' c

unfoldable pub is_space_start : ℕ → Bool
is_space_start c = c == b' ' || c == b'\t' || c == b'\n' || c == 12 || c == b'\r'

unfoldable pub is_digit : ℕ → Bool
is_digit c = within b'0' b'9' c

unfoldable pub is_hex : ℕ → Bool
unfolding is_digit
is_hex c = is_digit c || within b'a' b'f' c || within b'A' b'F' c

unfoldable pub is_alpha : ℕ → Bool
is_alpha c = within b'a' b'z' c || within b'A' b'Z' c

unfoldable pub is_id_char : ℕ → Bool
unfolding is_alpha is_digit
is_id_char c = is_alpha c || is_digit c || c == b'_' || c == b'$' || leb 0x80 c

unfoldable pub is_keyword_start : ℕ → Bool
unfolding is_alpha
is_keyword_start c = is_alpha c && not (c == b'x') && not (c == b'X')

unfoldable pub is_keyword_char : ℕ → Bool
unfolding is_alpha
is_keyword_char c = is_alpha c || c == b'_'

-- `cursor.at`: the byte `n` places behind the token's start, or 0 past the end of the input.
abbrev pub at : Bytes → ℕ → ℕ
at z n = get_or z n 0

-- `for p(z.at(n)) { n++ }` counted from the front of what is left: every loop of this shape has a
-- test that 0 fails, so the end of the input stops it.
unfoldable pub run_of : (ℕ → Bool) → Bytes → ℕ
run_of p [] = 0
run_of p (c ∷ z) = if p c then suc (run_of p z) else 0
