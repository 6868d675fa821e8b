-- ===== src/Lexer/Number.antt =====
-- lexer/lexer.go: `scanNumber`, on the input from the number on, with the kind and the length read
-- so far as its state.
use meyer.Base.{Bool, Bytes, [], drop, if◌then◌else◌, ℕ, ◌&&◌, ◌+◌, ◌==◌, ◌||◌, ◌∷◌, nat_eq}
use meyer.Token.{Kind, kind_eq}
use meyer.Lexer.Chars.{at, is_digit, is_hex, is_id_char, run_of}

-- One digit loop of `scanNumber`, over what stands behind the first `n` bytes: a '_' turns the
-- token into a QNUMBER.
unfoldable pub scan_digits : (ℕ → Bool) → Bytes → Kind × ℕ → Kind × ℕ
scan_digits p [] (kind, n) = (kind, n)
scan_digits p (c ∷ z) (kind, n) =
    if p c || c == b'_'
    then scan_digits p z ((if p c then kind else Kind.qnumber), n + 1)
    else (kind, n)

abbrev pub as_float : Kind → Kind
as_float kind = if kind == Kind.integer then Kind.float else kind

unfoldable pub scan_fraction : Bytes → Kind × ℕ → Kind × ℕ
scan_fraction z (kind, n) =
    if at z n == b'.'
    then scan_digits is_digit (drop (n + 1) z) (as_float kind, n + 1)
    else (kind, n)

abbrev pub has_exponent : Bytes → ℕ → Bool
has_exponent z n =
    (at z n == b'e' || at z n == b'E')
    && (is_digit (at z (n + 1))
        || ((at z (n + 1) == b'+' || at z (n + 1) == b'-') && is_digit (at z (n + 2))))

unfoldable pub scan_exponent : Bytes → Kind × ℕ → Kind × ℕ
scan_exponent z (kind, n) =
    if has_exponent z n
    then scan_digits is_digit (drop (n + 2) z) (as_float kind, n + 2)
    else (kind, n)

-- The last loop of `scanNumber`: identifier characters right behind make the token illegal.
unfoldable pub scan_number_tail : Bytes → Kind × ℕ → Kind × ℕ
scan_number_tail z (kind, n) =
    if is_id_char (at z n) then (Kind.illegal, n + run_of is_id_char (drop n z)) else (kind, n)

abbrev pub is_hex_number : Bytes → Bool
is_hex_number z = at z 0 == b'0' && (at z 1 == b'x' || at z 1 == b'X') && is_hex (at z 2)

unfoldable pub scan_number : Bytes → Kind × ℕ
scan_number z = scan_number_tail z (
    if is_hex_number z
    then scan_digits is_hex (drop 3 z) (Kind.integer, 3)
    else scan_exponent z (scan_fraction z (scan_digits is_digit z (Kind.integer, 0))))
