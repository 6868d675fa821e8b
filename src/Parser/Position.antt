-- ===== src/Parser/Position.antt =====
-- parser/parser.go: `LineCol`. A position is stored as a byte offset
-- and converted on demand.
use meyer.Base.{
  Bytes, [], arith, if◌then◌else◌, length, ltb, suc, zero, ℕ, ◌+◌, ◌-◌, ◌<◌, ◌==◌, ◌∷◌, ◌≡◌, ◌≤◌,
  ◌⊎◌, Bool-cases, false, inl, inr, refl, true, ltb→lt, take, nat_eq,
}

-- The loop of `LineCol` at byte `i`, for `left` more bytes: the line and where it starts.
unfoldable pub scan_lines : Bytes → ℕ → ℕ → ℕ → ℕ → ℕ × ℕ
scan_lines [] left i line start = (line, start)
scan_lines (c ∷ z) zero i line start = (line, start)
scan_lines (c ∷ z) (suc left) i line start =
    if c == b'\n'
    then scan_lines z left (i + 1) (line + 1) (i + 1)
    else scan_lines z left (i + 1) line start

-- `LineCol` at an offset that is not negative.
unfoldable pub line_col : Bytes → ℕ → ℕ × ℕ
unfolding scan_lines
line_col src offset =
    if ltb (length src) offset
    then (0, 0)
    else let (line, start) = scan_lines src offset 0 1 0 in (line, offset - start + 1)

-- Where a line starts, counted from 0: behind that many newlines.
pub line_start : ℕ → Bytes → ℕ
line_start zero z = 0
line_start (suc n) [] = 0
line_start (suc n) (c ∷ z) = if c == b'\n' then suc (line_start n z) else suc (line_start (suc n) z)

-- The loop stays on its line, or ends on a later one that starts within the bytes it read.
Lands : Bytes → ℕ → ℕ → ℕ → ℕ → ℕ × ℕ → Type 0
Lands z left i line start (l, st) =
    ((l ≡ line) × (st ≡ start))
    ⊎ ((line < l) × (st ≡ i + line_start (l - line) z) × (st ≤ i + left))

line_start-newline :
    (n m c : ℕ) (z : Bytes)
    → n ≡ suc m
    → (c == b'\n') ≡ true
    → line_start n (c ∷ z) ≡ suc (line_start m z)
unfolding line_start
line_start-newline n m c z e h = rw e (rw h refl)

line_start-other :
    (n c : ℕ) (z : Bytes)
    → 0 < n
    → (c == b'\n') ≡ false
    → line_start n (c ∷ z) ≡ suc (line_start n z)
unfolding line_start
line_start-other zero c z lt h = absurd (omega arith)
line_start-other (suc n) c z lt h = rw h refl

line_start-zero : (z : Bytes) → line_start 0 z ≡ 0
unfolding line_start
line_start-zero z = refl

Lands-newline :
    (c : ℕ) (z : Bytes) (left i line start : ℕ) (r : ℕ × ℕ)
    → (c == b'\n') ≡ true
    → Lands z left (i + 1) (line + 1) (i + 1) r
    → Lands (c ∷ z) (suc left) i line start r
unfolding Lands
Lands-newline c z left i line start (l, st) h (inl (el, es)) =
    let behind = line_start-newline (l - line) 0 c z (omega (arith, el)) h in
    inr (omega (arith, el), omega (arith, es, behind, line_start-zero z), omega (arith, es))
Lands-newline c z left i line start (l, st) h (inr (lt, es, le)) = inr (
  omega arith,
  omega (arith, es, line_start-newline (l - line) (l - (line + 1)) c z (omega (arith, lt)) h),
  omega arith,
)

Lands-other :
    (c : ℕ) (z : Bytes) (left i line start : ℕ) (r : ℕ × ℕ)
    → (c == b'\n') ≡ false
    → Lands z left (i + 1) line start r
    → Lands (c ∷ z) (suc left) i line start r
unfolding Lands
Lands-other c z left i line start (l, st) h (inl same) = inl same
Lands-other c z left i line start (l, st) h (inr (lt, es, le)) =
    inr (lt, omega (arith, es, line_start-other (l - line) c z (omega (arith, lt)) h), omega arith)

scan_lines-Lands :
    (z : Bytes) (left i line start : ℕ)
    → left ≤ length z
    → Lands z left i line start (scan_lines z left i line start)
unfolding scan_lines
scan_lines-Lands [] zero i line start h = unfold Lands in inl (refl, refl)
scan_lines-Lands (c ∷ z) zero i line start h = unfold Lands in inl (refl, refl)
scan_lines-Lands [] (suc left) i line start h = absurd (omega arith)
scan_lines-Lands (c ∷ z) (suc left) i line start h = elim (Bool-cases (c == b'\n')) [
  | inl e ↦ rw e (
      Lands-newline c z left i line start _ e
        (scan_lines-Lands z left (i + 1) (line + 1) (i + 1) (omega arith)))
  | inr e ↦ rw e (
      Lands-other c z left i line start _ e
        (scan_lines-Lands z left (i + 1) line start (omega arith)))
]

-- The line that the loop ends on counts the newlines that it read.
unfoldable pub newlines : Bytes → ℕ
newlines [] = 0
newlines (c ∷ z) = let n = newlines z in if c == b'\n' then suc n else n

scan_lines-newlines :
    (z : Bytes) (left i line start : ℕ)
    → (scan_lines z left i line start).0 ≡ line + newlines (take left z)
unfolding scan_lines newlines
scan_lines-newlines [] zero i line start = omega arith
scan_lines-newlines [] (suc left) i line start = omega arith
scan_lines-newlines (c ∷ z) zero i line start = omega arith
scan_lines-newlines (c ∷ z) (suc left) i line start = elim (Bool-cases (c == b'\n')) [
  | inl e ↦ rw e (omega (arith, scan_lines-newlines z left (i + 1) (line + 1) (i + 1)))
  | inr e ↦ rw e (scan_lines-newlines z left (i + 1) line start)
]

-- What `LineCol` promises: the line counts the newlines in front, and the column counts the bytes
-- from the start of that line, both from 1.
pub record Position (src : Bytes) (offset : ℕ) (position : ℕ × ℕ) : Type 0 where
  pub line : position.0 ≡ suc (newlines (take offset src))
  pub col : 1 ≤ position.1
  pub back : line_start (position.0 - 1) src + (position.1 - 1) ≡ offset

landed :
    {src : Bytes} {offset : ℕ} (r : ℕ × ℕ)
    → r.0 ≡ 1 + newlines (take offset src)
    → Lands src offset 0 1 0 r
    → Position src offset (r.0, offset - r.1 + 1)
unfolding Lands
landed {src} (l, st) h (inl (el, es)) = record {
  line = omega (arith, h);
  col = omega arith;
  back =
      let first : l - 1 ≡ 0 = omega (arith, el) in
      rw first (omega (arith, es, line_start-zero src));
}
landed {src} (l, st) h (inr (lt, es, le)) = record {
  line = omega (arith, h);
  col = omega arith;
  back = omega (arith, es);
}

-- Inside the input LineCol gives the line that is one more than the newlines before the offset, and
-- the column, from 1 on, with which the offset lies in that line: column - 1 bytes behind its start,
-- which is the byte behind the newline before it.
pub line_col-Position :
    (src : Bytes) (offset : ℕ) → offset ≤ length src → Position src offset (line_col src offset)
unfolding line_col
line_col-Position src offset h = elim (Bool-cases (ltb (length src) offset)) [
  | inl beyond ↦ absurd (omega (arith, ltb→lt _ _ beyond))
  | inr inside ↦
      rw inside
        (landed _ (scan_lines-newlines src offset 0 1 0) (scan_lines-Lands src offset 0 1 0 h))
]
