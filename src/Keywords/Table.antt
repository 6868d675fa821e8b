-- ===== src/Keywords/Table.antt =====
-- token/keywords.go: `init` sorts the keywords by length and spelling and indexes the runs that
-- share a length and a first letter; `Lookup` compares a name with the run of its own shape.
use meyer.Base.{
  ℕ, ◌+◌, ◌-◌, ◌*◌, ◌/◌, ◌%◌, Bytes, ◌&&◌, ◌||◌, Bool, true, false, List, [], ◌∷◌, ◌==◌, ltb, leb,
  length, get_or, take, drop, if◌then◌else◌, nat_eq,
}
use meyer.Token.{Kind, kind_eq}
use meyer.Keywords.{keywords}

-- `keywordRow`
abbrev pub Row : Type 0
Row = Bytes × Kind

-- `strings.Compare(a, b) <= 0`
unfoldable pub compare_le : Bytes → Bytes → Bool
compare_le [] b = true
compare_le (x ∷ a) [] = false
compare_le (x ∷ a) (y ∷ b) = ltb x y || (x == y && compare_le a b)

-- The order that `init` sorts by: the length, then the spelling.
unfoldable pub row_le : Row → Row → Bool
unfolding compare_le
row_le (a, j) (b, k) = if length a == length b then compare_le a b else ltb (length a) (length b)

unfoldable pub insert_row : Row → List Row → List Row
insert_row r [] = r ∷ []
insert_row r (s ∷ l) = if row_le r s then r ∷ s ∷ l else s ∷ insert_row r l

unfoldable pub sort_rows : List Row → List Row
unfolding insert_row row_le
sort_rows [] = []
sort_rows (r ∷ l) = insert_row r (sort_rows l)

unfoldable pub keyword_table : List Row
unfolding keywords sort_rows
keyword_table = sort_rows keywords

-- A cell of `keywordShape`: the offset of a run and its count, both `uint8`.
pub record Run : Type 0 where
  pub lo : ℕ
  pub n : ℕ

-- The shape is the length and the first letter less 'A'.
unfoldable pub has_shape : ℕ → ℕ → Row → Bool
has_shape len letter (name, k) = length name == len && get_or name 0 0 == letter + b'A'

-- The cell of a shape after the loop of `init` over the rows from row `i` on.
unfoldable pub shape_from : ℕ → ℕ → ℕ → List Row → Run → Run
unfolding has_shape
shape_from len letter i [] g = g
shape_from len letter i (r ∷ l) g = shape_from len letter (i + 1) l (
    if has_shape len letter r
    then record { lo = if g.n == 0 then i % 256 else g.lo; n = (g.n + 1) % 256 }
    else g)

unfoldable pub keyword_shape : ℕ → ℕ → Run
unfolding shape_from keyword_table
keyword_shape len letter = shape_from len letter 0 keyword_table (record { lo = 0; n = 0 })

unfoldable pub upper : ℕ → ℕ
upper c = if leb b'a' c && leb c b'z' then c - 32 else c

-- `equalUpper`: `kw` has the length of `name`.
unfoldable pub equal_upper : Bytes → Bytes → Bool
unfolding upper
equal_upper [] kw = true
equal_upper (c ∷ name) [] = false
equal_upper (c ∷ name) (d ∷ kw) = upper c == d && equal_upper name kw

-- The loop of `Lookup` over a run.
unfoldable pub scan_rows : Bytes → List Row → Kind
unfolding equal_upper
scan_rows name [] = Kind.id
scan_rows name ((kw, k) ∷ l) = if equal_upper name kw then k else scan_rows name l

-- `c &^ 0x20`: bit 5 is cleared.
abbrev pub clear_case : ℕ → ℕ
clear_case c = c / 64 * 64 + c % 32

-- `Lookup`
unfoldable pub lookup : Bytes → Kind
lookup name =
    if ltb (length name) 2 || ltb 17 (length name)
    then Kind.id
    else let c = clear_case (get_or name 0 0) in
      if ltb c b'A' || ltb b'Z' c
      then Kind.id
      else let g = keyword_shape (length name) (c - b'A') in
        scan_rows name (take g.n (drop g.lo keyword_table))
