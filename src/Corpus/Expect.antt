-- ===== src/Corpus/Expect.antt =====
-- internal/testfile/testfile.go: `IsSyntaxError`, `Expected` and `IsUnreached`.
use meyer.Base.{
  Bool, Bytes, List, Option, [], drop, false, if◌then◌else◌, leb, length, ltb, none, not, some,
  true, ℕ, ◌&&◌, ◌++◌, ◌+◌, ◌-◌, ◌==◌, ◌||◌, ◌∷◌, nat_eq,
}
use meyer.Keywords.{codes}
use meyer.Keywords.Find.{bytes_beq}

-- `StmtResult`; an unknown error offset, -1 in the source, is `none`.
pub record StmtResult : Type 0 where
  pub offset : ℕ
  pub ok : Bool
  pub rc : ℕ
  pub err_offset : Option ℕ
  pub message : Bytes
  pub tail : ℕ

pub record Case : Type 0 where
  pub name : Bytes
  pub sql : Bytes
  pub results : List StmtResult

pub record Range : Type 0 where
  pub start : ℕ
  pub end : ℕ

pub record Expectation : Type 0 where
  pub ok : Bool
  pub message : Bytes
  pub offset : Option ℕ
  pub unreached : List Range
  pub truncated : Bool

-- `strings.HasPrefix`
unfoldable pub has_prefix : Bytes → Bytes → Bool
has_prefix [] z = true
has_prefix (p ∷ ps) [] = false
has_prefix (p ∷ ps) (c ∷ z) = p == c && has_prefix ps z

-- The text matches `^pre.*post$` where `.` is any byte.
unfoldable pub framed : Bytes → Bytes → Bytes → Bool
unfolding has_prefix
framed pre post z =
    has_prefix pre z
    && leb (length pre + length post) (length z)
    && bytes_beq (drop (length z - length post) z) post

-- `IsSyntaxError`, with the patterns of `syntaxFamily`.
unfoldable pub is_syntax_error : Bytes → Bool
unfolding framed
is_syntax_error z =
    framed (codes "near \"") (codes "\": syntax error") z
    || framed (codes "unrecognized token: \"") (codes "\"") z
    || bytes_beq z (codes "incomplete input")

-- A result that ends the loop of `Expected`.
unfoldable pub is_failure : StmtResult → Bool
unfolding is_syntax_error
is_failure r = not r.ok && is_syntax_error r.message

-- Where the statement ends: at the next one, or with the case.
unfoldable pub stmt_end : ℕ → List StmtResult → ℕ
stmt_end len [] = len
stmt_end len (r ∷ rs) = r.offset

-- What one round of the loop appends; `rs` are the results behind `r`.
unfoldable pub unreached_of : ℕ → StmtResult → List StmtResult → List Range
unfolding stmt_end
unreached_of len r rs =
    let end = stmt_end len rs in
    if r.ok && r.tail == 0
    then []
    else if leb end r.tail
    then []
    else record { start = r.tail; end = if end == len then end + 1 else end } ∷ []

-- `truncated`, over the results.
unfoldable pub truncated : ℕ → List StmtResult → Bool
unfolding is_syntax_error
truncated len [] = false
truncated len (r ∷ []) = not r.ok && not (is_syntax_error r.message) && leb len r.tail
truncated len (r ∷ q ∷ rs) = truncated len (q ∷ rs)

-- The loop of `Expected` with the ranges collected so far; `cut` is what `truncated` says.
unfoldable pub expected_from : ℕ → Bool → List StmtResult → List Range → Expectation
unfolding is_failure unreached_of
expected_from len cut [] ranges = record {
  ok = true;
  message = [];
  offset = none;
  unreached = ranges;
  truncated = cut;
}
expected_from len cut (r ∷ rs) ranges =
    let rest = expected_from len cut rs (ranges ++ unreached_of len r rs) in
    if is_failure r
    then record {
      ok = false;
      message = r.message;
      offset = r.err_offset;
      unreached = ranges;
      truncated = false;
    }
    else rest

-- `Expected`
unfoldable pub expected : Case → Expectation
unfolding expected_from truncated
expected c = let len = length c.sql in expected_from len (truncated len c.results) c.results []

unfoldable pub in_ranges : ℕ → List Range → Bool
in_ranges offset [] = false
in_ranges offset (r ∷ rs) = (leb r.start offset && ltb offset r.end) || in_ranges offset rs

-- `IsUnreached`
unfoldable pub is_unreached : Expectation → Option ℕ → Bool
unfolding in_ranges
is_unreached e none = false
is_unreached e (some offset) = in_ranges offset e.unreached
