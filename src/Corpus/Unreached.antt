-- ===== src/Corpus/Unreached.antt =====
-- internal/testfile/testfile.go: the requirement that `Expected` derives.
use meyer.Base.{
  Bool, Bool-cases, List, Option, [], arith, false, if◌then◌else◌, inl, inr, leb, length, ltb, none,
  not, refl, some, true, ℕ, ◌&&◌, ◌++◌, ◌==◌, ◌||◌, ◌∷◌, ◌≡◌, ◌∙◌, nat_eq,
}
use meyer.Corpus.Expect.{
  Case, Expectation, Range, StmtResult, expected, expected_from, in_ranges, is_failure, stmt_end,
  unreached_of, is_unreached,
}

-- The first result, in statement order, that is a syntax error.
pub first_failure : List StmtResult → Option StmtResult
first_failure [] = none
first_failure (r ∷ rs) = if is_failure r then some r else first_failure rs

-- What that result requires of the parser under test.
pub Requires : Option StmtResult → Expectation → Type 0
Requires none e = (e.ok ≡ true) × (e.offset ≡ none)
Requires (some r) e = (e.ok ≡ false) × (e.message ≡ r.message) × (e.offset ≡ r.err_offset)

expected_from-Requires :
    (len : ℕ) (cut : Bool) (rs : List StmtResult) (ranges : List Range)
    → Requires (first_failure rs) (expected_from len cut rs ranges)
unfolding Requires first_failure expected_from
expected_from-Requires len cut [] ranges = (refl, refl)
expected_from-Requires len cut (r ∷ rs) ranges = elim (Bool-cases (is_failure r)) [
  | inl e ↦ rw e (refl, refl, refl)
  | inr e ↦ rw e (expected_from-Requires len cut rs (ranges ++ unreached_of len r rs))
]

-- The requirement is the first syntax error in statement order, with its message and offset,
-- whatever stands behind it; with no syntax error every statement must parse.
pub expected-Requires : (c : Case) → Requires (first_failure c.results) (expected c)
unfolding expected
expected-Requires c = expected_from-Requires (length c.sql) _ c.results []

in_ranges-append :
    (offset : ℕ) (a b : List Range)
    → in_ranges offset (a ++ b) ≡ (in_ranges offset a || in_ranges offset b)
unfolding in_ranges
in_ranges-append offset [] b = refl
in_ranges-append offset (r ∷ a) b = ground (arith, in_ranges-append offset a b)

-- A statement is exempt at the offset: it was not read to its end, its tail is at most the offset,
-- and the offset is before its end, or at it where the case ends there too.
exempt_at : ℕ → ℕ → StmtResult → List StmtResult → Bool
exempt_at len offset r rs =
    let end = stmt_end len rs in
    not (r.ok && r.tail == 0)
    && ltb r.tail end
    && leb r.tail offset
    && (ltb offset end || offset == end && end == len)

-- So is some statement before the first syntax error.
pub exempt : ℕ → ℕ → List StmtResult → Bool
unfolding exempt_at
exempt len offset [] = false
exempt len offset (r ∷ rs) =
    let rest = exempt len offset rs in not (is_failure r) && (exempt_at len offset r rs || rest)

unreached_of-exempt_at :
    (len offset : ℕ) (r : StmtResult) (rs : List StmtResult)
    → in_ranges offset (unreached_of len r rs) ≡ exempt_at len offset r rs
unfolding in_ranges unreached_of exempt_at
unreached_of-exempt_at len offset r rs = ground arith

or-false : (a : Bool) → a ≡ (a || false)
or-false a = ground arith

or_assoc :
    (joined first next one rest : Bool)
    → joined ≡ (first || next)
    → next ≡ one
    → (joined || rest) ≡ (first || (one || rest))
or_assoc joined first next one rest p q = ground arith

expected_from-exempt :
    (len offset : ℕ) (cut : Bool) (rs : List StmtResult) (ranges : List Range)
    → in_ranges offset (expected_from len cut rs ranges).unreached
      ≡ (in_ranges offset ranges || exempt len offset rs)
unfolding expected_from exempt
expected_from-exempt len offset cut [] ranges = ground arith
expected_from-exempt len offset cut (r ∷ rs) ranges =
    let rest = expected_from-exempt len offset cut rs (ranges ++ unreached_of len r rs) in
    let split = in_ranges-append offset ranges (unreached_of len r rs) in
    let one = unreached_of-exempt_at len offset r rs in
    elim (Bool-cases (is_failure r)) [
      | inl e ↦ rw e (or-false (in_ranges offset ranges))
      | inr e ↦ rw e (rest ∙ or_assoc _ _ _ _ _ split one)
    ]

-- IsUnreached exempts an offset exactly where a statement before the first syntax error was not
-- read that far, with the offset one past the input where that statement is the last.
pub is_unreached-exempt :
    (c : Case) (offset : ℕ)
    → is_unreached (expected c) (some offset) ≡ exempt (length c.sql) offset c.results
unfolding is_unreached expected
is_unreached-exempt c offset = expected_from-exempt (length c.sql) offset _ c.results []
