-- ===== src/Keywords/Find.antt =====
-- The keyword map read as an association list, and what sorting and filtering its rows keep.
use meyer.Base.{
  &&-eq-true, Bool, Bool-cases, Bytes, List, Option, [], all, ap, arith, false, get_or,
  if◌then◌else◌, inl, inr, length, map, nat_beq_iff, none, refl, some, sym, true, ℕ, ◌&&◌, ◌==◌,
  ◌↔◌, ◌∙◌, ◌∷◌, ◌≡◌, ◌+◌, nat_eq,
}
use meyer.Token.{Kind, kind_eq}
use meyer.Keywords.Table.{Row, insert_row, sort_rows, has_shape, upper, equal_upper, scan_rows}

abbrev pub bytes_beq : Bytes → Bytes → Bool
bytes_beq [] [] = true
bytes_beq (x ∷ a) (y ∷ b) = x == y && bytes_beq a b
bytes_beq _ _ = false

pub bytes_beq_iff : (a b : Bytes) → (bytes_beq a b ≡ true) ↔ (a ≡ b)
bytes_beq_iff (x ∷ a) (y ∷ b) = ground (arith, bytes_beq_iff a b)
bytes_beq_iff _ _ = ground arith

-- The value under a key in a map's rows.
unfoldable pub find : Bytes → List Row → Option Kind
find key [] = none
find key ((kw, k) ∷ l) = if bytes_beq key kw then some k else find key l

-- No key stands twice.
abbrev pub Distinct : List Row → Type 0
Distinct [] = Unit {0}
Distinct ((kw, k) ∷ l) = (find kw l ≡ none) × Distinct l

abbrev pub is_none : Option Kind → Bool
is_none none = true
is_none (some _) = false

unfoldable pub distinct : List Row → Bool
unfolding find
distinct [] = true
distinct ((kw, k) ∷ l) = is_none (find kw l) && distinct l

pub distinct-Distinct : (l : List Row) → distinct l ≡ true → Distinct l
unfolding distinct find
distinct-Distinct [] h = tt
distinct-Distinct ((kw, k) ∷ l) h = ground (arith, distinct-Distinct l)

find-insert_row :
    (key kw : Bytes) (k : Kind) (l : List Row)
    → find kw l ≡ none
    → find key (insert_row (kw, k) l) ≡ find key ((kw, k) ∷ l)
unfolding find insert_row
find-insert_row key kw k [] h = refl
find-insert_row key kw k ((kv, j) ∷ l) h = ground (
  arith,
  find-insert_row key kw k l,
  bytes_beq_iff key kw,
  bytes_beq_iff kw kv,
  bytes_beq_iff key kv,
)

pub find-sort_rows : (key : Bytes) (l : List Row) → Distinct l → find key (sort_rows l) ≡ find key l
unfolding find sort_rows
find-sort_rows key [] h = refl
find-sort_rows key ((kw, k) ∷ l) h =
    find-insert_row key kw k (sort_rows l) (find-sort_rows kw l h.1 ∙ h.0)
    ∙ (unfold find in ground (arith, find-sort_rows key l h.1))

-- A key that fails a test which all keys pass is not there.
pub find-none :
    (p : Bytes → Bool) (key : Bytes) (l : List Row)
    → all (λ r. p r.0) l ≡ true
    → p key ≡ false
    → find key l ≡ none
unfolding find
find-none p key [] h f = refl
find-none p key ((kw, k) ∷ l) h f =
    let rest = &&-eq-true (p kw) (all (λ r. p r.0) l) h in
    elim (Bool-cases (bytes_beq key kw)) [
      | inl e ↦ cc (rest.0, f, ap p ((bytes_beq_iff key kw).0 e))
      | inr e ↦ rw e (find-none p key l rest.1 f)
    ]

-- The rows of a shape.
unfoldable pub of_shape : ℕ → ℕ → List Row → List Row
unfolding has_shape
of_shape len letter [] = []
of_shape len letter (r ∷ l) =
    if has_shape len letter r then r ∷ of_shape len letter l else of_shape len letter l

other_shape :
    (key kw : Bytes) (len letter : ℕ) (k : Kind)
    → length key ≡ len
    → get_or key 0 0 ≡ letter + b'A'
    → has_shape len letter (kw, k) ≡ false
    → bytes_beq key kw ≡ false
unfolding has_shape
other_shape key kw len letter k h i e = elim (Bool-cases (bytes_beq key kw)) [
  | inl f ↦
      let same = (bytes_beq_iff key kw).0 f in
      absurd (ground (arith, ap length same, ap (λ (x : Bytes). get_or x 0 0) same))
  | inr f ↦ f
]

-- A key is found among the rows of its own shape.
pub find-of_shape :
    (key : Bytes) (len letter : ℕ) (l : List Row)
    → length key ≡ len
    → get_or key 0 0 ≡ letter + b'A'
    → find key (of_shape len letter l) ≡ find key l
unfolding find of_shape
find-of_shape key len letter [] h k = refl
find-of_shape key len letter ((kw, k) ∷ l) h i = elim (Bool-cases (has_shape len letter (kw, k))) [
  | inl e ↦ rw e (rw (find-of_shape key len letter l h i))
  | inr e ↦ rw (e, find-of_shape key len letter l h i, other_shape key kw len letter k h i e)
]

-- On names of its length `equal_upper` is the equality of the name in upper case.
pub equal_upper_lem :
    (name kw : Bytes)
    → length name ≡ length kw
    → equal_upper name kw ≡ bytes_beq (map upper name) kw
unfolding equal_upper
equal_upper_lem [] [] h = refl
equal_upper_lem [] (d ∷ kw) h = absurd (omega arith)
equal_upper_lem (c ∷ name) [] h = absurd (omega arith)
equal_upper_lem (c ∷ name) (d ∷ kw) h = ground (arith, equal_upper_lem name kw)

abbrev pub or_id : Option Kind → Kind
or_id none = Kind.id
or_id (some k) = k

pub scan_rows_lem :
    (name : Bytes) (l : List Row)
    → all (λ r. length r.0 == length name) l ≡ true
    → scan_rows name l ≡ or_id (find (map upper name) l)
unfolding scan_rows find
scan_rows_lem name [] h = refl
scan_rows_lem name ((kw, k) ∷ l) h =
    let same = &&-eq-true (length kw == length name) (all (λ r. length r.0 == length name) l) h in
    let e = sym ((nat_beq_iff (length kw) (length name)).0 same.0) in
    rw (equal_upper_lem name kw e, scan_rows_lem name l same.1) (ground arith)
