-- ===== src/Keywords/Lookup.antt =====
-- `Lookup` against the keyword map: the table is a permutation of the map's rows without doubles,
-- and the run of a shape holds the rows of that shape.
use meyer.Base.{
  Bool, Bytes, List, [], all, ap, arith, drop, false, get_or, leb, length, ltb, map, none, refl,
  suc, take, true, zero, ℕ, ◌&&◌, ◌<◌, ◌==◌, ◌||◌, ◌∷◌, ◌≡◌, ◌≤◌, sym, &&-eq-true, Bool-cases, inl,
  inr, ◌-◌, ◌∙◌, nat_eq,
}
use meyer.Token.{Kind, kind_eq}
use meyer.Keywords.{keywords}
use meyer.Keywords.Table.{Row, keyword_table, keyword_shape, upper, clear_case, lookup, scan_rows}
use meyer.Keywords.Find.{
  find, Distinct, distinct, distinct-Distinct, find-sort_rows, find-none, of_shape, or_id,
  bytes_beq, bytes_beq_iff, find-of_shape, scan_rows_lem,
}

-- The map that the table stands for, read on the name in upper case.
unfoldable pub keyword_kind : Bytes → Kind
keyword_kind name = or_id (find (map upper name) keywords)

keywords-Distinct : Distinct keywords
keywords-Distinct = distinct-Distinct keywords (unfold distinct keywords in refl)

find-keyword_table : (key : Bytes) → find key keyword_table ≡ find key keywords
unfolding keyword_table
find-keyword_table key = find-sort_rows key keywords keywords-Distinct

-- Lengths and first letters of the keywords.
abbrev in_range : Bytes → Bool
in_range kw =
    leb 2 (length kw) && leb (length kw) 17 && leb b'A' (get_or kw 0 0) && leb (get_or kw 0 0) b'Z'

keywords-in_range : all (λ r. in_range r.0) keywords ≡ true
unfolding keywords
keywords-in_range = refl

out_of_range : (key : Bytes) → in_range key ≡ false → find key keywords ≡ none
out_of_range key = find-none in_range key keywords keywords-in_range

rows_beq : List Row → List Row → Bool
rows_beq [] [] = true
rows_beq ((a, j) ∷ l) ((b, k) ∷ m) = bytes_beq a b && j == k && rows_beq l m
rows_beq _ _ = false

each_under : (ℕ → Bool) → ℕ → Bool
each_under test zero = true
each_under test (suc top) = each_under test top && test top

abbrev run : ℕ → ℕ → List Row
run len letter = let g = keyword_shape len letter in take g.n (drop g.lo keyword_table)

runs_check :
    each_under
      (λ len.
        each_under (λ letter. rows_beq (run len letter) (of_shape len letter keyword_table)) 26)
      18
    ≡ true
unfolding keyword_shape keyword_table of_shape rows_beq each_under
runs_check = refl

rows_beq_sound : (l m : List Row) → rows_beq l m ≡ true → l ≡ m
unfolding rows_beq
rows_beq_sound ((a, j) ∷ l) ((b, k) ∷ m) h =
    let parts = &&-eq-true (bytes_beq a b && j == k) (rows_beq l m) h in
    let heads = &&-eq-true (bytes_beq a b) (j == k) parts.0 in
    cc ((bytes_beq_iff a b).0 heads.0, (kind_eq.same_iff j k).0 heads.1, rows_beq_sound l m parts.1)
rows_beq_sound [] [] h = refl
rows_beq_sound _ _ h = cc

each_under_sound :
    (test : ℕ → Bool) (top i : ℕ) → each_under test top ≡ true → i < top → test i ≡ true
unfolding each_under
each_under_sound test zero i h lt = absurd (omega arith)
each_under_sound test (suc top) i h lt = ground (arith, each_under_sound test top i)

run-of_shape :
    (len letter : ℕ) → len < 18 → letter < 26 → run len letter ≡ of_shape len letter keyword_table
run-of_shape len letter h k = rows_beq_sound _ _ (
    each_under_sound (λ a. rows_beq (run len a) (of_shape len a keyword_table)) 26 letter
      (each_under_sound _ 18 len runs_check h) k)

of_shape_lengths :
    (len letter : ℕ) (l : List Row) → all (λ r. length r.0 == len) (of_shape len letter l) ≡ true
unfolding of_shape
of_shape_lengths len letter [] = refl
of_shape_lengths len letter ((kw, k) ∷ l) = ground (arith, of_shape_lengths len letter l)

length-map-upper : (name : Bytes) → length (map upper name) ≡ length name
length-map-upper [] = refl
length-map-upper (c ∷ name) = ap suc (length-map-upper name)

-- Clearing bit 5 of a letter is taking it to upper case; no other byte becomes a letter.
clear_case_letter : (c : ℕ) → b'A' ≤ clear_case c → clear_case c ≤ b'Z' → clear_case c ≡ upper c
unfolding upper
clear_case_letter c h k = ground arith

clear_case_other :
    (c : ℕ)
    → (ltb (clear_case c) b'A' || ltb b'Z' (clear_case c)) ≡ true
    → (leb b'A' (upper c) && leb (upper c) b'Z') ≡ false
unfolding upper
clear_case_other c h = ground arith

abbrev bad_length : Bytes → Bool
bad_length name = ltb (length name) 2 || ltb 17 (length name)

abbrev bad_letter : ℕ → Bool
bad_letter c = ltb (clear_case c) b'A' || ltb b'Z' (clear_case c)

bad_length-in_range : (name : Bytes) → bad_length name ≡ true → in_range (map upper name) ≡ false
bad_length-in_range name h = ground (arith, length-map-upper name)

bad_letter-in_range :
    (c : ℕ) (name : Bytes) → bad_letter c ≡ true → in_range (map upper (c ∷ name)) ≡ false
bad_letter-in_range c name h = ground (arith, clear_case_other c h)

-- A name of a keyword's length that starts with a letter: its run holds the rows of its shape.
find-run :
    (c : ℕ) (name : Bytes)
    → bad_length (c ∷ name) ≡ false
    → bad_letter c ≡ false
    → scan_rows (c ∷ name) (run (length (c ∷ name)) (clear_case c - b'A'))
      ≡ or_id (find (map upper (c ∷ name)) keywords)
find-run c name h k =
    let len = length (c ∷ name) in
    let key = map upper (c ∷ name) in
    let letter = clear_case c - b'A' in
    let lo : b'A' ≤ clear_case c = ground arith in
    let hi : clear_case c ≤ b'Z' = ground arith in
    let up : clear_case c ≡ upper c = clear_case_letter c lo hi in
    let shape = run-of_shape len letter (ground arith) (omega arith) in
    let same : find key (of_shape len letter keyword_table) ≡ find key keywords =
      find-of_shape key len letter keyword_table (length-map-upper (c ∷ name)) (omega arith)
      ∙ find-keyword_table key in
    rw shape
      (scan_rows_lem (c ∷ name) _ (of_shape_lengths len letter keyword_table) ∙ ap or_id same)

-- `Lookup` finds exactly what the keyword map holds under the name in upper case, and ID for every
-- other name, whatever its length and bytes.
pub lookup-keyword_kind : (name : Bytes) → lookup name ≡ keyword_kind name
unfolding lookup keyword_kind
lookup-keyword_kind [] = ap or_id (sym (out_of_range [] refl))
lookup-keyword_kind (c ∷ name) = elim (Bool-cases (bad_length (c ∷ name))) [
  | inl e ↦ rw e (ap or_id (sym (out_of_range _ (bad_length-in_range (c ∷ name) e))))
  | inr e ↦ elim (Bool-cases (bad_letter c)) [
    | inl f ↦ rw (e, f) (ap or_id (sym (out_of_range _ (bad_letter-in_range c name f))))
    | inr f ↦ rw (e, f) (find-run c name e f)
  ]
]
