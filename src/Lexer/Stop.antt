-- ===== src/Lexer/Stop.antt =====
-- Where the loop of `lex` stops: at a NUL byte or at the end of the input.
use meyer.Base.{
  &&-eq-true, Bool, Bool-cases, Bytes, List, [], all, arith, drop, false, if◌then◌else◌, inl, inr,
  map, not, refl, take, true, ℕ, ◌&&◌, ◌+◌, ◌==◌, ◌∷◌, ◌≡◌, ◌||◌, nat_beq_iff, ◌≢◌, nat_eq,
}
use meyer.Token.{Kind, kind_eq}
use meyer.Keywords.Find.{or_id, bytes_beq, find}
use meyer.Lexer.Literal.{scan_args, scan_name, scan_quote, scan_blob, scan_bracket, scan_variable}
use meyer.Lexer.Scan.{
  scan_slash, scan_minus, scan_ident, scan_keyword, scan, scan_bom, scan_greater, scan_less,
  scan_single, scan_x,
}
use meyer.Lexer.Number.{
  is_hex_number, as_float, scan_exponent, scan_number_tail, scan_number, scan_fraction, scan_digits,
  has_exponent,
}
use meyer.Keywords.Table.{lookup, Row, upper}
use meyer.Lexer.Chars.{at, is_keyword_char, is_hex, is_id_char, run_of, is_digit}
use meyer.Keywords.Lookup.{keyword_kind, lookup-keyword_kind}
use meyer.Keywords.{keywords}

-- A property of ID and of the kinds in a map holds of what is read from the map.
or_id-find :
    (p : Kind → Bool) (key : Bytes) (l : List Row)
    → p Kind.id ≡ true
    → all (λ r. p r.1) l ≡ true
    → p (or_id (find key l)) ≡ true
unfolding find
or_id-find p key [] h a = h
or_id-find p key ((kw, k) ∷ l) h a =
    let parts = &&-eq-true (p k) (all (λ r. p r.1) l) a in
    elim (Bool-cases (bytes_beq key kw)) [
      | inl e ↦ rw e parts.0
      | inr e ↦ rw e (or_id-find p key l h parts.1)
    ]

goes_on : Kind → Bool
goes_on k = not (k == Kind.eof)

lookup-goes_on : (name : Bytes) → goes_on (lookup name) ≡ true
unfolding goes_on
lookup-goes_on name =
    rw (lookup-keyword_kind name)
      (unfold keyword_kind keywords in or_id-find goes_on (map upper name) keywords refl refl)

scan_digits-goes_on :
    (p : ℕ → Bool) (z : Bytes) (kind : Kind) (n : ℕ)
    → goes_on kind ≡ true
    → goes_on (scan_digits p z (kind, n)).0 ≡ true
unfolding goes_on scan_digits
scan_digits-goes_on p [] kind n h = h
scan_digits-goes_on p (c ∷ z) kind n h =
    let kind' = if p c then kind else Kind.qnumber in
    let kept : goes_on kind' ≡ true = elim (Bool-cases (p c)) [
      | inl e ↦ rw e h
      | inr e ↦ rw e refl
    ] in
    elim (Bool-cases (p c || c == b'_')) [
      | inl e ↦ rw e (scan_digits-goes_on p z kind' (n + 1) kept)
      | inr e ↦ rw e h
    ]

as_float-goes_on : (kind : Kind) → goes_on kind ≡ true → goes_on (as_float kind) ≡ true
unfolding goes_on
as_float-goes_on kind h = elim (Bool-cases (kind == Kind.integer)) [
  | inl e ↦ rw e refl
  | inr e ↦ rw e h
]

module _ (z : Bytes) (kind : Kind) (n : ℕ) (h : goes_on kind ≡ true) where
  scan_fraction-goes_on : goes_on (scan_fraction z (kind, n)).0 ≡ true
  unfolding goes_on scan_fraction
  scan_fraction-goes_on =
      ground (arith, scan_digits-goes_on is_digit (drop (n + 1) z) (as_float kind) (n + 1))

  scan_exponent-goes_on : goes_on (scan_exponent z (kind, n)).0 ≡ true
  unfolding goes_on scan_exponent
  scan_exponent-goes_on = elim (Bool-cases (has_exponent z n)) [
    | inl e ↦ rw e (
        scan_digits-goes_on is_digit (drop (n + 2) z) (as_float kind) (n + 2)
          (as_float-goes_on kind h))
    | inr e ↦ rw e h
  ]

  scan_number_tail-goes_on : goes_on (scan_number_tail z (kind, n)).0 ≡ true
  unfolding goes_on scan_number_tail
  scan_number_tail-goes_on = ground arith

scan_number-goes_on : (z : Bytes) → goes_on (scan_number z).0 ≡ true
unfolding goes_on scan_number
scan_number-goes_on z =
    let k = scan_digits is_digit z (Kind.integer, 0) in
    let f = scan_fraction z k in
    let e = scan_exponent z f in
    let whole = scan_digits-goes_on is_digit z Kind.integer 0 refl in
    let fraction = scan_fraction-goes_on z k.0 k.1 whole in
    let exponent = scan_exponent-goes_on z f.0 f.1 fraction in
    let g = scan_digits is_hex (drop 3 z) (Kind.integer, 3) in
    let hex = scan_digits-goes_on is_hex (drop 3 z) Kind.integer 3 refl in
    elim (Bool-cases (is_hex_number z)) [
      | inl a ↦ rw a (scan_number_tail-goes_on z g.0 g.1 hex)
      | inr a ↦ rw a (scan_number_tail-goes_on z e.0 e.1 exponent)
    ]

scan_name-goes_on :
    (skip : Bool) (z : Bytes) (n nid : ℕ) → goes_on (scan_name skip z n nid).0 ≡ true
unfolding goes_on scan_name scan_args
scan_name-goes_on skip [] n nid = ground arith
scan_name-goes_on skip (c ∷ z) n nid = ground (
  arith,
  scan_name-goes_on (not skip && not (is_id_char c) && (c == b':' && at z 0 == b':')) z (n + 1)
      (if not skip && is_id_char c then nid + 1 else nid),
)

scan_quote-goes_on : (delim : ℕ) (r : Bytes) → goes_on (scan_quote delim r).0 ≡ true
unfolding goes_on scan_quote
scan_quote-goes_on delim r = ground arith

scan_keyword-goes_on : (z : Bytes) → goes_on (scan_keyword z).0 ≡ true
unfolding goes_on scan_keyword scan_ident
scan_keyword-goes_on z =
    ground (arith, lookup-goes_on (take (2 + run_of is_keyword_char (drop 2 z)) z))

scan_minus-goes_on : (z : Bytes) → goes_on (scan_minus z).0 ≡ true
unfolding goes_on scan_minus
scan_minus-goes_on z = ground arith

scan_slash-goes_on : (z : Bytes) → goes_on (scan_slash z).0 ≡ true
unfolding goes_on scan_slash
scan_slash-goes_on z = ground arith

scan_less-goes_on : (z : Bytes) → goes_on (scan_less z).0 ≡ true
unfolding goes_on scan_less
scan_less-goes_on z = ground arith

scan_greater-goes_on : (z : Bytes) → goes_on (scan_greater z).0 ≡ true
unfolding goes_on scan_greater
scan_greater-goes_on z = ground arith

scan_bracket-goes_on : (z : Bytes) → goes_on (scan_bracket z).0 ≡ true
unfolding goes_on scan_bracket
scan_bracket-goes_on z = ground arith

scan_x-goes_on : (z : Bytes) → goes_on (scan_x z).0 ≡ true
unfolding goes_on scan_x scan_ident scan_blob
scan_x-goes_on z = ground arith

scan_bom-goes_on : (z : Bytes) → goes_on (scan_bom z).0 ≡ true
unfolding goes_on scan_bom scan_ident
scan_bom-goes_on z = ground arith

scan_single-goes_on : (c : ℕ) → goes_on (scan_single c) ≡ true
unfolding goes_on scan_single
scan_single-goes_on c = ground arith

constants-goes_on :
    (goes_on Kind.space ≡ true)
    × (goes_on Kind.eq ≡ true)
    × (goes_on Kind.illegal ≡ true)
    × (goes_on Kind.ne ≡ true)
    × (goes_on Kind.bitor ≡ true)
    × (goes_on Kind.concat ≡ true)
    × (goes_on Kind.dot ≡ true)
    × (goes_on Kind.variable ≡ true)
    × (goes_on Kind.id ≡ true)
unfolding goes_on
constants-goes_on = (refl, refl, refl, refl, refl, refl, refl, refl, refl)

scan-goes_on : (c : ℕ) (r : Bytes) → c ≢ 0 → goes_on (scan (c ∷ r)).0 ≡ true
unfolding scan scan_variable scan_ident
scan-goes_on c r h = ground (
  arith,
  constants-goes_on,
  scan_quote-goes_on c r,
  scan_number-goes_on (c ∷ r),
  scan_name-goes_on false r 1 0,
  scan_keyword-goes_on (c ∷ r),
  scan_minus-goes_on (c ∷ r),
  scan_slash-goes_on (c ∷ r),
  scan_less-goes_on (c ∷ r),
  scan_greater-goes_on (c ∷ r),
  scan_bracket-goes_on (c ∷ r),
  scan_x-goes_on (c ∷ r),
  scan_bom-goes_on (c ∷ r),
  scan_single-goes_on c,
)

-- `scan` answers EOF at a NUL byte alone.
pub scan-eof : (c : ℕ) (r : Bytes) → ((scan (c ∷ r)).0 == Kind.eof) ≡ true → c ≡ 0
scan-eof c r h = elim (Bool-cases (c == 0)) [
  | inl e ↦ (nat_beq_iff c 0).0 e
  | inr e ↦ (unfold goes_on in cc (h, scan-goes_on c r (ground arith)))
]
