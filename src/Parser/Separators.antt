-- ===== src/Parser/Separators.antt =====
-- parser/parse_expr.go: what the loop of `dequoteNumber` computes in its buffer.
use meyer.Base.{
  Bool, Bytes, [], ap, arith, drop, false, get_or, if◌then◌else◌, length, refl, suc, take, true,
  zero, ℕ, ◌&&◌, ◌++◌, ◌<◌, ◌==◌, ◌∷◌, ◌≡◌, ◌≤◌, ltb, ◌+◌, ◌-◌, ◌∙◌, Bool-cases, inl, inr,
  append-nil, append_assoc, not, subst, sym, ◌||◌, nat_eq,
}
use meyer.Parser.Number.{Dequoted, digits, is_ok, misplaced, set_at, dequote_from}

set_at-take :
    (out c : ℕ) (buf : Bytes)
    → out < length buf
    → take (suc out) (set_at out c buf) ≡ take out buf ++ c ∷ []
unfolding set_at
set_at-take out c [] h = absurd (omega arith)
set_at-take zero c (b ∷ z) h = refl
set_at-take (suc out) c (b ∷ z) h = ap (λ w. b ∷ w) (set_at-take out c z (omega arith))

set_at-drop :
    (out c i : ℕ) (buf : Bytes) → out ≤ i → drop (suc i) (set_at out c buf) ≡ drop (suc i) buf
unfolding set_at
set_at-drop out c i [] h = refl
set_at-drop zero c i (b ∷ z) h = refl
set_at-drop (suc out) c zero (b ∷ z) h = absurd (omega arith)
set_at-drop (suc out) c (suc i) (b ∷ z) h = set_at-drop out c i z (omega arith)

length-set_at : (out c : ℕ) (buf : Bytes) → length (set_at out c buf) ≡ length buf
unfolding set_at
length-set_at out c [] = refl
length-set_at zero c (b ∷ z) = refl
length-set_at (suc out) c (b ∷ z) = omega (arith, length-set_at out c z)

get_or-set_at : (out c : ℕ) (buf : Bytes) → out < length buf → get_or (set_at out c buf) out 0 ≡ c
unfolding set_at
get_or-set_at out c [] h = absurd (omega arith)
get_or-set_at zero c (b ∷ z) h = refl
get_or-set_at (suc out) c (b ∷ z) h = get_or-set_at out c z (omega arith)

get_or-drop : (i : ℕ) (z : Bytes) → get_or z i 0 ≡ get_or (drop i z) 0 0
get_or-drop zero z = refl
get_or-drop (suc i) [] = refl
get_or-drop (suc i) (b ∷ z) = get_or-drop i z

drop-suc : (i c : ℕ) (buf z : Bytes) → drop i buf ≡ c ∷ z → drop (suc i) buf ≡ z
drop-suc zero c [] z h = cc
drop-suc zero c (b ∷ buf) z h = cc h
drop-suc (suc i) c [] z h = cc
drop-suc (suc i) c (b ∷ buf) z h = drop-suc i c buf z h

-- The bytes without the separators.
pub without_seps : Bytes → Bytes
without_seps [] = []
without_seps (c ∷ z) = if c == b'_' then without_seps z else c ∷ without_seps z

-- The first byte is there and is a digit of the number.
starts_ok : Bool → Bytes → Bool
starts_ok hex [] = false
starts_ok hex (c ∷ z) = is_ok hex c

-- Each separator stands behind a digit and before one; the flag says that the last byte before
-- that is no separator is a digit.
pub separated : Bool → Bool → Bytes → Bool
unfolding starts_ok
separated hex prev [] = true
separated hex prev (c ∷ z) =
    let rest = separated hex (if c == b'_' then prev else is_ok hex c) z in
    if c == b'_' then prev && starts_ok hex z && rest else rest

-- The outcome that the bytes call for.
pub Agrees : Bool → Bytes → Dequoted → Type 0
Agrees true z r = r ≡ digits z
Agrees false z r = (buf : Bytes) × (r ≡ misplaced buf)

-- The loop at byte `i`, with `w` written, `z` to be read and the flag of the last byte written.
record Loop (hex : Bool) (w z buf : Bytes) (i out : ℕ) (prev : Bool) : Type 0 where
  written : take out buf ≡ w
  unread : drop i buf ≡ z
  behind : out ≤ i
  size : i + length z ≡ length buf
  last : (ltb 0 out && is_ok hex (get_or buf (out - 1) 0)) ≡ prev

next-starts_ok :
    (hex : Bool) (i : ℕ) (buf z : Bytes)
    → drop (i + 1) buf ≡ z
    → i + 1 + length z ≡ length buf
    → (ltb (i + 1) (length buf) && is_ok hex (get_or buf (i + 1) 0)) ≡ starts_ok hex z
unfolding starts_ok
next-starts_ok hex i buf [] unread size =
    let none_left : ltb (i + 1) (length buf) ≡ false = ground arith in rw none_left refl
next-starts_ok hex i buf (c ∷ z) unread size =
    let more : ltb (i + 1) (length buf) ≡ true = ground arith in
    rw more (ap (is_ok hex) (get_or-drop (i + 1) buf ∙ ap (λ w. get_or w 0 0) unread))

Loop-keep :
    {hex : Bool} {w z buf : Bytes} {i out c : ℕ} {prev : Bool}
    → Loop hex w (c ∷ z) buf i out prev
    → Loop hex (w ++ c ∷ []) z (set_at out c buf) (i + 1) (out + 1) (is_ok hex c)
Loop-keep {hex} {w} {z} {buf} {i} {out} {c} l =
    let room : out < length buf = omega (arith, l.behind, l.size) in
    let next_out : out + 1 ≡ suc out = omega arith in
    let next_i : i + 1 ≡ suc i = omega arith in
    record {
      written =
          ap (λ j. take j (set_at out c buf)) next_out
          ∙ set_at-take out c buf room
          ∙ ap (λ v. v ++ c ∷ []) l.written;
      unread =
          ap (λ j. drop j (set_at out c buf)) next_i
          ∙ set_at-drop out c i buf l.behind
          ∙ drop-suc i c buf z l.unread;
      behind = omega (arith, l.behind);
      size = omega (arith, l.size, length-set_at out c buf);
      last =
          let one : ltb 0 (out + 1) ≡ true = ground arith in
          let back : out + 1 - 1 ≡ out = omega arith in
          rw one (rw back (ap (is_ok hex) (get_or-set_at out c buf room)));
    }

Loop-skip :
    {hex : Bool} {w z buf : Bytes} {i out c : ℕ} {prev : Bool}
    → Loop hex w (c ∷ z) buf i out prev
    → Loop hex w z buf (i + 1) out prev
Loop-skip {z = z} {buf = buf} {i = i} {c = c} l = record {
  written = l.written;
  unread =
      (let next_i : i + 1 ≡ suc i = omega arith in ap (λ j. drop j buf) next_i)
      ∙ drop-suc i c buf z l.unread;
  behind = omega (arith, l.behind);
  size = omega (arith, l.size);
  last = l.last;
}

Agrees-separator :
    (prev next rest : Bool) (z buf : Bytes) (r : Dequoted)
    → Agrees rest z r
    → Agrees (prev && next && rest) z (if not prev || not next then misplaced buf else r)
unfolding Agrees
Agrees-separator true true rest z buf r h = h
Agrees-separator true false rest z buf r h = (buf, refl)
Agrees-separator false next rest z buf r h = (buf, refl)

dequote_from-Agrees :
    (hex : Bool) (w z buf : Bytes) (i out : ℕ) (prev : Bool)
    → Loop hex w z buf i out prev
    → Agrees (separated hex prev z) (w ++ without_seps z) (dequote_from hex z i out buf)
unfolding dequote_from separated without_seps
dequote_from-Agrees hex w [] buf i out prev l =
    unfold Agrees in ap digits (l.written ∙ sym (append-nil w))
dequote_from-Agrees hex w (c ∷ z) buf i out prev l = elim (Bool-cases (c == b'_')) [
  | inl sep ↦
      let s = Loop-skip l in
      let tail = dequote_from-Agrees hex w z buf (i + 1) out prev s in
      rw sep (
        rw (l.last) (
          rw (next-starts_ok hex i buf z s.unread s.size)
            (Agrees-separator prev (starts_ok hex z) _ (w ++ without_seps z) buf _ tail)))
  | inr digit ↦
      let tail =
        dequote_from-Agrees hex (w ++ c ∷ []) z (set_at out c buf) (i + 1) (out + 1) (is_ok hex c)
          (Loop-keep l) in
      rw digit (
        subst
          (λ v.
            Agrees (separated hex (is_ok hex c) z) v
              (dequote_from hex z (i + 1) (out + 1) (set_at out c buf)))
          (append_assoc w (c ∷ []) (without_seps z)) tail)
]

-- On the bytes of a token the loop of dequoteNumber gives them without the separators, where each
-- separator stands behind a digit of the number and before one, and reports a misplaced one
-- otherwise.
pub dequote_from-separated :
    (hex : Bool) (z : Bytes)
    → Agrees (separated hex false z) (without_seps z) (dequote_from hex z 0 0 z)
dequote_from-separated hex z = dequote_from-Agrees hex [] z z 0 0 false (record {
  written = refl;
  unread = refl;
  behind = omega arith;
  size = omega arith;
  last = refl;
})
