-- ===== src/Parser/Joins.antt =====
-- parser/parse_select.go: the bits that `joinTypeOf` sets.
use Prim.Native.String.{String}
use meyer.Base.{
  Bool, Bytes, false, refl, true, ◌||◌, ◌≡◌, List, [], ◌∷◌, Bool-cases, ap, inl, inr, ◌∙◌, all,
}
use meyer.Ast.Expr.{JoinType}
use meyer.Parser.From.{to_upper, join_type_of, join_word, join_words_from, no_join_type}
use meyer.Keywords.Find.{bytes_beq, bytes_beq_iff}
use meyer.Parser.Fold.{is_capital, spells, to_upper-spells}
use meyer.Keywords.{codes}

-- Whether one of the words spells the keyword.
unfoldable pub occurs : String → List Bytes → Bool
unfolding spells
occurs k [] = false
occurs k (w ∷ ws) = spells w (codes k) || occurs k ws

-- The keywords behind which each bit of `sqlite3JoinType` is set.
unfoldable pub join_bits : List Bytes → JoinType
unfolding occurs
join_bits ws = record {
  inner = occurs "INNER" ws || occurs "CROSS" ws;
  cross = occurs "CROSS" ws;
  natural = occurs "NATURAL" ws;
  left = occurs "LEFT" ws || occurs "FULL" ws;
  right = occurs "RIGHT" ws || occurs "FULL" ws;
  outer = (occurs "LEFT" ws || occurs "RIGHT" ws) || (occurs "FULL" ws || occurs "OUTER" ws);
  comma = false;
}

-- Whether strings.ToUpper takes one of the words to the keyword.
unfoldable hits : String → List Bytes → Bool
unfolding to_upper
hits k [] = false
hits k (w ∷ ws) = bytes_beq (to_upper w) (codes k) || hits k ws

-- The bits, by the words in upper case.
unfoldable hit_bits : List Bytes → JoinType
unfolding hits
hit_bits ws = record {
  inner = hits "INNER" ws || hits "CROSS" ws;
  cross = hits "CROSS" ws;
  natural = hits "NATURAL" ws;
  left = hits "LEFT" ws || hits "FULL" ws;
  right = hits "RIGHT" ws || hits "FULL" ws;
  outer = (hits "LEFT" ws || hits "RIGHT" ws) || (hits "FULL" ws || hits "OUTER" ws);
  comma = false;
}

-- The union of two bitmasks.
unfoldable join_or : JoinType → JoinType → JoinType
join_or a b = record {
  inner = a.inner || b.inner;
  cross = a.cross || b.cross;
  natural = a.natural || b.natural;
  left = a.left || b.left;
  right = a.right || b.right;
  outer = a.outer || b.outer;
  comma = a.comma || b.comma;
}

or_mix : (a b c d : Bool) → ((a || b) || (c || d)) ≡ ((a || c) || (b || d))
or_mix true b c d = refl
or_mix false true true d = refl
or_mix false true false d = refl
or_mix false false c d = refl

or_shift : (a b c : Bool) → (b || (a || c)) ≡ ((a || b) || c)
or_shift true true c = refl
or_shift true false c = refl
or_shift false b c = refl

join_or_shift : (a b t : JoinType) → join_or b (join_or a t) ≡ join_or (join_or a b) t
unfolding join_or
join_or_shift a b t = λ i. record {
  inner = or_shift a.inner b.inner t.inner i;
  cross = or_shift a.cross b.cross t.cross i;
  natural = or_shift a.natural b.natural t.natural i;
  left = or_shift a.left b.left t.left i;
  right = or_shift a.right b.right t.right i;
  outer = or_shift a.outer b.outer t.outer i;
  comma = or_shift a.comma b.comma t.comma i;
}

abbrev is_word : String → Bytes → Bool
is_word k w = bytes_beq (to_upper w) (codes k)

-- The bits of one word.
unfoldable word_bits : Bytes → JoinType
unfolding to_upper
word_bits w = record {
  inner = is_word "INNER" w || is_word "CROSS" w;
  cross = is_word "CROSS" w;
  natural = is_word "NATURAL" w;
  left = is_word "LEFT" w || is_word "FULL" w;
  right = is_word "RIGHT" w || is_word "FULL" w;
  outer = (is_word "LEFT" w || is_word "RIGHT" w) || (is_word "FULL" w || is_word "OUTER" w);
  comma = false;
}

hit_bits-cons :
    (w : Bytes) (ws : List Bytes) → hit_bits (w ∷ ws) ≡ join_or (word_bits w) (hit_bits ws)
unfolding hit_bits hits join_or word_bits
hit_bits-cons w ws = λ i. record {
  inner = or_mix (is_word "INNER" w) (hits "INNER" ws) (is_word "CROSS" w) (hits "CROSS" ws) i;
  cross = is_word "CROSS" w || hits "CROSS" ws;
  natural = is_word "NATURAL" w || hits "NATURAL" ws;
  left = or_mix (is_word "LEFT" w) (hits "LEFT" ws) (is_word "FULL" w) (hits "FULL" ws) i;
  right = or_mix (is_word "RIGHT" w) (hits "RIGHT" ws) (is_word "FULL" w) (hits "FULL" ws) i;
  outer =
      (ap (λ b. b || (hits "FULL" (w ∷ ws) || hits "OUTER" (w ∷ ws)))
            (or_mix (is_word "LEFT" w) (hits "LEFT" ws) (is_word "RIGHT" w) (hits "RIGHT" ws))
          ∙ ap
              (◌||◌
                ((is_word "LEFT" w || is_word "RIGHT" w) || (hits "LEFT" ws || hits "RIGHT" ws)))
              (or_mix (is_word "FULL" w) (hits "FULL" ws) (is_word "OUTER" w) (hits "OUTER" ws))
          ∙ or_mix (is_word "LEFT" w || is_word "RIGHT" w) (hits "LEFT" ws || hits "RIGHT" ws)
              (is_word "FULL" w || is_word "OUTER" w) (hits "FULL" ws || hits "OUTER" ws))
        i;
  comma = false;
}

-- A word adds its bits.
join_word-bits : (w : Bytes) (t : JoinType) → join_word w t ≡ join_or (word_bits w) t
unfolding join_word join_or word_bits
join_word-bits w t =
    let is : (k : Bytes) → bytes_beq (to_upper w) k ≡ true → to_upper w ≡ k =
      λ k h. (bytes_beq_iff (to_upper w) k).0 h in
    elim (Bool-cases (is_word "NATURAL" w)) [
      | inl e ↦ rw (is _ e) refl
      | inr e0 ↦ elim (Bool-cases (is_word "LEFT" w)) [
        | inl e ↦ rw (is _ e) refl
        | inr e1 ↦ elim (Bool-cases (is_word "RIGHT" w)) [
          | inl e ↦ rw (is _ e) refl
          | inr e2 ↦ elim (Bool-cases (is_word "FULL" w)) [
            | inl e ↦ rw (is _ e) refl
            | inr e3 ↦ elim (Bool-cases (is_word "OUTER" w)) [
              | inl e ↦ rw (is _ e) refl
              | inr e4 ↦ elim (Bool-cases (is_word "INNER" w)) [
                | inl e ↦ rw (is _ e) refl
                | inr e5 ↦ elim (Bool-cases (is_word "CROSS" w)) [
                  | inl e ↦ rw (is _ e) refl
                  | inr e6 ↦ rw (e0, e1, e2, e3, e4, e5, e6) refl
                ]
              ]
            ]
          ]
        ]
      ]
    ]

join_words_from-bits :
    (t : JoinType) (ws : List Bytes) → join_words_from t ws ≡ join_or (hit_bits ws) t
unfolding join_words_from
join_words_from-bits t [] = unfold join_or hit_bits hits in refl
join_words_from-bits t (w ∷ ws) =
    join_words_from-bits (join_word w t) ws
    ∙ rw (join_word-bits w t, hit_bits-cons w ws) (join_or_shift (word_bits w) (hit_bits ws) t)

or_false : (a : Bool) → (a || false) ≡ a
or_false true = refl
or_false false = refl

join_or_none : (a : JoinType) → join_or a no_join_type ≡ a
unfolding join_or
join_or_none a = λ i. record {
  inner = or_false a.inner i;
  cross = or_false a.cross i;
  natural = or_false a.natural i;
  left = or_false a.left i;
  right = or_false a.right i;
  outer = or_false a.outer i;
  comma = or_false a.comma i;
}

hits-occurs :
    (k : String) (ws : List Bytes) → all is_capital (codes k) ≡ true → hits k ws ≡ occurs k ws
unfolding hits occurs
hits-occurs k [] h = refl
hits-occurs k (w ∷ ws) h = rw (to_upper-spells (codes k) w h, hits-occurs k ws h) refl

hit_bits-join_bits : (ws : List Bytes) → hit_bits ws ≡ join_bits ws
unfolding hit_bits join_bits
hit_bits-join_bits ws =
    rw
      (
        hits-occurs "INNER" ws refl,
        hits-occurs "CROSS" ws refl,
        hits-occurs "NATURAL" ws refl,
        hits-occurs "LEFT" ws refl,
        hits-occurs "RIGHT" ws refl,
        hits-occurs "FULL" ws refl,
        hits-occurs "OUTER" ws refl,
      )
      refl

-- Whatever the words and their order, joinTypeOf sets INNER where INNER or CROSS occurs among them,
-- CROSS where CROSS does, NATURAL where NATURAL does, LEFT where LEFT or FULL does, RIGHT where RIGHT
-- or FULL does, OUTER where one of LEFT, RIGHT, FULL and OUTER does, and no other bit. A keyword
-- occurs in any case of its letters, and with U+017F for an S and U+0131 for an I.
pub join_type_of-join_bits : (ws : List Bytes) → join_type_of ws ≡ join_bits ws
unfolding join_type_of
join_type_of-join_bits ws =
    join_words_from-bits no_join_type ws ∙ join_or_none (hit_bits ws) ∙ hit_bits-join_bits ws
