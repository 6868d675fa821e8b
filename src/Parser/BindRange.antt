-- ===== src/Parser/BindRange.antt =====
-- parser/parse_expr.go: the numbers of distinct named parameters differ, and `nVar` bounds them.
use meyer.Base.{
  Bool-cases, Bytes, List, arith, inl, inr, some, sym, ℕ, ◌<◌, ◌∷◌, ◌≡◌, ◌≤◌, ◌⊎◌, Option, [], none,
  ◌%◌, ◌+◌, ◌∙◌, drop, false, get_or, ltb, ltb→le, ltb→lt, refl, true, ◌==◌, nat_eq,
}
use meyer.Keywords.Find.{bytes_beq, bytes_beq_iff}
use meyer.Parser.Bind.{
  Numbering, num_of, two63, atoi, int_gt, number_explicit, number_named, two64, digits_value,
  in_int, number_param,
}

-- The map numbers each name once, from 1 to `nVar`, and `nVar` is no negative int.
pub record Numbered (n : ℕ) (vars : List (Bytes × ℕ)) : Type 0 where
  pub small : n < two63
  pub low : (a : Bytes) (k : ℕ) → num_of a vars ≡ some k → 1 ≤ k
  pub high : (a : Bytes) (k : ℕ) → num_of a vars ≡ some k → k ≤ n
  pub distinct : (a b : Bytes) (k : ℕ) → num_of a vars ≡ some k → num_of b vars ≡ some k → a ≡ b

-- The state behind one parameter, against the state before it.
pub record Advances (n : ℕ) (r : Numbering) : Type 0 where
  pub numbered : Numbered r.n_var r.var_nums
  pub grows : n ≤ r.n_var
  pub inside : r.number ≤ r.n_var

Numbered-grow :
    {n m : ℕ} {vars : List (Bytes × ℕ)} → Numbered n vars → n ≤ m → m < two63 → Numbered m vars
Numbered-grow h le lt = record {
  small = lt;
  low = h.low;
  high = λ a k e. omega (arith, h.high a k e, le);
  distinct = h.distinct;
}

-- A fresh number for a new name.
cons-cases :
    (raw a : Bytes) (k v : ℕ) (vars : List (Bytes × ℕ))
    → num_of a ((raw, v) ∷ vars) ≡ some k
    → ((a ≡ raw) × (k ≡ v)) ⊎ (num_of a vars ≡ some k)
unfolding num_of
cons-cases raw a k v vars e = elim (Bool-cases (bytes_beq a raw)) [
  | inl same ↦ inl ((bytes_beq_iff a raw).0 same, some_injective (sym (rw same at e)))
  | inr differ ↦ inr (rw differ at e)
]
  where
    some_injective : {x y : ℕ} → some x ≡ some y → x ≡ y
    some_injective e = cc e

Numbered-fresh :
    (raw : Bytes) (n : ℕ) (vars : List (Bytes × ℕ))
    → Numbered n vars
    → n + 1 < two63
    → Numbered (n + 1) ((raw, n + 1) ∷ vars)
Numbered-fresh raw n vars h lt = record {
  small = lt;
  low = λ a k e. elim (cons-cases raw a k (n + 1) vars e) [
    | inl (_, new) ↦ omega (arith, new)
    | inr old ↦ h.low a k old
  ];
  high = λ a k e. elim (cons-cases raw a k (n + 1) vars e) [
    | inl (_, new) ↦ omega (arith, new)
    | inr old ↦ omega (arith, h.high a k old)
  ];
  distinct = λ a b k e f. elim (cons-cases raw a k (n + 1) vars e) [
    | inl (is_raw, new) ↦ elim (cons-cases raw b k (n + 1) vars f) [
      | inl (too, _) ↦ is_raw ∙ sym too
      | inr old ↦ absurd (omega (arith, new, h.high b k old))
    ]
    | inr older ↦ elim (cons-cases raw b k (n + 1) vars f) [
      | inl (_, new) ↦ absurd (omega (arith, new, h.high a k older))
      | inr old ↦ h.distinct a b k older old
    ]
  ];
}

number_named-Advances :
    (o : Option ℕ) (raw : Bytes) (n : ℕ) (vars : List (Bytes × ℕ))
    → num_of raw vars ≡ o
    → Numbered n vars
    → n + 1 < two63
    → Advances n (number_named o raw n vars)
unfolding number_named
number_named-Advances (some v) raw n vars e h lt = record {
  numbered = h;
  grows = omega arith;
  inside = h.high raw v e;
}
number_named-Advances none raw n vars e h lt =
    let k : (n + 1) % two64 ≡ n + 1 = omega arith in
    rw k (record {
      numbered = Numbered-fresh raw n vars h lt;
      grows = omega arith;
      inside = omega arith;
    })

in_int-small : (o : Option ℕ) (v : ℕ) → in_int o ≡ some v → v < two63
unfolding in_int
in_int-small none v e = cc e
in_int-small (some u) v e = elim (Bool-cases (ltb u two63)) [
  | inl small ↦
      let same : some u ≡ some v = rw small at e in
      let u_v : u ≡ v = cc same in omega (arith, u_v, ltb→lt _ _ small)
  | inr large ↦ let none_some : none ≡ some v = rw large at e in cc none_some
]

atoi-small : (z : Bytes) (v : ℕ) → atoi z ≡ some v → v < two63
unfolding atoi
atoi-small [] v e = cc e
atoi-small (c ∷ z) v e = in_int-small (digits_value 0 (c ∷ z)) v e

-- On ints that are not negative.
int_gt-lt : (a b : ℕ) → a < two63 → b < two63 → int_gt a b ≡ true → b < a
unfolding int_gt
int_gt-lt a b ha hb h =
    let x : (b + two63) % two64 ≡ b + two63 = omega arith in
    let y : (a + two63) % two64 ≡ a + two63 = omega arith in omega (arith, ltb→lt _ _ h, x, y)

int_gt-le : (a b : ℕ) → a < two63 → b < two63 → int_gt a b ≡ false → a ≤ b
unfolding int_gt
int_gt-le a b ha hb h =
    let x : (b + two63) % two64 ≡ b + two63 = omega arith in
    let y : (a + two63) % two64 ≡ a + two63 = omega arith in omega (arith, ltb→le _ _ h, x, y)

number_explicit-Advances :
    (o : Option ℕ) (n : ℕ) (vars : List (Bytes × ℕ))
    → ((v : ℕ) → o ≡ some v → v < two63)
    → Numbered n vars
    → Advances n (number_explicit o n vars)
unfolding number_explicit int_gt
number_explicit-Advances none n vars small h = record {
  numbered = h;
  grows = omega arith;
  inside = omega arith;
}
number_explicit-Advances (some v) n vars small h = elim (Bool-cases (int_gt v n)) [
  | inl more ↦
      let lt = int_gt-lt v n (small v refl) h.small more in
      rw more (record {
        numbered = Numbered-grow h (omega (arith, lt)) (small v refl);
        grows = omega (arith, lt);
        inside = omega arith;
      })
  | inr less ↦ rw less (record {
    numbered = h;
    grows = omega arith;
    inside = int_gt-le v n (small v refl) h.small less;
  })
]

-- While `nVar` is below the largest int, a parameter keeps the numbering well formed: `nVar` does
-- not fall and bounds every number given out, and the names in the map have distinct numbers
-- from 1 on.
pub number_param-Advances :
    (raw : Bytes) (n : ℕ) (vars : List (Bytes × ℕ))
    → Numbered n vars
    → n + 1 < two63
    → Advances n (number_param raw n vars)
unfolding number_param
number_param-Advances raw n vars h lt = elim (Bool-cases (bytes_beq raw (b'?' ∷ []))) [
  | inl anon ↦
      let k : (n + 1) % two64 ≡ n + 1 = omega arith in
      rw anon (
        rw k (record {
          numbered = Numbered-grow h (omega arith) lt;
          grows = omega arith;
          inside = omega arith;
        }))
  | inr other ↦ elim (Bool-cases (get_or raw 0 0 == b'?')) [
    | inl mark ↦
        rw other (
          rw mark (number_explicit-Advances (atoi (drop 1 raw)) n vars (atoi-small (drop 1 raw)) h))
    | inr plain ↦ rw other (rw plain (number_named-Advances (num_of raw vars) raw n vars refl h lt))
  ]
]
