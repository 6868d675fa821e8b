-- ===== src/Parser/Binds.antt =====
-- parser/parse_expr.go: the numbers that `bindParam` assigns.
use meyer.Base.{
  Bool-cases, Bytes, List, Option, [], ap, drop, false, get_or, inl, inr, nat_beq_iff, none, refl,
  some, ℕ, ◌%◌, ◌+◌, ◌==◌, ◌∙◌, ◌∷◌, ◌≡◌, nat_eq,
}
use meyer.Keywords.Find.{bytes_beq, bytes_beq_iff}
use meyer.Parser.Bind.{atoi, num_of, number_explicit, number_named, number_param, two64}

-- A named parameter, which starts with no question mark, takes the case of the map.
pub named_case :
    (raw : Bytes) (n : ℕ) (vars : List (Bytes × ℕ))
    → (get_or raw 0 0 == b'?') ≡ false
    → number_param raw n vars ≡ number_named (num_of raw vars) raw n vars
unfolding number_param
named_case raw n vars h = elim (Bool-cases (bytes_beq raw (b'?' ∷ []))) [
  | inl e ↦
      let same = (bytes_beq_iff raw (b'?' ∷ [])).0 e in
      let mark : get_or raw 0 0 ≡ b'?' = ap (λ z. get_or z 0 0) same in
      cc (h, (nat_beq_iff (get_or raw 0 0) b'?').1 mark)
  | inr e ↦ rw e (rw h refl)
]

num_of_self :
    (raw : Bytes) (k : ℕ) (vars : List (Bytes × ℕ)) → num_of raw ((raw, k) ∷ vars) ≡ some k
unfolding num_of
num_of_self raw k vars = rw ((bytes_beq_iff raw raw).1 refl) refl

-- The map has the number that a named parameter gets.
number_named-num_of :
    (o : Option ℕ) (raw : Bytes) (n : ℕ) (vars : List (Bytes × ℕ))
    → num_of raw vars ≡ o
    → num_of raw (number_named o raw n vars).var_nums ≡ some (number_named o raw n vars).number
unfolding number_named
number_named-num_of none raw n vars h = num_of_self raw ((n + 1) % two64) vars
number_named-num_of (some v) raw n vars h = h

-- A number in the map stays there.
number_named-keeps :
    (o : Option ℕ) (raw name : Bytes) (n k : ℕ) (vars : List (Bytes × ℕ))
    → num_of raw vars ≡ o
    → num_of name vars ≡ some k
    → num_of name (number_named o raw n vars).var_nums ≡ some k
unfolding number_named num_of
number_named-keeps (some v) raw name n k vars h e = e
number_named-keeps none raw name n k vars h e = elim (Bool-cases (bytes_beq name raw)) [
  | inl same ↦ cc ((bytes_beq_iff name raw).0 same, h, e)
  | inr differ ↦ rw differ e
]

explicit-keeps :
    (o : Option ℕ) (n : ℕ) (vars : List (Bytes × ℕ)) → (number_explicit o n vars).var_nums ≡ vars
unfolding number_explicit
explicit-keeps none n vars = refl
explicit-keeps (some v) n vars = refl

number_param-keeps :
    (raw name : Bytes) (n k : ℕ) (vars : List (Bytes × ℕ))
    → num_of name vars ≡ some k
    → num_of name (number_param raw n vars).var_nums ≡ some k
unfolding number_param
number_param-keeps raw name n k vars e = elim (Bool-cases (bytes_beq raw (b'?' ∷ []))) [
  | inl anon ↦ rw anon e
  | inr other ↦ elim (Bool-cases (get_or raw 0 0 == b'?')) [
    | inl mark ↦ rw other (rw mark (rw (explicit-keeps (atoi (drop 1 raw)) n vars) e))
    | inr plain ↦
        rw other (rw plain (number_named-keeps (num_of raw vars) raw name n k vars refl e))
  ]
]

-- `nVar` and `varNums` behind a sequence of parameters.
unfoldable pub after : List Bytes → ℕ → List (Bytes × ℕ) → ℕ × List (Bytes × ℕ)
after [] n vars = (n, vars)
after (raw ∷ raws) n vars = let r = number_param raw n vars in after raws r.n_var r.var_nums

after-keeps :
    (raws : List Bytes) (name : Bytes) (n k : ℕ) (vars : List (Bytes × ℕ))
    → num_of name vars ≡ some k
    → num_of name (after raws n vars).1 ≡ some k
unfolding after
after-keeps [] name n k vars e = e
after-keeps (raw ∷ raws) name n k vars e =
    let r = number_param raw n vars in
    after-keeps raws name r.n_var k r.var_nums (number_param-keeps raw name n k vars e)

-- Whatever parameters stand in between, a named parameter that occurs again gets the number of its
-- first occurrence, and the numbering is left as it was.
pub number_param-stable :
    (raw : Bytes) (raws : List Bytes) (n : ℕ) (vars : List (Bytes × ℕ))
    → (get_or raw 0 0 == b'?') ≡ false
    → let r = number_param raw n vars in
      let s = after raws r.n_var r.var_nums in
      number_param raw s.0 s.1 ≡ record { number = r.number; n_var = s.0; var_nums = s.1 }
number_param-stable raw raws n vars h =
    let r = number_named (num_of raw vars) raw n vars in
    let s = after raws r.n_var r.var_nums in
    let found =
      after-keeps raws raw r.n_var r.number r.var_nums
        (number_named-num_of (num_of raw vars) raw n vars refl) in
    rw (named_case raw n vars h) (
      named_case raw s.0 s.1 h
      ∙ ap (λ o. number_named o raw s.0 s.1) found
      ∙ unfold number_named in refl)
