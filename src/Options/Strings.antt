-- ===== src/Options/Strings.antt =====
-- What the two tests on strings decide.
use nginx_hls_module.Base.{
  ℕ, zero, suc, ◌+◌, ◌≡◌, ◌∙◌, refl, ap, ◌↔◌, List, [], ◌∷◌, ◌++◌, true, false, none, some, ◌==◌,
  ==→eq, eq→==, Bool-cases, inl, inr, get_elem?, length, length-append, arith,
}
use nginx_hls_module.Options.{starts_with, char_at, ends_loop, ends_with}

false-ne : false ≡ true → ⊥
false-ne e = ground arith

starts_with-prefix :
    (input test : List ℕ) → starts_with input test ≡ true → (rest : List ℕ) × (input ≡ test ++ rest)
unfolding starts_with
starts_with-prefix input [] e = (input, refl)
starts_with-prefix [] (t ∷ ts) e = cc
starts_with-prefix (i ∷ is) (t ∷ ts) e = elim (Bool-cases (i == t)) [
  | inl same ↦
      let (rest, p) = starts_with-prefix is ts (rw same at e) in
      (rest, ap (λ c. c ∷ is) (==→eq i t same) ∙ ap (λ cs. t ∷ cs) p)
  | inr other ↦ absurd (false-ne (rw other at e))
]

prefix-starts_with : (test rest : List ℕ) → starts_with (test ++ rest) test ≡ true
unfolding starts_with
prefix-starts_with [] rest = refl
prefix-starts_with (t ∷ ts) rest = rw (eq→== t t refl) (prefix-starts_with ts rest)

-- `starts_with` holds where the second string is a prefix of the first, and only there.
pub starts_with_iff :
    (input test : List ℕ)
    → (starts_with input test ≡ true) ↔ ((rest : List ℕ) × (input ≡ test ++ rest))
starts_with_iff input test = (
  starts_with-prefix input test,
  λ (rest, p). ap (λ x. starts_with x test) p ∙ prefix-starts_with test rest,
)

get_elem?-append : (xs ys : List ℕ) (j : ℕ) → get_elem? (xs ++ ys) (length xs + j) ≡ get_elem? ys j
get_elem?-append [] ys j = ap (get_elem? ys) (omega arith)
get_elem?-append (x ∷ xs) ys j =
    let place : suc (length xs) + j ≡ suc (length xs + j) = omega arith in
    ap (get_elem? (x ∷ (xs ++ ys))) place ∙ get_elem?-append xs ys j

ends_loop-done : (input test : List ℕ) (n : ℕ) → ends_loop input test n 0 ≡ true
unfolding ends_loop
ends_loop-done input test zero = refl
ends_loop-done input test (suc n) = refl

ends_loop-rest :
    (front rest : List ℕ) (a b k n : ℕ)
    → n ≡ length front + k
    → ends_loop (front ++ (a ∷ rest)) (b ∷ rest) n k ≡ true
unfolding ends_loop
ends_loop-rest front rest a b zero n e = ends_loop-done (front ++ (a ∷ rest)) (b ∷ rest) n
ends_loop-rest front rest a b (suc k) zero e = absurd (omega arith)
ends_loop-rest front rest a b (suc k) (suc n) e =
    let same : char_at (front ++ (a ∷ rest)) (suc n) ≡ char_at (b ∷ rest) (suc k) =
      ap (λ o. elim o [ none ↦ 0 | some c ↦ c ])
        (ap (get_elem? (front ++ (a ∷ rest))) e ∙ get_elem?-append front (a ∷ rest) (suc k)) in
    rw (eq→== _ _ same) (ends_loop-rest front rest a b k n (omega arith))

-- `ends_with` does not compare the first byte of the second string: with any other byte in its
-- place, and another byte in front of the rest in the first string, it holds all the same.
pub ends_with_first_byte :
    (front rest : List ℕ) (a b : ℕ) → ends_with (front ++ (a ∷ rest)) (b ∷ rest) ≡ true
unfolding ends_with
ends_with_first_byte front rest a b =
    ends_loop-rest front rest a b (suc (length rest)) (length (front ++ (a ∷ rest)))
      (length-append front (a ∷ rest))
