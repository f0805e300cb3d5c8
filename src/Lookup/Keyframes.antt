-- ===== src/Lookup/Keyframes.antt =====
-- The key frame that `stss_get_nearest_keyframe` finds in a table whose numbers ascend.
use nginx_hls_module.Base.{
  ℕ, zero, suc, ◌+◌, ◌-◌, ◌%◌, ◌^◌, ◌≤◌, ◌<◌, ◌≡◌, ◌∙◌, ap, refl, sym, subst, List, [], ◌∷◌, none,
  some, true, false, leb, ◌==◌, if◌then◌else◌, All, arith, Bool-cases, inl, inr, get_elem?, length,
  leb→le, leb→lt, ==→eq, eq→==, le→leb, ◌⊎◌,
}
use nginx_hls_module.Run.{Run, ok, fault}
use nginx_hls_module.Mp4.Tables.{Stss}
use nginx_hls_module.Lookup.{keyframe_scan, stss_get_nearest_keyframe}

-- Each number is above the one before it.
abbrev pub AscendsFrom : ℕ → List ℕ → Type 0
AscendsFrom x [] = Unit
AscendsFrom x (y ∷ ys) = (x < y) × AscendsFrom y ys

-- `k` stands in the table, and it is the last number there that is not above `sample`.
pub record IsNearest (xs : List ℕ) (sample k : ℕ) : Type 0 where
  pub listed : (i : ℕ) × (get_elem? xs i ≡ some k)
  pub before : k ≤ sample
  pub nearest : All (λ x. x ≤ sample → x ≤ k) xs

-- The last number that is not above `sample`, by reading the table once.
nearest : ℕ → List ℕ → ℕ → ℕ
nearest x [] sample = x
nearest x (y ∷ ys) sample = let rest = nearest y ys sample in if leb y sample then rest else x

above :
    (x sample k : ℕ) (xs : List ℕ)
    → sample ≤ x
    → AscendsFrom x xs
    → All (λ y. y ≤ sample → y ≤ k) xs
above x sample k [] h asc = tt
above x sample k (y ∷ ys) h asc =
    (λ le. absurd (omega (arith, asc.0)), above y sample k ys (omega (arith, asc.0)) asc.1)

nearest-IsNearest :
    (x sample : ℕ) (xs : List ℕ)
    → x ≤ sample
    → AscendsFrom x xs
    → (x ≤ nearest x xs sample) × IsNearest (x ∷ xs) sample (nearest x xs sample)
unfolding nearest
nearest-IsNearest x sample [] h asc =
    (omega arith, record { listed = (0, refl); before = h; nearest = (λ le. omega arith, tt) })
nearest-IsNearest x sample (y ∷ ys) h asc = elim (Bool-cases (leb y sample)) [
  | inl further ↦ rw further (
      let (le, is) = nearest-IsNearest y sample ys (leb→le y sample further) asc.1 in
      (
        omega (arith, asc.0, le),
        record {
          listed = (suc is.listed.0, is.listed.1);
          before = is.before;
          nearest = (λ _. omega (arith, asc.0, le), is.nearest);
        },
      ))
  | inr past ↦ rw past (
    omega arith,
    record {
      listed = (0, refl);
      before = h;
      nearest = (
        λ le. omega arith,
        (
          λ le. absurd (omega (arith, leb→lt y sample past)),
          above y sample x ys (omega (arith, leb→lt y sample past)) asc.1,
        ),
      );
    },
  )
]

-- A number that is the sample itself is its own answer.
nearest_self :
    (sample : ℕ) (xs : List ℕ) → AscendsFrom sample xs → nearest sample xs sample ≡ sample
unfolding nearest
nearest_self sample [] asc = refl
nearest_self sample (y ∷ ys) asc = elim (Bool-cases (leb y sample)) [
  | inl further ↦ absurd (omega (arith, asc.0, leb→le y sample further))
  | inr past ↦ rw past refl
]

-- What `stss_get_nearest_keyframe` makes of the end of its scan.
answer : List ℕ → ℕ → ℕ × ℕ → Run ℕ
answer table sample s =
    if s.1 == sample
    then ok s.1
    else elim (get_elem? table ((s.0 + 2 ^ 32 - 1) % 2 ^ 32)) [ none ↦ fault | some k ↦ ok k ]

answer-found : (table : List ℕ) (sample i : ℕ) → answer table sample (i, sample) ≡ ok sample
unfolding answer
answer-found table sample i = rw (eq→== sample sample refl) refl

answer-before :
    (table : List ℕ) (sample i t x : ℕ)
    → (t ≡ sample → ⊥)
    → i < 2 ^ 32
    → get_elem? table i ≡ some x
    → answer table sample (i + 1, t) ≡ ok x
unfolding answer
answer-before table sample i t x ne fits at =
    let here : (i + 1 + 2 ^ 32 - 1) % 2 ^ 32 ≡ i = omega arith in
    elim (Bool-cases (t == sample)) [
      | inl same ↦ absurd (ne (==→eq t sample same))
      | inr other ↦ rw other (rw here (rw at refl))
    ]

-- The scan of `xs`, which stands in the table from index `i + 1` on, `x` before it.
scan-nearest :
    (table : List ℕ) (sample i x : ℕ) (xs : List ℕ)
    → x < sample
    → AscendsFrom x xs
    → i + length xs < 2 ^ 32
    → get_elem? table i ≡ some x
    → ((j : ℕ) → get_elem? table (i + 1 + j) ≡ get_elem? xs j)
    → answer table sample (keyframe_scan xs sample (i + 1) x) ≡ ok (nearest x xs sample)
unfolding keyframe_scan nearest
scan-nearest table sample i x [] h asc fits at rest =
    answer-before table sample i x x (λ e. omega arith) (omega arith) at
scan-nearest table sample i x (y ∷ ys) h asc fits at rest = elim (Bool-cases (leb sample y)) [
  | inl stop ↦ rw stop (elim (Bool-cases (leb y sample)) [
    | inl further ↦
        let same : y ≡ sample = omega (arith, leb→le sample y stop, leb→le y sample further) in
        rw further (
          rw same (
            answer-found table sample (i + 1)
            ∙ ap ok (sym (nearest_self sample ys (subst (λ k. AscendsFrom k ys) same asc.1)))))
    | inr past ↦ rw past (
        answer-before table sample i y x (λ e. omega (arith, leb→lt y sample past)) (omega arith)
          at)
  ])
  | inr on ↦
      let before = leb→lt sample y on in
      rw (on, le→leb y sample (omega arith))
        (scan-nearest table sample (i + 1) y ys before asc.1 (omega arith)
          (ap (get_elem? table) (sym (add_zero (i + 1))) ∙ rest 0)
          (λ j. ap (get_elem? table) (add_one (i + 1) j) ∙ rest (suc j)))
]
  where
    add_zero : (k : ℕ) → k + 0 ≡ k
    add_zero k = omega arith

    add_one : (k j : ℕ) → k + 1 + j ≡ k + suc j
    add_one k j = omega arith

-- In a table of less than `2 ^ 32` ascending numbers, the first not above the sample, the key
-- frame found stands in the table, is not above the sample, and no number of the table is
-- between them.
pub stss_get_nearest_keyframe-IsNearest :
    (stss : Stss) (sample x : ℕ) (xs : List ℕ)
    → stss.sample_numbers ≡ x ∷ xs
    → AscendsFrom x xs
    → x ≤ sample
    → length xs < 2 ^ 32
    → (k : ℕ) × (stss_get_nearest_keyframe stss sample ≡ ok k) × IsNearest (x ∷ xs) sample k
unfolding stss_get_nearest_keyframe keyframe_scan answer
stss_get_nearest_keyframe-IsNearest stss sample x xs e asc h fits = (
  nearest x xs sample,
  rw e (found (Bool-cases (leb sample x))),
  (nearest-IsNearest x sample xs h asc).1,
)
  where
    one_add : (j : ℕ) → 0 + 1 + j ≡ suc j
    one_add j = omega arith

    found :
        (leb sample x ≡ true) ⊎ (leb sample x ≡ false)
        → answer (x ∷ xs) sample (keyframe_scan (x ∷ xs) sample 0 0) ≡ ok (nearest x xs sample)
    found (inl stop) =
        let same : x ≡ sample = omega (arith, leb→le sample x stop) in
        rw stop (
          rw same (
            answer-found (sample ∷ xs) sample 0
            ∙ ap ok (sym (nearest_self sample xs (subst (λ k. AscendsFrom k xs) same asc)))))
    found (inr on) = rw on (
        scan-nearest (x ∷ xs) sample 0 x xs (leb→lt sample x on) asc (omega arith) refl
          (λ j. ap (get_elem? (x ∷ xs)) (one_add j)))

-- A sample before every number of the table leads to a read outside the table: the scan
-- stops at index 0, or the table is empty, and `i - 1` is `2 ^ 32 - 1`.
pub stss_get_nearest_keyframe-fault :
    (stss : Stss) (sample : ℕ)
    → All (λ x. sample < x) stss.sample_numbers
    → 0 < sample
    → length stss.sample_numbers < 2 ^ 32
    → stss_get_nearest_keyframe stss sample ≡ fault
unfolding stss_get_nearest_keyframe keyframe_scan answer
stss_get_nearest_keyframe-fault stss sample all pos fits = front stss.sample_numbers all fits
  where
    outside : (xs : List ℕ) (i : ℕ) → length xs ≤ i → get_elem? xs i ≡ none
    outside [] i h = refl
    outside (x ∷ xs) (suc i) h = outside xs i (omega arith)
    outside (x ∷ xs) zero h = absurd (omega arith)

    behind :
        (xs : List ℕ) (t : ℕ)
        → (t ≡ sample → ⊥)
        → length xs < 2 ^ 32
        → answer xs sample (0, t) ≡ fault
    behind xs t ne fits =
        let last : (0 + 2 ^ 32 - 1) % 2 ^ 32 ≡ 2 ^ 32 - 1 = omega arith in
        elim (Bool-cases (t == sample)) [
          | inl same ↦ absurd (ne (==→eq t sample same))
          | inr other ↦ rw other (rw (outside xs (2 ^ 32 - 1) (omega arith)) refl)
        ]

    front :
        (xs : List ℕ)
        → All (λ x. sample < x) xs
        → length xs < 2 ^ 32
        → answer xs sample (keyframe_scan xs sample 0 0) ≡ fault
    front [] all fits = behind [] 0 (λ e. omega arith) fits
    front (x ∷ xs) all fits =
        rw (le→leb sample x (omega (arith, all.0)))
          (behind (x ∷ xs) x (λ e. omega (arith, all.0)) fits)
