-- ===== src/File/Slices.antt =====
-- Parts of a list, and what an allocation that has one holds.
use nginx_hls_module.Base.{
  ℕ, zero, suc, ◌+◌, ◌-◌, ◌≤◌, ◌<◌, ◌≡◌, refl, ap, ◌∙◌, List, [], ◌∷◌, le→ltb, length, take, drop,
  length-take, length-drop, subst, All, arith,
}
use nginx_hls_module.Memory.{Memory, Readable}
use nginx_hls_module.Memory.Reads.{byte_at, nth}
use nginx_hls_module.Memory.Holds.{Holds}

module _ {ℓ} {A : Type ℓ} where
  take-take : (size n : ℕ) (xs : List A) → size ≤ n → take size (take n xs) ≡ take size xs
  take-take zero n xs h = refl
  take-take (suc size) zero xs h = absurd (omega arith)
  take-take (suc size) (suc n) [] h = refl
  take-take (suc size) (suc n) (x ∷ xs) h = ap (λ t. x ∷ t) (take-take size n xs (omega arith))

  -- A part of the first elements of a list.
  take-drop-take :
      (size k n : ℕ) (xs : List A)
      → k + size ≤ n
      → take size (drop k (take n xs)) ≡ take size (drop k xs)
  take-drop-take size zero n xs h = take-take size n xs (omega arith)
  take-drop-take size (suc k) zero xs h = absurd (omega arith)
  take-drop-take size (suc k) (suc n) [] h = refl
  take-drop-take size (suc k) (suc n) (x ∷ xs) h = take-drop-take size k n xs (omega arith)

  drop-nil : (n : ℕ) → drop {A = A} n [] ≡ []
  drop-nil zero = refl
  drop-nil (suc n) = refl

  drop-drop : (k s t : ℕ) (xs : List A) → t ≡ s + k → drop k (drop s xs) ≡ drop t xs
  drop-drop k zero t xs e = let same : k ≡ t = omega arith in ap (λ n. drop n xs) same
  drop-drop k (suc s) zero xs e = absurd (omega arith)
  drop-drop k (suc s) (suc t) [] e = drop-nil k
  drop-drop k (suc s) (suc t) (x ∷ xs) e = drop-drop k s t xs (omega arith)

drop-nth : (k : ℕ) (xs : List ℕ) → k < length xs → drop k xs ≡ (nth xs k ∷ drop (suc k) xs)
unfolding nth
drop-nth k [] h = elim h [ ]
drop-nth zero (x ∷ xs) h = refl
drop-nth (suc k) (x ∷ xs) h = drop-nth k xs (omega arith)

-- What an allocation holds.
pub Holds-slice :
    (m : Memory) (size k p : ℕ)
    → p ≡ m.base + k
    → k + size ≤ length m.bytes
    → Holds m p (take size (drop k m.bytes))
unfolding byte_at
Holds-slice m zero k p e h = tt
Holds-slice m (suc size) k p e h =
    let head : byte_at m p ≡ nth m.bytes k =
      rw (le→ltb p m.base (omega arith)) (ap (nth m.bytes) (omega arith)) in
    rw (drop-nth k m.bytes (omega arith))
      (head, Holds-slice m size (suc k) (p + 1) (omega arith) (omega arith))

module _ (P : ℕ → Type 0) where
  pub All-take : (n : ℕ) (xs : List ℕ) → All P xs → All P (take n xs)
  All-take zero xs h = tt
  All-take (suc n) [] h = tt
  All-take (suc n) (x ∷ xs) h = (h.0, All-take n xs h.1)

  pub All-drop : (n : ℕ) (xs : List ℕ) → All P xs → All P (drop n xs)
  All-drop zero xs h = h
  All-drop (suc n) [] h = tt
  All-drop (suc n) (x ∷ xs) h = All-drop n xs h.1

-- An address in an allocation that starts with the bytes at `start`.
pub in_allocation :
    (contents : List ℕ) (b : Memory) (n start size pos p : ℕ)
    → b.bytes ≡ take n (drop start contents)
    → start + n ≤ length contents
    → start ≤ pos
    → pos + size ≤ start + n
    → p ≡ b.base + (pos - start)
    → Readable b p size × Holds b p (take size (drop pos contents))
in_allocation contents b n start size pos p e within low high at =
    let long : length b.bytes ≡ n =
      ap length e
      ∙ length-take n (drop start contents)
          (omega (arith, length-drop start contents (omega arith))) in
    let same : take size (drop (pos - start) b.bytes) ≡ take size (drop pos contents) =
      ap (λ xs. take size (drop (pos - start) xs)) e
      ∙ take-drop-take size (pos - start) n (drop start contents) (omega arith)
      ∙ ap (take size) (drop-drop (pos - start) start pos contents (omega arith)) in
    (
      record { above = omega arith; below = omega arith },
      subst (Holds b p) same (Holds-slice b size (pos - start) p at (omega arith)),
    )
