-- ===== src/Ts/Pts.antt =====
-- src/output_ts.h, `write_pts`: a time stamp of 33 bits in five bytes, and how a receiver reads it.
use nginx_hls_module.Base.{
  ℕ, ◌+◌, ◌*◌, ◌/◌, ◌%◌, ◌^◌, ◌<◌, ◌≡◌, List, [], ◌∷◌, bit_or, bit_or_fields, ap, ◌∙◌, arith,
}

-- The bytes from `q` on. `pts` is the 64-bit pattern of the argument.
unfoldable pub write_pts : ℕ → ℕ → List ℕ
write_pts fourbits pts =
    let high = bit_or (bit_or (fourbits * 2 ^ 4) (pts / 2 ^ 30 % 8 * 2)) 1 in
    let middle = bit_or (pts / 2 ^ 15 % 2 ^ 15 * 2) 1 in
    let low = bit_or (pts % 2 ^ 15 * 2) 1 in
    high % 2 ^ 8 ∷ middle / 2 ^ 8 % 2 ^ 8 ∷ middle % 2 ^ 8 ∷ low / 2 ^ 8 % 2 ^ 8 ∷ low % 2 ^ 8 ∷ []

-- The fields of the five bytes, by the layout of a PES header: four bits, then 3, 15 and 15 bits of
-- the time, each with a marker bit behind.
pub record Stamp : Type 0 where
  pub fourbits : ℕ
  pub time : ℕ
  pub markers : ℕ

unfoldable pub read_stamp : List ℕ → Stamp
read_stamp (a ∷ b ∷ c ∷ d ∷ e ∷ rest) = record {
  fourbits = a / 16;
  time = a / 2 % 8 * 2 ^ 30 + (b * 2 ^ 8 + c) / 2 * 2 ^ 15 + (d * 2 ^ 8 + e) / 2;
  markers = a % 2 + c % 2 + e % 2;
}
read_stamp other = record { fourbits = 0; time = 0; markers = 0 }

Stamp-eq :
    {f g t u m n : ℕ}
    → f ≡ g
    → t ≡ u
    → m ≡ n
    → ◌≡◌ {A = Stamp}
        (record { fourbits = f; time = t; markers = m })
        (record { fourbits = g; time = u; markers = n })
Stamp-eq p q r i = record { fourbits = p i; time = q i; markers = r i }

marked : (x : ℕ) → bit_or (x * 2) 1 ≡ x * 2 + 1
marked x = bit_or_fields 1 x 1 (omega arith)

marked_high : (f x : ℕ) → x < 8 → bit_or (bit_or (f * 2 ^ 4) (x * 2)) 1 ≡ f * 2 ^ 4 + x * 2 + 1
marked_high f x h =
    let inner : bit_or (f * 2 ^ 4) (x * 2) ≡ (f * 8 + x) * 2 =
      bit_or_fields 4 f (x * 2) (omega arith) ∙ omega arith in
    ap (λ t. bit_or t 1) inner ∙ marked (f * 8 + x) ∙ omega arith

-- With four bits in front, a receiver reads those, the time modulo 2^33, and three marker bits.
pub read_stamp-write_pts :
    (f t : ℕ)
    → f < 16
    → read_stamp (write_pts f t) ≡ record { fourbits = f; time = t % 2 ^ 33; markers = 3 }
unfolding write_pts read_stamp
read_stamp-write_pts f t h =
    rw
      (
        marked_high f (t / 2 ^ 30 % 8) (omega arith),
        marked (t / 2 ^ 15 % 2 ^ 15),
        marked (t % 2 ^ 15),
      )
      (Stamp-eq (omega arith) (omega arith) (omega arith))
