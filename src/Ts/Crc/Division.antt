-- ===== src/Ts/Crc/Division.antt =====
-- `get_crc32` against the division by the generator, one bit at a time.
use nginx_hls_module.Base.{
  ℕ, zero, suc, bit_xor-zero, le→ltb, bit_xor_assoc, bit_xor_comm, bit_xor_fields, bit_xor_twice,
  subst, bit_xor-lt, ◌+◌, ◌-◌, ◌*◌, ◌/◌, ◌%◌, ◌^◌, ◌≤◌, ◌<◌, ◌≡◌, ◌∙◌, refl, sym, ap, List, [], ◌∷◌,
  some, get_elem?, ltb, if◌then◌else◌, All, bit_xor, arith,
}
use native.Mathlib.Nat.{
  pow-suc, pow-succ', one-le-pow, mul-le-mul_left, mul_assoc, add-zero, zero-add,
}
use nginx_hls_module.Run.{ok, ◌>>=◌, deref}
use nginx_hls_module.Ts.Crc.{crc32, get_crc32}

-- The generator of the transport stream's checksum, without its leading term.
abbrev pub generator : ℕ
generator = 0x04c11db7

-- Multiplication by x, and the remainder.
unfoldable pub shift : ℕ → ℕ
shift r = if ltb r (2 ^ 31) then r * 2 else bit_xor (r * 2 - 2 ^ 32) generator

unfoldable pub shift_times : ℕ → ℕ → ℕ
shift_times zero r = r
shift_times (suc n) r = shift_times n (shift r)

-- The remainder with each byte brought in at the top.
unfoldable pub remainder : ℕ → List ℕ → ℕ
remainder r [] = r
remainder r (b ∷ bs) = remainder (shift_times 8 (bit_xor r (b * 2 ^ 24))) bs

entries_from : ℕ → ℕ → List ℕ
entries_from i zero = []
entries_from i (suc n) = shift_times 8 (i * 2 ^ 24) ∷ entries_from (suc i) n

table_entries : crc32 ≡ entries_from 0 256
unfolding entries_from shift_times shift
table_entries = refl

-- The step is linear, as are its two cases.
scaled : ℕ → ℕ
scaled zero = 0
scaled (suc h) = generator

shift-fields : (h l : ℕ) → h < 2 → l < 2 ^ 31 → shift (h * 2 ^ 31 + l) ≡ bit_xor (l * 2) (scaled h)
unfolding shift scaled
shift-fields zero l low small = ground (arith, bit_xor-zero (l * 2))
shift-fields (suc zero) l low small =
    let over : (1 * 2 ^ 31 + l) * 2 - 2 ^ 32 ≡ l * 2 = omega arith in
    rw (le→ltb (1 * 2 ^ 31 + l) (2 ^ 31) (omega arith), over) refl
shift-fields (suc (suc h)) l low small = absurd (omega arith)

scaled-xor : (g h : ℕ) → g < 2 → h < 2 → scaled (bit_xor g h) ≡ bit_xor (scaled g) (scaled h)
unfolding scaled
scaled-xor zero zero _ _ = refl
scaled-xor zero (suc zero) _ _ = refl
scaled-xor (suc zero) zero _ _ = refl
scaled-xor (suc zero) (suc zero) _ _ = refl
scaled-xor zero (suc (suc h)) _ big = absurd (omega arith)
scaled-xor (suc zero) (suc (suc h)) _ big = absurd (omega arith)
scaled-xor (suc (suc g)) h big _ = absurd (omega arith)

interchange :
    (a b c d : ℕ) → bit_xor (bit_xor a b) (bit_xor c d) ≡ bit_xor (bit_xor a c) (bit_xor b d)
interchange a b c d =
    bit_xor_assoc a b (bit_xor c d)
    ∙ ap (bit_xor a)
        (sym (bit_xor_assoc b c d) ∙ ap (λ t. bit_xor t d) (bit_xor_comm b c) ∙ bit_xor_assoc c b d)
    ∙ sym (bit_xor_assoc a c (bit_xor b d))

shift-fields_xor :
    (g k h l : ℕ)
    → g < 2
    → k < 2 ^ 31
    → h < 2
    → l < 2 ^ 31
    → shift (bit_xor (g * 2 ^ 31 + k) (h * 2 ^ 31 + l))
      ≡ bit_xor (shift (g * 2 ^ 31 + k)) (shift (h * 2 ^ 31 + l))
shift-fields_xor g k h l bg bk bh bl =
    rw
      (
        bit_xor_fields 31 g k h l bk bl,
        shift-fields (bit_xor g h) (bit_xor k l) (bit_xor-lt 1 g h bg bh) (bit_xor-lt 31 k l bk bl),
        shift-fields g k bg bk,
        shift-fields h l bh bl,
        scaled-xor g h bg bh,
        interchange (k * 2) (scaled g) (l * 2) (scaled h),
      )
      (ap (λ t. bit_xor t (bit_xor (scaled g) (scaled h))) (sym (bit_xor_twice k l)))

shift-xor : (x y : ℕ) → x < 2 ^ 32 → y < 2 ^ 32 → shift (bit_xor x y) ≡ bit_xor (shift x) (shift y)
shift-xor x y hx hy =
    let ex : x / 2 ^ 31 * 2 ^ 31 + x % 2 ^ 31 ≡ x = omega arith in
    let ey : y / 2 ^ 31 * 2 ^ 31 + y % 2 ^ 31 ≡ y = omega arith in
    let fields =
      shift-fields_xor (x / 2 ^ 31) (x % 2 ^ 31) (y / 2 ^ 31) (y % 2 ^ 31) (omega arith)
        (omega arith) (omega arith) (omega arith) in
    subst (λ a. shift (bit_xor a y) ≡ bit_xor (shift a) (shift y)) ex
      (subst
        (λ b.
          shift (bit_xor (x / 2 ^ 31 * 2 ^ 31 + x % 2 ^ 31) b)
          ≡ bit_xor (shift (x / 2 ^ 31 * 2 ^ 31 + x % 2 ^ 31)) (shift b))
        ey fields)

shift-lt : (r : ℕ) → r < 2 ^ 32 → shift r < 2 ^ 32
unfolding shift
shift-lt r h = ground (arith, bit_xor-lt 32 (r * 2 - 2 ^ 32) generator)

shift_times-xor :
    (n x y : ℕ)
    → x < 2 ^ 32
    → y < 2 ^ 32
    → shift_times n (bit_xor x y) ≡ bit_xor (shift_times n x) (shift_times n y)
unfolding shift_times
shift_times-xor zero x y hx hy = refl
shift_times-xor (suc n) x y hx hy =
    ap (shift_times n) (shift-xor x y hx hy)
    ∙ shift_times-xor n (shift x) (shift y) (shift-lt x hx) (shift-lt y hy)

-- A remainder with n free places is shifted into them.
shift_times_small : (n r : ℕ) → r * 2 ^ n < 2 ^ 32 → shift_times n r ≡ r * 2 ^ n
unfolding shift_times shift
shift_times_small zero r h = omega arith
shift_times_small (suc n) r h =
    let enough : 2 ≤ 2 ^ suc n = omega (arith, pow-suc 2 n, one-le-pow n 2) in
    let wide : r * 2 ≤ r * 2 ^ suc n = mul-le-mul_left r enough in
    let double : shift r ≡ r * 2 = ground arith in
    let same : r * 2 * 2 ^ n ≡ r * 2 ^ suc n =
      mul_assoc r 2 (2 ^ n) ∙ ap (λ t. r * t) (sym (pow-succ' 2 n)) in
    ap (shift_times n) double ∙ shift_times_small n (r * 2) (omega arith) ∙ same

shift_times-lt : (n r : ℕ) → r < 2 ^ 32 → shift_times n r < 2 ^ 32
unfolding shift_times
shift_times-lt zero r h = h
shift_times-lt (suc n) r h = shift_times-lt n (shift r) (shift-lt r h)

get_elem?-entries_from :
    (i n k : ℕ) → k < n → get_elem? (entries_from i n) k ≡ some (shift_times 8 ((i + k) * 2 ^ 24))
unfolding entries_from
get_elem?-entries_from i zero k h = absurd (omega arith)
get_elem?-entries_from i (suc n) zero h = rw (add-zero i) refl
get_elem?-entries_from i (suc n) (suc k) h =
    get_elem?-entries_from (suc i) n k (omega arith)
    ∙ ap (λ t. some (shift_times 8 (t * 2 ^ 24))) (omega arith)

get_elem?-crc32 : (i : ℕ) → i < 256 → get_elem? crc32 i ≡ some (shift_times 8 (i * 2 ^ 24))
get_elem?-crc32 i h =
    ap (λ t. get_elem? t i) table_entries
    ∙ get_elem?-entries_from 0 256 i h
    ∙ ap (λ t. some (shift_times 8 (t * 2 ^ 24))) (zero-add i)

-- `bit_xor r (b * 2 ^ 24)` by fields.
top_field :
    (p q b : ℕ) → q < 2 ^ 24 → bit_xor (p * 2 ^ 24 + q) (b * 2 ^ 24) ≡ bit_xor p b * 2 ^ 24 + q
top_field p q b small =
    ap (bit_xor (p * 2 ^ 24 + q)) (sym (add-zero (b * 2 ^ 24)))
    ∙ bit_xor_fields 24 p q b 0 small (omega arith)
    ∙ ap (λ t. bit_xor p b * 2 ^ 24 + t) (bit_xor-zero q)

byte_step :
    (r b : ℕ)
    → r < 2 ^ 32
    → b < 256
    → bit_xor (r * 2 ^ 8 % 2 ^ 32) (shift_times 8 (bit_xor (r / 2 ^ 24) b * 2 ^ 24))
      ≡ shift_times 8 (bit_xor r (b * 2 ^ 24))
byte_step r b hr hb =
    let x = bit_xor (r / 2 ^ 24) b in
    let lo = r % 2 ^ 24 in
    let hx : bit_xor (r / 2 ^ 24) b < 256 = bit_xor-lt 8 (r / 2 ^ 24) b (omega arith) hb in
    let low : r * 2 ^ 8 % 2 ^ 32 ≡ shift_times 8 (r % 2 ^ 24) =
      omega (arith, shift_times_small 8 (r % 2 ^ 24) (omega arith)) in
    let split : r / 2 ^ 24 * 2 ^ 24 + r % 2 ^ 24 ≡ r = omega arith in
    let joined : bit_xor (r % 2 ^ 24) (x * 2 ^ 24) ≡ bit_xor r (b * 2 ^ 24) =
      ap (λ t. bit_xor t (x * 2 ^ 24)) (sym (zero-add lo))
      ∙ top_field 0 lo x (omega arith)
      ∙ ap (λ t. t * 2 ^ 24 + lo) (bit_xor_comm 0 x ∙ bit_xor-zero x)
      ∙ sym (top_field (r / 2 ^ 24) lo b (omega arith))
      ∙ ap (λ t. bit_xor t (b * 2 ^ 24)) split in
    ap (λ t. bit_xor t (shift_times 8 (x * 2 ^ 24))) low
    ∙ sym (shift_times-xor 8 lo (x * 2 ^ 24) (omega arith) (omega arith))
    ∙ ap (shift_times 8) joined

-- On bytes, from a remainder of 32 bits on, `get_crc32` does not leave its table and returns the
-- remainder of the division by the generator, done bit by bit.
pub get_crc32-remainder :
    (crc : ℕ) (bs : List ℕ)
    → crc < 2 ^ 32
    → All (λ b. b < 256) bs
    → get_crc32 crc bs ≡ ok (remainder crc bs)
unfolding get_crc32 remainder
get_crc32-remainder crc [] h octets = refl
get_crc32-remainder crc (b ∷ bs) h octets =
    let index =
      get_elem?-crc32 (bit_xor (crc / 2 ^ 24) b)
        (bit_xor-lt 8 (crc / 2 ^ 24) b (omega arith) octets.0) in
    let below = octets.0 in
    ap (λ o. deref o >>= λ t. get_crc32 (bit_xor (crc * 2 ^ 8 % 2 ^ 32) t) bs) index
    ∙ ap (λ c. get_crc32 c bs) (byte_step crc b h octets.0)
    ∙ get_crc32-remainder (shift_times 8 (bit_xor crc (b * 2 ^ 24))) bs
        (shift_times-lt 8 (bit_xor crc (b * 2 ^ 24))
          (bit_xor-lt 32 crc (b * 2 ^ 24) h (omega arith)))
        octets.1

pub remainder-lt :
    (crc : ℕ) (bs : List ℕ) → crc < 2 ^ 32 → All (λ b. b < 256) bs → remainder crc bs < 2 ^ 32
unfolding remainder
remainder-lt crc [] h octets = h
remainder-lt crc (b ∷ bs) h octets =
    remainder-lt (shift_times 8 (bit_xor crc (b * 2 ^ 24))) bs
      (shift_times-lt 8 (bit_xor crc (b * 2 ^ 24))
        (bit_xor-lt 32 crc (b * 2 ^ 24) h (let small = octets.0 in omega arith)))
      octets.1
