-- ===== src/Ts/Crc/Residue.antt =====
-- How a receiver checks a section: the checksum over a section and its own checksum is 0.
use nginx_hls_module.Base.{
  ℕ, ◌*◌, ◌/◌, ◌%◌, ◌^◌, ◌<◌, ◌≡◌, ◌∙◌, ap, List, [], ◌∷◌, ◌++◌, All, get_elem?, bit_xor,
  bit_xor_self, bit_xor-zero, arith,
}
use nginx_hls_module.Run.{ok, ◌>>=◌, deref, >>=-eq-ok}
use nginx_hls_module.Memory.Holds.{bytes_32}
use nginx_hls_module.Ts.Crc.{crc32, get_crc32}
use nginx_hls_module.Ts.Crc.Division.{remainder, remainder-lt, get_crc32-remainder}

get_crc32-append :
    (crc : ℕ) (xs ys : List ℕ) (r : ℕ)
    → get_crc32 crc xs ≡ ok r
    → get_crc32 crc (xs ++ ys) ≡ get_crc32 r ys
unfolding get_crc32
get_crc32-append crc [] ys r e = ap (λ c. get_crc32 c ys) cc
get_crc32-append crc (x ∷ xs) ys r e =
    let (t, found, rest) = >>=-eq-ok (deref (get_elem? crc32 (bit_xor (crc / 2 ^ 24) x))) _ e in
    ap (λ o. o >>= λ t. get_crc32 (bit_xor (crc * 2 ^ 8 % 2 ^ 32) t) (xs ++ ys)) found
    ∙ get_crc32-append (bit_xor (crc * 2 ^ 8 % 2 ^ 32) t) xs ys r rest

-- The highest byte of a remainder takes itself away.
cancel :
    (crc b : ℕ) (bs : List ℕ)
    → crc / 2 ^ 24 ≡ b
    → get_crc32 crc (b ∷ bs) ≡ get_crc32 (crc * 2 ^ 8 % 2 ^ 32) bs
unfolding get_crc32
cancel crc b bs e =
    let index : bit_xor (crc / 2 ^ 24) b ≡ 0 = ap (λ t. bit_xor t b) e ∙ bit_xor_self b in
    ap (λ x. deref (get_elem? crc32 x) >>= λ t. get_crc32 (bit_xor (crc * 2 ^ 8 % 2 ^ 32) t) bs)
      index
    ∙ ap (λ t. get_crc32 t bs) (bit_xor-zero (crc * 2 ^ 8 % 2 ^ 32))

get_crc32-bytes_32 : (r : ℕ) → r < 2 ^ 32 → get_crc32 r (bytes_32 r) ≡ ok 0
get_crc32-bytes_32 r h =
    let r1 = r * 2 ^ 8 % 2 ^ 32 in
    let r2 = r1 * 2 ^ 8 % 2 ^ 32 in
    let r3 = r2 * 2 ^ 8 % 2 ^ 32 in
    cancel r _ _ (omega arith)
    ∙ cancel r1 _ _ (omega arith)
    ∙ cancel r2 _ _ (omega arith)
    ∙ cancel r3 _ _ (omega arith)
    ∙ (unfold get_crc32 in ap ok (omega arith))

-- The checksum over bytes, in the four bytes that `write_32` makes of it, brings the checksum of
-- all of them to 0, from every start of 32 bits.
pub get_crc32-residue :
    (crc : ℕ) (bs : List ℕ)
    → crc < 2 ^ 32
    → All (λ b. b < 256) bs
    → (get_crc32 crc bs >>= λ r. get_crc32 crc (bs ++ bytes_32 r)) ≡ ok 0
get_crc32-residue crc bs h octets =
    let whole = get_crc32-remainder crc bs h octets in
    ap (λ m. m >>= λ r. get_crc32 crc (bs ++ bytes_32 r)) whole
    ∙ get_crc32-append crc bs (bytes_32 (remainder crc bs)) (remainder crc bs) whole
    ∙ get_crc32-bytes_32 (remainder crc bs) (remainder-lt crc bs h octets)
