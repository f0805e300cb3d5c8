-- ===== src/Options.antt =====
-- src/moov.h, `starts_with` and `ends_with`. A string is the list of its bytes in front of the one
-- that ends it, none of them 0.
pub mod Strings
pub mod Parse
pub mod Split
use nginx_hls_module.Base.{
  ℕ, zero, suc, ◌-◌, List, [], ◌∷◌, Bool, true, false, none, some, ◌==◌, if◌then◌else◌, get_elem?,
  length,
}

unfoldable pub starts_with : List ℕ → List ℕ → Bool
starts_with input [] = true
starts_with [] (t ∷ ts) = false
starts_with (i ∷ is) (t ∷ ts) = let rest = starts_with is ts in if i == t then rest else false

-- The byte at a place of a string, the one that ends it included.
abbrev pub char_at : List ℕ → ℕ → ℕ
char_at s i = elim (get_elem? s i) [ none ↦ 0 | some c ↦ c ]

-- The loop, with `it` and `pit` at these places.
unfoldable pub ends_loop : List ℕ → List ℕ → ℕ → ℕ → Bool
ends_loop input test zero zero = true
ends_loop input test zero (suc pit) = false
ends_loop input test (suc it) zero = true
ends_loop input test (suc it) (suc pit) =
    let rest = ends_loop input test it pit in
    if char_at input (suc it) == char_at test (suc pit) then rest else false

unfoldable pub ends_with : List ℕ → List ℕ → Bool
ends_with input test = ends_loop input test (length input) (length test)
