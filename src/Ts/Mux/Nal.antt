-- ===== src/Ts/Mux/Nal.antt =====
-- `convert_to_nal` turns the lengths in front of the units into start codes.
use nginx_hls_module.Base.{
  ℕ, zero, suc, ◌+◌, ◌-◌, ◌%◌, ◌^◌, ◌≤◌, ◌<◌, ◌≡◌, ◌≢◌, refl, List, [], ◌∷◌, ◌++◌, some, false,
  ◌==◌, lt→ltb, le→ltb, length, length-append, arith,
}
use nginx_hls_module.Run.{ok}
use nginx_hls_module.Memory.{Memory, IsMemory, Readable}
use nginx_hls_module.Memory.Holds.{Holds, Holds-left, Holds-right, bytes_32}
use nginx_hls_module.Reader.Copies.{copy_bytes-Holds, read_32-Holds}
use nginx_hls_module.Ts.Mux.{nal_loop, convert_to_nal}

-- A sample: each unit behind its length.
unfoldable pub sample_of : List (List ℕ) → List ℕ
sample_of [] = []
sample_of (u ∷ us) = bytes_32 (length u) ++ u ++ sample_of us

-- The byte stream of Annex B of H.264: each unit behind a start code.
unfoldable pub annex_b : List (List ℕ) → List ℕ
annex_b [] = []
annex_b (u ∷ us) = bytes_32 1 ++ u ++ annex_b us

pub length-annex_b : (us : List (List ℕ)) → length (annex_b us) ≡ length (sample_of us)
unfolding annex_b sample_of
length-annex_b [] = refl
length-annex_b (u ∷ us) =
    omega (arith, length-append u (annex_b us), length-append u (sample_of us), length-annex_b us)

module _ {m : Memory} (wf : IsMemory m) where
  nal_loop-annex_b :
      (fuel first last room : ℕ) (us : List (List ℕ))
      → last ≡ first + length (sample_of us)
      → Holds m first (sample_of us)
      → Readable m first (length (sample_of us))
      → length (sample_of us) < 2 ^ 32
      → length us ≤ fuel
      → length (sample_of us) ≤ room
      → nal_loop fuel m first last room ≡ ok (some (annex_b us))
  unfolding nal_loop sample_of annex_b
  nal_loop-annex_b zero first last room [] e h r small enough fits =
      rw (le→ltb first last (omega arith)) refl
  nal_loop-annex_b (suc fuel) first last room [] e h r small enough fits =
      rw (le→ltb first last (omega arith)) refl
  nal_loop-annex_b zero first last room (u ∷ us) e h r small enough fits = absurd (omega arith)
  nal_loop-annex_b (suc fuel) first last room (u ∷ us) e h r small enough fits =
      let total = length-append u (sample_of us) in
      let behind : Holds m (first + 4) (u ++ sample_of us) =
        Holds-right m first (bytes_32 (length u)) (u ++ sample_of us) h in
      let next : Holds m (first + 4 + length u) (sample_of us) =
        Holds-right m (first + 4) u (sample_of us) behind in
      rw
        (
          lt→ltb first last (omega (arith, total)),
          read_32-Holds wf first (length u) (u ++ sample_of us) (omega (arith, total)) (omega arith)
              h,
          le→ltb ((last - first) % 2 ^ 32) (length u) (omega (arith, total)),
          copy_bytes-Holds wf (first + 4) u (Holds-left m (first + 4) u (sample_of us) behind)
              (omega (arith, total)),
          le→ltb room (4 + length u) (omega (arith, total)),
          nal_loop-annex_b fuel (first + 4 + length u) last (room - (4 + length u)) us
              (omega (arith, total)) next (omega (arith, total)) (omega (arith, total))
              (omega arith) (omega (arith, total)),
        )
        refl

  -- A sample of less than 2^32 bytes that is made of units behind their lengths, the first not of
  -- one byte, with room for it and a round for each unit: the units come out, each behind a start
  -- code.
  pub convert_to_nal-annex_b :
      (fuel first room : ℕ) (u : List ℕ) (us : List (List ℕ))
      → length u ≢ 1
      → Holds m first (sample_of (u ∷ us))
      → Readable m first (length (sample_of (u ∷ us)))
      → length (sample_of (u ∷ us)) < 2 ^ 32
      → length (u ∷ us) ≤ fuel
      → length (sample_of (u ∷ us)) ≤ room
      → convert_to_nal fuel m first (first + length (sample_of (u ∷ us))) room
        ≡ ok (some (annex_b (u ∷ us)))
  unfolding convert_to_nal sample_of
  convert_to_nal-annex_b fuel first room u us not_code h r small enough fits =
      let total = length-append u (sample_of us) in
      let same : (length u == 1) ≡ false = ground arith in
      rw
        (
          read_32-Holds wf first (length u) (u ++ sample_of us) (omega (arith, total)) (omega arith)
              h,
          same,
        )
        (nal_loop-annex_b fuel first (first + length (sample_of (u ∷ us))) room (u ∷ us) refl h r
          small enough fits)
