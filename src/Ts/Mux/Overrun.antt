-- ===== src/Ts/Mux/Overrun.antt =====
-- The test in `convert_to_nal` counts the four bytes of the length in with the unit.
use nginx_hls_module.Base.{
  ℕ, zero, suc, ◌+◌, ◌-◌, ◌%◌, ◌^◌, ◌≤◌, ◌<◌, ◌≡◌, ◌≢◌, refl, List, [], ◌∷◌, none, ◌==◌, ltb,
  lt→ltb, le→ltb, get_elem?, length, false, Bool-cases, ltb→lt, ltb→le, inl, inr, arith,
}
use nginx_hls_module.Run.{fault}
use nginx_hls_module.Memory.{Memory, IsMemory, load, read_8}
use nginx_hls_module.Memory.Reads.{read_8-byte_at}
use nginx_hls_module.Memory.Holds.{Holds, bytes_32}
use nginx_hls_module.Reader.Rows.{read_rows}
use nginx_hls_module.Reader.Headers.{copy_bytes}
use nginx_hls_module.Ts.Mux.{nal_loop, convert_to_nal}
use nginx_hls_module.Reader.Copies.{read_32-Holds}

get_elem?_behind : (xs : List ℕ) (i : ℕ) → length xs ≤ i → get_elem? xs i ≡ none
get_elem?_behind [] i h = refl
get_elem?_behind (x ∷ xs) zero h = absurd (omega arith)
get_elem?_behind (x ∷ xs) (suc i) h = get_elem?_behind xs i (omega arith)

read_8-fault : (m : Memory) (p : ℕ) → m.base + length m.bytes ≤ p → read_8 m p ≡ fault
unfolding read_8 load
read_8-fault m p h =
    rw (le→ltb p m.base (omega arith), get_elem?_behind m.bytes (p - m.base) (omega arith)) refl

copy_bytes-fault :
    {m : Memory} (wf : IsMemory m) (p n : ℕ)
    → m.base ≤ p
    → p ≤ m.base + length m.bytes
    → m.base + length m.bytes < p + n
    → copy_bytes m p n ≡ fault
unfolding copy_bytes read_rows
copy_bytes-fault wf p zero above below over = absurd (omega arith)
copy_bytes-fault {m} wf p (suc n) above below over =
    elim (Bool-cases (ltb p (m.base + length m.bytes))) [
      | inl inside ↦
          let lt = ltb→lt p (m.base + length m.bytes) inside in
          rw
            (
              read_8-byte_at wf p (omega arith),
              copy_bytes-fault wf (p + 1) n (omega arith) (omega arith) (omega arith),
            )
            refl
      | inr outside ↦ rw (read_8-fault m p (ltb→le p (m.base + length m.bytes) outside)) refl
    ]

-- A unit whose length takes it up to four bytes behind the sample passes the test, and where the
-- allocation ends with the sample, it is read behind the allocation.
pub convert_to_nal_overrun :
    {m : Memory} (wf : IsMemory m) (fuel first last room n : ℕ)
    → Holds m first (bytes_32 n)
    → m.base ≤ first
    → m.base + length m.bytes ≡ last
    → first + 4 ≤ last
    → last - first < 2 ^ 32
    → n ≢ 1
    → n ≤ last - first
    → last < first + 4 + n
    → convert_to_nal (suc fuel) m first last room ≡ fault
unfolding convert_to_nal nal_loop
convert_to_nal_overrun {m} wf fuel first last room n h above ends long small not_code passes over =
    let size = read_32-Holds wf first n [] (omega arith) (omega arith) h in
    let code : (n == 1) ≡ false = ground arith in
    rw
      (
        size,
        code,
        lt→ltb first last (omega arith),
        le→ltb ((last - first) % 2 ^ 32) n (omega arith),
        copy_bytes-fault wf (first + 4) n (omega arith) (omega arith) (omega arith),
      )
      refl
