-- ===== src/Reader/Copies.antt =====
-- What `read_32` and the copying loop return where the memory holds given bytes.
use nginx_hls_module.Base.{ℕ, ◌+◌, ◌^◌, ◌<◌, ◌≡◌, refl, ◌∙◌, ap, List, [], ◌∷◌, ◌++◌, length, arith}
use native.Mathlib.Nat.{mod-eq_of_lt}
use nginx_hls_module.Run.{ok}
use nginx_hls_module.Memory.{Memory, IsMemory, Readable, read_32}
use nginx_hls_module.Memory.Reads.{read_8-byte_at, read_32-be_32}
use nginx_hls_module.Memory.Holds.{Holds, Holds-left, bytes_32, be_32_of_Holds}
use nginx_hls_module.Reader.Rows.{read_rows}
use nginx_hls_module.Reader.Headers.{copy_bytes}

module _ {m : Memory} (wf : IsMemory m) where
  pub copy_bytes-Holds :
      (p : ℕ) (bs : List ℕ)
      → Holds m p bs
      → Readable m p (length bs)
      → copy_bytes m p (length bs) ≡ ok bs
  unfolding copy_bytes read_rows
  copy_bytes-Holds p [] h r = refl
  copy_bytes-Holds p (b ∷ bs) h r =
      rw (read_8-byte_at wf p (omega arith), h.0, copy_bytes-Holds (p + 1) bs h.1 (omega arith))
        refl

  pub read_32-Holds :
      (p n : ℕ) (bs : List ℕ)
      → n < 2 ^ 32
      → Readable m p 4
      → Holds m p (bytes_32 n ++ bs)
      → read_32 m p ≡ ok n
  read_32-Holds p n bs small r h =
      read_32-be_32 wf p r
      ∙ ap ok (be_32_of_Holds m p n (Holds-left m p (bytes_32 n) bs h) ∙ mod-eq_of_lt small)
