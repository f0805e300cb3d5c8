-- ===== src/File/Written.antt =====
-- A header that `mp4_atom_write_header` writes is read back from the file that holds it.
use nginx_hls_module.Base.{
  ℕ, ◌+◌, ◌≡◌, refl, sym, List, ◌++◌, Option, Bool-cases, inl, inr, length, arith, subst,
}
use native.Mathlib.Nat.{mod-eq_of_lt}
use nginx_hls_module.Run.{Run, ◌>>=◌}
use nginx_hls_module.Run.Returns.{Returns, returns, bind}
use nginx_hls_module.Memory.{Memory, IsMemory, Readable, write_32}
use nginx_hls_module.Memory.Holds.{bytes_32, bytes_64}
use nginx_hls_module.Memory.Writes.{
  Stored, Stored-append, Rewritten-Readable, write_32-Stored, write_64-Stored,
}
use nginx_hls_module.File.{FileAtom, Mp4Context}
use nginx_hls_module.File.Open.{mp4_atom_write_header, mp4_atom_read_header}
use nginx_hls_module.File.State.{IsFile, IsContext}
use nginx_hls_module.File.Header.{
  wide, header_bytes, IsHeader, At, HeaderRead, mp4_atom_read_header-header,
}

-- The length that is returned, and the memory with the bytes at `p`.
abbrev pub Placed : Memory → ℕ → List ℕ → ℕ × Memory → Type 0
Placed m p bs (n, m') = (n ≡ length bs) × Stored m p bs m'

module _ {m : Memory} (wf : IsMemory m) (p : ℕ) (r : Readable m p 16) where
  two_words :
      (x y : ℕ) (k : ℕ × Memory → Run (ℕ × Memory)) {Q : ℕ × Memory → Type 0}
      → ((m' : Memory) → Stored m p (bytes_32 x ++ bytes_32 y) m' → (q : ℕ) → Returns Q (k (q, m')))
      → Returns Q (do (q1, m1) ← write_32 m p x; w ← write_32 m1 (p + 4) y; k w)
  two_words x y k next = bind (write_32-Stored wf p x (omega arith)) λ (q1, m1) (e1, s1).
      let w1 = s1.rewritten in
      bind (write_32-Stored w1.wf (p + 4) y (Rewritten-Readable (p + 4) 4 w1 (omega arith)))
        λ (q2, m2) (e2, s2). next m2 (Stored-append p (bytes_32 x) (bytes_32 y) s1 s2) q2

  mp4_atom_write_header-Placed :
      (a : FileAtom)
      → IsHeader a
      → Returns (Placed m p (header_bytes a)) (mp4_atom_write_header m p a)
  unfolding mp4_atom_write_header
  mp4_atom_write_header-Placed a h = elim (Bool-cases (wide a)) [
    | inl long ↦
        let same : header_bytes a ≡ bytes_32 1 ++ bytes_32 a.type ++ bytes_64 a.size =
          rw long refl in
        subst (λ bs. Returns (Placed m p bs) (mp4_atom_write_header m p a)) (sym same)
          (rw (long, mp4_atom_write_header)
            (two_words 1 a.type _ (λ m' s q.
              let w = s.rewritten in
              bind
                (write_64-Stored w.wf (p + 8) a.size (Rewritten-Readable (p + 8) 8 w (omega arith)))
                λ (q3, m3) (e3, s3).
                  returns (
                    refl,
                    Stored-append p (bytes_32 1 ++ bytes_32 a.type) (bytes_64 a.size) s s3,
                  ))))
    | inr short ↦
        let same : header_bytes a ≡ bytes_32 a.size ++ bytes_32 a.type = rw short refl in
        let (alike, small) = h.narrow (λ e. ground arith) in
        subst (λ bs. Returns (Placed m p bs) (mp4_atom_write_header m p a)) (sym same)
          (rw (short, mod-eq_of_lt small, mp4_atom_write_header)
            (two_words a.size a.type _ (λ m' s q. returns (refl, s))))
  ]

  -- A header that is written, 16 bytes of room given, has the length that is returned and its bytes
  -- stand at `p`; where a file has these bytes, reading them there gives the atom back.
  pub mp4_atom_write_header-mp4_atom_read_header :
      {contents : List ℕ} {ngx_palloc : ℕ → Option ℕ} {ngx_read_file : ℕ → ℕ → Option (List ℕ)}
      → IsFile contents ngx_palloc ngx_read_file
      → (c : Mp4Context) (a : FileAtom) → IsContext contents c
      → IsHeader a
      → a.start ≡ c.offset
      → At contents c.offset (header_bytes a)
      → Returns (Placed m p (header_bytes a)) (mp4_atom_write_header m p a)
        × Returns (HeaderRead contents c a) (mp4_atom_read_header ngx_palloc ngx_read_file c)
  mp4_atom_write_header-mp4_atom_read_header file c a h w at there =
      (mp4_atom_write_header-Placed a w, mp4_atom_read_header-header file c a h w at there)
