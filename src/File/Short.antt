-- ===== src/File/Short.antt =====
-- A file that ends within the header of an atom: nothing tells `mp4_atom_read_header` that the read
-- was cut off at the end of the file.
use nginx_hls_module.Base.{
  ℕ, ◌+◌, ◌-◌, ◌%◌, ◌^◌, ◌≤◌, ◌<◌, ◌≡◌, refl, List, Option, none, some, Option-cases, true, inl,
  inr, ◌==◌, eq→==, length, take, drop, length-take, length-drop, arith,
}
use nginx_hls_module.Run.{fault}
use nginx_hls_module.Run.Finite.{bind-fault}
use nginx_hls_module.Memory.{Memory, read_32}
use nginx_hls_module.Memory.Finite.{read_32-fault, read_32-Finite}
use nginx_hls_module.File.{
  Mp4Context, signed_ltb, minus, ensure_size, in_buffer, fetch, fill, read_through, mp4_read,
}
use nginx_hls_module.File.Open.{mp4_atom_read_header}
use nginx_hls_module.File.State.{IsFile, IsContext}
use nginx_hls_module.File.Window.{ensure_size-IsContext, in_buffer-eq}

-- What a read that goes over the end of the file hands out: an address behind which the allocation
-- has only the bytes up to the end.
record Clipped (contents : List ℕ) (pos : ℕ) (r : Option ℕ × Mp4Context) : Type 0 where
  place : ℕ
  buffer : Memory
  found : r.0 ≡ some place
  current : r.1.buffer ≡ some buffer
  starts : place ≡ buffer.base
  rest : length buffer.bytes ≡ length contents - pos

module _ {contents : List ℕ} {ngx_palloc : ℕ → Option ℕ} {ngx_read_file : ℕ → ℕ → Option (List ℕ)}
    (file : IsFile contents ngx_palloc ngx_read_file) (size pos : ℕ)
    (starts : pos ≤ length contents) (over : length contents < pos + size)
    (small : size < 2 ^ 62) where
  fill-Clipped :
      (c : Mp4Context)
      → IsContext contents c
      → size ≤ c.buffer_size
      → Clipped contents pos (fill ngx_palloc ngx_read_file c size pos)
  unfolding fill fetch
  fill-Clipped c h enough =
      let n = length contents - pos in
      let (base, placed, top) = file.allocates n (omega arith) in
      let bs = take n (drop pos contents) in
      let long : length bs ≡ n =
        length-take n (drop pos contents) (omega (arith, length-drop pos contents starts)) in
      let full : (length bs == n) ≡ true = eq→== (length bs) n long in
      let limit = h.limit in
      let within = file.small in
      let same : (pos == pos) ≡ true = eq→== pos pos refl in
      let clamp : signed_ltb c.filesize ((pos + c.buffer_size) % 2 ^ 64) ≡ true =
        ground (arith, h.whole) in
      let cut : minus c.filesize pos ≡ n = omega (arith, h.whole) in
      simp
        (h.unaligned, same, clamp, cut, fill, placed, file.reads n pos (omega arith), full, fetch)
        (record {
          place = (base + minus pos pos) % 2 ^ 64;
          buffer = record { base = base; bytes = bs };
          found = refl;
          current = refl;
          starts = omega arith;
          rest = long;
        })

  read_through-Clipped :
      (c : Mp4Context)
      → IsContext contents c
      → size ≤ c.buffer_size
      → Clipped contents pos (read_through ngx_palloc ngx_read_file c size pos)
  unfolding read_through in_buffer
  read_through-Clipped c h enough =
      let missed : in_buffer c size pos ≡ none = elim (Option-cases c.buffer) [
        | inl empty ↦ rw (empty, in_buffer) refl
        | inr (b, current) ↦
            let s = h.buffered b current in
            let eq = in_buffer-eq c size pos b current in
            let within = file.small in
            let beyond : signed_ltb c.file_offset ((pos + size) % 2 ^ 64) ≡ true =
              ground (arith, s.inside) in
            rw beyond at eq
      ] in
      rw (missed, read_through) (fill-Clipped c h enough)

-- A header that starts in the file and goes over its end is read past the end of the buffer.
pub mp4_atom_read_header-Clipped :
    {contents : List ℕ} {ngx_palloc : ℕ → Option ℕ} {ngx_read_file : ℕ → ℕ → Option (List ℕ)}
    → IsFile contents ngx_palloc ngx_read_file
    → (c : Mp4Context) → IsContext contents c
    → c.offset ≤ length contents
    → length contents < c.offset + 8
    → mp4_atom_read_header ngx_palloc ngx_read_file c ≡ fault
unfolding mp4_atom_read_header mp4_read
mp4_atom_read_header-Clipped {contents} file c h starts over =
    let (h1, enough) = ensure_size-IsContext file c 8 h (omega arith) in
    let v =
      read_through-Clipped file 8 c.offset starts over (omega arith) (ensure_size c 8) h1 enough in
    let stops : read_32 v.buffer (v.place + 4) ≡ fault =
      read_32-fault v.buffer (v.place + 4) (omega (arith, v.starts, v.rest)) in
    rw (v.found, v.current, mp4_atom_read_header, mp4_read)
      (bind-fault _ (read_32-Finite v.buffer v.place) (λ short. rw stops refl))
