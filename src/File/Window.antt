-- ===== src/File/Window.antt =====
-- What `mp4_read` hands out: the bytes of the file, from the buffer or from a new read.
use nginx_hls_module.Base.{
  ℕ, ◌+◌, ◌-◌, ◌%◌, ◌^◌, ◌≤◌, ◌<◌, ◌≡◌, refl, sym, ap, ◌∙◌, List, Option, none, some, Bool-cases,
  Option-cases, true, false, not, ◌&&◌, inl, inr, ltb, eq→==, ◌==◌, if◌then◌else◌, length, take,
  drop, length-take, length-drop, subst, arith,
}
use mathlib.Core.Option.{some-injective}
use nginx_hls_module.Memory.{Memory, IsMemory}
use nginx_hls_module.File.{
  Mp4Context, signed_ltb, minus, ensure_size, in_buffer, fetch, fill, read_through, mp4_read,
}
use nginx_hls_module.File.Slices.{All-take, All-drop, in_allocation}
use nginx_hls_module.File.State.{IsFile, Buffered, IsContext, IsContext-other, Window}

-- What the test of a buffer that is there decides.
pub in_buffer-eq :
    (c : Mp4Context) (size pos : ℕ) (b : Memory)
    → c.buffer ≡ some b
    → in_buffer c size pos ≡ (
        if not (signed_ltb c.file_offset ((pos + size) % 2 ^ 64))
          && signed_ltb (minus c.file_offset c.buffer_size) pos
        then some ((b.base + minus pos (minus c.file_offset c.buffer_size)) % 2 ^ 64)
        else none)
unfolding in_buffer
in_buffer-eq c size pos b current = rw (current, in_buffer) refl

module _ {contents : List ℕ} {ngx_palloc : ℕ → Option ℕ} {ngx_read_file : ℕ → ℕ → Option (List ℕ)}
    (file : IsFile contents ngx_palloc ngx_read_file) where
  fetch-Window :
      (c : Mp4Context) (size pos n : ℕ)
      → c.filesize ≡ length contents
      → c.alignment ≡ false
      → size ≤ n
      → pos + n ≤ length contents
      → Window contents c size pos (fetch ngx_palloc ngx_read_file c size pos pos n)
  unfolding fetch
  fetch-Window c size pos n whole unaligned enough within =
      let (base, placed, top) = file.allocates n (omega arith) in
      let bs = take n (drop pos contents) in
      let b : Memory = record { base = base; bytes = bs } in
      let long : length bs ≡ n =
        length-take n (drop pos contents) (omega (arith, length-drop pos contents (omega arith))) in
      let full : (length bs == n) ≡ true = ground (arith, long) in
      let small = file.small in
      let wf : IsMemory b = record {
        octets = All-take _ n (drop pos contents) (All-drop _ pos contents file.octets);
        fits = omega (arith, long, top);
      } in
      let at : (base + minus pos pos) % 2 ^ 64 ≡ base + (pos - pos) = omega arith in
      let end : (pos + length bs) % 2 ^ 64 ≡ pos + n = omega (arith, long) in
      let inside =
        in_allocation contents b n pos size pos ((base + minus pos pos) % 2 ^ 64) refl within
          (omega arith) (omega arith) at in
      rw (placed, file.reads n pos within, full, fetch)
        (record {
          place = (base + minus pos pos) % 2 ^ 64;
          buffer = b;
          found = refl;
          current = refl;
          allocation = wf;
          readable = inside.0;
          holds = inside.1;
          moves = refl;
          frame = refl;
          keeps = record {
            whole = whole;
            limit = omega arith;
            unaligned = unaligned;
            buffered = λ b' e. subst (Buffered contents _) (some-injective b b' e) (record {
              allocation = wf;
              start = pos;
              behind = sym end;
              inside = omega arith;
              holds = refl;
            });
          };
        })

  -- A buffer that has the bytes hands them out.
  hit-Window :
      (c : Mp4Context) (size pos : ℕ) (b : Memory)
      → IsContext contents c
      → c.buffer ≡ some b
      → Buffered contents c b
      → pos + size ≤ length contents
      → (not (signed_ltb c.file_offset ((pos + size) % 2 ^ 64))
          && signed_ltb (minus c.file_offset c.buffer_size) pos)
        ≡ true
      → Window contents c size pos (
        some ((b.base + minus pos (minus c.file_offset c.buffer_size)) % 2 ^ 64),
        record c { offset = (c.offset + size) % 2 ^ 64 },
      )
  hit-Window c size pos b h current s within test =
      let small = file.small in
      let top = s.allocation.fits in
      let behind = s.behind in
      let start : minus c.file_offset c.buffer_size ≡ s.start = omega (arith, s.inside) in
      let test' = rw start at test in
      let p = (b.base + minus pos (minus c.file_offset c.buffer_size)) % 2 ^ 64 in
      let long : length b.bytes ≡ c.buffer_size =
        ap length s.holds
        ∙ length-take c.buffer_size (drop s.start contents)
            (omega (arith, length-drop s.start contents (omega (arith, s.inside)), s.inside)) in
      let low : s.start ≤ pos = ground (arith, s.inside) in
      let high : pos + size ≤ c.file_offset = ground (arith, s.inside) in
      let at : p ≡ b.base + (pos - s.start) = omega (arith, s.inside) in
      let inside =
        in_allocation contents b c.buffer_size s.start size pos p s.holds (omega (arith, s.inside))
          low (omega arith) at in
      record {
        place = p;
        buffer = b;
        found = refl;
        current = current;
        allocation = s.allocation;
        readable = inside.0;
        holds = inside.1;
        moves = refl;
        frame = refl;
        keeps =
            IsContext-other c h ((c.offset + size) % 2 ^ 64) c.ftyp_atom c.mdat_atom c.moov_atom
              c.moov_data c.moov;
      }

  pub ensure_size-IsContext :
      (c : Mp4Context) (size : ℕ)
      → IsContext contents c
      → size < 2 ^ 62
      → IsContext contents (ensure_size c size) × (size ≤ (ensure_size c size).buffer_size)
  unfolding ensure_size
  ensure_size-IsContext c size h small = elim (Bool-cases (ltb c.buffer_size size)) [
    | inl short ↦
        rw (short, h.unaligned)
          (
            record { whole = h.whole; limit = small; unaligned = refl; buffered = λ b e. cc },
            omega arith,
          )
    | inr enough ↦ rw enough (h, ground arith)
  ]

  ensured-Window :
      (c : Mp4Context) (size pos : ℕ) {r : Option ℕ × Mp4Context}
      → Window contents (ensure_size c size) size pos r
      → Window contents c size pos r
  unfolding ensure_size
  ensured-Window c size pos w = elim (Bool-cases (ltb c.buffer_size size)) [
    | inl short ↦
        let v = rw (short) at w in
        record {
          place = v.place;
          buffer = v.buffer;
          found = v.found;
          current = v.current;
          allocation = v.allocation;
          readable = v.readable;
          holds = v.holds;
          moves = v.moves;
          frame = v.frame;
          keeps = v.keeps;
        }
    | inr enough ↦ rw enough at w
  ]

  fill-Window :
      (c : Mp4Context) (size pos : ℕ)
      → IsContext contents c
      → size ≤ c.buffer_size
      → pos + size ≤ length contents
      → Window contents c size pos (fill ngx_palloc ngx_read_file c size pos)
  unfolding fill
  fill-Window c size pos h enough within =
      let small = file.small in
      let limit = h.limit in
      let same : (pos == pos) ≡ true = eq→== pos pos refl in
      let clamp = signed_ltb c.filesize ((pos + c.buffer_size) % 2 ^ 64) in
      elim (Bool-cases clamp) [
        | inl over ↦
            let cut : minus c.filesize pos ≡ length contents - pos = omega (arith, h.whole) in
            simp (h.unaligned, same, over, cut, fill)
              (fetch-Window c size pos (length contents - pos) h.whole h.unaligned (omega arith)
                (omega arith))
        | inr inside ↦
            simp (h.unaligned, same, inside, fill)
              (fetch-Window c size pos c.buffer_size h.whole h.unaligned enough
                (ground (arith, h.whole)))
      ]

  read_through-Window :
      (c : Mp4Context) (size pos : ℕ)
      → IsContext contents c
      → size ≤ c.buffer_size
      → pos + size ≤ length contents
      → Window contents c size pos (read_through ngx_palloc ngx_read_file c size pos)
  unfolding read_through in_buffer
  read_through-Window c size pos h enough within = elim (Option-cases c.buffer) [
    | inl empty ↦
        let missed : in_buffer c size pos ≡ none = rw (empty, in_buffer) refl in
        rw (missed, read_through) (fill-Window c size pos h enough within)
    | inr (b, current) ↦
        let test =
          not (signed_ltb c.file_offset ((pos + size) % 2 ^ 64))
          && signed_ltb (minus c.file_offset c.buffer_size) pos in
        let eq = in_buffer-eq c size pos b current in
        elim (Bool-cases test) [
          | inl hit ↦
              let found = rw hit at eq in
              rw (found, read_through)
                (hit-Window c size pos b h current (h.buffered b current) within hit)
          | inr missed ↦
              let found = rw missed at eq in
              rw (found, read_through) (fill-Window c size pos h enough within)
        ]
  ]

  -- Where the bytes asked for lie in the file, `mp4_read` returns them: from the buffer where the
  -- buffer has them, else from a new read, and the context stays one of the file.
  pub mp4_read-Window :
      (c : Mp4Context) (size pos : ℕ)
      → IsContext contents c
      → pos + size ≤ length contents
      → Window contents c size pos (mp4_read ngx_palloc ngx_read_file c size pos)
  unfolding mp4_read
  mp4_read-Window c size pos h within =
      let (h1, enough) = ensure_size-IsContext c size h (omega (arith, file.small)) in
      ensured-Window c size pos (read_through-Window (ensure_size c size) size pos h1 enough within)
