-- ===== src/File/Open.antt =====
-- src/mp4_io.h, `mp4_atom_read_header`, `mp4_atom_write_header`, `read_box` and `mp4_open`. The
-- context itself is always allocated. `now` is the time and `malloc` places copies, as for the
-- readers of the movie.
use nginx_hls_module.Base.{
  ℕ, zero, suc, ◌+◌, ◌-◌, ◌%◌, ◌^◌, List, Option, none, some, ltb, ◌==◌, ◌||◌, if◌then◌else◌,
}
use nginx_hls_module.Run.{Run, ok, out_of_fuel, ◌>>=◌, deref}
use nginx_hls_module.Memory.{Memory, read_32, read_64, write_32, write_64}
use nginx_hls_module.Mp4.{fourcc, atom_preamble_size}
use nginx_hls_module.Reader.Tree.{is_set}
use nginx_hls_module.Reader.Moov.{moov_read}
use nginx_hls_module.File.{FileAtom, Mp4Context, mp4_context_init, minus, mp4_read}

-- The length of the header that is written, and the memory behind it.
unfoldable pub mp4_atom_write_header : Memory → ℕ → FileAtom → Run (ℕ × Memory)
mp4_atom_write_header m p atom = do
  let wide = atom.short_size == 1
  (q1, m1) ← write_32 m p (if wide then 1 else atom.size % 2 ^ 32)
  (q2, m2) ← write_32 m1 (p + 4) atom.type
  if wide then (do (q3, m3) ← write_64 m2 (p + 8) atom.size; ok (16, m3)) else ok (8, m2)

-- An atom is refused where it is smaller than its header.
abbrev pub sized : FileAtom → Mp4Context → Option FileAtom × Mp4Context
sized atom c = (if ltb atom.size atom_preamble_size then none else some atom, c)

-- The movie in what `read_box` returned; `none` where the file is given up.
unfoldable pub parse_box :
    ℕ → (ℕ → ℕ) → ℕ → FileAtom → Option ℕ × Mp4Context → Run (Option Mp4Context)
parse_box now malloc rounds leaf (none, c) = ok none
parse_box now malloc rounds leaf (some p, c) = do
  m ← deref c.buffer
  movie ← moov_read now malloc rounds m (p + atom_preamble_size) (leaf.size - atom_preamble_size)
  ok (elim movie [
    | none ↦ none
    | some moov ↦
        if is_set moov.mvhd then some (record c { moov_data = some p; moov = some moov }) else none
  ])

module _ (ngx_palloc : ℕ → Option ℕ) (ngx_read_file : ℕ → ℕ → Option (List ℕ)) where
  -- The 64-bit size, which is read behind the eight bytes of the header.
  unfoldable pub extended_size : Mp4Context → FileAtom → Run (Option FileAtom × Mp4Context)
  extended_size c atom =
      let r = mp4_read ngx_palloc ngx_read_file c 8 c.offset in
      elim r.0 [
        | none ↦ ok (none, r.1)
        | some p ↦ do
          m ← deref r.1.buffer
          n ← read_64 m p
          ok (sized (record atom { size = n }) r.1)
      ]

  unfoldable pub mp4_atom_read_header : Mp4Context → Run (Option FileAtom × Mp4Context)
  mp4_atom_read_header c =
      let r = mp4_read ngx_palloc ngx_read_file c 8 c.offset in
      elim r.0 [
        | none ↦ ok (none, r.1)
        | some p ↦ do
          m ← deref r.1.buffer
          short ← read_32 m p
          kind ← read_32 m (p + 4)
          let atom : FileAtom = record {
            type = kind;
            short_size = short;
            size = short;
            start = c.offset;
          }
          if short == 1 then extended_size r.1 atom else ok (sized atom r.1)
      ]

  unfoldable pub read_box : ℕ → Mp4Context → FileAtom → Option ℕ × Mp4Context
  read_box max_buffer_size c atom =
      if ltb max_buffer_size atom.size
      then (none, c)
      else let r = mp4_read ngx_palloc ngx_read_file c atom.size atom.start in
        elim r.0 [
          | none ↦ (none, r.1)
          | some p ↦ (some p, record r.1 { offset = minus r.1.offset 8 })
        ]

  module _ (max_buffer_size now : ℕ) (malloc : ℕ → ℕ) (rounds : ℕ) where
    -- The case of `moov`.
    unfoldable pub open_moov : Mp4Context → FileAtom → Run (Option Mp4Context)
    open_moov c leaf =
        parse_box now malloc rounds leaf
          (read_box max_buffer_size (record c { moov_atom = leaf }) leaf)

    unfoldable pub open_atom : Mp4Context → FileAtom → Run (Option Mp4Context)
    open_atom c leaf =
        if leaf.type == fourcc b'f' b't' b'y' b'p'
        then ok (some (record c { ftyp_atom = leaf }))
        else if leaf.type == fourcc b'm' b'o' b'o' b'v'
        then open_moov c leaf
        else if leaf.type == fourcc b'm' b'd' b'a' b't'
        then ok (some (record c { mdat_atom = leaf }))
        else ok (some c)

    -- Until a `moov` and an `mdat` have been seen, or a header cannot be read.
    unfoldable pub open_loop : ℕ → Mp4Context → Run (Option Mp4Context)
    open_loop zero c =
        if (c.moov_atom.size == 0) || (c.mdat_atom.size == 0) then out_of_fuel else ok (some c)
    open_loop (suc fuel) c =
        if (c.moov_atom.size == 0) || (c.mdat_atom.size == 0)
        then (do
          (header, c1) ← mp4_atom_read_header c
          elim header [
            | none ↦ ok (some c1)
            | some leaf ↦ do
              opened ← open_atom c1 leaf
              elim opened [
                | none ↦ ok none
                | some c2 ↦
                    open_loop fuel (record c2 { offset = (leaf.start + leaf.size) % 2 ^ 64 })
              ]
          ])
        else ok (some c)

    unfoldable pub mp4_open : ℕ → ℕ → ℕ → Run (Option Mp4Context)
    mp4_open fuel conf_buffer_size filesize =
        open_loop fuel (mp4_context_init conf_buffer_size filesize)
