-- ===== src/File/Movie.antt =====
-- The movie that `mp4_open` finds in a file.
use nginx_hls_module.Base.{
  ℕ, suc, ◌+◌, ◌-◌, ◌%◌, ◌^◌, ◌≤◌, ◌<◌, ◌≡◌, refl, ap, ◌∙◌, List, Option, none, some, false, ltb,
  if◌then◌else◌, length, take, drop, arith,
}
use native.Mathlib.Nat.{mod-eq_of_lt}
use nginx_hls_module.Run.{ok, ◌>>=◌}
use nginx_hls_module.Memory.{Memory, IsMemory, Readable}
use nginx_hls_module.Memory.Holds.{Holds}
use nginx_hls_module.Mp4.Tree.{Moov}
use nginx_hls_module.Reader.Tree.{is_set}
use nginx_hls_module.Reader.Moov.{moov_read}
use nginx_hls_module.File.{FileAtom, Mp4Context, mp4_context_init, mp4_read, minus}
use nginx_hls_module.File.Open.{read_box, parse_box, open_moov, open_atom, open_loop, mp4_open}
use nginx_hls_module.File.State.{IsFile, IsContext, IsContext-other}
use nginx_hls_module.File.Window.{mp4_read-Window}
use nginx_hls_module.File.Walk.{
  Stands, Others, Walked, moov_type, mdat_type, round, header_at, skip-Others, tests,
}
use nginx_hls_module.File.Media.{movie_of, with_header, go_on, open_movie, find_mdat, finish}

-- A file that `mp4_open` finds a movie in: other atoms, the movie, which lies in the file and is not
-- larger than a buffer may be, other atoms, and the header of the media data.
pub record IsMovieFile (contents : List ℕ) (max_buffer_size before between : ℕ) (v d : FileAtom)
    : Type 0 where
  pub in_front : Others contents before 0 v.start
  pub movie : Stands contents v
  pub movie_type : v.type ≡ moov_type
  pub whole : v.start + v.size ≤ length contents
  pub limit : v.size ≤ max_buffer_size
  pub behind : Others contents between (v.start + v.size) d.start
  pub media : Stands contents d
  pub media_type : d.type ≡ mdat_type

-- The bytes of an atom, in an allocation.
pub record Loaded (contents : List ℕ) (v : FileAtom) : Type 0 where
  pub buffer : Memory
  pub place : ℕ
  pub allocation : IsMemory buffer
  pub readable : Readable buffer place v.size
  pub holds : Holds buffer place (take v.size (drop v.start contents))

module _ {contents : List ℕ} {ngx_palloc : ℕ → Option ℕ} {ngx_read_file : ℕ → ℕ → Option (List ℕ)}
    (file : IsFile contents ngx_palloc ngx_read_file) {max_buffer_size before between : ℕ}
    {v d : FileAtom} (shape : IsMovieFile contents max_buffer_size before between v d) where
  -- The context with a movie.
  abbrev opened : Mp4Context → ℕ → Moov → Mp4Context
  opened c place moov = record c {
    offset = minus c.offset 8;
    moov_data = some place;
    moov = some moov;
  }

  -- The case of the movie, after a header has been read.
  open_atom-moov :
      (now : ℕ) (malloc : ℕ → ℕ) (rounds : ℕ) (c : Mp4Context)
      → IsContext contents c
      → (l : Loaded contents v) × (c' : Mp4Context) × IsContext contents c'
        × (c'.moov_atom ≡ v)
        × (c'.mdat_atom ≡ c.mdat_atom)
        × (open_atom ngx_palloc ngx_read_file max_buffer_size now malloc rounds c v ≡ (
            moov_read now malloc rounds l.buffer (l.place + 8) (v.size - 8) >>= λ movie.
            ok (elim movie [
              | none ↦ none
              | some moov ↦ if is_set moov.mvhd then some (opened c' l.place moov) else none
            ])))
  unfolding open_moov parse_box read_box
  open_atom-moov now malloc rounds c h =
      let h1 = IsContext-other c h c.offset c.ftyp_atom c.mdat_atom v c.moov_data c.moov in
      let t = mp4_read-Window file (record c { moov_atom = v }) v.size v.start h1 shape.whole in
      let c' = (mp4_read ngx_palloc ngx_read_file (record c { moov_atom = v }) v.size v.start).1 in
      let small : ltb max_buffer_size v.size ≡ false = ground (arith, shape.limit) in
      let box : read_box ngx_palloc ngx_read_file max_buffer_size (record c { moov_atom = v }) v
          ≡ (some t.place, record c' { offset = minus c'.offset 8 }) =
        rw (small, t.found, read_box) refl in
      (
        record {
          buffer = t.buffer;
          place = t.place;
          allocation = t.allocation;
          readable = t.readable;
          holds = t.holds;
        },
        c',
        t.keeps,
        ap (λ (x : Mp4Context). x.moov_atom) t.frame,
        ap (λ (x : Mp4Context). x.mdat_atom) t.frame,
        open_movie file max_buffer_size now malloc rounds c v shape.movie_type
            ∙ ap (parse_box now malloc rounds v) box
            ∙ rw (t.current, parse_box) refl,
      )

  at_movie :
      (now : ℕ) (malloc : ℕ → ℕ) (rounds extra : ℕ) (c : Mp4Context)
      → Walked contents v.start 0 0 none c
      → (l : Loaded contents v) × ((open_loop ngx_palloc ngx_read_file max_buffer_size now malloc
              rounds
              (suc (between + suc extra))
              c
            >>= λ o. ok (movie_of o))
          ≡ (moov_read now malloc rounds l.buffer (l.place + 8) (v.size - 8) >>= λ r.
              ok (with_header r)))
  at_movie now malloc rounds extra c w =
      let (c1, e1, w1) = header_at file max_buffer_size now malloc rounds v c shape.movie w in
      let (l, c2, h2, same_moov, same_mdat, e2) = open_atom-moov now malloc rounds c1 w1.keeps in
      let next = (v.start + v.size) % 2 ^ 64 in
      let least = shape.movie.header.least in
      let go = go_on file max_buffer_size now malloc rounds (between + suc extra) in
      let ends : (moov : Moov)
          → (go (record (opened c2 l.place moov) { offset = next }) >>= λ o. ok (movie_of o))
            ≡ ok (some moov) =
        λ moov.
          find_mdat file max_buffer_size now malloc rounds extra
            (record (opened c2 l.place moov) { offset = next }) d
            (record {
              keeps =
                  IsContext-other c2 h2 next c2.ftyp_atom c2.mdat_atom c2.moov_atom (some l.place)
                    (some moov);
              place = mod-eq_of_lt (omega (arith, shape.whole, file.small));
              seen_moov = ap (λ (a : FileAtom). a.size) same_moov;
              seen_mdat = ap (λ (a : FileAtom). a.size) same_mdat ∙ w1.seen_mdat;
              parsed = refl;
            })
            (λ e. ground arith) shape.behind shape.media shape.media_type in
      (
        l,
        ap (λ r. r >>= λ o. ok (movie_of o))
              (round file max_buffer_size now malloc rounds (between + suc extra) v c c1 (tests c w)
                  e1
                ∙ ap
                    (λ r. r >>= λ o. elim o [
                      | none ↦ ok none
                      | some x ↦ go (record x { offset = next })
                    ])
                    e2)
            ∙ finish file max_buffer_size now malloc rounds
                (moov_read now malloc rounds l.buffer (l.place + 8) (v.size - 8))
                (opened c2 l.place) (λ x. go (record x { offset = next })) ends,
      )

  -- With a round for each atom up to the media data, the movie of the context that `mp4_open`
  -- returns is what `moov_read` makes of the bytes of the movie's atom behind the first eight, as
  -- they stand in the file, and none where the movie has no header: also where `moov_read` faults.
  pub mp4_open-moov_read :
      (conf_buffer_size now : ℕ) (malloc : ℕ → ℕ) (rounds fuel : ℕ)
      → conf_buffer_size < 2 ^ 62
      → before + between + 2 ≤ fuel
      → (l : Loaded contents v) × ((mp4_open ngx_palloc ngx_read_file max_buffer_size now malloc
              rounds fuel conf_buffer_size
              (length contents)
            >>= λ o. ok (movie_of o))
          ≡ (moov_read now malloc rounds l.buffer (l.place + 8) (v.size - 8) >>= λ r.
              ok (with_header r)))
  unfolding mp4_open mp4_context_init
  mp4_open-moov_read conf_buffer_size now malloc rounds fuel small enough =
      let start = mp4_context_init conf_buffer_size (length contents) in
      let w : Walked contents 0 0 0 none start = record {
        keeps = record { whole = refl; limit = small; unaligned = refl; buffered = λ b e. cc };
        place = refl;
        seen_moov = refl;
        seen_mdat = refl;
        parsed = refl;
      } in
      let extra = fuel - (before + between + 2) in
      let (c, w1, e1) =
        skip-Others file max_buffer_size now malloc rounds refl start shape.in_front
          (omega (arith, shape.whole)) w in
      let (l, e2) = at_movie now malloc rounds extra c w1 in
      (
        l,
        ap (λ n. go_on file max_buffer_size now malloc rounds n start >>= λ o. ok (movie_of o))
              (omega arith)
            ∙ ap (λ r. r >>= λ o. ok (movie_of o)) (e1 (suc (between + suc extra)))
            ∙ e2,
      )
