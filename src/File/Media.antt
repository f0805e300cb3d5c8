-- ===== src/File/Media.antt =====
-- The rounds of `mp4_open` from the movie on, and what becomes of the movie.
use nginx_hls_module.Base.{
  ℕ, zero, suc, ◌+◌, ◌%◌, ◌^◌, ◌≡◌, ◌≢◌, refl, ap, ◌∙◌, List, Option, none, some, Bool-cases, true,
  false, inl, inr, ◌==◌, ◌||◌, if◌then◌else◌, arith,
}
use nginx_hls_module.Run.{Run, ok, fault, out_of_fuel, ◌>>=◌}
use nginx_hls_module.Mp4.{fourcc}
use nginx_hls_module.Mp4.Tree.{Moov}
use nginx_hls_module.Reader.Tree.{is_set}
use nginx_hls_module.File.{FileAtom, Mp4Context}
use nginx_hls_module.File.Open.{open_moov, open_atom, open_loop}
use nginx_hls_module.File.State.{IsFile, IsContext-other}
use nginx_hls_module.File.Header.{At-within}
use nginx_hls_module.File.Walk.{
  Stands, Others, Walked, moov_type, mdat_type, round, header_at, skip-Others, tests,
}

abbrev pub movie_of : Option Mp4Context → Option Moov
movie_of none = none
movie_of (some c) = c.moov

-- A movie without its header counts as none.
abbrev pub with_header : Option Moov → Option Moov
with_header none = none
with_header (some moov) = if is_set moov.mvhd then some moov else none

module _ {contents : List ℕ} {ngx_palloc : ℕ → Option ℕ} {ngx_read_file : ℕ → ℕ → Option (List ℕ)}
    (file : IsFile contents ngx_palloc ngx_read_file) (max_buffer_size now : ℕ) (malloc : ℕ → ℕ)
    (rounds : ℕ) where
  abbrev pub go_on : ℕ → Mp4Context → Run (Option Mp4Context)
  go_on = open_loop ngx_palloc ngx_read_file max_buffer_size now malloc rounds

  open_mdat :
      (c : Mp4Context) (d : FileAtom)
      → d.type ≡ mdat_type
      → open_atom ngx_palloc ngx_read_file max_buffer_size now malloc rounds c d
        ≡ ok (some (record c { mdat_atom = d }))
  unfolding open_atom
  open_mdat c d kind =
      let not_ftyp = ap (λ n. n == fourcc b'f' b't' b'y' b'p') kind in
      let not_moov = ap (λ n. n == moov_type) kind in
      let is_mdat = ap (λ n. n == mdat_type) kind in rw (not_ftyp, not_moov, is_mdat) refl

  pub open_movie :
      (c : Mp4Context) (v : FileAtom)
      → v.type ≡ moov_type
      → open_atom ngx_palloc ngx_read_file max_buffer_size now malloc rounds c v
        ≡ open_moov ngx_palloc ngx_read_file max_buffer_size now malloc rounds c v
  unfolding open_atom
  open_movie c v kind =
      let not_ftyp = ap (λ n. n == fourcc b'f' b't' b'y' b'p') kind in
      let is_moov = ap (λ n. n == moov_type) kind in rw (not_ftyp, is_moov) refl

  -- Both atoms have been seen.
  stop :
      {pos m d : ℕ} {movie : Option Moov} (fuel : ℕ) (c : Mp4Context)
      → Walked contents pos m d movie c
      → ((m == 0) || (d == 0)) ≡ false
      → go_on fuel c ≡ ok (some c)
  unfolding open_loop
  stop zero c w done = rw (tests c w ∙ done) refl
  stop (suc fuel) c w done = rw (tests c w ∙ done) refl

  -- From behind the movie on.
  pub find_mdat :
      {n size pos : ℕ} {movie : Option Moov} (extra : ℕ) (c : Mp4Context) (d : FileAtom)
      → Walked contents pos size 0 movie c
      → size ≢ 0
      → Others contents n pos d.start
      → Stands contents d
      → d.type ≡ mdat_type
      → (go_on (n + suc extra) c >>= λ o. ok (movie_of o)) ≡ ok movie
  find_mdat {size} {movie} extra c d w sized others s kind =
      let unfinished : ((size == 0) || true) ≡ true = ground arith in
      let (c1, w1, e1) =
        skip-Others file max_buffer_size now malloc rounds unfinished c others
          (omega (arith, At-within _ s.at)) w in
      let (c2, e2, w2) = header_at file max_buffer_size now malloc rounds d c1 s w1 in
      let some_size = s.header.least in
      let done : ((size == 0) || (d.size == 0)) ≡ false = ground arith in
      let next = (d.start + d.size) % 2 ^ 64 in
      let w3 : Walked contents next size d.size movie (record c2 { mdat_atom = d; offset = next }) =
        record {
          keeps = IsContext-other c2 w2.keeps next c2.ftyp_atom d c2.moov_atom c2.moov_data c2.moov;
          place = refl;
          seen_moov = w2.seen_moov;
          seen_mdat = refl;
          parsed = w2.parsed;
        } in
      ap (λ r. r >>= λ o. ok (movie_of o))
        (e1 (suc extra)
          ∙ round file max_buffer_size now malloc rounds extra d c1 c2 (tests c1 w1 ∙ unfinished) e2
          ∙ ap
              (λ r. r >>= λ opened. elim opened [
                | none ↦ ok none
                | some c ↦ go_on extra (record c { offset = next })
              ])
              (open_mdat c2 d kind)
          ∙ stop extra (record c2 { mdat_atom = d; offset = next }) w3 done)
      ∙ ap ok w2.parsed

  -- What becomes of a movie that is read.
  pub finish :
      (r : Run (Option Moov)) (c : Moov → Mp4Context) (k : Mp4Context → Run (Option Mp4Context))
      → ((movie : Moov) → (k (c movie) >>= λ o. ok (movie_of o)) ≡ ok (some movie))
      → (r
          >>= (λ movie. ok (elim movie [
            | none ↦ none
            | some moov ↦ if is_set moov.mvhd then some (c moov) else none
          ]))
          >>= (λ opened. elim opened [ none ↦ ok none | some c2 ↦ k c2 ])
          >>= (λ o. ok (movie_of o)))
        ≡ (r >>= λ movie. ok (with_header movie))
  finish (ok none) c k ends = refl
  finish (ok (some movie)) c k ends = elim (Bool-cases (is_set movie.mvhd)) [
    | inl set ↦ rw set (ends movie)
    | inr unset ↦ rw unset refl
  ]
  finish fault c k ends = refl
  finish out_of_fuel c k ends = refl
