-- ===== src/File/Walk.antt =====
-- How `mp4_open` goes over the atoms of a file.
use nginx_hls_module.Base.{
  ℕ, suc, ◌+◌, ◌%◌, ◌^◌, ◌≤◌, ◌<◌, ◌≡◌, refl, sym, ap, subst, ◌∙◌, List, Option, none, some,
  Bool-cases, true, false, inl, inr, ◌==◌, ◌||◌, length, arith,
}
use native.Mathlib.Nat.{mod-eq_of_lt}
use nginx_hls_module.Run.{Run, ok, ◌>>=◌}
use nginx_hls_module.Run.Returns.{value}
use nginx_hls_module.Mp4.{fourcc}
use nginx_hls_module.Mp4.Tree.{Moov}
use nginx_hls_module.File.{FileAtom, Mp4Context}
use nginx_hls_module.File.Open.{mp4_atom_read_header, open_atom, open_loop}
use nginx_hls_module.File.State.{IsFile, IsContext, IsContext-other}
use nginx_hls_module.File.Header.{header_bytes, IsHeader, At, mp4_atom_read_header-header}

-- The header of an atom stands in the file.
pub record Stands (contents : List ℕ) (a : FileAtom) : Type 0 where
  pub header : IsHeader a
  pub at : At contents a.start (header_bytes a)

abbrev pub moov_type : ℕ
moov_type = fourcc b'm' b'o' b'o' b'v'

abbrev pub mdat_type : ℕ
mdat_type = fourcc b'm' b'd' b'a' b't'

-- So many atoms of other types, each behind the one in front of it, from a place to a place.
pub data Others (contents : List ℕ) : ℕ → ℕ → ℕ → Type 0 where
  no_more : {pos : ℕ} → Others contents 0 pos pos
  other :
      {n next : ℕ} (a : FileAtom)
      → Stands contents a
      → (a.type == moov_type) ≡ false
      → (a.type == mdat_type) ≡ false
      → Others contents n (a.start + a.size) next
      → Others contents (suc n) a.start next

Others-forward : {contents : List ℕ} {n pos next : ℕ} → Others contents n pos next → pos ≤ next
Others-forward no_more = omega arith
Others-forward (other a s not_moov not_mdat rest) = omega (arith, Others-forward rest)

-- A context between the rounds: where it is, and what it has seen.
pub record Walked (contents : List ℕ) (pos moov_size mdat_size : ℕ) (movie : Option Moov)
    (c : Mp4Context) : Type 0 where
  pub keeps : IsContext contents c
  pub place : c.offset ≡ pos
  pub seen_moov : c.moov_atom.size ≡ moov_size
  pub seen_mdat : c.mdat_atom.size ≡ mdat_size
  pub parsed : c.moov ≡ movie

-- What the loop tests.
pub tests :
    {contents : List ℕ} {pos m d : ℕ} {movie : Option Moov} (c : Mp4Context)
    → Walked contents pos m d movie c
    → ((c.moov_atom.size == 0) || (c.mdat_atom.size == 0)) ≡ ((m == 0) || (d == 0))
tests {m} c w =
    ap (λ n. (n == 0) || (c.mdat_atom.size == 0)) w.seen_moov
    ∙ ap (λ n. (m == 0) || (n == 0)) w.seen_mdat

moved_on :
    {contents : List ℕ} {pos m d : ℕ} {movie : Option Moov} (c : Mp4Context) (next : ℕ)
    → next < 2 ^ 64
    → Walked contents pos m d movie c
    → Walked contents next m d movie (record c { offset = next % 2 ^ 64 })
moved_on c next small w = record {
  keeps =
      IsContext-other c w.keeps (next % 2 ^ 64) c.ftyp_atom c.mdat_atom c.moov_atom c.moov_data
        c.moov;
  place = mod-eq_of_lt small;
  seen_moov = w.seen_moov;
  seen_mdat = w.seen_mdat;
  parsed = w.parsed;
}

module _ {contents : List ℕ} {ngx_palloc : ℕ → Option ℕ} {ngx_read_file : ℕ → ℕ → Option (List ℕ)}
    (file : IsFile contents ngx_palloc ngx_read_file) (max_buffer_size now : ℕ) (malloc : ℕ → ℕ)
    (rounds : ℕ) where
  abbrev pub loop : ℕ → Mp4Context → Run (Option Mp4Context)
  loop = open_loop ngx_palloc ngx_read_file max_buffer_size now malloc rounds

  -- A round that goes on.
  pub round :
      (fuel : ℕ) (a : FileAtom) (c c1 : Mp4Context)
      → ((c.moov_atom.size == 0) || (c.mdat_atom.size == 0)) ≡ true
      → mp4_atom_read_header ngx_palloc ngx_read_file c ≡ ok (some a, c1)
      → loop (suc fuel) c ≡ (do
        opened ← open_atom ngx_palloc ngx_read_file max_buffer_size now malloc rounds c1 a
        elim opened [
          | none ↦ ok none
          | some c2 ↦ loop fuel (record c2 { offset = (a.start + a.size) % 2 ^ 64 })
        ])
  unfolding open_loop
  round fuel a c c1 going e = rw (going, e) refl

  module _ {moov_size mdat_size : ℕ} {movie : Option Moov} where
    -- The header at the place of a context.
    pub header_at :
        (a : FileAtom) (c : Mp4Context)
        → Stands contents a
        → Walked contents a.start moov_size mdat_size movie c
        → (c1 : Mp4Context) × (mp4_atom_read_header ngx_palloc ngx_read_file c ≡ ok (some a, c1))
          × Walked contents c1.offset moov_size mdat_size movie c1
    header_at a c s w =
        let ((o, c1), e, t) = value (
          mp4_atom_read_header-header file c a w.keeps s.header (sym w.place)
            (subst (λ n. At contents n (header_bytes a)) (sym w.place) s.at)) in
        (
          c1,
          e ∙ ap (λ x. ok (x, c1)) t.found,
          record {
            keeps = t.keeps;
            place = refl;
            seen_moov = ap (λ (x : Mp4Context). x.moov_atom.size) t.frame ∙ w.seen_moov;
            seen_mdat = ap (λ (x : Mp4Context). x.mdat_atom.size) t.frame ∙ w.seen_mdat;
            parsed = ap (λ (x : Mp4Context). x.moov) t.frame ∙ w.parsed;
          },
        )

    module _ (unfinished : ((moov_size == 0) || (mdat_size == 0)) ≡ true) where
      -- An atom of another type: the next round is behind it.
      skip :
          (a : FileAtom) (c : Mp4Context)
          → Stands contents a
          → (a.type == moov_type) ≡ false
          → (a.type == mdat_type) ≡ false
          → a.start + a.size < 2 ^ 64
          → Walked contents a.start moov_size mdat_size movie c
          → (c' : Mp4Context) × Walked contents (a.start + a.size) moov_size mdat_size movie c'
            × ((fuel : ℕ) → loop (suc fuel) c ≡ loop fuel c')
      unfolding open_atom
      skip a c s not_moov not_mdat small w =
          let (c1, e, w1) = header_at a c s w in
          let next = (a.start + a.size) % 2 ^ 64 in
          elim (Bool-cases (a.type == fourcc b'f' b't' b'y' b'p')) [
            | inl ftyp ↦ (
              record c1 { ftyp_atom = a; offset = next },
              record {
                keeps =
                    IsContext-other c1 w1.keeps next a c1.mdat_atom c1.moov_atom c1.moov_data
                      c1.moov;
                place = mod-eq_of_lt small;
                seen_moov = w1.seen_moov;
                seen_mdat = w1.seen_mdat;
                parsed = w1.parsed;
              },
              λ fuel. round fuel a c c1 (tests c w ∙ unfinished) e ∙ rw ftyp refl,
            )
            | inr not_ftyp ↦ (
              record c1 { offset = next },
              moved_on c1 (a.start + a.size) small w1,
              λ fuel.
                  round fuel a c c1 (tests c w ∙ unfinished) e
                  ∙ rw (not_ftyp, not_moov, not_mdat) refl,
            )
          ]

      -- The atoms in front of one that stands in the file.
      pub skip-Others :
          {n pos next : ℕ} (c : Mp4Context)
          → Others contents n pos next
          → next ≤ length contents
          → Walked contents pos moov_size mdat_size movie c
          → (c' : Mp4Context) × Walked contents next moov_size mdat_size movie c'
            × ((fuel : ℕ) → loop (n + fuel) c ≡ loop fuel c')
      skip-Others c no_more within w = (c, w, λ fuel. ap (λ n. loop n c) (omega arith))
      skip-Others {n = suc n} c (other a s not_moov not_mdat rest) within w =
          let (c1, w1, e1) =
            skip a c s not_moov not_mdat (omega (arith, Others-forward rest, file.small)) w in
          let (c2, w2, e2) = skip-Others c1 rest within w1 in
          (c2, w2, λ fuel. ap (λ k. loop k c) (omega arith) ∙ e1 (n + fuel) ∙ e2 fuel)
