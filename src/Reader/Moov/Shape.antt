-- ===== src/Reader/Moov/Shape.antt =====
-- The shape of a movie that `moov_read` returns: the index and the output follow its pointers
-- without a test, and its tracks fit the array.
use nginx_hls_module.Base.{
  ℕ, ◌+◌, ◌≤◌, ◌≡◌, ◌⊎◌, inl, inr, refl, [], ◌∷◌, ◌++◌, Option, none, some, Bool, true, false, not,
  ◌==◌, ◌&&◌, if◌then◌else◌, All, All-append, length, length-append, arith, Bool-cases,
}
use nginx_hls_module.Run.{ok, ◌>>=◌, deref}
use nginx_hls_module.Run.Ensures
use nginx_hls_module.Run.Ensures.{Ensures, returns, faults, stops}
use nginx_hls_module.Memory.{Memory}
use nginx_hls_module.Mp4.{fourcc, max_tracks}
use nginx_hls_module.Mp4.Headers.{Hdlr}
use nginx_hls_module.Mp4.Tree.{Mdia, Trak, trak_init, Moov, moov_init}
use nginx_hls_module.Reader.Atom.Ends.{OnSome}
use nginx_hls_module.Reader.Atom.Keeps.{RowKeeps, row-Keeps, reads_any, atom_reader-Keeps}
use nginx_hls_module.Reader.Entry.{stsd_parse}
use nginx_hls_module.Reader.Tree.{is_set, kept}
use nginx_hls_module.Reader.Tree.Mandatory.{
  Has, Has-of_OnSome, kept-OnSome, IsMdia, mdia_read-IsMdia, IsMinf, IsStbl,
}
use nginx_hls_module.Reader.Moov.{
  trak_ops, trak_rows, trak_parse_stsd, trak_read, moov_ops, moov_rows, moov_add_trak, moov_read,
}

-- A track with all that the code behind follows.
pub record IsTrak (t : Trak) : Type 0 where
  pub has_tkhd : is_set t.tkhd ≡ true
  pub has_mdia : Has IsMdia t.mdia

abbrev pub IsAudioVideo : Hdlr → Type 0
IsAudioVideo h =
    (h.handler_type ≡ fourcc b'v' b'i' b'd' b'e') ⊎ (h.handler_type ≡ fourcc b's' b'o' b'u' b'n')

-- A track of a movie: its handler is video or sound.
pub record IsMovieTrak (t : Trak) : Type 0 where
  pub trak : IsTrak t
  pub kind : Has (λ (mdia : Mdia). Has IsAudioVideo mdia.hdlr) t.mdia

pub record AreTracks (v : Moov) : Type 0 where
  pub counted : v.tracks ≡ length v.traks
  pub fit : v.tracks ≤ max_tracks
  pub each : All IsMovieTrak v.traks

pub record IsMoov (v : Moov) : Type 0 where
  pub has_mvhd : is_set v.mvhd ≡ true
  pub tracks : AreTracks v
  pub some_track : 1 ≤ v.tracks

deref-Ensures : {A : Type 0} (Q : A → Type 0) (o : Option A) → OnSome Q o → Ensures Q (deref o)
deref-Ensures Q none h = faults
deref-Ensures Q (some a) h = returns h

deref-eq : {A : Type 0} (o : Option A) → Ensures (λ a. o ≡ some a) (deref o)
deref-eq none = faults
deref-eq (some a) = returns refl

deref-Has : {A : Type 0} (Q : A → Type 0) (o : Option A) → Has Q o → Ensures Q (deref o)
deref-Has Q none h = absurd h
deref-Has Q (some a) h = returns h

module _ (now : ℕ) (malloc : ℕ → ℕ) (fuel : ℕ) where
  trak_rows-Keep : All (RowKeeps (λ (t : Trak). OnSome IsMdia t.mdia)) (trak_rows now malloc fuel)
  trak_rows-Keep = (
    row-Keeps _ (λ _. Unit) _ _ (reads_any _) (λ s child h k. returns h),
    (
      row-Keeps _ IsMdia _ _ (mdia_read-IsMdia malloc fuel now) (λ s child h k. returns k),
      (row-Keeps _ (λ _. Unit) _ _ (reads_any _) (λ s child h k. returns h), tt),
    ),
  )

  trak_parse_stsd-IsTrak :
      (t : Trak)
      → is_set t.tkhd ≡ true
      → Has IsMdia t.mdia
      → Ensures (λ (t', good). IsTrak t') (trak_parse_stsd fuel t)
  unfolding trak_parse_stsd
  trak_parse_stsd-IsTrak t tkhd has = Ensures.bind (deref-Has IsMdia t.mdia has) λ mdia is_mdia.
      Ensures.bind (deref-Has IsMinf mdia.minf is_mdia.has_minf) λ minf is_minf.
        Ensures.bind (deref-Has IsStbl minf.stbl is_minf) λ stbl is_stbl.
          Ensures.bind (Ensures.any (deref stbl.stsd)) λ stsd _.
            Ensures.bind (Ensures.any (deref mdia.hdlr)) λ hdlr _.
              Ensures.bind (Ensures.any (stsd_parse fuel hdlr.handler_type stsd)) λ (stsd', good) _.
                returns (record {
                  has_tkhd = tkhd;
                  has_mdia = record {
                    has_mdhd = is_mdia.has_mdhd;
                    has_hdlr = is_mdia.has_hdlr;
                    has_minf = record { has_stsd = refl; has_stts = is_stbl.has_stts };
                  };
                })

  trak_read-IsTrak :
      (m : Memory) (p n : ℕ) → Ensures (OnSome IsTrak) (trak_read now malloc fuel m p n)
  unfolding trak_read
  trak_read-IsTrak m p n =
      Ensures.bind
        (atom_reader-Keeps trak_ops (trak_rows now malloc fuel) (λ t. OnSome IsMdia t.mdia)
          (λ parent chain h. h) trak_rows-Keep m fuel trak_init p n tt)
        λ (atom, result) h.
          go atom result h (Bool-cases (result && is_set atom.tkhd && is_set atom.mdia))
    where
      go :
          (atom : Trak) (result : Bool)
          → OnSome IsMdia atom.mdia
          → ((result && is_set atom.tkhd && is_set atom.mdia) ≡ true)
            ⊎ ((result && is_set atom.tkhd && is_set atom.mdia) ≡ false)
          → Ensures (OnSome IsTrak) (
              if result && is_set atom.tkhd && is_set atom.mdia
              then (do (atom', good) ← trak_parse_stsd fuel atom; ok (kept atom' good))
              else ok none)
      go atom result h (inl e) = rw e (
          Ensures.bind
            (trak_parse_stsd-IsTrak atom (ground arith)
              (Has-of_OnSome IsMdia atom.mdia h (ground arith)))
            λ (atom', good) k. returns (kept-OnSome IsTrak atom' good λ _. k))
      go atom result h (inr e) = rw e (returns tt)

  -- The track that is added, from its parts.
  added-AreTracks :
      (v : Moov) (t' : Trak)
      → AreTracks v
      → (v.tracks == max_tracks) ≡ false
      → IsMovieTrak t'
      → AreTracks (record v { traks = v.traks ++ (t' ∷ []); tracks = v.tracks + 1 })
  added-AreTracks v t' h room is = record {
    counted = omega (arith, length-append v.traks (t' ∷ []), h.counted);
    fit = ground (arith, h.fit, room);
    each = All-append IsMovieTrak v.traks (t' ∷ []) h.each (is, tt);
  }

  moov_add_trak-AreTracks :
      (v : Moov) (t : Trak)
      → AreTracks v
      → IsTrak t
      → Ensures (λ (v', more). AreTracks v') (moov_add_trak v t)
  unfolding moov_add_trak
  moov_add_trak-AreTracks v t h is = elim (Bool-cases (v.tracks == max_tracks)) [
    | inl full ↦ rw full (returns h)
    | inr room ↦ rw room (
        Ensures.bind (deref-Has IsMdia t.mdia is.has_mdia) λ mdia is_mdia.
          Ensures.bind (deref-eq mdia.hdlr) λ hdlr same. elim (Bool-cases (other hdlr)) [
            | inl dropped ↦ rw dropped (returns h)
            | inr wanted ↦ rw wanted (
                Ensures.bind (deref-eq mdia.minf) λ minf same_minf.
                  Ensures.bind (Ensures.any (deref minf.stbl)) λ stbl _.
                    Ensures.bind (Ensures.any (deref mdia.mdhd)) λ mdhd _. returns (
                      added-AreTracks v _ h room (record {
                        trak = record {
                          has_tkhd = is.has_tkhd;
                          has_mdia = record {
                            has_mdhd = refl;
                            has_hdlr = is_mdia.has_hdlr;
                            has_minf = is_mdia.has_minf;
                          };
                        };
                        kind = kind_of mdia hdlr same wanted;
                      })))
          ])
  ]
    where
      other : Hdlr → Bool
      other hdlr =
          not (hdlr.handler_type == fourcc b'v' b'i' b'd' b'e')
          && not (hdlr.handler_type == fourcc b's' b'o' b'u' b'n')

      kind_of :
          (mdia : Mdia) (hdlr : Hdlr)
          → mdia.hdlr ≡ some hdlr
          → other hdlr ≡ false
          → Has IsAudioVideo mdia.hdlr
      kind_of mdia hdlr same wanted = rw same (either hdlr.handler_type wanted)
        where
          either :
              (k : ℕ)
              → (not (k == fourcc b'v' b'i' b'd' b'e') && not (k == fourcc b's' b'o' b'u' b'n'))
                ≡ false
              → (k ≡ fourcc b'v' b'i' b'd' b'e') ⊎ (k ≡ fourcc b's' b'o' b'u' b'n')
          either k e = ground arith

  moov_rows-Keep : All (RowKeeps AreTracks) (moov_rows now malloc fuel)
  moov_rows-Keep = (
    row-Keeps _ (λ _. Unit) _ _ (reads_any _)
        (λ s child h k. returns (record { counted = h.counted; fit = h.fit; each = h.each })),
    (
      row-Keeps _ IsTrak _ _ trak_read-IsTrak moov_add_trak-AreTracks,
      (
        row-Keeps _ (λ _. Unit) _ _ (reads_any _)
            (λ s child h k. returns (record { counted = h.counted; fit = h.fit; each = h.each })),
        tt,
      ),
    ),
  )

  moov_read-Ensures :
      (m : Memory) (p n : ℕ) → Ensures (OnSome IsMoov) (moov_read now malloc fuel m p n)
  unfolding moov_read
  moov_read-Ensures m p n =
      Ensures.bind
        (atom_reader-Keeps moov_ops (moov_rows now malloc fuel) AreTracks
          (λ v' chain h. record { counted = h.counted; fit = h.fit; each = h.each }) moov_rows-Keep
          m fuel moov_init p n (record { counted = refl; fit = omega arith; each = tt }))
        λ (atom, result) h. returns (
          kept-OnSome IsMoov atom (result && is_set atom.mvhd && not (atom.tracks == 0))
            λ good. record { has_mvhd = ground arith; tracks = h; some_track = ground arith })

  -- A movie that is read has a header, between one and `MAX_TRACKS` tracks, each of them video or
  -- sound with its headers, its sample table, and in that the descriptions and the times.
  pub moov_read-IsMoov :
      (m : Memory) (p n : ℕ) (v : Moov) → moov_read now malloc fuel m p n ≡ ok (some v) → IsMoov v
  moov_read-IsMoov m p n v e =
      Ensures.apply {P = OnSome IsMoov} (some v) (moov_read-Ensures m p n) e
