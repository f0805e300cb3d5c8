-- ===== src/Index/Pts/Overrun.antt =====
-- A table `stts` with more samples than the array of samples overruns it.
use nginx_hls_module.Base.{
  ℕ, zero, suc, ◌+◌, ◌≤◌, ◌<◌, ◌≡◌, ◌∙◌, refl, List, [], ◌∷◌, none, ltb, leb, arith, Bool-cases,
  inl, inr, get_elem?, length, length-set, get_elem?_total, ltb→lt, ltb→le, leb→le, leb→lt,
}
use nginx_hls_module.Run.{Run, fault, ◌>>=◌}
use nginx_hls_module.Run.Returns
use nginx_hls_module.Run.Returns.{Returns, returns}
use nginx_hls_module.Mp4.Tables.{Stts, SttsTable, Sample}
use nginx_hls_module.Lookup.Times.{total_samples}
use nginx_hls_module.Index.{update, pts_row, pts_rows, calc_pts}

update-fault :
    (s v : ℕ) (xs : List Sample) → length xs ≤ s → update xs s (λ x. record x { pts = v }) ≡ fault
unfolding update
update-fault s v xs h = rw (update, outside xs s h) refl
  where
    outside : (xs : List Sample) (i : ℕ) → length xs ≤ i → get_elem? xs i ≡ none
    outside [] i h = refl
    outside (x ∷ xs) (suc i) h = outside xs i (omega arith)
    outside (x ∷ xs) zero h = absurd (omega arith)

update-long :
    (s v : ℕ) (xs : List Sample)
    → s < length xs
    → Returns (λ ys. length ys ≡ length xs) (update xs s (λ x. record x { pts = v }))
unfolding update
update-long s v xs h =
    let (a, at) = get_elem?_total xs s h in rw (update, at) (returns (length-set xs s _))

pts_row-long :
    (n d s pts : ℕ) (xs : List Sample)
    → s + n ≤ length xs
    → Returns (λ (s', _, ys). (s' ≡ s + n) × (length ys ≡ length xs)) (pts_row n d s pts xs)
unfolding pts_row
pts_row-long zero d s pts xs h = returns (omega arith, refl)
pts_row-long (suc n) d s pts xs h = Returns.bind (update-long s pts xs (omega arith)) λ ys e.
    Returns.mono (pts_row-long n d (s + 1) _ ys (omega (arith, e)))
      λ (s', _, zs) (k, k'). (omega (arith, k), k' ∙ e)

pts_row-fault :
    (n d s pts : ℕ) (xs : List Sample)
    → s ≤ length xs
    → length xs < s + n
    → pts_row n d s pts xs ≡ fault
unfolding pts_row
pts_row-fault zero d s pts xs lo hi = absurd (omega arith)
pts_row-fault (suc n) d s pts xs lo hi = elim (Bool-cases (ltb s (length xs))) [
  | inl inside ↦
      let (ys, e, long) = Returns.value (update-long s pts xs (ltb→lt s (length xs) inside)) in
      let h = ltb→lt s (length xs) inside in
      rw e (pts_row-fault n d (s + 1) _ ys (omega (arith, long)) (omega (arith, long)))
  | inr over ↦ rw (update-fault s pts xs (ltb→le s (length xs) over)) refl
]

-- The rest of `calc_pts`, from a row on.
rest : List SttsTable → ℕ → ℕ → List Sample → Run (List Sample)
rest t s pts xs = do
  (s', pts', ys) ← pts_rows t s pts xs
  update ys s' (λ x. record x { pts = pts' })

rest-fault :
    (t : List SttsTable) (s pts : ℕ) (xs : List Sample)
    → s ≤ length xs
    → length xs ≤ s + total_samples t
    → rest t s pts xs ≡ fault
unfolding rest pts_rows total_samples
rest-fault [] s pts xs lo hi = update-fault s pts xs (omega arith)
rest-fault (r ∷ rs) s pts xs lo hi = elim (Bool-cases (leb (s + r.sample_count) (length xs))) [
  | inl fits ↦
      let room = leb→le (s + r.sample_count) (length xs) fits in
      let ((s', pts', ys), e, (at, long)) =
        Returns.value (pts_row-long r.sample_count r.sample_duration s pts xs room) in
      rw e (rest-fault rs s' pts' ys (omega (arith, at, long)) (omega (arith, at, long)))
  | inr over ↦
      rw
        (pts_row-fault r.sample_count r.sample_duration s pts xs lo
          (leb→lt (s + r.sample_count) (length xs) over))
        refl
]

-- Where `stts` has at least as many samples as the array, the one for the end included, the
-- times are written outside the array.
pub calc_pts-fault :
    (stts : Stts) (samples : List Sample)
    → length samples ≤ total_samples stts.table
    → calc_pts stts samples ≡ fault
unfolding calc_pts rest
calc_pts-fault stts samples h = rest-fault stts.table 0 0 samples (omega arith) (omega arith)
