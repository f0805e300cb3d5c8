-- ===== src/Index.antt =====
-- src/mp4_reader.h, from `trak_build_index` on: the index of samples, made from the sample tables.
-- An access outside `samples_` or `chunks_`, or to a field of a chunk that nothing has set, is a
-- fault.
pub mod Pts
pub mod Movie
use nginx_hls_module.Base.{
  ℕ, zero, suc, ◌+◌, ◌-◌, ◌*◌, ◌/◌, ◌%◌, ◌^◌, List, [], ◌∷◌, ◌++◌, Option, none, some, Bool, true,
  false, not, ltb, leb, ◌==◌, ◌||◌, ◌&&◌, if◌then◌else◌, get_elem?, set, map, replicate, length,
}
use mathlib.Core.List.{reverse}
use nginx_hls_module.Run.{Run, ok, fault, ◌>>=◌, ◌>>◌, deref}
use nginx_hls_module.Mp4.{fourcc}
use nginx_hls_module.Mp4.Tables.{
  Stts, SttsTable, Stss, Stsc, StscTable, Stsz, Stco, Ctts, CttsTable, Sample, Chunk,
}
use nginx_hls_module.Mp4.Tree.{Stbl, Mdia, Trak, Moov}
use nginx_hls_module.Lookup.{trak_time_to_moov_time}
use nginx_hls_module.Reader.Moov.{trak_stbl, trak_handler}
use nginx_hls_module.Reader.Tree.{is_set}

-- A write to one element of an array.
unfoldable pub update {ℓ} : {A : Type ℓ} → List A → ℕ → (A → A) → Run (List A)
update xs i f = elim (get_elem? xs i) [ none ↦ fault | some a ↦ ok (set xs i (f a)) ]

-- The chunks, with their positions alone.
chunks_init : List ℕ → List Chunk
chunks_init = map (λ (off : ℕ). record { sample = none; size = none; id = none; pos = some off })

-- `for(j = table[i].chunk_; j < last; j++)`, by the rounds that are left.
assign_chunks : ℕ → ℕ → StscTable → List Chunk → Run (List Chunk)
assign_chunks zero j r chunks = ok chunks
assign_chunks (suc n) j r chunks = do
  chunks' ← update chunks j (λ c. record c { id = some r.id; size = some r.samples })
  assign_chunks n (j + 1) r chunks'

-- The chunk map, its rows from the last to the first.
chunkmap : List StscTable → ℕ → List Chunk → Run (List Chunk)
unfolding assign_chunks
chunkmap [] last chunks = ok chunks
chunkmap (r ∷ rs) last chunks = do
  chunks' ← assign_chunks (last - r.chunk) r.chunk r chunks
  chunkmap rs r.chunk chunks'

-- The number of the first sample of each chunk, and the number of all samples.
number_chunks : List Chunk → ℕ → Run (List Chunk × ℕ)
number_chunks [] s = ok ([], s)
number_chunks (c ∷ cs) s = do
  n ← deref c.size
  (cs', total) ← number_chunks cs ((s + n) % 2 ^ 32)
  ok (record c { sample = some s } ∷ cs', total)

abbrev pub empty_sample : Sample
empty_sample = record { pts = 0; size = 0; pos = 0; cto = 0; is_smooth_ss = false }

-- The sizes, into the samples from index `i` on.
fill_sizes : List ℕ → ℕ → List Sample → Run (List Sample)
fill_sizes [] i samples = ok samples
fill_sizes (n ∷ ns) i samples = do
  samples' ← update samples i (λ x. record x { size = n })
  fill_sizes ns (i + 1) samples'

-- The samples of one row of `stts`: what follows is the next sample and its time.
pts_row : ℕ → ℕ → ℕ → ℕ → List Sample → Run (ℕ × ℕ × List Sample)
pts_row zero duration s pts samples = ok (s, pts, samples)
pts_row (suc n) duration s pts samples = do
  samples' ← update samples s (λ x. record x { pts = pts })
  pts_row n duration (s + 1) ((pts + duration) % 2 ^ 64) samples'

-- Nothing compares `s` with the number of samples.
pts_rows : List SttsTable → ℕ → ℕ → List Sample → Run (ℕ × ℕ × List Sample)
unfolding pts_row
pts_rows [] s pts samples = ok (s, pts, samples)
pts_rows (r ∷ rs) s pts samples = do
  (s', pts', samples') ← pts_row r.sample_count r.sample_duration s pts samples
  pts_rows rs s' pts' samples'

unfoldable pub calc_pts : Stts → List Sample → Run (List Sample)
unfolding pts_rows update
calc_pts stts samples = do
  (s, pts, samples') ← pts_rows stts.table 0 0 samples
  update samples' s (λ x. record x { pts = pts })

-- The composition offsets of one row of `ctts`; the loop is left at the last sample.
cto_row : ℕ → ℕ → ℕ → ℕ → List Sample → Run (ℕ × List Sample)
cto_row size offset zero s samples = ok (s, samples)
cto_row size offset (suc n) s samples = if s == size then ok (s, samples) else do
  samples' ← update samples s (λ x. record x { cto = offset })
  cto_row size offset n (s + 1) samples'

cto_rows : ℕ → List CttsTable → ℕ → ℕ → List Sample → Run (ℕ × ℕ × List Sample)
unfolding cto_row
cto_rows size [] s offset samples = ok (s, offset, samples)
cto_rows size (r ∷ rs) s offset samples = do
  (s', samples') ← cto_row size r.sample_offset r.sample_count s samples
  cto_rows size rs s' r.sample_offset samples'

unfoldable pub calc_cto : ℕ → Option Ctts → List Sample → Run (List Sample)
unfolding cto_rows update
calc_cto size none samples = ok samples
calc_cto size (some ctts) samples = do
  (s, offset, samples') ← cto_rows size ctts.table 0 0 samples
  update samples' s (λ x. record x { cto = offset })

-- The positions of the samples of one chunk.
pos_row : ℕ → ℕ → ℕ → ℕ → List Sample → Run (ℕ × ℕ × List Sample)
pos_row size zero s pos samples = ok (s, pos, samples)
pos_row size (suc n) s pos samples = if s == size then ok (s, pos, samples) else do
  x ← deref (get_elem? samples s)
  samples' ← update samples s (λ x. record x { pos = pos })
  pos_row size n (s + 1) ((pos + x.size) % 2 ^ 64) samples'

pos_rows : ℕ → List Chunk → ℕ → ℕ → List Sample → Run (ℕ × ℕ × List Sample)
unfolding pos_row
pos_rows size [] s pos samples = ok (s, pos, samples)
pos_rows size (c ∷ cs) s pos samples = do
  start ← deref c.pos
  n ← deref c.size
  (s', pos', samples') ← pos_row size n s start samples
  pos_rows size cs s' pos' samples'

unfoldable pub calc_pos : ℕ → List Chunk → List Sample → Run (List Sample)
unfolding pos_rows update
calc_pos size chunks samples = do
  (s, pos, samples') ← pos_rows size chunks 0 0 samples
  update samples' s (λ x. record x { pos = pos })

mark_sync : List ℕ → List Sample → Run (List Sample)
mark_sync [] samples = ok samples
mark_sync (n ∷ ns) samples = do
  samples' ← update samples ((n + 2 ^ 32 - 1) % 2 ^ 32) (λ x. record x { is_smooth_ss = true })
  mark_sync ns samples'

calc_sync : ℕ → Option Stss → List Sample → Run (List Sample)
unfolding mark_sync update
calc_sync size stss samples = do
  samples' ← elim stss [ none ↦ ok samples | some t ↦ mark_sync t.sample_numbers samples ]
  update samples' size (λ x. record x { is_smooth_ss = true })

-- The index from the tables. One sample more is reserved for the end.
build_from : Trak → Stbl → Stco → Run (Trak × Bool)
unfolding chunks_init chunkmap number_chunks fill_sizes calc_pts calc_cto calc_pos calc_sync
build_from t stbl stco = do
  stsc ← deref stbl.stsc
  mapped ← chunkmap (reverse stsc.table) stco.entries (chunks_init stco.chunk_offsets)
  stsz ← deref stbl.stsz
  (chunks, total) ← number_chunks mapped 0
  let n = if stsz.sample_size == 0 then stsz.entries else total
  let sizes = if stsz.sample_size == 0 then stsz.sample_sizes else replicate n stsz.sample_size
  sized ← fill_sizes sizes 0 (replicate ((n + 1) % 2 ^ 32) empty_sample)
  stts ← deref stbl.stts
  timed ← calc_pts stts sized
  composed ← calc_cto n stbl.ctts timed
  placed ← calc_pos n chunks composed
  marked ← calc_sync n stbl.stss placed
  ok (
    record t { chunks_size = stco.entries; chunks = chunks; samples_size = n; samples = marked },
    true,
  )

unfoldable pub trak_build_index : Trak → Run (Trak × Bool)
unfolding build_from
trak_build_index t = do
  stbl ← trak_stbl t
  elim stbl.stco [
    | none ↦ ok (t, false)
    | some stco ↦ if stco.entries == 0 then ok (t, false) else build_from t stbl stco
  ]
