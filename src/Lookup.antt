-- ===== src/Lookup.antt =====
-- src/mp4_io.h: questions to the sample tables. `table` has as many rows as `entries` says, as the
-- readers leave it. Sample numbers have 32 bits, times 64.
pub mod Times
pub mod Keyframes
use nginx_hls_module.Base.{
  ℕ, ◌+◌, ◌-◌, ◌*◌, ◌/◌, ◌%◌, ◌^◌, List, [], ◌∷◌, Option, none, some, Bool, true, false, ltb, leb,
  ◌==◌, if◌then◌else◌, get_elem?,
}
use nginx_hls_module.Run.{Run, ok, fault, ◌>>=◌}
use nginx_hls_module.Mp4.Tables.{Stts, SttsTable, Stss, Ctts, CttsTable}
use nginx_hls_module.Mp4.Tree.{Stbl}

-- Integer division traps on 0.
abbrev pub divide : ℕ → ℕ → Run ℕ
divide a b = if b == 0 then fault else ok (a / b)

-- The number of samples from the start of a row up to `time`, rounded up.
samples_up_to : ℕ → ℕ → ℕ → Run ℕ
samples_up_to time time_count duration = do
  n ← divide (((time + 2 ^ 64 - time_count) % 2 ^ 64 + duration + 2 ^ 64 - 1) % 2 ^ 64) duration
  ok (n % 2 ^ 32)

get_sample_loop : List SttsTable → ℕ → ℕ → ℕ → Run ℕ
unfolding samples_up_to
get_sample_loop [] time time_count ret = ok ret
get_sample_loop (r ∷ rs) time time_count ret =
    let next = (time_count + r.sample_duration * r.sample_count) % 2 ^ 64 in
    let rest = get_sample_loop rs time next ((ret + r.sample_count) % 2 ^ 32) in
    if leb time next
    then (do n ← samples_up_to time time_count r.sample_duration; ok ((ret + n) % 2 ^ 32))
    else rest

unfoldable pub stts_get_sample : Stts → ℕ → Run ℕ
unfolding get_sample_loop
stts_get_sample stts time = get_sample_loop stts.table time 0 0

-- The loop has no bound of its own: it reads on behind the table.
get_time_loop : List SttsTable → ℕ → ℕ → ℕ → Run ℕ
get_time_loop [] sample sample_count ret = fault
get_time_loop (r ∷ rs) sample sample_count ret =
    let next = (sample_count + r.sample_count) % 2 ^ 32 in
    let rest = get_time_loop rs sample next ((ret + r.sample_count * r.sample_duration) % 2 ^ 64) in
    if ltb sample next
    then ok ((ret + (sample + 2 ^ 32 - sample_count) % 2 ^ 32 * r.sample_duration) % 2 ^ 64)
    else rest

unfoldable pub stts_get_time : Stts → ℕ → Run ℕ
unfolding get_time_loop
stts_get_time stts sample = get_time_loop stts.table sample 0 0

-- The index at which the scan stops, and the sample number last looked at.
keyframe_scan : List ℕ → ℕ → ℕ → ℕ → ℕ × ℕ
keyframe_scan [] sample i table_sample = (i, table_sample)
keyframe_scan (x ∷ xs) sample i table_sample =
    let rest = keyframe_scan xs sample (i + 1) x in if leb sample x then (i, x) else rest

unfoldable pub stss_get_nearest_keyframe : Stss → ℕ → Run ℕ
unfolding keyframe_scan
stss_get_nearest_keyframe stss sample =
    let (i, table_sample) = keyframe_scan stss.sample_numbers sample 0 0 in
    if table_sample == sample
    then ok table_sample
    else elim (get_elem? stss.sample_numbers ((i + 2 ^ 32 - 1) % 2 ^ 32)) [
      | none ↦ fault
      | some k ↦ ok k
    ]

-- Without a table every sample is a sync sample.
unfoldable pub stbl_get_nearest_keyframe : Stbl → ℕ → Run ℕ
stbl_get_nearest_keyframe stbl sample = elim stbl.stss [
  | none ↦ ok sample
  | some stss ↦ stss_get_nearest_keyframe stss sample
]

ctts_count : List CttsTable → ℕ → ℕ
ctts_count [] samples = samples
ctts_count (r ∷ rs) samples = ctts_count rs ((samples + r.sample_count) % 2 ^ 32)

pub ctts_get_samples : Ctts → ℕ
unfolding ctts_count
ctts_get_samples ctts = ctts_count ctts.table 0

unfoldable pub moov_time_to_trak_time : ℕ → ℕ → ℕ → Run ℕ
moov_time_to_trak_time t moov_time_scale trak_time_scale =
    divide (t * trak_time_scale % 2 ^ 64) moov_time_scale

unfoldable pub trak_time_to_moov_time : ℕ → ℕ → ℕ → Run ℕ
trak_time_to_moov_time t moov_time_scale trak_time_scale =
    divide (t * moov_time_scale % 2 ^ 64) trak_time_scale
