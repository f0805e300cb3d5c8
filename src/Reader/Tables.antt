-- ===== src/Reader/Tables.antt =====
-- src/mp4_reader.h: the readers of the sample tables.
pub mod Content
use nginx_hls_module.Base.{
  ℕ, ◌+◌, ◌-◌, ◌*◌, ◌%◌, ◌^◌, Option, none, some, ltb, ◌==◌, if◌then◌else◌, not, [],
}
use nginx_hls_module.Run.{Run, ok, ◌>>=◌}
use nginx_hls_module.Memory.{Memory, read_8, read_24, read_32, read_64}
use nginx_hls_module.Mp4.Tables.{
  Stts, SttsTable, Stss, Stsc, StscTable, Stsz, Stco, Ctts, CttsTable,
}
use nginx_hls_module.Reader.{Reader}
use nginx_hls_module.Reader.Rows.{read_rows}

ctts_row : Memory → ℕ → Run CttsTable
ctts_row m p = do
  count ← read_32 m p
  offset ← read_32 m (p + 4)
  ok (record { sample_count = count; sample_offset = offset })

pub ctts_read : Reader Ctts
unfolding ctts_row
ctts_read m buffer size = if ltb size 8 then ok none else do
  v ← read_8 m buffer
  f ← read_24 m (buffer + 1)
  n ← read_32 m (buffer + 4)
  if ltb size (8 + n * 8) then ok none else do
    t ← read_rows (ctts_row m) 8 n (buffer + 8)
    ok (some (record { version = v; flags = f; entries = n; table = t }))

pub stco_read : Reader Stco
stco_read m buffer size = if ltb size 8 then ok none else do
  v ← read_8 m buffer
  f ← read_24 m (buffer + 1)
  n ← read_32 m (buffer + 4)
  if ltb size (8 + n * 4) then ok none else do
    t ← read_rows (read_32 m) 4 n (buffer + 8)
    ok (some (record { version = v; flags = f; entries = n; chunk_offsets = t }))

pub co64_read : Reader Stco
co64_read m buffer size = if ltb size 8 then ok none else do
  v ← read_8 m buffer
  f ← read_24 m (buffer + 1)
  n ← read_32 m (buffer + 4)
  if ltb size (8 + n * 8) then ok none else do
    t ← read_rows (read_64 m) 8 n (buffer + 8)
    ok (some (record { version = v; flags = f; entries = n; chunk_offsets = t }))

-- With a common size there is no table.
pub stsz_read : Reader Stsz
stsz_read m buffer size = if ltb size 12 then ok none else do
  v ← read_8 m buffer
  f ← read_24 m (buffer + 1)
  common ← read_32 m (buffer + 4)
  n ← read_32 m (buffer + 8)
  if not (common == 0)
      then ok (
          some (record {
            version = v;
            flags = f;
            sample_size = common;
            entries = n;
            sample_sizes = [];
          }))
      else if ltb size (12 + n * 4)
      then ok none
      else do
        t ← read_rows (read_32 m) 4 n (buffer + 12)
        ok (
            some (record {
              version = v;
              flags = f;
              sample_size = common;
              entries = n;
              sample_sizes = t;
            }))

-- Chunks count from 0 in the index, from 1 in the file.
stsc_row : Memory → ℕ → Run StscTable
stsc_row m p = do
  chunk ← read_32 m p
  samples ← read_32 m (p + 4)
  id ← read_32 m (p + 8)
  ok (record { chunk = (chunk + 2 ^ 32 - 1) % 2 ^ 32; samples = samples; id = id })

pub stsc_read : Reader Stsc
unfolding stsc_row
stsc_read m buffer size = if ltb size 8 then ok none else do
  v ← read_8 m buffer
  f ← read_24 m (buffer + 1)
  n ← read_32 m (buffer + 4)
  if ltb size (8 + n * 12) then ok none else do
    t ← read_rows (stsc_row m) 12 n (buffer + 8)
    ok (some (record { version = v; flags = f; entries = n; table = t }))

pub stss_read : Reader Stss
stss_read m buffer size = if ltb size 8 then ok none else do
  v ← read_8 m buffer
  f ← read_24 m (buffer + 1)
  n ← read_32 m (buffer + 4)
  if ltb size (8 + n * 4) then ok none else do
    t ← read_rows (read_32 m) 4 n (buffer + 8)
    ok (some (record { version = v; flags = f; entries = n; sample_numbers = t }))

stts_row : Memory → ℕ → Run SttsTable
stts_row m p = do
  count ← read_32 m p
  duration ← read_32 m (p + 4)
  ok (record { sample_count = count; sample_duration = duration })

unfoldable pub stts_read : Reader Stts
unfolding stts_row
stts_read m buffer size = if ltb size 8 then ok none else do
  v ← read_8 m buffer
  f ← read_24 m (buffer + 1)
  n ← read_32 m (buffer + 4)
  if ltb size (8 + n * 8) then ok none else do
    t ← read_rows (stts_row m) 8 n (buffer + 8)
    ok (some (record { version = v; flags = f; entries = n; table = t }))
