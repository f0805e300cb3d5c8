-- ===== src/Reader/Movie.antt =====
-- src/mp4_reader.h: the readers of the movie header, the edit list and the track defaults.
use nginx_hls_module.Base.{ℕ, ◌+◌, ◌-◌, ◌^◌, Option, none, some, ltb, ◌==◌, if◌then◌else◌}
use nginx_hls_module.Run.{Run, ok, ◌>>=◌}
use nginx_hls_module.Memory.{Memory, read_8, read_16, read_24, read_32, read_64}
use nginx_hls_module.Mp4.Headers.{Mvhd, Elst, ElstTable, Trex, mvhd_init}
use nginx_hls_module.Reader.{Reader}
use nginx_hls_module.Reader.Rows.{read_rows}

-- (int64_t)(int32_t)v, as a bit pattern.
sign_extend_32 : ℕ → ℕ
sign_extend_32 v = if ltb v (2 ^ 31) then v else v + (2 ^ 64 - 2 ^ 32)

elst_row_32 : Memory → ℕ → Run ElstTable
unfolding sign_extend_32
elst_row_32 m p = do
  length ← read_32 m p
  time ← read_32 m (p + 4)
  whole ← read_16 m (p + 8)
  fraction ← read_16 m (p + 10)
  ok (record {
    segment_duration = length;
    media_time = sign_extend_32 time;
    media_rate_integer = whole;
    media_rate_fraction = fraction;
  })

elst_row_64 : Memory → ℕ → Run ElstTable
elst_row_64 m p = do
  length ← read_64 m p
  time ← read_64 m (p + 8)
  whole ← read_16 m (p + 16)
  fraction ← read_16 m (p + 18)
  ok (record {
    segment_duration = length;
    media_time = time;
    media_rate_integer = whole;
    media_rate_fraction = fraction;
  })

-- The number of rows is not compared with the size.
pub elst_read : Reader Elst
unfolding elst_row_32 elst_row_64
elst_read m buffer size = if ltb size 8 then ok none else do
  v ← read_8 m buffer
  f ← read_24 m (buffer + 1)
  n ← read_32 m (buffer + 4)
  t ←
      if v == 0
      then read_rows (elst_row_32 m) 12 n (buffer + 8)
      else read_rows (elst_row_64 m) 20 n (buffer + 8)
  ok (some (record { version = v; flags = f; entry_count = n; table = t }))

mvhd_tail : Memory → ℕ → Mvhd → Run (Option Mvhd)
mvhd_tail m p h = do
  r ← read_32 m p
  vol ← read_16 m (p + 4)
  res1 ← read_16 m (p + 6)
  res2 ← read_rows (read_32 m) 4 2 (p + 8)
  mat ← read_rows (read_32 m) 4 9 (p + 16)
  pre ← read_rows (read_32 m) 4 6 (p + 52)
  next ← read_32 m (p + 76)
  ok (
      some (record h {
        rate = r;
        volume = vol;
        reserved1 = res1;
        reserved2 = res2;
        matrix = mat;
        predefined = pre;
        next_track_id = next;
      }))

unfoldable pub mvhd_read : ℕ → Reader Mvhd
unfolding mvhd_tail
mvhd_read now m buffer size = do
  v ← read_8 m buffer
  f ← read_24 m (buffer + 1)
  if v == 0
      then if ltb size (108 - 8) then ok none else (do
        created ← read_32 m (buffer + 4)
        modified ← read_32 m (buffer + 8)
        scale ← read_32 m (buffer + 12)
        length ← read_32 m (buffer + 16)
        mvhd_tail m (buffer + 20) (record (mvhd_init now) {
          version = v;
          flags = f;
          creation_time = created;
          modification_time = modified;
          timescale = scale;
          duration = length;
        }))
      else if ltb size (120 - 8)
      then ok none
      else (do
        created ← read_64 m (buffer + 4)
        modified ← read_64 m (buffer + 12)
        scale ← read_32 m (buffer + 20)
        length ← read_64 m (buffer + 24)
        mvhd_tail m (buffer + 32) (record (mvhd_init now) {
          version = v;
          flags = f;
          creation_time = created;
          modification_time = modified;
          timescale = scale;
          duration = length;
        }))

unfoldable pub trex_read : Reader Trex
trex_read m buffer size = if ltb size 24 then ok none else do
  v ← read_8 m buffer
  f ← read_24 m (buffer + 1)
  track ← read_32 m (buffer + 4)
  index ← read_32 m (buffer + 8)
  length ← read_32 m (buffer + 12)
  bytes ← read_32 m (buffer + 16)
  marks ← read_32 m (buffer + 20)
  ok (
      some (record {
        version = v;
        flags = f;
        track_id = track;
        default_sample_description_index = index;
        default_sample_duration = length;
        default_sample_size = bytes;
        default_sample_flags = marks;
      }))
