-- ===== src/Reader/Headers.antt =====
-- src/mp4_reader.h: the readers of the header atoms.
use nginx_hls_module.Base.{
  ℕ, zero, suc, ◌+◌, ◌-◌, ◌/◌, ◌%◌, ◌^◌, List, [], ◌∷◌, Option, none, some, ltb, ◌==◌,
  if◌then◌else◌, bit_and,
}
use nginx_hls_module.Run.{Run, ok, fault, ◌>>=◌, ◌>>◌}
use nginx_hls_module.Memory.{Memory, advance, read_8, read_16, read_24, read_32, read_64}
use nginx_hls_module.Mp4.{fourcc}
use nginx_hls_module.Mp4.Headers.{
  Tkhd, Mdhd, Hdlr, Vmhd, Smhd, Dref, DrefTable, tkhd_init, mdhd_init, dref_table_init,
}
use nginx_hls_module.Reader.{Reader}
use nginx_hls_module.Reader.Rows.{read_rows}

-- memcpy out of the buffer.
unfoldable pub copy_bytes : Memory → ℕ → ℕ → Run (List ℕ)
copy_bytes m p n = read_rows (read_8 m) 1 n p

-- No allocation of 2^63 bytes or more succeeds; the source uses the NULL that it gets.
unfoldable pub malloc_checked : ℕ → Run (Unit {0})
malloc_checked n = if ltb n (2 ^ 63) then ok tt else fault

-- The length of a name: a Pascal string in a QuickTime file.
hdlr_name_length : Memory → ℕ → ℕ → ℕ → Run (ℕ × ℕ)
hdlr_name_length m p size predefined =
    if predefined == fourcc b'm' b'h' b'l' b'r'
    then (do n ← read_8 m p; ok (p + 1, if ltb size n then size else n))
    else ok (p, size)

hdlr_name : Memory → ℕ → ℕ → ℕ → Run (Option (List ℕ))
unfolding hdlr_name_length
hdlr_name m p size predefined =
    if ltb 0 size
    then (do
      malloc_checked ((size + 1) % 2 ^ 64)
      (q, n) ← hdlr_name_length m p size predefined
      bs ← copy_bytes m q n
      ok (some bs))
    else ok none

unfoldable pub hdlr_read : Reader Hdlr
unfolding hdlr_name
hdlr_read m buffer size = if ltb size 8 then ok none else do
  v ← read_8 m buffer
  f ← read_24 m (buffer + 1)
  pre ← read_32 m (buffer + 4)
  kind ← read_32 m (buffer + 8)
  r1 ← read_32 m (buffer + 12)
  r2 ← read_32 m (buffer + 16)
  r3 ← read_32 m (buffer + 20)
  s ← hdlr_name m (buffer + 24) ((size + 2 ^ 64 - 24) % 2 ^ 64) pre
  ok (
      some (record {
        version = v;
        flags = f;
        predefined = pre;
        handler_type = kind;
        reserved1 = r1;
        reserved2 = r2;
        reserved3 = r3;
        name = s;
      }))

pub vmhd_read : Reader Vmhd
vmhd_read m buffer size = if ltb size 12 then ok none else do
  v ← read_8 m buffer
  f ← read_24 m (buffer + 1)
  mode ← read_16 m (buffer + 4)
  colors ← read_rows (read_16 m) 2 3 (buffer + 6)
  ok (some (record { version = v; flags = f; graphics_mode = mode; opcolor = colors }))

pub smhd_read : Reader Smhd
smhd_read m buffer size = if ltb size 8 then ok none else do
  v ← read_8 m buffer
  f ← read_24 m (buffer + 1)
  b ← read_16 m (buffer + 4)
  r ← read_16 m (buffer + 6)
  ok (some (record { version = v; flags = f; balance = b; reserved = r }))

-- Names and locations are not read.
dref_rows : Memory → ℕ → ℕ → Run (List DrefTable)
dref_rows m zero p = ok []
dref_rows m (suc n) p = do
  entry_size ← read_32 m p
  kind ← read_32 m (p + 4)
  f ← read_32 m (p + 8)
  rest ← dref_rows m n (advance p entry_size)
  let entry = record dref_table_init { flags = f }
  ok (entry ∷ rest)

pub dref_read : Reader Dref
unfolding dref_rows
dref_read m buffer size = if ltb size 20 then ok none else do
  v ← read_8 m buffer
  f ← read_24 m (buffer + 1)
  n ← read_32 m (buffer + 4)
  t ← dref_rows m n (buffer + 8)
  ok (some (record { version = v; flags = f; entry_count = n; table = t }))

-- A letter of the language code, of 5 bits.
abbrev language_letter : ℕ → ℕ → ℕ
language_letter language k = bit_and (language / 2 ^ k) 0x1f + 0x60

-- The size is not looked at.
mdhd_tail : Memory → ℕ → Mdhd → Run (Option Mdhd)
mdhd_tail m p h = do
  language ← read_16 m p
  pre ← read_16 m (p + 2)
  let letters =
      language_letter language 10 ∷ language_letter language 5 ∷ language_letter language 0 ∷ []
  ok (some (record h { language = letters; predefined = pre }))

unfoldable pub mdhd_read : ℕ → Reader Mdhd
unfolding mdhd_tail
mdhd_read now m buffer size = do
  v ← read_8 m buffer
  f ← read_24 m (buffer + 1)
  if v == 0
      then (do
        created ← read_32 m (buffer + 4)
        modified ← read_32 m (buffer + 8)
        scale ← read_32 m (buffer + 12)
        length ← read_32 m (buffer + 16)
        mdhd_tail m (buffer + 20) (record (mdhd_init now) {
          version = v;
          flags = f;
          creation_time = created;
          modification_time = modified;
          timescale = scale;
          duration = length;
        }))
      else (do
        created ← read_64 m (buffer + 4)
        modified ← read_64 m (buffer + 12)
        scale ← read_32 m (buffer + 20)
        length ← read_64 m (buffer + 24)
        mdhd_tail m (buffer + 32) (record (mdhd_init now) {
          version = v;
          flags = f;
          creation_time = created;
          modification_time = modified;
          timescale = scale;
          duration = length;
        }))

tkhd_tail : Memory → ℕ → Tkhd → Run (Option Tkhd)
tkhd_tail m p h = do
  res2 ← read_rows (read_32 m) 4 2 p
  l ← read_16 m (p + 8)
  pre ← read_16 m (p + 10)
  vol ← read_16 m (p + 12)
  res3 ← read_16 m (p + 14)
  mat ← read_rows (read_32 m) 4 9 (p + 16)
  w ← read_32 m (p + 52)
  ht ← read_32 m (p + 56)
  ok (
      some (record h {
        reserved2 = res2;
        layer = l;
        predefined = pre;
        volume = vol;
        reserved3 = res3;
        matrix = mat;
        width = w;
        height = ht;
      }))

unfoldable pub tkhd_read : ℕ → Reader Tkhd
unfolding tkhd_tail
tkhd_read now m buffer size = do
  v ← read_8 m buffer
  f ← read_24 m (buffer + 1)
  if v == 0
      then if ltb size (92 - 8) then ok none else (do
        created ← read_32 m (buffer + 4)
        modified ← read_32 m (buffer + 8)
        track ← read_32 m (buffer + 12)
        res ← read_32 m (buffer + 16)
        length ← read_32 m (buffer + 20)
        tkhd_tail m (buffer + 24) (record (tkhd_init now) {
          version = v;
          flags = f;
          creation_time = created;
          modification_time = modified;
          track_id = track;
          reserved = res;
          duration = length;
        }))
      else if ltb size (104 - 8)
      then ok none
      else (do
        created ← read_64 m (buffer + 4)
        modified ← read_64 m (buffer + 12)
        track ← read_32 m (buffer + 20)
        res ← read_32 m (buffer + 24)
        length ← read_64 m (buffer + 28)
        tkhd_tail m (buffer + 36) (record (tkhd_init now) {
          version = v;
          flags = f;
          creation_time = created;
          modification_time = modified;
          track_id = track;
          reserved = res;
          duration = length;
        }))
