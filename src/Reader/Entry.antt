-- ===== src/Reader/Entry.antt =====
-- src/mp4_reader.h: the sample descriptions, `stsd_read` and the parsers of an entry by the kind of
-- its track. A parser works on the entry's own copy of its bytes, and returns the entry as far as it
-- is filled in with a flag that is false for the source's 0.
use nginx_hls_module.Base.{
  ℕ, zero, suc, ◌+◌, ◌-◌, ◌*◌, ◌/◌, ◌%◌, ◌^◌, List, [], ◌∷◌, Option, none, some, Bool, true, false,
  not, ltb, leb, ◌==◌, ◌||◌, ◌&&◌, if◌then◌else◌, bit_and, bit_or,
}
use nginx_hls_module.Run.{Run, ok, out_of_fuel, ◌>>=◌}
use nginx_hls_module.Memory.{Memory, advance, read_8, read_16, read_24, read_32}
use nginx_hls_module.Mp4.{fourcc, atom_preamble_size}
use nginx_hls_module.Mp4.Entry.{SampleEntry, sample_entry_init, Stsd}
use nginx_hls_module.Reader.{Reader}
use nginx_hls_module.Reader.Headers.{copy_bytes}
use nginx_hls_module.Reader.Atom.{atom_read_header}

abbrev pub Parsed : Type 0
Parsed = Run (SampleEntry × Bool)

-- The length of a descriptor, 7 bits a byte and 4 bytes at most, and the address behind it.
desc_len_loop : Memory → ℕ → ℕ → ℕ → Run (ℕ × ℕ)
desc_len_loop m zero p len = ok (len, p)
desc_len_loop m (suc k) p len = do
  c ← read_8 m p
  let len' = bit_or (len * 2 ^ 7 % 2 ^ 32) (bit_and c 0x7f)
  if bit_and c 0x80 == 0 then ok (len', p + 1) else desc_len_loop m k (p + 1) len'

pub mp4_read_desc_len : Memory → ℕ → Run (ℕ × ℕ)
unfolding desc_len_loop
mp4_read_desc_len m p = desc_len_loop m 4 p 0

-- The tag and the length in front of a descriptor.
descriptor : Memory → ℕ → Run (ℕ × ℕ × ℕ)
descriptor m p = do tag ← read_8 m p; (len, q) ← mp4_read_desc_len m (p + 1); ok (tag, len, q)

-- The address behind the elementary stream descriptor.
skip_es : Memory → ℕ → Run ℕ
skip_es m p = do
  tag ← read_8 m p
  if tag == 3 then (do (len, q) ← mp4_read_desc_len m (p + 1); ok (q + 3)) else ok (p + 1 + 2)

-- WAVE_FORMAT_RAW_AAC1, WAVE_FORMAT_MP3, or what it was.
format_of : ℕ → ℕ → ℕ
format_of object_type old =
    if object_type == 0x66 || object_type == 0x67 || object_type == 0x68 || object_type == 0x40
    then 0x00ff
    else if object_type == 0x6b || object_type == 0x69
    then 0x0055
    else old

rate_of : SampleEntry → ℕ → ℕ → ℕ
rate_of e max avg =
    if e.avg_bytes_per_sec == 0 then (if avg == 0 then max else avg) / 8 else e.avg_bytes_per_sec

pub esds_read : Memory → SampleEntry → ℕ → ℕ → Parsed
unfolding mp4_read_desc_len descriptor skip_es format_of rate_of
esds_read m e buffer size = if ltb size 9 then ok (e, false) else do
  version ← read_8 m buffer
  flags ← read_24 m (buffer + 1)
  p ← skip_es m (buffer + 4)
  (tag, len, q) ← descriptor m p
  if not (tag == 4) then ok (e, false) else do
    object_type ← read_8 m q
    stream_type ← read_8 m (q + 1)
    buffer_size ← read_24 m (q + 2)
    max ← read_32 m (q + 5)
    avg ← read_32 m (q + 9)
    let e' = record e {
      max_bitrate = max;
      avg_bitrate = avg;
      format_tag = format_of object_type e.format_tag;
      avg_bytes_per_sec = rate_of e max avg;
    }
    (tag', len', private) ← descriptor m (q + 13)
    ok (
      if tag' == 5
          then record e' { codec_private_data_length = len'; codec_private_data = some private }
          else e',
      true,
    )

-- The loop over the atoms in an entry; `handle` is the source's `switch` on the type.
unfoldable pub entry_loop :
    (ℕ → SampleEntry → ℕ → ℕ → Parsed) → ℕ → Memory → ℕ → ℕ → SampleEntry → Parsed
entry_loop handle zero m end buffer e = out_of_fuel
entry_loop handle (suc fuel) m end buffer e =
    if ltb buffer end
    then (do
      header ← atom_read_header m buffer
      elim header [
        | none ↦ ok (e, false)
        | some (b, atom) ↦ do
          (e', more) ← handle atom.type e b (atom.size - atom_preamble_size)
          if more then entry_loop handle fuel m end atom.end e' else ok (e', false)
      ])
    else ok (e, true)

-- The sequence and the picture parameter sets: the last of each kind stays.
sps_loop : Memory → ℕ → ℕ → SampleEntry → Run (ℕ × SampleEntry)
sps_loop m zero p e = ok (p, e)
sps_loop m (suc n) p e = do
  l ← read_16 m p
  sps_loop m n (advance (p + 2) l) (record e { sps = some (p + 2); sps_length = l })

pps_loop : Memory → ℕ → ℕ → SampleEntry → Run (ℕ × SampleEntry)
pps_loop m zero p e = ok (p, e)
pps_loop m (suc n) p e = do
  l ← read_16 m p
  pps_loop m n (advance (p + 2) l) (record e { pps = some (p + 2); pps_length = l })

unfoldable pub avcc_read : Memory → SampleEntry → ℕ → Parsed
unfolding sps_loop pps_loop
avcc_read m e buffer = do
  b4 ← read_8 m (buffer + 4)
  b5 ← read_8 m (buffer + 5)
  let e' = record e { codec_private_data = some buffer; nal_unit_length = bit_and b4 3 + 1 }
  (p, e1) ← sps_loop m (bit_and b5 0x1f) (buffer + 6) e'
  pictures ← read_8 m p
  (q, e2) ← pps_loop m pictures (p + 1) e1
  ok (record e2 { codec_private_data_length = (q + 2 ^ 64 - buffer) % 2 ^ 32 }, true)

vide_atom : Memory → ℕ → SampleEntry → ℕ → ℕ → Parsed
vide_atom m kind e buffer size =
    if kind == fourcc b'a' b'v' b'c' b'C'
    then avcc_read m e buffer
    else if kind == fourcc b'e' b's' b'd' b's'
    then esds_read m e buffer size
    else ok (e, true)

pub stsd_parse_vide : ℕ → SampleEntry → Parsed
unfolding vide_atom
stsd_parse_vide fuel e =
    let start = e.buf.base in
    if ltb e.len 78
    then ok (e, false)
    else if e.fourcc == fourcc b'o' b'v' b'c' b'1'
    then ok (
      record e {
        codec_private_data = some (start + 190);
        codec_private_data_length = (e.len + 2 ^ 64 - 190) % 2 ^ 32;
      },
      true,
    )
    else if leb (78 + atom_preamble_size) e.len
    then entry_loop (vide_atom e.buf) fuel e.buf (advance start (e.len - atom_preamble_size))
        (start + 78) e
    else ok (e, true)

wave_atom : Memory → ℕ → SampleEntry → ℕ → ℕ → Parsed
wave_atom m kind e buffer size =
    if kind == fourcc b'e' b's' b'd' b's' then esds_read m e buffer size else ok (e, true)

pub wave_read : ℕ → Memory → SampleEntry → ℕ → ℕ → Parsed
unfolding wave_atom
wave_read fuel m e buffer size = entry_loop (wave_atom m) fuel m (advance buffer size) buffer e

soun_atom : ℕ → Memory → ℕ → SampleEntry → ℕ → ℕ → Parsed
soun_atom fuel m kind e buffer size =
    if kind == fourcc b'w' b'a' b'v' b'e'
    then wave_read fuel m e buffer size
    else if kind == fourcc b'e' b's' b'd' b's'
    then esds_read m e buffer size
    else ok (e, true)

-- The fields that every sound entry has, and the version.
soun_front : SampleEntry → Run (ℕ × SampleEntry)
soun_front e = do
  let m = e.buf
  let p = e.buf.base
  reference ← read_16 m (p + 6)
  version ← read_16 m (p + 8)
  revision ← read_16 m (p + 10)
  vendor ← read_32 m (p + 12)
  n ← read_16 m (p + 16)
  bits ← read_16 m (p + 18)
  compression ← read_16 m (p + 20)
  packet ← read_16 m (p + 22)
  hi ← read_16 m (p + 24)
  lo ← read_16 m (p + 26)
  ok (
    version,
    record e {
      channels = if n == 3 then 6 else n;
      bits_per_sample = bits;
      samplerate_hi = some hi;
      samplerate_lo = some lo;
      samples_per_sec = hi;
    },
  )

-- The 32-bit arithmetic of the average rate.
soun_rates : SampleEntry → ℕ → ℕ → ℕ → SampleEntry
soun_rates e samples_per_packet bytes_per_packet bytes_per_frame =
    if ltb 0 samples_per_packet
    then record e {
      avg_bytes_per_sec =
          (e.channels * e.samples_per_sec * bytes_per_packet + samples_per_packet / 2)
          % 2 ^ 32
          / samples_per_packet;
      block_align = bytes_per_frame % 2 ^ 16;
    }
    else record e {
      avg_bytes_per_sec = e.channels * e.samples_per_sec * e.bits_per_sample % 2 ^ 32 / 8;
    }

-- The extension of versions 1 and 2: the address behind it, or `none` where it does not fit.
soun_extension : ℕ → SampleEntry → Run (Option (ℕ × SampleEntry))
unfolding soun_rates
soun_extension version e =
    let m = e.buf in
    let p = e.buf.base + 28 in
    if version == 0
    then ok (some (p, e))
    else if (version == 1 && ltb e.len (28 + 16))
        || (version == 2 && ltb e.len (28 + 36))
        || ltb 2 version
    then ok none
    else do
      samples_per_packet ← read_32 m p
      bytes_per_packet ← read_32 m (p + 4)
      bytes_per_frame ← read_32 m (p + 8)
      bytes_per_sample ← read_32 m (p + 12)
      ok (
          some (
            p + (if version == 1 then 16 else 36),
            soun_rates e samples_per_packet bytes_per_packet bytes_per_frame,
          ))

pub stsd_parse_soun : ℕ → SampleEntry → Parsed
unfolding soun_atom soun_front soun_extension
stsd_parse_soun fuel e0 = if ltb e0.len 28 then ok (e0, false) else do
  (version, e) ← soun_front e0
  if e.fourcc == fourcc b'o' b'w' b'm' b'a'
      then ok (
        record e {
          codec_private_data = some (e.buf.base + 28);
          codec_private_data_length = e.len - 28;
        },
        true,
      )
      else do
        extended ← soun_extension version e
        elim extended [
          | none ↦ ok (e, false)
          | some (p, e') ↦
              entry_loop (soun_atom fuel e'.buf) fuel e'.buf
                (advance e'.buf.base (e'.len - atom_preamble_size)) p e'
        ]

-- Tracks that are neither video nor sound are left as they are.
parse_entry : ℕ → ℕ → SampleEntry → Parsed
parse_entry fuel handler e =
    if handler == fourcc b'v' b'i' b'd' b'e' then stsd_parse_vide fuel e else stsd_parse_soun fuel e

parse_entries : ℕ → ℕ → List SampleEntry → Run (List SampleEntry × Bool)
unfolding parse_entry
parse_entries fuel handler [] = ok ([], true)
parse_entries fuel handler (e ∷ es) =
    if handler == fourcc b'v' b'i' b'd' b'e' || handler == fourcc b's' b'o' b'u' b'n'
    then (do
      (e', good) ← parse_entry fuel handler e
      if not good
          then ok (e' ∷ es, false)
          else do (es', rest) ← parse_entries fuel handler es; ok (e' ∷ es', rest))
    else ok (e ∷ es, true)

unfoldable pub stsd_parse : ℕ → ℕ → Stsd → Run (Stsd × Bool)
unfolding parse_entries
stsd_parse fuel handler s = do
  (es, good) ← parse_entries fuel handler s.sample_entries
  ok (record s { sample_entries = es }, good)

-- `malloc p` is where the copy of the bytes at `p` is put.
stsd_rows : (ℕ → ℕ) → Memory → ℕ → ℕ → Run (List SampleEntry)
stsd_rows malloc m zero p = ok []
stsd_rows malloc m (suc n) p = do
  l ← read_32 m p
  kind ← read_32 m (p + 4)
  let len = (l + 2 ^ 32 - 8) % 2 ^ 32
  bs ← copy_bytes m (p + 8) len
  rest ← stsd_rows malloc m n (p + 8 + len)
  ok (sample_entry_init len kind (record { base = malloc (p + 8); bytes = bs }) ∷ rest)

unfoldable pub stsd_read : (ℕ → ℕ) → Reader Stsd
unfolding stsd_rows
stsd_read malloc m buffer size = if ltb size 8 then ok none else do
  v ← read_8 m buffer
  f ← read_24 m (buffer + 1)
  n ← read_32 m (buffer + 4)
  es ← stsd_rows malloc m n (buffer + 8)
  ok (some (record { version = v; flags = f; entries = n; sample_entries = es }))
