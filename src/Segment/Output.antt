-- ===== src/Segment/Output.antt =====
-- src/output_ts.h, `output_ts` from the muxer on: the samples of the fragments are read from the
-- file and sent in the order of their times. The muxer's fragments are the array of `output_ts`
-- itself; a fragment's stream is kept in it. `fuel` bounds the loops that send one sample, `rounds`
-- the samples.
pub mod Order
pub mod Time
use nginx_hls_module.Base.{
  ℕ, zero, suc, ◌+◌, ◌-◌, ◌*◌, ◌%◌, ◌^◌, List, [], ◌∷◌, ◌++◌, Option, none, some, Bool, true, false,
  not, ltb, ◌&&◌, ◌||◌, ◌==◌, if◌then◌else◌, get_elem?, set, length,
}
use nginx_hls_module.Run.{Run, ok, out_of_fuel, ◌>>=◌, deref}
use nginx_hls_module.Memory.{Memory}
use nginx_hls_module.Mp4.Tables.{Sample}
use nginx_hls_module.Mp4.Entry.{SampleEntry}
use nginx_hls_module.Mp4.Tree.{Trak, Moov}
use nginx_hls_module.Reader.Headers.{copy_bytes}
use nginx_hls_module.Reader.Moov.{trak_handler, trak_stbl}
use nginx_hls_module.Reader.Tree.{is_set}
use nginx_hls_module.Index.Movie.{moov_build_index}
use nginx_hls_module.Bucket.{Bucket}
use nginx_hls_module.Adts.{sample_entry_get_adts}
use nginx_hls_module.Ts.{
  nopts_value, Fragment, MpegtsMuxer, MpegtsStream, mpegts_muxer_init, mpegts_stream_init,
}
use nginx_hls_module.Ts.Psi.{write_header}
use nginx_hls_module.Ts.Mux.{flush_audio_packet, write_audio_packet, write_video_packet}
use nginx_hls_module.File.{Mp4Context, mp4_read}
use nginx_hls_module.Segment.Select.{
  mark_video, mark_sound, max_fragment_size, Selection, select_tracks, chosen_fragments,
  convert_fragment,
}

-- START_PID
abbrev pub start_pid : ℕ
start_pid = 100

-- A function on the fragments in turn, with their numbers.
each_fragment : (ℕ → Fragment → Run Fragment) → ℕ → List Fragment → Run (List Fragment)
each_fragment f i [] = ok []
each_fragment f i (x ∷ xs) = do y ← f i x; ys ← each_fragment f (i + 1) xs; ok (y ∷ ys)

sample_entry_of : Trak → Run SampleEntry
sample_entry_of t = do
  stbl ← trak_stbl t
  stsd ← deref stbl.stsd
  deref (get_elem? stsd.sample_entries 0)

-- The stream of a fragment of sound or video. An entry that is not there is a fault here already,
-- where the source takes its address.
unfoldable pub init_stream : ℕ → Fragment → Run Fragment
unfolding sample_entry_of
init_stream i f = elim f.trak [
  | none ↦ ok f
  | some trak ↦ do
    kind ← trak_handler trak
    if (kind == mark_sound) || (kind == mark_video)
        then (do
          entry ← sample_entry_of trak
          ok (record f {
            stream = some (mpegts_stream_init (kind == mark_video) (start_pid + i) entry);
          }))
        else ok f
]

-- The bytes that the fragments take up in the file: from, and up to; `none` where a fragment is
-- larger than it may be.
unfoldable pub extent : List Fragment → ℕ → ℕ → Run (Option (ℕ × ℕ))
extent [] offset pos_end = ok (some (offset, pos_end))
extent (f ∷ fs) offset pos_end = elim f.trak [
  | none ↦ extent fs offset pos_end
  | some trak ↦ do
    x ← deref (get_elem? trak.samples f.first)
    y ← deref (get_elem? trak.samples f.last)
    kind ← trak_handler trak
    let limit =
        if kind == mark_sound
        then 1024 * 1024 * 10
        else if kind == mark_video
        then 1024 * 1024 * 50
        else 0
    if ltb limit ((y.pos + (2 ^ 64 - x.pos)) % 2 ^ 64)
        then ok none
        else extent fs (if ltb x.pos offset then x.pos else offset)
            (if ltb pos_end y.pos then y.pos else pos_end)
]

-- A fragment with all its samples sent; one is enough for the segment to end.
abbrev pub is_sent : Fragment → Bool
is_sent f = is_set f.trak && (f.first == f.last)

unfoldable pub any_sent : List Fragment → Bool
any_sent [] = false
any_sent (f ∷ fs) = is_sent f || any_sent fs

unfoldable pub head_sample : Fragment → Run Sample
head_sample f = do trak ← deref f.trak; deref (get_elem? trak.samples f.first)

-- The first fragment whose next sample has the least time, below `min_dts`; else `order`.
unfoldable pub new_order : List Fragment → ℕ → ℕ → Option ℕ → Run (Option ℕ)
new_order [] i min_dts order = ok order
new_order (f ∷ fs) i min_dts order =
    if is_set f.trak && not (f.first == f.last)
    then (do
      x ← head_sample f
      if ltb x.pts min_dts
          then new_order fs (i + 1) x.pts (some i)
          else new_order fs (i + 1) min_dts order)
    else new_order fs (i + 1) min_dts order

-- A fragment goes on by a sample, with its stream.
abbrev pub replace_stream : MpegtsMuxer → ℕ → Fragment → MpegtsStream → MpegtsMuxer
replace_stream m i f s = record m { fragment = set m.fragment i (record f { stream = some s }) }

-- What waits of a fragment of sound is sent when another fragment follows.
unfoldable pub leave_sound : MpegtsMuxer → Option ℕ → Option ℕ → Run MpegtsMuxer
leave_sound m none new = ok m
leave_sound m (some i) new = if elim new [ none ↦ false | some j ↦ i == j ] then ok m else (do
  f ← deref (get_elem? m.fragment i)
  trak ← deref f.trak
  kind ← trak_handler trak
  if kind == mark_sound
      then (do s ← deref f.stream; (m', s') ← flush_audio_packet m s; ok (replace_stream m' i f s'))
      else ok m)

-- The next sample of a fragment, its bytes at an address of the memory.
unfoldable pub send_sample : ℕ → Memory → ℕ → MpegtsMuxer → ℕ → Run MpegtsMuxer
unfolding sample_entry_of
send_sample fuel source address m i = do
  f ← deref (get_elem? m.fragment i)
  trak ← deref f.trak
  x ← head_sample f
  kind ← trak_handler trak
  let pts = (x.pts + x.cto) % 2 ^ 64
  let next = record f { first = f.first + 1 }
  if kind == mark_sound
      then (do
        s ← deref f.stream
        entry ← sample_entry_of trak
        let s0 =
            if s.payload_dts == nopts_value
            then record s { payload_dts = x.pts; payload_pts = pts }
            else s
        (m1, s1) ←
            write_audio_packet fuel m s0 nopts_value nopts_value
              (sample_entry_get_adts entry x.size)
        bytes ← copy_bytes source address x.size
        (m2, s2) ← write_audio_packet fuel m1 s1 x.pts pts bytes
        (m3, s3) ← if f.first + 1 == f.last then flush_audio_packet m2 s2 else ok (m2, s2)
        ok (replace_stream m3 i next s3))
      else if kind == mark_video
      then (do
        s ← deref f.stream
        (m1, s1) ←
            write_video_packet fuel m s x.pts pts source address ((address + x.size) % 2 ^ 64)
        ok (replace_stream m1 i next s1))
      else ok (record m { fragment = set m.fragment i next })

-- The loop over the samples; `base` is where the bytes from `offset` of the file on are.
unfoldable pub send_samples : ℕ → ℕ → Memory → ℕ → ℕ → MpegtsMuxer → Option ℕ → Run MpegtsMuxer
send_samples zero fuel source base offset m order =
    if any_sent m.fragment then ok m else out_of_fuel
send_samples (suc rounds) fuel source base offset m order =
    if any_sent m.fragment then ok m else (do
      new ← new_order m.fragment 0 (2 ^ 64 - 1) order
      m1 ← leave_sound m order new
      elim new [
        | none ↦ ok m1
        | some i ↦ do
          f ← deref (get_elem? m1.fragment i)
          x ← head_sample f
          let address = (base + (x.pos + (2 ^ 64 - offset))) % 2 ^ 64
          m2 ← send_sample fuel source address m1 i
          send_samples rounds fuel source base offset m2 (some i)
      ])

module _ (ngx_palloc : ℕ → Option ℕ) (ngx_read_file : ℕ → ℕ → Option (List ℕ))
    (reaches : ℕ → ℕ → ℕ → Bool) where
  -- The result 0 is `none`; for 1 the bucket is the muxer's.
  unfoldable pub output_fragments :
      ℕ → ℕ → Mp4Context → Bucket → List Fragment → Run (Option MpegtsMuxer)
  unfolding each_fragment
  output_fragments rounds fuel c bucket chosen = do
    converted ← each_fragment (λ i f. convert_fragment f) 0 chosen
    fragments ← each_fragment init_stream 0 converted
    m ← write_header (mpegts_muxer_init bucket fragments)
    bytes ← extent m.fragment (2 ^ 64 - 1) 0
    elim bytes [
      | none ↦ ok none
      | some (offset, pos_end) ↦
          if (pos_end == 0) || (offset == 2 ^ 64 - 1)
          then ok none
          else let r =
              mp4_read ngx_palloc ngx_read_file c ((pos_end + (2 ^ 64 - offset)) % 2 ^ 64) offset in
            elim r.0 [
              | none ↦ ok none
              | some base ↦ do
                source ← deref r.1.buffer
                sent ← send_samples rounds fuel source base offset m none
                ok (some sent)
            ]
    ]

  -- A track number 0 in the request stands for 1.
  unfoldable pub output_ts : ℕ → ℕ → Mp4Context → Bucket → ℕ → ℕ → ℕ → Run (Option MpegtsMuxer)
  output_ts rounds fuel c bucket fragment_track_id fragment_start seconds = do
    let audio = if fragment_track_id == 0 then 1 else fragment_track_id
    (indexed, good) ← moov_build_index c.moov
    if not good then ok none else (do
      moov ← deref indexed
      selected ←
          select_tracks reaches audio fragment_start seconds moov.traks 0
            (record { fragments = []; audio_tracks = 0; last_chunk = 0 })
      elim selected [
        | none ↦ ok none
        | some s ↦ elim (chosen_fragments s) [
          | none ↦ ok none
          | some chosen ↦ output_fragments rounds fuel (record c { moov = indexed }) bucket chosen
        ]
      ])
