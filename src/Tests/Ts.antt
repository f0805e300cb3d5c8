-- ===== src/Tests/Ts.antt =====
-- The theorems on the transport stream, the AAC header and the bucket at concrete inputs: a stream
-- of video alone, and a sample of two units.
use nginx_hls_module.Base.{
  ℕ, none, ◌+◌, ◌-◌, ◌^◌, ◌≡◌, refl, List, [], ◌∷◌, ◌++◌, some, arith, true, false, replicate,
}
use nginx_hls_module.Run.{ok, fault, ◌>>=◌}
use nginx_hls_module.Run.Returns.{Returns}
use nginx_hls_module.Memory.{Memory, IsMemory}
use nginx_hls_module.Memory.Reads.{byte_at, nth}
use nginx_hls_module.Memory.Holds.{Holds, bytes_32}
use nginx_hls_module.Mp4.Headers.{hdlr_init}
use nginx_hls_module.Mp4.Tree.{Trak, trak_init, mdia_init}
use nginx_hls_module.Mp4.Entry.{SampleEntry, sample_entry_init}
use nginx_hls_module.Adts.{mp4_samplerate_to_index, sample_entry_get_adts}
use nginx_hls_module.Adts.Frame.{read_frame, sample_entry_get_adts-Frame}
use nginx_hls_module.Bucket.{bucket_init, bucket_insert}
use nginx_hls_module.Bucket.Contents.{sent, IsBucket, bucket_insert-IsBucket}
use nginx_hls_module.Ts.{MpegtsStream, mpegts_stream_init, MpegtsMuxer, mpegts_muxer_init, Fragment}
use nginx_hls_module.Ts.Crc.{get_crc32}
use nginx_hls_module.Ts.Crc.Division.{remainder, shift_times, shift, get_crc32-remainder}
use nginx_hls_module.Ts.Crc.Residue.{get_crc32-residue}
use nginx_hls_module.Ts.Pts.{write_pts, read_stamp, read_stamp-write_pts}
use nginx_hls_module.Ts.Packet.{packetized_packets, pes_header, write_packets}
use nginx_hls_module.Ts.Packet.Sent.{Sent, IsStream, write_packets-Sent}
use nginx_hls_module.Ts.Psi.{vide, soun, write_header}
use nginx_hls_module.Ts.Psi.Clock.{video_pid, write_header-video_pid, write_header-fault}
use nginx_hls_module.Ts.Psi.Tables.{
  video, WritesPat, WritesPmt, mpegts_muxer_write_pat-WritesPat, mpegts_muxer_write_pmt-WritesPmt,
}
use nginx_hls_module.Ts.Mux.{
  convert_to_nal, write_packet, video_prefix, aud_nal, write_video_packet, write_audio_packet,
}
use nginx_hls_module.Ts.Mux.Nal.{sample_of, annex_b, convert_to_nal-annex_b}
use nginx_hls_module.Ts.Mux.Overrun.{convert_to_nal_overrun}
use nginx_hls_module.Ts.Mux.Whole.{IsMuxer, Writes, write_packet-Writes}
use nginx_hls_module.Ts.Mux.Audio.{Queued, write_audio_packet-Queued}
use nginx_hls_module.Ts.Mux.Video.{write_video_packet-Writes}
use nginx_hls_module.Tests.Octets.{are_octets, octets_of, are_held, Holds-of}

abbrev digits_9 : List ℕ
digits_9 = 49 ∷ 50 ∷ 51 ∷ 52 ∷ 53 ∷ 54 ∷ 55 ∷ 56 ∷ 57 ∷ []

get_crc32-remainder_example : get_crc32 (2 ^ 32 - 1) digits_9 ≡ ok 0x0376e6e7
unfolding are_octets remainder shift_times shift
get_crc32-remainder_example =
    get_crc32-remainder (2 ^ 32 - 1) digits_9 (omega arith) (octets_of digits_9 refl)

get_crc32-residue_example :
    (get_crc32 (2 ^ 32 - 1) digits_9 >>= λ r. get_crc32 (2 ^ 32 - 1) (digits_9 ++ bytes_32 r))
    ≡ ok 0
unfolding are_octets
get_crc32-residue_example =
    get_crc32-residue (2 ^ 32 - 1) digits_9 (omega arith) (octets_of digits_9 refl)

read_stamp-write_pts_example :
    read_stamp (write_pts 2 (2 ^ 33 + 12345)) ≡ record { fourbits = 2; time = 12345; markers = 3 }
read_stamp-write_pts_example = read_stamp-write_pts 2 (2 ^ 33 + 12345) (omega arith)

abbrev entry : SampleEntry
entry = record (sample_entry_init 0 0 (record { base = 0; bytes = [] })) {
  channels = 2;
  samples_per_sec = 48000;
}

sample_entry_get_adts-Frame_example : read_frame (sample_entry_get_adts entry 371) ≡ record {
  syncword = 0xfff;
  protection_absent = 1;
  profile = 1;
  frequency_index = mp4_samplerate_to_index entry.samples_per_sec;
  channel_configuration = 2;
  frame_length = 378;
}
unfolding sample_entry_init
sample_entry_get_adts-Frame_example =
    sample_entry_get_adts-Frame entry 371 (omega arith) (omega arith)

bucket_init-IsBucket : IsBucket bucket_init
unfolding sent
bucket_init-IsBucket = record { counted = refl; ends = tt }

bucket_insert-IsBucket_example :
    (sent (bucket_insert bucket_init digits_9).chain ≡ sent bucket_init.chain ++ digits_9)
    × IsBucket (bucket_insert bucket_init digits_9)
bucket_insert-IsBucket_example = bucket_insert-IsBucket digits_9 bucket_init-IsBucket (omega arith)

-- A stream that has sent one packet, so that it needs no parameter sets.
abbrev stream : MpegtsStream
stream = record (mpegts_stream_init true 100 entry) { cc = 15; packets = 1 }

stream-IsStream : IsStream stream
stream-IsStream = record { named = omega arith; counted = omega arith; sent = omega arith }

abbrev trak : Trak
trak = record trak_init {
  mdia = some (record mdia_init { hdlr = some (record hdlr_init { handler_type = vide }) });
}

abbrev fragment : Fragment
fragment = record { trak = some trak; first = 0; last = 1; stream = some stream }

abbrev muxer : MpegtsMuxer
muxer = record (mpegts_muxer_init bucket_init (fragment ∷ [])) { pcr_pid = 100; pat_cc = 7 }

muxer-IsMuxer : IsMuxer ((0x1b, 100) ∷ []) muxer
muxer-IsMuxer = record {
  pat_counted = omega arith;
  pmt_counted = omega arith;
  clocked = omega arith;
  few = omega arith;
  programs = (video trak stream refl refl refl refl, omega arith, tt);
}

mpegts_muxer_write_pat-WritesPat_example : WritesPat muxer
mpegts_muxer_write_pat-WritesPat_example = mpegts_muxer_write_pat-WritesPat muxer (omega arith)

mpegts_muxer_write_pmt-WritesPmt_example : WritesPmt muxer ((0x1b, 100) ∷ [])
mpegts_muxer_write_pmt-WritesPmt_example =
    mpegts_muxer_write_pmt-WritesPmt muxer ((0x1b, 100) ∷ []) (omega arith) (omega arith)
      (omega arith) (video trak stream refl refl refl refl, omega arith, tt)

abbrev payload : List ℕ
payload = replicate 300 7

write_packets-Sent_example :
    Returns
      (Sent stream 1
        (packetized_packets stream 100 9000 9600 300)
        (pes_header true 9000 9600 300 ++ payload))
      (write_packets
        (packetized_packets stream 100 9000 9600 300)
        100
        stream
        9000
        9600
        true
        false
        payload)
write_packets-Sent_example =
    write_packets-Sent stream 100 9000 9600 payload stream-IsStream (omega arith) (omega arith)

write_packet-Writes_example :
    Returns
      (Writes muxer stream ((0x1b, 100) ∷ []) 9000 9600 payload)
      (write_packet muxer stream 9000 9600 payload)
write_packet-Writes_example =
    write_packet-Writes muxer stream ((0x1b, 100) ∷ []) 9000 9600 payload muxer-IsMuxer
      stream-IsStream (omega arith) (omega arith)

-- A sample of two units, of 3 and of 40 bytes.
abbrev unit_1 : List ℕ
unit_1 = 0x09 ∷ 0x10 ∷ 0x80 ∷ []

abbrev unit_2 : List ℕ
unit_2 = 0x65 ∷ replicate 39 0x88

abbrev source : Memory
source = record { base = 4096; bytes = bytes_32 3 ++ unit_1 ++ bytes_32 40 ++ unit_2 }

source-IsMemory : IsMemory source
unfolding are_octets
source-IsMemory = record { octets = octets_of source.bytes refl; fits = omega arith }

source-Holds : Holds source 4096 (sample_of (unit_1 ∷ unit_2 ∷ []))
unfolding byte_at nth are_held sample_of
source-Holds = Holds-of source 4096 source.bytes refl

convert_to_nal-annex_b_example :
    convert_to_nal 2 source 4096 4147 51 ≡ ok (some (annex_b (unit_1 ∷ unit_2 ∷ [])))
unfolding sample_of
convert_to_nal-annex_b_example =
    convert_to_nal-annex_b source-IsMemory 2 4096 51 unit_1 (unit_2 ∷ []) (λ e. omega arith)
      source-Holds (record { above = omega arith; below = omega arith }) (omega arith) (omega arith)
      (omega arith)

video_prefix-stream : video_prefix stream ≡ ok aud_nal
unfolding video_prefix
video_prefix-stream = refl

write_video_packet-Writes_example :
    Returns
      (Writes muxer stream ((0x1b, 100) ∷ []) 9000 9600 (aud_nal ++ annex_b (unit_1 ∷ unit_2 ∷ [])))
      (write_video_packet 2 muxer stream 9000 9600 source 4096 4147)
unfolding sample_of
write_video_packet-Writes_example =
    write_video_packet-Writes 2 9000 9600 4096 unit_1 (unit_2 ∷ []) aud_nal muxer-IsMuxer
      stream-IsStream source-IsMemory video_prefix-stream (λ e. omega arith) source-Holds
      (record { above = omega arith; below = omega arith }) (omega arith) (omega arith)
      (omega arith)

abbrev sound : MpegtsStream
sound = record stream { is_video = false; payload = replicate 100 1; payload_dts = 0 }

write_audio_packet-Queued_example :
    Returns
      (Queued ((0x1b, 100) ∷ []) muxer sound payload)
      (write_audio_packet 300 muxer sound 50000 50000 payload)
write_audio_packet-Queued_example =
    write_audio_packet-Queued 300 muxer sound ((0x1b, 100) ∷ []) 50000 50000 payload muxer-IsMuxer
      (record { named = omega arith; counted = omega arith; sent = omega arith }) (omega arith)
      (omega arith)

-- A length of 5 in a sample of 7 bytes, behind which the allocation ends.
abbrev short : Memory
short = record { base = 4096; bytes = bytes_32 5 ++ unit_1 }

convert_to_nal_overrun_example : convert_to_nal 1 short 4096 4103 17 ≡ fault
unfolding are_octets byte_at nth
convert_to_nal_overrun_example =
    convert_to_nal_overrun (record { octets = octets_of short.bytes refl; fits = omega arith }) 0
      4096 4103 17 5 (refl, (refl, (refl, (refl, tt)))) (omega arith) refl (omega arith)
      (omega arith) (λ e. omega arith) (omega arith) (omega arith)

write_header-video_pid_example : write_header muxer ≡ ok (record muxer { pcr_pid = 100 })
unfolding video_pid
write_header-video_pid_example =
    write_header-video_pid muxer ((0x1b, 100) ∷ [])
      (video trak stream refl refl refl refl, omega arith, tt)

-- The second of two fragments has no track, as where only sound is selected.
abbrev sound_trak : Trak
sound_trak = record trak_init {
  mdia = some (record mdia_init { hdlr = some (record hdlr_init { handler_type = soun }) });
}

abbrev sound_fragment : Fragment
sound_fragment = record { trak = some sound_trak; first = 0; last = 1; stream = some sound }

abbrev no_fragment : Fragment
no_fragment = record { trak = none; first = 0; last = 0; stream = none }

write_header-fault_example :
    write_header (mpegts_muxer_init bucket_init (sound_fragment ∷ no_fragment ∷ [])) ≡ fault
write_header-fault_example =
    write_header-fault (mpegts_muxer_init bucket_init (sound_fragment ∷ no_fragment ∷ []))
      sound_fragment no_fragment [] sound_trak soun refl refl refl (λ e. omega arith) refl
