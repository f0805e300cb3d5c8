-- ===== src/Tests.antt =====
-- The theorems at concrete inputs.
pub mod Octets
pub mod Movie
pub mod Ts
pub mod Segment
pub mod File
pub mod Output
use nginx_hls_module.Base.{
  ℕ, ◌+◌, ◌^◌, ◌≡◌, refl, List, [], ◌∷◌, Option, none, some, arith, All, length, Bool, true, false,
  ltb, ltb→lt, ◌&&◌, ◌<◌, ◌%◌,
}
use nginx_hls_module.Run.{Run, ok, fault}
use nginx_hls_module.Run.Returns.{Returns}
use nginx_hls_module.Memory.{
  Memory, IsMemory, Readable, read_16, read_32, read_64, write_16, write_32, write_64,
}
use nginx_hls_module.Memory.Writes.{Rewritten, write-read}
use nginx_hls_module.Memory.Reads.{be_32, be_64}
use nginx_hls_module.Mp4.Tables.{Stts, Stss, Stsc, Stsz, Stco, Ctts, Sample}
use nginx_hls_module.Reader.Tables.{stco_read, co64_read, stsz_read}
use nginx_hls_module.Reader.Tables.Content.{table_at, chunk_offsets_at, stsz_read-stsz_at, stsz_at}
use nginx_hls_module.Lookup.{stts_get_time, stts_get_sample, stss_get_nearest_keyframe}
use nginx_hls_module.Lookup.Times.{
  total_samples, total_time, time_of, Reaches, stts_get_time-time_of, stts_get_sample-Reaches,
}
use nginx_hls_module.Lookup.Keyframes.{
  IsNearest, stss_get_nearest_keyframe-IsNearest, stss_get_nearest_keyframe-fault,
}
use nginx_hls_module.Index.{empty_sample, calc_pts}
use nginx_hls_module.Index.Pts.{Timed, calc_pts-Timed}
use nginx_hls_module.Index.Pts.Overrun.{calc_pts-fault}
use nginx_hls_module.Tests.Octets.{are_octets, octets_of}

-- Three samples of 10 and two of 20.
abbrev times : Stts
times = record {
  version = 0;
  flags = 0;
  entries = 2;
  table =
      record { sample_count = 3; sample_duration = 10 }
      ∷ record { sample_count = 2; sample_duration = 20 }
      ∷ [];
}

stts_get_time-time_of_example : stts_get_time times 4 ≡ ok 50
unfolding total_samples total_time time_of
stts_get_time-time_of_example =
    stts_get_time-time_of times 4 (omega arith) (omega arith) (omega arith)

stts_get_sample-Reaches_example :
    (n : ℕ) × (stts_get_sample times 45 ≡ ok n) × Reaches times.table 45 n
unfolding total_samples total_time
stts_get_sample-Reaches_example =
    stts_get_sample-Reaches times 45 ((omega arith, omega arith), ((omega arith, omega arith), tt))
      (omega arith) (omega arith) (omega arith)

abbrev key_frames : Stss
key_frames = record { version = 0; flags = 0; entries = 3; sample_numbers = 2 ∷ 5 ∷ 9 ∷ [] }

stss_get_nearest_keyframe-IsNearest_example :
    (k : ℕ) × (stss_get_nearest_keyframe key_frames 7 ≡ ok k) × IsNearest (2 ∷ 5 ∷ 9 ∷ []) 7 k
stss_get_nearest_keyframe-IsNearest_example =
    stss_get_nearest_keyframe-IsNearest key_frames 7 2 (5 ∷ 9 ∷ []) refl
      (omega arith, (omega arith, tt)) (omega arith) (omega arith)

stss_get_nearest_keyframe-fault_example : stss_get_nearest_keyframe key_frames 1 ≡ fault
stss_get_nearest_keyframe-fault_example =
    stss_get_nearest_keyframe-fault key_frames 1 (omega arith, (omega arith, (omega arith, tt)))
      (omega arith) (omega arith)

abbrev six_samples : List Sample
six_samples =
    empty_sample ∷ empty_sample ∷ empty_sample ∷ empty_sample ∷ empty_sample ∷ empty_sample ∷ []

calc_pts-Timed_example :
    Returns (Timed (time_of times.table) 0 6 six_samples) (calc_pts times six_samples)
unfolding total_samples total_time
calc_pts-Timed_example = calc_pts-Timed times six_samples (omega arith) (omega arith)

calc_pts-fault_example : calc_pts times (empty_sample ∷ []) ≡ fault
unfolding total_samples
calc_pts-fault_example = calc_pts-fault times (empty_sample ∷ []) (omega arith)

-- A payload with two rows of 8 bytes, which is read as every kind of table.
abbrev payload : Memory
payload = record {
  base = 4096;
  bytes =
      0 ∷ 0 ∷ 0 ∷ 0 ∷ 0 ∷ 0 ∷ 0 ∷ 2 ∷ 0 ∷ 0 ∷ 0 ∷ 3 ∷ 0 ∷ 0 ∷ 0 ∷ 10 ∷ 0 ∷ 0 ∷ 0 ∷ 2 ∷ 0 ∷ 0 ∷ 1 ∷ 4
      ∷ 0 ∷ 0 ∷ 0 ∷ 0 ∷ 0 ∷ 0 ∷ 0 ∷ 1 ∷ [];
}

payload-IsMemory : IsMemory payload
unfolding are_octets
payload-IsMemory = record { octets = octets_of payload.bytes refl; fits = omega arith }

chunk_offsets_at_example :
    (stco_read payload 4096 32
      ≡ ok (
          table_at
            (λ v f n t. record { version = v; flags = f; entries = n; chunk_offsets = t })
            (be_32 payload)
            4
            payload
            4096
            32))
    × (co64_read payload 4096 32
        ≡ ok (
            table_at
              (λ v f n t. record { version = v; flags = f; entries = n; chunk_offsets = t })
              (be_64 payload)
              8
              payload
              4096
              32))
chunk_offsets_at_example =
    chunk_offsets_at payload-IsMemory 4096 32 (record { above = omega arith; below = omega arith })

stsz_read-stsz_at_example : stsz_read payload 4096 32 ≡ ok (stsz_at payload 4096 32)
stsz_read-stsz_at_example =
    stsz_read-stsz_at payload-IsMemory 4096 32 (record { above = omega arith; below = omega arith })

write-read_example :
    Returns
      (λ (q, m').
        (q ≡ 4100 + 2) × (read_16 m' 4100 ≡ ok (258 % 2 ^ 16)) × Rewritten payload 4100 2 m')
      (write_16 payload 4100 258)
    × Returns
        (λ (q, m').
          (q ≡ 4100 + 4) × (read_32 m' 4100 ≡ ok (258 % 2 ^ 32)) × Rewritten payload 4100 4 m')
        (write_32 payload 4100 258)
    × Returns
        (λ (q, m').
          (q ≡ 4100 + 8) × (read_64 m' 4100 ≡ ok (258 % 2 ^ 64)) × Rewritten payload 4100 8 m')
        (write_64 payload 4100 258)
write-read_example =
    write-read payload-IsMemory 4100 258 (record { above = omega arith; below = omega arith })
