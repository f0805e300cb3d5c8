-- ===== src/Adts.antt =====
-- src/mp4_io.h, `mp4_samplerate_to_index` and `sample_entry_get_adts`: the header in front of an AAC
-- frame.
pub mod Frame
use nginx_hls_module.Base.{
  ℕ, zero, suc, ◌+◌, ◌*◌, ◌%◌, ◌^◌, List, [], ◌∷◌, ◌==◌, if◌then◌else◌, drop, bit_or,
}
use nginx_hls_module.Memory.Holds.{bytes_64}
use nginx_hls_module.Mp4.Entry.{SampleEntry}

-- The 13 rates that the loop looks at.
abbrev pub aac_samplerates : List ℕ
aac_samplerates =
    96000 ∷ 88200 ∷ 64000 ∷ 48000 ∷ 44100 ∷ 32000 ∷ 24000 ∷ 22050 ∷ 16000 ∷ 12000 ∷ 11025 ∷ 8000
    ∷ 7350 ∷ []

-- The loop from index `i` on; 4 where no rate matches.
unfoldable pub index_from : ℕ → List ℕ → ℕ → ℕ
index_from i [] samplerate = 4
index_from i (r ∷ rs) samplerate =
    let later = index_from (suc i) rs samplerate in if r == samplerate then i else later

unfoldable pub mp4_samplerate_to_index : ℕ → ℕ
mp4_samplerate_to_index = index_from 0 aac_samplerates

-- `adts = (adts << bits) | v`
abbrev pub append_bits : ℕ → ℕ → ℕ → ℕ
append_bits adts bits v = bit_or (adts * 2 ^ bits % 2 ^ 64) v

abbrev pub append_fields : ℕ → List (ℕ × ℕ) → ℕ
append_fields adts [] = adts
append_fields adts (f ∷ fs) = append_fields (append_bits adts f.0 f.1) fs

-- The seven bytes that are copied out.
unfoldable pub sample_entry_get_adts : SampleEntry → ℕ → List ℕ
sample_entry_get_adts e sample_size = drop 1 (
    bytes_64 (
      append_fields 0 (
        (12, 0xfff)
        ∷ (1, 0)
        ∷ (2, 0)
        ∷ (1, 1)
        ∷ (2, 1)
        ∷ (4, mp4_samplerate_to_index e.samples_per_sec)
        ∷ (1, 0)
        ∷ (3, e.channels)
        ∷ (1, 0)
        ∷ (1, 0)
        ∷ (1, 0)
        ∷ (1, 0)
        ∷ (13, (7 + sample_size) % 2 ^ 32)
        ∷ (11, 0x7ff)
        ∷ (2, 0)
        ∷ [])))
