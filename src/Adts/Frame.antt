-- ===== src/Adts/Frame.antt =====
-- How a decoder reads the header of an AAC frame.
use nginx_hls_module.Base.{
  ℕ, suc, ◌+◌, ◌*◌, ◌/◌, ◌%◌, ◌^◌, ◌<◌, ◌≡◌, ◌∙◌, refl, ap, List, [], ◌∷◌, ◌==◌, ==→eq, get_elem?,
  some, Bool-cases, ◌⊎◌, inl, inr, length, bit_or, bit_or_fields, arith,
}
use native.Mathlib.Nat.{mod-eq_of_lt}
use nginx_hls_module.Mp4.Entry.{SampleEntry}
use nginx_hls_module.Adts.{
  aac_samplerates, index_from, mp4_samplerate_to_index, append_bits, append_fields,
  sample_entry_get_adts,
}

-- The fields by the layout of ISO 14496-3.
pub record Frame : Type 0 where
  pub syncword : ℕ
  pub protection_absent : ℕ
  pub profile : ℕ
  pub frequency_index : ℕ
  pub channel_configuration : ℕ
  pub frame_length : ℕ

unfoldable pub read_frame : List ℕ → Frame
read_frame (a ∷ b ∷ c ∷ d ∷ e ∷ f ∷ g ∷ rest) = record {
  syncword = a * 2 ^ 4 + b / 2 ^ 4;
  protection_absent = b % 2;
  profile = c / 2 ^ 6;
  frequency_index = c / 2 ^ 2 % 2 ^ 4;
  channel_configuration = c % 2 * 2 ^ 2 + d / 2 ^ 6;
  frame_length = d % 2 ^ 2 * 2 ^ 11 + e * 2 ^ 3 + f / 2 ^ 5;
}
read_frame short = record {
  syncword = 0;
  protection_absent = 0;
  profile = 0;
  frequency_index = 0;
  channel_configuration = 0;
  frame_length = 0;
}

index_from-cases :
    (i : ℕ) (rs : List ℕ) (r : ℕ)
    → (index_from i rs r ≡ 4)
      ⊎ ((k : ℕ) × (k < length rs) × (index_from i rs r ≡ i + k) × (get_elem? rs k ≡ some r))
unfolding index_from
index_from-cases i [] r = inl refl
index_from-cases i (x ∷ rs) r = elim (Bool-cases (x == r)) [
  | inl hit ↦ inr (0, omega arith, rw hit (omega arith), ap some (==→eq x r hit))
  | inr miss ↦ rw miss (elim (index_from-cases (suc i) rs r) [
    | inl e ↦ inl e
    | inr (k, below, e, found) ↦ inr (suc k, omega arith, e ∙ omega arith, found)
  ])
]

index-lt : (r : ℕ) → mp4_samplerate_to_index r < 16
unfolding mp4_samplerate_to_index
index-lt r = elim (index_from-cases 0 aac_samplerates r) [
  | inl e ↦ omega (arith, e)
  | inr (k, below, e, found) ↦ omega (arith, e)
]

-- Fields that fit, put behind one another.
abbrev joined : ℕ → List (ℕ × ℕ) → ℕ
joined adts [] = adts
joined adts (f ∷ fs) = joined (adts * 2 ^ f.0 + f.1) fs

abbrev Fit : ℕ → List (ℕ × ℕ) → Type 0
Fit adts [] = Unit
Fit adts (f ∷ fs) = (adts * 2 ^ f.0 < 2 ^ 64) × (f.1 < 2 ^ f.0) × Fit (adts * 2 ^ f.0 + f.1) fs

append_fields-joined :
    (adts : ℕ) (fs : List (ℕ × ℕ)) → Fit adts fs → append_fields adts fs ≡ joined adts fs
append_fields-joined adts [] h = refl
append_fields-joined adts (f ∷ fs) h =
    let step : append_bits adts f.0 f.1 ≡ adts * 2 ^ f.0 + f.1 =
      ap (λ t. bit_or t f.1) (mod-eq_of_lt h.0) ∙ bit_or_fields f.0 adts f.1 h.1 in
    ap (λ t. append_fields t fs) step ∙ append_fields-joined (adts * 2 ^ f.0 + f.1) fs h.2

frame_of : ℕ → ℕ → ℕ → ℕ → ℕ → ℕ → Frame
frame_of s a p i c n = record {
  syncword = s;
  protection_absent = a;
  profile = p;
  frequency_index = i;
  channel_configuration = c;
  frame_length = n;
}

frame_of-eq :
    {s s' a a' p p' i i' c c' n n' : ℕ}
    → s ≡ s'
    → a ≡ a'
    → p ≡ p'
    → i ≡ i'
    → c ≡ c'
    → n ≡ n'
    → frame_of s a p i c n ≡ frame_of s' a' p' i' c' n'
frame_of-eq e1 e2 e3 e4 e5 e6 k = frame_of (e1 k) (e2 k) (e3 k) (e4 k) (e5 k) (e6 k)

fields_of : ℕ → ℕ → ℕ → List (ℕ × ℕ)
fields_of i c n =
    (12, 0xfff)
    ∷ (1, 0)
    ∷ (2, 0)
    ∷ (1, 1)
    ∷ (2, 1)
    ∷ (4, i)
    ∷ (1, 0)
    ∷ (3, c)
    ∷ (1, 0)
    ∷ (1, 0)
    ∷ (1, 0)
    ∷ (1, 0)
    ∷ (13, n)
    ∷ (11, 0x7ff)
    ∷ (2, 0)
    ∷ []

fields_of-sum :
    (i c n : ℕ)
    → i < 16
    → c < 8
    → n < 2 ^ 13
    → append_fields 0 (fields_of i c n)
      ≡ (((4193360 + i) * 16 + c) * 2 ^ 17 + n) * 2 ^ 13 + 0x7ff * 4
unfolding fields_of
fields_of-sum i c n hi hc hn = append_fields-joined 0 (fields_of i c n) (ground arith) ∙ omega arith

-- With up to 7 channels and a frame of less than 2^13 bytes, a decoder reads the sync word, the
-- profile, the index of the rate, the channels, and the length of the frame with its header.
pub sample_entry_get_adts-Frame :
    (e : SampleEntry) (sample_size : ℕ)
    → e.channels < 8
    → 7 + sample_size < 2 ^ 13
    → read_frame (sample_entry_get_adts e sample_size) ≡ record {
      syncword = 0xfff;
      protection_absent = 1;
      profile = 1;
      frequency_index = mp4_samplerate_to_index e.samples_per_sec;
      channel_configuration = e.channels;
      frame_length = 7 + sample_size;
    }
unfolding sample_entry_get_adts read_frame frame_of fields_of
sample_entry_get_adts-Frame e sample_size few short =
    let i = mp4_samplerate_to_index e.samples_per_sec in
    let bound = index-lt e.samples_per_sec in
    let n : (7 + sample_size) % 2 ^ 32 ≡ 7 + sample_size = omega arith in
    rw (n, fields_of-sum i e.channels (7 + sample_size) bound few short)
      (frame_of-eq (omega arith) (omega arith) (omega arith) (omega arith) (omega arith)
        (omega arith))
