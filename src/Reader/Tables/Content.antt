-- ===== src/Reader/Tables/Content.antt =====
-- What the readers of tables return on any payload that lies in memory: they do not fault, refuse
-- a payload that is too short for its rows, and decode every row otherwise.
use nginx_hls_module.Base.{
  ℕ, ◌+◌, ◌-◌, ◌*◌, ◌%◌, ◌^◌, ◌≤◌, ◌≡◌, ◌∙◌, List, [], Option, none, some, arith, ltb, ◌==◌,
  if◌then◌else◌, not, Bool-cases, inl, inr, ltb→le,
}
use nginx_hls_module.Run.{Run, ok, ◌>>=◌}
use nginx_hls_module.Memory.{Memory, IsMemory, Readable, read_8, read_24, read_32}
use nginx_hls_module.Memory.Reads.{
  byte_at, be_24, be_32, be_64, read_8-byte_at, read_24-be_24, read_32-be_32, read_64-be_64,
}
use nginx_hls_module.Mp4.Tables.{SttsTable, StscTable, Stsz, CttsTable}
use nginx_hls_module.Reader.Rows.{read_rows, rows_at, read_rows-rows_at}
use nginx_hls_module.Reader.Tables.{stco_read, co64_read, stsz_read}

-- What a payload of `size` bytes at `p` decodes to, with rows of `stride` bytes behind 8 bytes.
abbrev pub table_at :
    {A X : Type 0} → (ℕ → ℕ → ℕ → List A → X) → (ℕ → A) → ℕ → Memory → ℕ → ℕ → Option X
table_at make f stride m p size =
    if ltb size 8
    then none
    else if ltb size (8 + be_32 m (p + 4) * stride)
    then none
    else some (
        make (byte_at m p) (be_24 m (p + 1)) (be_32 m (p + 4))
          (rows_at f stride (be_32 m (p + 4)) (p + 8)))

abbrev pub stts_row_at : Memory → ℕ → SttsTable
stts_row_at m q = record { sample_count = be_32 m q; sample_duration = be_32 m (q + 4) }

abbrev pub ctts_row_at : Memory → ℕ → CttsTable
ctts_row_at m q = record { sample_count = be_32 m q; sample_offset = be_32 m (q + 4) }

abbrev pub stsc_row_at : Memory → ℕ → StscTable
stsc_row_at m q = record {
  chunk = (be_32 m q + 2 ^ 32 - 1) % 2 ^ 32;
  samples = be_32 m (q + 4);
  id = be_32 m (q + 8);
}

-- The sample sizes: a table only where there is no common size.
abbrev pub stsz_at : Memory → ℕ → ℕ → Option Stsz
stsz_at m p size =
    if ltb size 12
    then none
    else if not (be_32 m (p + 4) == 0)
    then some (record {
      version = byte_at m p;
      flags = be_24 m (p + 1);
      sample_size = be_32 m (p + 4);
      entries = be_32 m (p + 8);
      sample_sizes = [];
    })
    else if ltb size (12 + be_32 m (p + 8) * 4)
    then none
    else some (record {
      version = byte_at m p;
      flags = be_24 m (p + 1);
      sample_size = be_32 m (p + 4);
      entries = be_32 m (p + 8);
      sample_sizes = rows_at (be_32 m) 4 (be_32 m (p + 8)) (p + 12);
    })

module _ {m : Memory} (wf : IsMemory m) (p size : ℕ) (r : Readable m p size) where
  -- The three numbers at the front.
  front :
      {X : Type 0} (k : ℕ → ℕ → ℕ → Run X)
      → 8 ≤ size
      → (do v ← read_8 m p; f ← read_24 m (p + 1); n ← read_32 m (p + 4); k v f n)
        ≡ k (byte_at m p) (be_24 m (p + 1)) (be_32 m (p + 4))
  front k h = rw (
    read_8-byte_at wf p (omega arith),
    read_24-be_24 wf (p + 1) (omega arith),
    read_32-be_32 wf (p + 4) (omega arith),
  )

  -- The part of a reader behind its first test.
  rows_behind :
      {A X : Type 0} (make : ℕ → ℕ → ℕ → List A → X) (row : ℕ → Run A) (f : ℕ → A) (stride : ℕ)
      → ((q : ℕ) → Readable m q stride → row q ≡ ok (f q))
      → (if ltb size 8 then ok none else do
        v ← read_8 m p
        g ← read_24 m (p + 1)
        n ← read_32 m (p + 4)
        if ltb size (8 + n * stride)
            then ok none
            else do t ← read_rows row stride n (p + 8); ok (some (make v g n t)))
        ≡ ok (table_at make f stride m p size)
  rows_behind make row f stride each = elim (Bool-cases (ltb size 8)) [
    | inl short ↦ rw short
    | inr long ↦ rw long (
        front _ (ltb→le size 8 long) ∙ elim (Bool-cases (ltb size (8 + be_32 m (p + 4) * stride))) [
          | inl small ↦ rw small
          | inr fits ↦ rw fits (
              rw (
                read_rows-rows_at m row f stride each (be_32 m (p + 4)) (p + 8)
                  (let fit = ltb→le size (8 + be_32 m (p + 4) * stride) fits in omega arith)))
        ])
  ]

  -- The readers of the chunk offsets, of 32 and of 64 bits, do not fault on a payload that lies in
  -- memory: they refuse one that is too short for its rows, and give the same structure otherwise,
  -- with each offset decoded.
  pub chunk_offsets_at :
      (stco_read m p size
        ≡ ok (
            table_at
              (λ v f n t. record { version = v; flags = f; entries = n; chunk_offsets = t })
              (be_32 m)
              4
              m
              p
              size))
      × (co64_read m p size
          ≡ ok (
              table_at
                (λ v f n t. record { version = v; flags = f; entries = n; chunk_offsets = t })
                (be_64 m)
                8
                m
                p
                size))
  unfolding stco_read co64_read
  chunk_offsets_at = (
    rows_behind _ _ (be_32 m) 4 (read_32-be_32 wf),
    rows_behind _ _ (be_64 m) 8 (read_64-be_64 wf),
  )

  -- The reader of sample sizes does not fault on a payload that lies in memory: it refuses one that
  -- is too short, leaves out the table where there is a common size, and decodes every size
  -- otherwise.
  pub stsz_read-stsz_at : stsz_read m p size ≡ ok (stsz_at m p size)
  unfolding stsz_read
  stsz_read-stsz_at = elim (Bool-cases (ltb size 12)) [
    | inl short ↦ rw short
    | inr long ↦
        let h = ltb→le size 12 long in
        rw long (
          rw
            (
              read_8-byte_at wf p (omega arith),
              read_24-be_24 wf (p + 1) (omega arith),
              read_32-be_32 wf (p + 4) (omega arith),
              read_32-be_32 wf (p + 8) (omega arith),
            )
            (elim (Bool-cases (be_32 m (p + 4) == 0)) [
              | inl zero_size ↦
                  rw zero_size (elim (Bool-cases (ltb size (12 + be_32 m (p + 8) * 4))) [
                    | inl small ↦ rw small
                    | inr fits ↦ rw fits (
                        rw (
                          read_rows-rows_at m (read_32 m) (be_32 m) 4 (read_32-be_32 wf)
                            (be_32 m (p + 8)) (p + 12)
                            (let fit = ltb→le size (12 + be_32 m (p + 8) * 4) fits in omega arith)))
                  ])
              | inr common ↦ rw common
            ]))
  ]
