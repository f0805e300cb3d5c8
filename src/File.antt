-- ===== src/File.antt =====
-- src/mp4_io.h, `mp4_read` to `mp4_open`: the file behind a movie, read through one buffer, and the
-- walk over its atoms. An `off_t` is kept as its 64 bits. `ngx_palloc` and `ngx_read_file` are
-- parameters: the address that an allocation of so many bytes gets, and the bytes that a read of so
-- many at a place returns; `none` is NULL and NGX_ERROR. Bytes that no read has set cannot be read.
pub mod Slices
pub mod State
pub mod Window
pub mod Open
pub mod Header
pub mod Short
pub mod Written
pub mod Walk
pub mod Media
pub mod Movie
use nginx_hls_module.Base.{
  ℕ, ◌+◌, ◌-◌, ◌*◌, ◌/◌, ◌%◌, ◌^◌, List, [], Option, none, some, Bool, false, not, ltb, ◌==◌, ◌&&◌,
  if◌then◌else◌, length,
}
use nginx_hls_module.Memory.{Memory}
use nginx_hls_module.Mp4.Tree.{Moov}

-- `mp4_atom_t`
pub record FileAtom : Type 0 where
  pub type : ℕ
  pub short_size : ℕ
  pub size : ℕ
  pub start : ℕ

abbrev pub no_atom : FileAtom
no_atom = record { type = 0; short_size = 0; size = 0; start = 0 }

pub record Mp4Context : Type 0 where
  -- `file->offset`
  pub file_offset : ℕ
  pub ftyp_atom : FileAtom
  pub mdat_atom : FileAtom
  pub moov_atom : FileAtom
  pub moov_data : Option ℕ
  pub moov : Option Moov
  pub buffer : Option Memory
  pub offset : ℕ
  pub buffer_size : ℕ
  pub filesize : ℕ
  pub alignment : Bool

unfoldable pub mp4_context_init : ℕ → ℕ → Mp4Context
mp4_context_init conf_buffer_size filesize = record {
  file_offset = 0;
  ftyp_atom = no_atom;
  mdat_atom = no_atom;
  moov_atom = no_atom;
  moov_data = none;
  moov = none;
  buffer = none;
  offset = 0;
  buffer_size = conf_buffer_size;
  filesize = filesize;
  alignment = false;
}

-- The order of `off_t`, and its difference.
abbrev pub signed_ltb : ℕ → ℕ → Bool
signed_ltb a b = ltb ((a + 2 ^ 63) % 2 ^ 64) ((b + 2 ^ 63) % 2 ^ 64)

abbrev pub minus : ℕ → ℕ → ℕ
minus a b = (a + (2 ^ 64 - b)) % 2 ^ 64

-- `pos / 4096 * 4096`, which goes towards 0.
abbrev pub page : ℕ → ℕ
page pos =
    if ltb pos (2 ^ 63) then pos / 4096 * 4096 else (2 ^ 64 - (2 ^ 64 - pos) / 4096 * 4096) % 2 ^ 64

-- A buffer that is too small is given up.
unfoldable pub ensure_size : Mp4Context → ℕ → Mp4Context
ensure_size c size =
    if ltb c.buffer_size size
    then record c {
      buffer_size = if c.alignment then (size / 4096 + 1) * 4096 % 2 ^ 64 else size;
      buffer = none;
    }
    else c

-- The address in the buffer, where the buffer has the bytes.
unfoldable pub in_buffer : Mp4Context → ℕ → ℕ → Option ℕ
in_buffer c size pos = elim c.buffer [
  | none ↦ none
  | some b ↦
      let start = minus c.file_offset c.buffer_size in
      if not (signed_ltb c.file_offset ((pos + size) % 2 ^ 64)) && signed_ltb start pos
      then some ((b.base + minus pos start) % 2 ^ 64)
      else none
]

module _ (ngx_palloc : ℕ → Option ℕ) (ngx_read_file : ℕ → ℕ → Option (List ℕ)) where
  -- The read of `n` bytes at `start`, for `size` bytes at `pos`.
  unfoldable pub fetch : Mp4Context → ℕ → ℕ → ℕ → ℕ → Option ℕ × Mp4Context
  fetch c size pos start n = elim (ngx_palloc n) [
    | none ↦ (none, record c { buffer = none; buffer_size = n })
    | some p ↦ elim (ngx_read_file n start) [
      | none ↦ (none, record c { buffer = some (record { base = p; bytes = [] }); buffer_size = n })
      | some bs ↦
          let c1 = record c { buffer = some (record { base = p; bytes = bs }); buffer_size = n } in
          if not (length bs == n) then (none, c1) else (
            some ((p + minus pos start) % 2 ^ 64),
            record c1 {
              file_offset = (start + length bs) % 2 ^ 64;
              offset = (c1.offset + size) % 2 ^ 64;
            },
          )
    ]
  ]

  -- Fills the buffer, up to the end of the file, for `size` bytes at `pos`.
  unfoldable pub fill : Mp4Context → ℕ → ℕ → Option ℕ × Mp4Context
  fill c size pos =
      let start = if c.alignment then page pos else pos in
      let wider = if pos == start then c.buffer_size else (c.buffer_size + 4096) % 2 ^ 64 in
      let n =
        if signed_ltb c.filesize ((start + wider) % 2 ^ 64)
        then minus c.filesize start
        else wider in
      fetch c size pos start n

  -- With a buffer that is large enough.
  unfoldable pub read_through : Mp4Context → ℕ → ℕ → Option ℕ × Mp4Context
  read_through c size pos = elim (in_buffer c size pos) [
    | some p ↦ (some p, record c { offset = (c.offset + size) % 2 ^ 64 })
    | none ↦ fill c size pos
  ]

  -- The address of `size` bytes at `pos` of the file, in the buffer of the context.
  unfoldable pub mp4_read : Mp4Context → ℕ → ℕ → Option ℕ × Mp4Context
  mp4_read c size pos = read_through (ensure_size c size) size pos
