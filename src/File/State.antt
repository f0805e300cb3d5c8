-- ===== src/File/State.antt =====
-- The file, the pool and the context as `mp4_read` finds and leaves them.
use nginx_hls_module.Base.{
  ℕ, ◌+◌, ◌%◌, ◌^◌, ◌≤◌, ◌<◌, ◌≡◌, ap, ◌∙◌, List, Option, some, false, length, take, drop, All,
}
use nginx_hls_module.Memory.{Memory, IsMemory, Readable}
use nginx_hls_module.Memory.Holds.{Holds}
use nginx_hls_module.Mp4.Tree.{Moov}
use nginx_hls_module.File.{FileAtom, Mp4Context}

-- The file and the pool: the file has less than 2^62 bytes and a read within it returns what it
-- holds; an allocation that is no larger than the file succeeds, below the top of the address space.
pub record IsFile (contents : List ℕ) (ngx_palloc : ℕ → Option ℕ)
    (ngx_read_file : ℕ → ℕ → Option (List ℕ)) : Type 0 where
  pub octets : All (λ b. b < 256) contents
  pub small : length contents < 2 ^ 62
  pub reads :
      (n o : ℕ) → o + n ≤ length contents → ngx_read_file n o ≡ some (take n (drop o contents))
  pub allocates :
      (n : ℕ) → n ≤ length contents → (p : ℕ) × (ngx_palloc n ≡ some p) × (p + n < 2 ^ 64)

-- A buffer has the bytes of the file in front of `file_offset`.
pub record Buffered (contents : List ℕ) (c : Mp4Context) (b : Memory) : Type 0 where
  pub allocation : IsMemory b
  pub start : ℕ
  pub behind : start + c.buffer_size ≡ c.file_offset
  pub inside : c.file_offset ≤ length contents
  pub holds : b.bytes ≡ take c.buffer_size (drop start contents)

-- A context of the file, as it is between the calls of `mp4_read`.
pub record IsContext (contents : List ℕ) (c : Mp4Context) : Type 0 where
  pub whole : c.filesize ≡ length contents
  pub limit : c.buffer_size < 2 ^ 62
  pub unaligned : c.alignment ≡ false
  pub buffered : (b : Memory) → c.buffer ≡ some b → Buffered contents c b

-- What stands in the context beside the buffer and the place is the same.
abbrev pub Same : Mp4Context → Mp4Context → Type 0
Same c c' = c' ≡ record c {
  buffer = c'.buffer;
  buffer_size = c'.buffer_size;
  file_offset = c'.file_offset;
  offset = c'.offset;
}

pub Same-trans : (c c' c'' : Mp4Context) → Same c c' → Same c' c'' → Same c c''
Same-trans c c' c'' e f =
    f
    ∙ ap
        (λ (x : Mp4Context). record x {
          buffer = c''.buffer;
          buffer_size = c''.buffer_size;
          file_offset = c''.file_offset;
          offset = c''.offset;
        })
        e

-- What a call returns: an address in the buffer, where the bytes of the file are.
pub record Window (contents : List ℕ) (c : Mp4Context) (size pos : ℕ) (r : Option ℕ × Mp4Context)
    : Type 0 where
  pub place : ℕ
  pub buffer : Memory
  pub found : r.0 ≡ some place
  pub current : r.1.buffer ≡ some buffer
  pub allocation : IsMemory buffer
  pub readable : Readable buffer place size
  pub holds : Holds buffer place (take size (drop pos contents))
  pub moves : r.1.offset ≡ (c.offset + size) % 2 ^ 64
  pub frame : Same c r.1
  pub keeps : IsContext contents r.1

-- Only the buffer and the file decide whether a context is one of the file.
pub IsContext-other :
    {contents : List ℕ} (c : Mp4Context)
    → IsContext contents c
    → (offset : ℕ) (ftyp mdat moov : FileAtom) (held : Option ℕ) (movie : Option Moov)
    → IsContext contents (record c {
      offset = offset;
      ftyp_atom = ftyp;
      mdat_atom = mdat;
      moov_atom = moov;
      moov_data = held;
      moov = movie;
    })
IsContext-other c h offset ftyp mdat moov held movie = record {
  whole = h.whole;
  limit = h.limit;
  unaligned = h.unaligned;
  buffered = λ b e.
      let t = h.buffered b e in
      record {
        allocation = t.allocation;
        start = t.start;
        behind = t.behind;
        inside = t.inside;
        holds = t.holds;
      };
}
