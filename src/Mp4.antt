-- ===== src/Mp4.antt =====
-- src/mp4_io.h: the structures that the atoms of a movie are read into, and their initial values.
-- A pointer that may be NULL is an `Option`, an array is a list, and a count that the source keeps
-- beside an array is kept too.
pub mod Tables
pub mod Headers
pub mod Entry
pub mod Tree
use nginx_hls_module.Base.{ℕ, ◌+◌, ◌*◌, ◌^◌, ◌%◌, List}

-- FOURCC('a', 'b', 'c', 'd')
abbrev pub fourcc : ℕ → ℕ → ℕ → ℕ → ℕ
fourcc a b c d = (a * 2 ^ 24 % 2 ^ 32 + b * 2 ^ 16 + c * 2 ^ 8 + d) % 2 ^ 32

-- ATOM_PREAMBLE_SIZE
abbrev pub atom_preamble_size : ℕ
atom_preamble_size = 8

-- MAX_TRACKS
abbrev pub max_tracks : ℕ
max_tracks = 8

-- The chain of atoms that no reader is for: each a copy of its bytes.
abbrev pub UnknownAtoms : Type 0
UnknownAtoms = List (List ℕ)
