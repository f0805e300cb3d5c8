-- ===== src/Reader.antt =====
-- src/mp4_reader.h: the readers of atoms. A reader takes the memory, the address behind the atom's
-- header and the number of bytes, and returns what it built, or `none` for the source's NULL.
-- An allocation by `malloc` succeeds; nothing is said of what the error paths free.
pub mod Rows
pub mod Tables
pub mod Headers
pub mod Copies
pub mod Movie
pub mod Atom
pub mod Entry
pub mod Tree
pub mod Moov
use nginx_hls_module.Base.{ℕ, Option}
use nginx_hls_module.Memory.{Memory}
use nginx_hls_module.Run.{Run}

abbrev pub Reader : Type 0 → Type 0
Reader A = Memory → ℕ → ℕ → Run (Option A)
