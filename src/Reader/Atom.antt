-- ===== src/Reader/Atom.antt =====
-- src/mp4_reader.h: atom headers, the chain of unknown atoms, and `atom_reader`, the loop over the
-- atoms in a payload that hands each to its reader.
pub mod Boxes
pub mod Ends
pub mod Endless
pub mod Keeps
use nginx_hls_module.Base.{
  ℕ, zero, suc, ◌+◌, ◌-◌, ◌*◌, ◌%◌, ◌^◌, List, [], ◌∷◌, ◌++◌, Option, none, some, Bool, true, false,
  not, ltb, ◌==◌, ◌||◌, if◌then◌else◌,
}
use nginx_hls_module.Run.{Run, ok, out_of_fuel, ◌>>=◌}
use nginx_hls_module.Memory.{Memory, advance, read_32, read_64}
use nginx_hls_module.Mp4.{UnknownAtoms, atom_preamble_size}
use nginx_hls_module.Reader.{Reader}
use nginx_hls_module.Reader.Headers.{copy_bytes}

pub record Atom : Type 0 where
  pub type : ℕ
  pub short_size : ℕ
  pub size : ℕ
  pub start : ℕ
  pub end : ℕ

-- A 64-bit size stands behind the type where the 32-bit one is 1.
atom_size : Memory → ℕ → ℕ → Run ℕ
atom_size m buffer short = if short == 1 then read_64 m (buffer + 8) else ok short

-- The address behind the header, and the atom; `none` for a size that is less than the header's.
unfoldable pub atom_read_header : Memory → ℕ → Run (Option (ℕ × Atom))
unfolding atom_size
atom_read_header m buffer = do
  short ← read_32 m buffer
  kind ← read_32 m (buffer + 4)
  n ← atom_size m buffer short
  if ltb n atom_preamble_size
      then ok none
      else ok (
          some (
            buffer + atom_preamble_size + (if short == 1 then 8 else 0),
            record {
              type = kind;
              short_size = short;
              size = n;
              start = buffer;
              end = advance buffer n;
            },
          ))

-- Appends a copy of the atom at `p` to the chain. A size out of range gives NULL in its place.
unfoldable pub unknown_atom_add_atom : Memory → Run UnknownAtoms → ℕ → Run UnknownAtoms
unknown_atom_add_atom m parent p = do
  n ← read_32 m p
  if ltb (1024 * 1024) n || ltb n atom_preamble_size
      then ok []
      else do bs ← copy_bytes m p n; chain ← parent; ok (chain ++ (bs ∷ []))

-- What `atom_reader` needs of a parent: its first word, taken for the chain of unknown atoms.
pub record Parent (P : Type 0) : Type 0 where
  pub first_word : P → Run UnknownAtoms
  pub set_first_word : P → UnknownAtoms → P

-- One row of an `atom_read_list`: the type, and the reader followed by the destination. The flag is
-- false where the loop is left.
pub record Row (P : Type 0) : Type 0 where
  pub type : ℕ
  pub apply : Memory → P → ℕ → ℕ → Run (P × Bool)

-- A reader whose child is NULL leaves the loop.
abbrev pub add_child : {P C : Type 0} → (P → C → Run (P × Bool)) → P → Option C → Run (P × Bool)
add_child destination parent none = ok (parent, false)
add_child destination parent (some child) = destination parent child

abbrev pub row : {P C : Type 0} → ℕ → (P → C → Run (P × Bool)) → Reader C → Row P
row kind destination reader = record {
  type = kind;
  apply = λ m parent buffer size. reader m buffer size >>= add_child destination parent;
}

module _ {P : Type 0} where
  unfoldable pub find_row : ℕ → List (Row P) → Option (Row P)
  find_row kind [] = none
  find_row kind (r ∷ rs) = if kind == r.type then some r else find_row kind rs

module _ {P : Type 0} (parent_ops : Parent P) (atom_read_list : List (Row P)) where
  open parent_ops use {first_word, set_first_word}

  -- One atom, its payload at `buffer`.
  unfoldable pub read_atom : Memory → P → ℕ → Atom → Run (P × Bool)
  unfolding find_row
  read_atom m parent buffer leaf = elim (find_row leaf.type atom_read_list) [
    | none ↦ do
      chain ← unknown_atom_add_atom m (first_word parent) (buffer - atom_preamble_size)
      ok (set_first_word parent chain, true)
    | some r ↦ r.apply m parent buffer (leaf.size - atom_preamble_size)
  ]

  -- The loop, up to the address `end`, with a bound on its rounds. A round that leaves the loop
  -- early still succeeds where no byte is left behind its atom's header.
  unfoldable pub atom_loop : ℕ → Memory → ℕ → ℕ → P → Run (P × Bool)
  unfolding read_atom
  atom_loop zero m end buffer parent = out_of_fuel
  atom_loop (suc fuel) m end buffer parent =
      if ltb buffer end
      then (do
        header ← atom_read_header m buffer
        elim header [
          | none ↦ ok (parent, false)
          | some (b, leaf) ↦ do
            (parent', more) ← read_atom m parent b leaf
            if more then atom_loop fuel m end leaf.end parent' else ok (parent', not (ltb b end))
        ])
      else ok (parent, true)

  unfoldable pub atom_reader : ℕ → Memory → P → ℕ → ℕ → Run (P × Bool)
  unfolding atom_loop
  atom_reader fuel m parent buffer size = atom_loop fuel m (advance buffer size) buffer parent
