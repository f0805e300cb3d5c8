-- ===== src/Reader/Atom/Endless.antt =====
-- A payload on which `atom_reader` goes round for ever: the end of an atom is computed in 64 bits,
-- and a 64-bit size can lead back to an atom before it.
use nginx_hls_module.Base.{
  ℕ, zero, suc, ◌+◌, ◌-◌, ◌^◌, ◌<◌, ◌≡◌, refl, ◌∙◌, List, [], ◌∷◌, ◌++◌, none, some, true, arith,
  lt→ltb,
}
use nginx_hls_module.Run.{Run, ok, out_of_fuel}
use nginx_hls_module.Memory.{Memory, IsMemory, Readable, read_8}
use nginx_hls_module.Memory.Reads.{
  byte_at, be_32, be_64, be_32-lt, read_8-byte_at, read_32-be_32, read_64-be_64,
}
use nginx_hls_module.Mp4.{UnknownAtoms}
use nginx_hls_module.Reader.Headers.{copy_bytes}
use nginx_hls_module.Reader.Rows.{rows_at, read_rows-rows_at}
use nginx_hls_module.Reader.Atom.{
  Atom, atom_read_header, atom_size, Parent, Row, read_atom, atom_loop, find_row,
  unknown_atom_add_atom,
}

-- Two atoms that no row is for: the first of 16 bytes, the second with a 64-bit size that leads
-- from its start back to the first.
pub record LeadsBack {P : Type 0} (list : List (Row P)) (m : Memory) (p end : ℕ) : Type 0 where
  pub readable : Readable m p 32
  pub first_size : be_32 m p ≡ 16
  pub first_type : find_row (be_32 m (p + 4)) list ≡ none
  pub second_size : be_32 m (p + 16) ≡ 1
  pub second_type : find_row (be_32 m (p + 20)) list ≡ none
  pub second_end : be_64 m (p + 24) ≡ 2 ^ 64 - 16
  pub inside : p + 16 < end

module _ {P : Type 0} (ops : Parent P) (list : List (Row P)) {m : Memory} (wf : IsMemory m)
    (follows : (parent : P) → (c : UnknownAtoms) × (ops.first_word parent ≡ ok c)) {p end : ℕ}
    (b : LeadsBack list m p end) where
  open b use {readable, first_size, second_size, second_end}

  abbrev first_atom : Atom
  first_atom = record {
    type = be_32 m (p + 4);
    short_size = 16;
    size = 16;
    start = p;
    end = p + 16;
  }

  abbrev second_atom : Atom
  second_atom = record {
    type = be_32 m (p + 20);
    short_size = 1;
    size = 2 ^ 64 - 16;
    start = p + 16;
    end = p;
  }

  first_header : atom_read_header m p ≡ ok (some (p + 8, first_atom))
  unfolding atom_read_header atom_size
  first_header =
      rw (read_32-be_32 wf p (omega arith), read_32-be_32 wf (p + 4) (omega arith))
        (rw first_size (ground (arith, wf.fits, readable)))

  second_header : atom_read_header m (p + 16) ≡ ok (some (p + 32, second_atom))
  unfolding atom_read_header atom_size
  second_header =
      rw (read_32-be_32 wf (p + 16) (omega arith), read_32-be_32 wf (p + 16 + 4) (omega arith))
        (rw second_size (
          rw (read_64-be_64 wf (p + 16 + 8) (omega arith))
            (ground (arith, wf.fits, readable, second_end))))

  first_chain :
      (chain : UnknownAtoms) → (c : UnknownAtoms) × (unknown_atom_add_atom m (ok chain) p ≡ ok c)
  unfolding unknown_atom_add_atom copy_bytes
  first_chain chain = (
    chain ++ (rows_at (byte_at m) 1 16 p ∷ []),
    rw (read_32-be_32 wf p (omega arith)) (
        rw first_size (
          rw
            (read_rows-rows_at m (read_8 m) (byte_at m) 1 (read_8-byte_at wf) 16 p (omega arith)))),
  )

  second_chain : (r : Run UnknownAtoms) → unknown_atom_add_atom m r (p + 24) ≡ ok []
  unfolding unknown_atom_add_atom
  second_chain r = rw (read_32-be_32 wf (p + 24) (omega arith)) (
      let top = be_32-lt wf (p + 24) in
      let low = be_32-lt wf (p + 24 + 4) in ground (arith, second_end))

  -- An atom that no row is for, once its place in the chain is known.
  read_unknown :
      (parent : P) (q : ℕ) (leaf : Atom) (c : UnknownAtoms)
      → find_row leaf.type list ≡ none
      → unknown_atom_add_atom m (ops.first_word parent) (q - 8) ≡ ok c
      → read_atom ops list m parent q leaf ≡ ok (ops.set_first_word parent c, true)
  unfolding read_atom
  read_unknown parent q leaf c none_for added = rw (none_for, read_atom) (rw added)

  first_step :
      (fuel : ℕ) (parent : P)
      → (q : P) × (atom_loop ops list (suc fuel) m end p parent
          ≡ atom_loop ops list fuel m end (p + 16) q)
  unfolding atom_loop
  first_step fuel parent =
      let (chain, e) = follows parent in
      let (c, added) = first_chain chain in
      let at_8 : unknown_atom_add_atom m (ops.first_word parent) (p + 8 - 8) ≡ ok c =
        rw (e, back_8) added in
      (
        ops.set_first_word parent c,
        rw (lt→ltb p end (omega arith))
            (rw first_header (rw (read_unknown parent (p + 8) first_atom c b.first_type at_8))),
      )
    where
      back_8 : p + 8 - 8 ≡ p
      back_8 = omega arith

  second_step :
      (fuel : ℕ) (parent : P)
      → (q : P) × (atom_loop ops list (suc fuel) m end (p + 16) parent
          ≡ atom_loop ops list fuel m end p q)
  unfolding atom_loop
  second_step fuel parent =
      let at_24 : unknown_atom_add_atom m (ops.first_word parent) (p + 32 - 8) ≡ ok [] =
        rw back_8 (second_chain (ops.first_word parent)) in
      (
        ops.set_first_word parent [],
        rw (lt→ltb (p + 16) end (omega arith)) (
            rw second_header
              (rw (read_unknown parent (p + 32) second_atom [] b.second_type at_24))),
      )
    where
      back_8 : p + 32 - 8 ≡ p + 24
      back_8 = omega arith

  -- Whatever number of rounds the loop is given, it uses them up.
  pub atom_loop_endless :
      (fuel : ℕ) (parent : P) → atom_loop ops list fuel m end p parent ≡ out_of_fuel
  atom_loop_endless zero parent = unfold atom_loop in refl
  atom_loop_endless (suc zero) parent =
      let (q, e) = first_step zero parent in e ∙ unfold atom_loop in refl
  atom_loop_endless (suc (suc fuel)) parent =
      let (q, e) = first_step (suc fuel) parent in
      let (q', e') = second_step fuel q in e ∙ e' ∙ atom_loop_endless fuel q'
