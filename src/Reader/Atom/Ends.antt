-- ===== src/Reader/Atom/Ends.antt =====
-- When `atom_reader` ends. Every atom is 8 bytes at least, so the loop moves forward and one round
-- for each 8 bytes of memory is enough, unless a 64-bit size wraps the address round: then it may
-- go back to an earlier atom for ever.
use nginx_hls_module.Base.{
  ℕ, zero, suc, ◌+◌, ◌-◌, ◌*◌, ◌^◌, ◌≤◌, ◌<◌, ◌≡◌, sym, ◌∙◌, List, [], ◌∷◌, Option, none, some,
  Bool, true, false, not, ltb, ◌==◌, if◌then◌else◌, ◌||◌, arith, length, All, ==→eq, Bool-cases,
  inl, inr,
}
use nginx_hls_module.Run.{Run, ok, ◌>>=◌, >>=-eq-ok}
use nginx_hls_module.Run.Finite
use nginx_hls_module.Run.Finite.{Finite, returns, faults}
use nginx_hls_module.Memory.{Memory, IsMemory, Readable, advance, read_8, read_32, read_64}
use nginx_hls_module.Memory.Finite.{
  read_8-Finite, read_32-Finite, read_64-Finite, read_32-Readable, read_64-Readable,
}
use nginx_hls_module.Memory.Reads.{be_32, be_64, be_32-lt, read_32-be_32, read_64-be_64}
use nginx_hls_module.Mp4.{UnknownAtoms}
use nginx_hls_module.Reader.Headers.{copy_bytes}
use nginx_hls_module.Reader.Rows.{read_rows-Finite}
use nginx_hls_module.Reader.Atom.{
  Atom, atom_read_header, atom_size, Parent, Row, read_atom, atom_loop, atom_reader, find_row,
  unknown_atom_add_atom,
}

-- No size in the memory takes an address past the top of the address space.
pub record NoWrap (m : Memory) : Type 0 where
  pub low : m.base + length m.bytes + 2 ^ 32 ≤ 2 ^ 64
  pub extended : (q : ℕ) → Readable m q 16 → be_32 m q ≡ 1 → q + be_64 m (q + 8) < 2 ^ 64

module _ {m : Memory} (wf : IsMemory m) (nw : NoWrap m) (p : ℕ) where
  -- The size that a header states does not wrap.
  atom_size-NoWrap : (n : ℕ) → Readable m p 8 → atom_size m p (be_32 m p) ≡ ok n → p + n < 2 ^ 64
  unfolding atom_size
  atom_size-NoWrap n r e = elim (Bool-cases (be_32 m p == 1)) [
    | inl long ↦
        let e64 : read_64 m (p + 8) ≡ ok n = rw long at e in
        let r64 = read_64-Readable m (p + 8) n e64 in
        let same = read_64-be_64 wf (p + 8) r64 in
        let bound = nw.extended p (omega arith) (==→eq _ 1 long) in ground arith
    | inr short ↦
        let es : ok (be_32 m p) ≡ ok n = rw short at e in
        let bound = be_32-lt wf p in ground (arith, nw.low)
  ]

  header_progress :
      (b : ℕ) (leaf : Atom)
      → atom_read_header m p ≡ ok (some (b, leaf))
      → Readable m p 8 × (p + 8 ≤ leaf.end)
  unfolding atom_read_header
  header_progress b leaf e =
      let (short, e1, k1) = >>=-eq-ok (read_32 m p) _ e in
      let (kind, e2, k2) = >>=-eq-ok (read_32 m (p + 4)) _ k1 in
      let (n, e3, k3) = >>=-eq-ok (atom_size m p short) _ k2 in
      let r1 = read_32-Readable m p short e1 in
      let r2 = read_32-Readable m (p + 4) kind e2 in
      let r : Readable m p 8 = omega arith in
      let same : ok (be_32 m p) ≡ ok short = sym (read_32-be_32 wf p r1) ∙ e1 in
      let short_eq : be_32 m p ≡ short = ground arith in
      let fits = atom_size-NoWrap n r (rw short_eq e3) in (r, ground arith)

-- The rows of a list end, whatever they are given.
abbrev pub RowsEnd : {P : Type 0} → Memory → List (Row P) → Type 0
RowsEnd {P} m = All (λ (r : Row P). (parent : P) (p n : ℕ) → Finite (r.apply m parent p n))

-- The first word of a parent can be followed or faults.
abbrev pub WordsEnd : {P : Type 0} → Parent P → Type 0
WordsEnd {P} ops = (parent : P) → Finite (ops.first_word parent)

header-Finite : (m : Memory) (p : ℕ) → Finite (atom_read_header m p)
unfolding atom_read_header atom_size
header-Finite m p = Finite.bind (read_32-Finite m p) λ short.
    Finite.bind (read_32-Finite m (p + 4)) λ kind.
      Finite.bind (Finite.branch (short == 1) (read_64-Finite m (p + 8)) (returns short))
        λ n. Finite.branch (ltb n 8) (returns _) (returns _)

unknown_atom-Finite :
    (m : Memory) (chain : Run UnknownAtoms) (p : ℕ)
    → Finite chain
    → Finite (unknown_atom_add_atom m chain p)
unfolding unknown_atom_add_atom copy_bytes
unknown_atom-Finite m chain p h = Finite.bind (read_32-Finite m p) λ n.
    Finite.branch (ltb (1024 * 1024) n || ltb n 8) (returns []) (
      Finite.bind (read_rows-Finite (read_8 m) 1 (read_8-Finite m) n p)
        λ bs. Finite.bind h λ c. returns _)

-- A row that `find_row` returns is in the list.
abbrev pub OnSome : {A : Type 0} → (A → Type 0) → Option A → Type 0
OnSome Q none = Unit
OnSome Q (some a) = Q a

pub find_row-OnSome :
    {P : Type 0} (Q : Row P → Type 0) (rs : List (Row P)) (k : ℕ)
    → All Q rs
    → OnSome Q (find_row k rs)
unfolding find_row
find_row-OnSome Q [] k h = tt
find_row-OnSome Q (x ∷ rs) k h = choose (k == x.type) (find_row-OnSome Q rs k h.1)
  where
    choose : (b : Bool) → OnSome Q (find_row k rs) → OnSome Q (if b then some x else find_row k rs)
    choose true ih = h.0
    choose false ih = ih

module _ {P : Type 0} (ops : Parent P) (list : List (Row P)) (m : Memory) where
  read_atom-Finite :
      WordsEnd ops
      → RowsEnd m list
      → (parent : P) (b : ℕ) (leaf : Atom) → Finite (read_atom ops list m parent b leaf)
  unfolding read_atom
  read_atom-Finite words rows parent b leaf = go (find_row leaf.type list) (
      find_row-OnSome (λ r. (parent : P) (p n : ℕ) → Finite (r.apply m parent p n)) list leaf.type
        rows)
    where
      go :
          (o : Option (Row P))
          → OnSome (λ r. (parent : P) (p n : ℕ) → Finite (r.apply m parent p n)) o
          → Finite (elim o as (λ _. Run (P × Bool)) [
            | none ↦ do
              chain ← unknown_atom_add_atom m (ops.first_word parent) (b - 8)
              ok (ops.set_first_word parent chain, true)
            | some r ↦ r.apply m parent b (leaf.size - 8)
          ])
      go none h =
          Finite.bind (unknown_atom-Finite m (ops.first_word parent) (b - 8) (words parent))
            λ chain. returns _
      go (some r) h = h parent b (leaf.size - 8)

  -- The part of a round behind the header.
  abbrev behind_header : ℕ → ℕ → P → Option (ℕ × Atom) → Run (P × Bool)
  behind_header fuel end parent none = ok (parent, false)
  behind_header fuel end parent (some (b, leaf)) = do
    (parent', more) ← read_atom ops list m parent b leaf
    if more then atom_loop ops list fuel m end leaf.end parent' else ok (parent', not (ltb b end))

  module _ (wf : IsMemory m) (nw : NoWrap m) (words : WordsEnd ops) (rows : RowsEnd m list) where
    behind_header-Finite :
        (fuel end p : ℕ) (parent : P) (header : Option (ℕ × Atom))
        → atom_read_header m p ≡ ok header
        → ((q : ℕ) (parent' : P)
            → Readable m p 8
            → p + 8 ≤ q
            → Finite (atom_loop ops list fuel m end q parent'))
        → Finite (behind_header fuel end parent header)
    behind_header-Finite fuel end p parent none e rest = returns (parent, false)
    behind_header-Finite fuel end p parent (some (b, leaf)) e rest =
        let (r, forward) = header_progress wf nw p b leaf e in
        Finite.bind (read_atom-Finite words rows parent b leaf)
          λ (parent', more). Finite.branch more (rest leaf.end parent' r forward) (returns _)

    -- One round for each 8 bytes between `p` and the end of the allocation, and one more.
    atom_loop-Finite :
        (fuel end p : ℕ) (parent : P)
        → m.base + length m.bytes < p + 8 * fuel
        → Finite (atom_loop ops list (suc fuel) m end p parent)
    unfolding atom_loop
    atom_loop-Finite zero end p parent bound =
        Finite.branch (ltb p end)
          (Finite.bind_eq (atom_read_header m p) (header-Finite m p) λ header e.
            behind_header-Finite zero end p parent header e (λ q parent' r h. absurd (omega arith)))
          (returns (parent, true))
    atom_loop-Finite (suc fuel) end p parent bound =
        Finite.branch (ltb p end)
          (Finite.bind_eq (atom_read_header m p) (header-Finite m p) λ header e.
            behind_header-Finite (suc fuel) end p parent header e
              (λ q parent' r h. atom_loop-Finite fuel end q parent' (omega arith)))
          (returns (parent, true))

    -- The reader of atoms ends on every payload, given a round for each 8 bytes of memory.
    pub atom_reader-Finite :
        (fuel : ℕ) (parent : P) (p n : ℕ)
        → m.base + length m.bytes < p + 8 * fuel
        → Finite (atom_reader ops list (suc fuel) m parent p n)
    unfolding atom_reader
    atom_reader-Finite fuel parent p n bound = atom_loop-Finite fuel (advance p n) p parent bound
