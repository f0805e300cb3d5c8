-- ===== src/Reader/Atom/Keeps.antt =====
-- What every row of a list keeps of the parent, `atom_reader` keeps.
use nginx_hls_module.Base.{
  ℕ, zero, suc, ◌-◌, List, Option, none, some, Bool, true, false, not, ltb, if◌then◌else◌, All,
}
use nginx_hls_module.Run.{Run, ok, ◌>>=◌}
use nginx_hls_module.Run.Ensures
use nginx_hls_module.Run.Ensures.{Ensures, returns, faults, stops}
use nginx_hls_module.Memory.{Memory, advance}
use nginx_hls_module.Mp4.{UnknownAtoms}
use nginx_hls_module.Reader.{Reader}
use nginx_hls_module.Reader.Atom.{
  row, add_child, Atom, atom_read_header, Parent, Row, read_atom, atom_loop, atom_reader, find_row,
  unknown_atom_add_atom,
}
use nginx_hls_module.Reader.Atom.Ends.{OnSome, find_row-OnSome}

-- A row keeps `I` of the parent, whatever it reads.
abbrev pub RowKeeps : {P : Type 0} → (P → Type 0) → Row P → Type 0
RowKeeps {P} I r =
    (m : Memory) (parent : P) (p n : ℕ)
    → I parent
    → Ensures (λ (q, more). I q) (r.apply m parent p n)

module _ {P : Type 0} (ops : Parent P) (list : List (Row P)) (I : P → Type 0)
    (words : (parent : P) (chain : UnknownAtoms) → I parent → I (ops.set_first_word parent chain))
    (rows : All (RowKeeps I) list) where
  read_atom-Keeps :
      (m : Memory) (parent : P) (b : ℕ) (leaf : Atom)
      → I parent
      → Ensures (λ (q, more). I q) (read_atom ops list m parent b leaf)
  unfolding read_atom
  read_atom-Keeps m parent b leaf h =
      go (find_row leaf.type list) (find_row-OnSome (RowKeeps I) list leaf.type rows)
    where
      go :
          (o : Option (Row P))
          → OnSome (RowKeeps I) o
          → Ensures
              (λ (q, more). I q)
              (elim o as (λ _. Run (P × Bool)) [
                | none ↦ do
                  chain ← unknown_atom_add_atom m (ops.first_word parent) (b - 8)
                  ok (ops.set_first_word parent chain, true)
                | some r ↦ r.apply m parent b (leaf.size - 8)
              ])
      go none k =
          Ensures.bind (Ensures.any (unknown_atom_add_atom m (ops.first_word parent) (b - 8)))
            λ chain _. returns (words parent chain h)
      go (some r) k = k m parent b (leaf.size - 8) h

  atom_loop-Keeps :
      (m : Memory) (fuel end p : ℕ) (parent : P)
      → I parent
      → Ensures (λ (q, more). I q) (atom_loop ops list fuel m end p parent)
  unfolding atom_loop
  atom_loop-Keeps m zero end p parent h = stops
  atom_loop-Keeps m (suc fuel) end p parent h =
      Ensures.branch (ltb p end)
        (Ensures.bind (Ensures.any (atom_read_header m p))
          λ header _. go header λ q parent' h'. atom_loop-Keeps m fuel end q parent' h')
        (returns h)
    where
      go :
          (header : Option (ℕ × Atom))
          → ((q : ℕ) (parent' : P)
              → I parent'
              → Ensures (λ (q, more). I q) (atom_loop ops list fuel m end q parent'))
          → Ensures
              (λ (q, more). I q)
              (elim header as (λ _. Run (P × Bool)) [
                | none ↦ ok (parent, false)
                | some (b, leaf) ↦ do
                  (parent', more) ← read_atom ops list m parent b leaf
                  if more
                      then atom_loop ops list fuel m end leaf.end parent'
                      else ok (parent', not (ltb b end))
              ])
      go none rest = returns h
      go (some (b, leaf)) rest =
          Ensures.bind (read_atom-Keeps m parent b leaf h)
            λ (parent', more) h'. Ensures.branch more (rest leaf.end parent' h') (returns h')

  pub atom_reader-Keeps :
      (m : Memory) (fuel : ℕ) (parent : P) (p n : ℕ)
      → I parent
      → Ensures (λ (q, more). I q) (atom_reader ops list fuel m parent p n)
  unfolding atom_reader
  atom_reader-Keeps m fuel parent p n h = atom_loop-Keeps m fuel (advance p n) p parent h

-- A row keeps `I` if its destination does, of what its reader returns. Its type is of no account.
pub row-Keeps :
    {P C : Type 0} (I : P → Type 0) (Q : C → Type 0) (add : P → C → Run (P × Bool))
    (reader : Reader C)
    → ((m : Memory) (p n : ℕ) → Ensures (OnSome Q) (reader m p n))
    → ((parent : P) (child : C)
        → I parent
        → Q child
        → Ensures (λ (q, more). I q) (add parent child))
    → RowKeeps I (row 0 add reader)
row-Keeps {P} {C} I Q add reader reads adds m parent p n h =
    Ensures.bind (reads m p n) λ child k. go child k
  where
    go :
        (child : Option C)
        → OnSome Q child
        → Ensures (λ (q, more). I q) (add_child add parent child)
    go none k = returns h
    go (some c) k = adds parent c h k

-- A reader of which nothing is asked.
pub reads_any :
    {C : Type 0} (reader : Reader C) (m : Memory) (p n : ℕ)
    → Ensures (OnSome (λ (c : C). Unit {0})) (reader m p n)
reads_any {C} reader m p n = Ensures.always (reader m p n) go
  where
    go : (o : Option C) → OnSome (λ (c : C). Unit {0}) o
    go none = tt
    go (some c) = tt
