-- ===== src/Reader/Atom/Boxes.antt =====
-- `atom_reader` on a payload that is a sequence of atoms with 32-bit sizes: it hands each atom to the
-- row for its type, in order, with the atom's own payload, and adds the others to the chain.
use nginx_hls_module.Base.{
  ℕ, zero, suc, ◌+◌, ◌^◌, ◌<◌, ◌≡◌, refl, ◌∙◌, List, [], ◌∷◌, ◌++◌, some, Bool, true, not, ltb,
  if◌then◌else◌, arith, length, length-append, All, ◌-◌, ◌*◌, none, false, Bool-cases, inl, inr,
  Option, ap, lt→ltb, le→ltb,
}
use mathlib.Core.Path.{subst, fun_ext}
use native.Mathlib.Nat.{mod-eq_of_lt}
use nginx_hls_module.Run.{Run, ok, fault, out_of_fuel, ◌>>=◌}
use nginx_hls_module.Memory.{Memory, IsMemory, Readable, advance}
use nginx_hls_module.Memory.Reads.{be_32, read_32-be_32}
use nginx_hls_module.Memory.Holds.{Holds, Holds-left, Holds-right, bytes_32, be_32_of_Holds}
use nginx_hls_module.Mp4.{atom_preamble_size}
use nginx_hls_module.Reader.Headers.{copy_bytes}
use nginx_hls_module.Reader.Copies.{copy_bytes-Holds, read_32-Holds}
use nginx_hls_module.Reader.Atom.{
  Atom, atom_read_header, atom_size, unknown_atom_add_atom, find_row, Parent, Row, read_atom,
  atom_loop, atom_reader,
}

pub record Box : Type 0 where
  pub type : ℕ
  pub payload : List ℕ

-- A type of 32 bits, and a size of 32 bits that is not the mark for a 64-bit one.
pub record IsBox (b : Box) : Type 0 where
  pub type_fits : b.type < 2 ^ 32
  pub size_fits : 8 + length b.payload < 2 ^ 32

abbrev pub encode_box : Box → List ℕ
encode_box b = bytes_32 (8 + length b.payload) ++ (bytes_32 b.type ++ b.payload)

abbrev pub encode_boxes : List Box → List ℕ
encode_boxes [] = []
encode_boxes (b ∷ bs) = encode_box b ++ encode_boxes bs

-- The atom that the header of a box at `p` describes.
abbrev pub atom_at : ℕ → Box → Atom
atom_at p b = record {
  type = b.type;
  short_size = 8 + length b.payload;
  size = 8 + length b.payload;
  start = p;
  end = p + (8 + length b.payload);
}

module _ {P : Type 0} (ops : Parent P) (list : List (Row P)) where
  open ops use {first_word, set_first_word}

  -- A box that no row is for is kept whole behind the others; one of more than 1 MB drops them all.
  keep_box : P → Box → Run (P × Bool)
  keep_box parent b =
      if ltb (1024 * 1024) (8 + length b.payload) then ok (set_first_word parent [], true) else (do
        chain ← first_word parent
        ok (set_first_word parent (chain ++ (encode_box b ∷ [])), true))

  -- The box at `p`: its payload goes to the row for its type.
  abbrev visited : Memory → ℕ → P → Box → Option (Row P) → Run (P × Bool)
  visited m p parent b none = keep_box parent b
  visited m p parent b (some r) = r.apply m parent (p + 8) (length b.payload)

  pub visit_box : Memory → ℕ → P → Box → Run (P × Bool)
  visit_box m p parent b = visited m p parent b (find_row b.type list)

  -- What `read_atom` does with the row that it finds.
  abbrev applied : Memory → P → ℕ → Atom → Option (Row P) → Run (P × Bool)
  applied m parent buffer leaf none = do
    chain ← unknown_atom_add_atom m (first_word parent) (buffer - atom_preamble_size)
    ok (set_first_word parent chain, true)
  applied m parent buffer leaf (some r) = r.apply m parent buffer (leaf.size - atom_preamble_size)

  -- The boxes one after the other, from address `p` up to `end`.
  pub visit_boxes : Memory → ℕ → ℕ → P → List Box → Run (P × Bool)
  visit_boxes m end p parent [] = ok (parent, true)
  visit_boxes m end p parent (b ∷ bs) = do
    (parent', more) ← visit_box m p parent b
    if more
        then visit_boxes m end (p + (8 + length b.payload)) parent' bs
        else ok (parent', not (ltb (p + 8) end))

module _ (m : Memory) (p : ℕ) (b : Box) (box : IsBox b) (h : Holds m p (encode_box b)) where
  size-box : be_32 m p ≡ 8 + length b.payload
  size-box =
      be_32_of_Holds m p (8 + length b.payload)
        (Holds-left m p (bytes_32 (8 + length b.payload)) (bytes_32 b.type ++ b.payload) h)
      ∙ mod-eq_of_lt box.size_fits

  type-box : be_32 m (p + 4) ≡ b.type
  type-box =
      be_32_of_Holds m (p + 4) b.type (
        Holds-left m (p + 4) (bytes_32 b.type) b.payload
          (Holds-right m p (bytes_32 (8 + length b.payload)) (bytes_32 b.type ++ b.payload) h))
      ∙ mod-eq_of_lt box.type_fits

  header-box :
      IsMemory m
      → Readable m p (8 + length b.payload)
      → atom_read_header m p ≡ ok (some (p + 8, atom_at p b))
  unfolding atom_read_header atom_size
  header-box wf r =
      rw (read_32-be_32 wf p (omega arith), read_32-be_32 wf (p + 4) (omega arith))
        (rw (size-box, type-box) (ground arith))

module _ {P : Type 0} (ops : Parent P) (list : List (Row P)) {m : Memory} (wf : IsMemory m) where
  chained :
      {A B C : Type 0} (f : A → B) (g : B → C) (r : Run A)
      → (do b ← (do a ← r; ok (f a)); ok (g b)) ≡ (do a ← r; ok (g (f a)))
  chained f g (ok a) = refl
  chained f g fault = refl
  chained f g out_of_fuel = refl

  keep_box-chain :
      (p : ℕ) (b : Box) (parent : P)
      → IsBox b
      → Holds m p (encode_box b)
      → Readable m p (8 + length b.payload)
      → (do
        chain ← unknown_atom_add_atom m (ops.first_word parent) p
        ok (ops.set_first_word parent chain, true))
        ≡ keep_box ops list parent b
  unfolding unknown_atom_add_atom keep_box
  keep_box-chain p b parent box h r =
      let n = 8 + length b.payload in
      let read =
        read_32-Holds wf p n (bytes_32 b.type ++ b.payload) box.size_fits (omega arith) h in
      let enough : ltb (8 + length b.payload) 8 ≡ false = le→ltb n 8 (omega arith) in
      elim (Bool-cases (ltb (1024 * 1024) n)) [
        | inl big ↦ rw (read, big) refl
        | inr small ↦
            let copied : copy_bytes m p n ≡ ok (encode_box b) =
              ap (copy_bytes m p) (omega arith)
              ∙ copy_bytes-Holds wf p (encode_box b) h (omega arith) in
            rw (read, small, enough, copied) (chained _ _ (ops.first_word parent))
      ]

  same_row :
      (p : ℕ) (b : Box) (parent : P) (o : Option (Row P))
      → IsBox b
      → Holds m p (encode_box b)
      → Readable m p (8 + length b.payload)
      → applied ops list m parent (p + 8) (atom_at p b) o ≡ visited ops list m p parent b o
  same_row p b parent none box h r =
      let front : p + 8 - 8 ≡ p = omega arith in rw front (keep_box-chain p b parent box h r)
  same_row p b parent (some row) box h r =
      let rest : 8 + length b.payload - 8 ≡ length b.payload = omega arith in rw rest refl

  read_atom-visit_box :
      (p : ℕ) (b : Box) (parent : P)
      → IsBox b
      → Holds m p (encode_box b)
      → Readable m p (8 + length b.payload)
      → read_atom ops list m parent (p + 8) (atom_at p b) ≡ visit_box ops list m p parent b
  unfolding read_atom visit_box
  read_atom-visit_box p b parent box h r = same_row p b parent (find_row b.type list) box h r

  -- The goal behind `visit_box`, for whatever it returns.
  after :
      (end p : ℕ) (rest rest' : P → Run (P × Bool)) (r : Run (P × Bool))
      → ((parent : P) → rest parent ≡ rest' parent)
      → (do (parent', more) ← r; if more then rest parent' else ok (parent', not (ltb p end)))
        ≡ (do (parent', more) ← r; if more then rest' parent' else ok (parent', not (ltb p end)))
  after end p rest rest' r same = rw (fun_ext same)

  length-box :
      (b : Box) (bs : List Box)
      → length (encode_boxes (b ∷ bs)) ≡ (8 + length b.payload) + length (encode_boxes bs)
  length-box b bs = omega (arith, length-append (encode_box b) (encode_boxes bs))

  atom_loop-visit_boxes :
      (bs : List Box) (fuel p end : ℕ) (parent : P)
      → All IsBox bs
      → Readable m p (length (encode_boxes bs))
      → Holds m p (encode_boxes bs)
      → end ≡ p + length (encode_boxes bs)
      → length bs < fuel
      → atom_loop ops list fuel m end p parent ≡ visit_boxes ops list m end p parent bs
  unfolding atom_loop visit_boxes
  atom_loop-visit_boxes bs zero p end parent boxes r h e f = absurd (omega arith)
  atom_loop-visit_boxes [] (suc fuel) p end parent boxes r h e f = rw (le→ltb p end (omega arith))
  atom_loop-visit_boxes (b ∷ bs) (suc fuel) p end parent (box, boxes) r h e f =
      let size = length-box b bs in
      rw (lt→ltb p end (omega arith)) (
        rw
          (
            header-box m p b box (Holds-left m p (encode_box b) (encode_boxes bs) h) wf
                (omega arith),
            read_atom-visit_box p b parent box (Holds-left m p (encode_box b) (encode_boxes bs) h)
                (omega arith),
          )
          (after end (p + 8) _ _ (visit_box ops list m p parent b) λ parent'.
            atom_loop-visit_boxes bs fuel (p + (8 + length b.payload)) end parent' boxes
              (omega arith)
              (subst (λ q. Holds m q (encode_boxes bs)) (omega arith)
                (Holds-right m p (encode_box b) (encode_boxes bs) h))
              (omega arith) (omega arith)))

  -- On a payload that is a sequence of boxes with 32-bit sizes `atom_reader` hands each box to its
  -- row, in order, with the box's own payload, and keeps the others whole in the chain, which one of
  -- more than 1 MB empties; one round more than there are boxes is enough.
  pub atom_reader-visit_boxes :
      (bs : List Box) (fuel p : ℕ) (parent : P)
      → All IsBox bs
      → Readable m p (length (encode_boxes bs))
      → Holds m p (encode_boxes bs)
      → length bs < fuel
      → atom_reader ops list fuel m parent p (length (encode_boxes bs))
        ≡ visit_boxes ops list m (p + length (encode_boxes bs)) p parent bs
  unfolding atom_reader
  atom_reader-visit_boxes bs fuel p parent boxes r h f =
      let e : advance p (length (encode_boxes bs)) ≡ p + length (encode_boxes bs) =
        mod-eq_of_lt (omega (arith, wf.fits, r.below)) in
      rw e (atom_loop-visit_boxes bs fuel p _ parent boxes r h refl f)
