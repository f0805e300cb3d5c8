-- ===== src/Reader/Tree/Mandatory.antt =====
-- The atoms that are there when a reader of `Reader.Tree` succeeds: the code behind follows these
-- pointers without a test.
use nginx_hls_module.Base.{ℕ, ◌≡◌, refl, Option, none, some, Bool, true, false, ◌&&◌, All, arith}
use nginx_hls_module.Run.Ensures
use nginx_hls_module.Run.Ensures.{Ensures, returns, faults, stops}
use nginx_hls_module.Memory.{Memory}
use nginx_hls_module.Mp4.Tree.{Stbl, stbl_init, Minf, minf_init, Mdia, mdia_init}
use nginx_hls_module.Reader.Atom.{atom_reader}
use nginx_hls_module.Reader.Atom.Ends.{OnSome}
use nginx_hls_module.Reader.Atom.Keeps.{RowKeeps, row-Keeps, reads_any, atom_reader-Keeps}
use nginx_hls_module.Reader.Tree.{
  is_set, kept, stbl_ops, stbl_rows, stbl_read, minf_ops, minf_rows, minf_read, mdia_ops, mdia_rows,
  mdia_read,
}

-- The pointer is set, and what it leads to has the property.
abbrev pub Has : {A : Type 0} → (A → Type 0) → Option A → Type 0
Has Q none = ⊥
Has Q (some a) = Q a

pub record IsStbl (s : Stbl) : Type 0 where
  pub has_stsd : is_set s.stsd ≡ true
  pub has_stts : is_set s.stts ≡ true

abbrev pub IsMinf : Minf → Type 0
IsMinf s = Has IsStbl s.stbl

pub record IsMdia (s : Mdia) : Type 0 where
  pub has_mdhd : is_set s.mdhd ≡ true
  pub has_hdlr : is_set s.hdlr ≡ true
  pub has_minf : Has IsMinf s.minf

pub kept-OnSome :
    {P : Type 0} (Q : P → Type 0) (p : P) (b : Bool) → (b ≡ true → Q p) → OnSome Q (kept p b)
kept-OnSome Q p true h = h refl
kept-OnSome Q p false h = tt

pub stbl_read-IsStbl :
    (malloc : ℕ → ℕ) (fuel : ℕ) (m : Memory) (p n : ℕ)
    → Ensures (OnSome IsStbl) (stbl_read malloc fuel m p n)
unfolding stbl_read
stbl_read-IsStbl malloc fuel m p n =
    Ensures.bind (Ensures.any (atom_reader stbl_ops (stbl_rows malloc) fuel m stbl_init p n))
      λ (atom, result) _.
        returns (
          kept-OnSome IsStbl atom (result && is_set atom.stsd && is_set atom.stts)
            λ e. ground arith)

-- A pointer that is set and keeps a property, as `Has`.
pub Has-of_OnSome :
    {A : Type 0} (Q : A → Type 0) (o : Option A) → OnSome Q o → is_set o ≡ true → Has Q o
Has-of_OnSome Q none h e = cc
Has-of_OnSome Q (some a) h e = h

module _ (malloc : ℕ → ℕ) (fuel : ℕ) where
  minf_rows-Keep : All (RowKeeps (λ (s : Minf). OnSome IsStbl s.stbl)) (minf_rows malloc fuel)
  minf_rows-Keep = (
    row-Keeps _ (λ _. Unit) _ _ (reads_any _) (λ s child h k. returns h),
    (
      row-Keeps _ (λ _. Unit) _ _ (reads_any _) (λ s child h k. returns h),
      (
        row-Keeps _ (λ _. Unit) _ _ (reads_any _) (λ s child h k. returns h),
        (row-Keeps _ IsStbl _ _ (stbl_read-IsStbl malloc fuel) (λ s child h k. returns k), tt),
      ),
    ),
  )

  pub minf_read-IsMinf :
      (m : Memory) (p n : ℕ) → Ensures (OnSome IsMinf) (minf_read malloc fuel m p n)
  unfolding minf_read
  minf_read-IsMinf m p n =
      Ensures.bind
        (atom_reader-Keeps minf_ops (minf_rows malloc fuel) (λ s. OnSome IsStbl s.stbl)
          (λ parent chain h. h) minf_rows-Keep m fuel minf_init p n tt)
        λ (atom, result) h. returns (
          kept-OnSome IsMinf atom (result && is_set atom.stbl)
            λ e. Has-of_OnSome IsStbl atom.stbl h (ground arith))

  mdia_rows-Keep :
      (now : ℕ) → All (RowKeeps (λ (s : Mdia). OnSome IsMinf s.minf)) (mdia_rows now malloc fuel)
  mdia_rows-Keep now = (
    row-Keeps _ (λ _. Unit) _ _ (reads_any _) (λ s child h k. returns h),
    (
      row-Keeps _ (λ _. Unit) _ _ (reads_any _) (λ s child h k. returns h),
      (row-Keeps _ IsMinf _ _ minf_read-IsMinf (λ s child h k. returns k), tt),
    ),
  )

  pub mdia_read-IsMdia :
      (now : ℕ) (m : Memory) (p n : ℕ) → Ensures (OnSome IsMdia) (mdia_read now malloc fuel m p n)
  unfolding mdia_read
  mdia_read-IsMdia now m p n =
      Ensures.bind
        (atom_reader-Keeps mdia_ops (mdia_rows now malloc fuel) (λ s. OnSome IsMinf s.minf)
          (λ parent chain h. h) (mdia_rows-Keep now) m fuel mdia_init p n tt)
        λ (atom, result) h. returns (
          kept-OnSome IsMdia atom
            (result && is_set atom.mdhd && is_set atom.hdlr && is_set atom.minf)
            λ e. record {
              has_mdhd = ground arith;
              has_hdlr = ground arith;
              has_minf = Has-of_OnSome IsMinf atom.minf h (ground arith);
            })
