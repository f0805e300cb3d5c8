-- ===== src/File/Header.antt =====
-- Atom headers: what `mp4_atom_write_header` writes, what `mp4_atom_read_header` makes of a file that
-- holds it, and of a file that ends within a header.
use nginx_hls_module.Base.{
  ℕ, ◌+◌, ◌^◌, ◌≤◌, ◌<◌, ◌≡◌, ◌≢◌, refl, sym, ap, ◌∙◌, List, [], ◌++◌, Option, some, Bool,
  Bool-cases, false, inl, inr, ltb, ◌==◌, ==→eq, if◌then◌else◌, length, take, drop, length-append,
  append_assoc, drop-append, take-append, arith, subst,
}
use nginx_hls_module.Run.{ok}
use nginx_hls_module.Run.Returns.{Returns, returns, mono}
use nginx_hls_module.Memory.{read_32, read_64}
use native.Mathlib.Nat.{mod-eq_of_lt}
use nginx_hls_module.Memory.Reads.{read_64-be_64}
use nginx_hls_module.Reader.Copies.{read_32-Holds}
use nginx_hls_module.Memory.Holds.{Holds, Holds-right, be_64_of_Holds, bytes_32, bytes_64}
use nginx_hls_module.File.{FileAtom, Mp4Context, mp4_read}
use nginx_hls_module.File.Open.{mp4_atom_read_header, extended_size}
use nginx_hls_module.File.State.{IsFile, IsContext, Same, Same-trans, Window}
use nginx_hls_module.File.Window.{mp4_read-Window}

abbrev pub wide : FileAtom → Bool
wide a = a.short_size == 1

-- A header as bytes: the size of 32 bits and the type, or 1, the type and the size of 64 bits.
abbrev pub header_bytes : FileAtom → List ℕ
header_bytes a =
    if wide a
    then bytes_32 1 ++ bytes_32 a.type ++ bytes_64 a.size
    else bytes_32 a.size ++ bytes_32 a.type

-- An atom as a header can state it.
pub record IsHeader (a : FileAtom) : Type 0 where
  pub type : a.type < 2 ^ 32
  pub least : 8 ≤ a.size
  pub most : a.size < 2 ^ 64
  pub narrow : a.short_size ≢ 1 → (a.short_size ≡ a.size) × (a.size < 2 ^ 32)

-- The file has the bytes `bs` at `pos`.
pub record At (contents : List ℕ) (pos : ℕ) (bs : List ℕ) : Type 0 where
  pub before : List ℕ
  pub behind : List ℕ
  pub parts : contents ≡ before ++ bs ++ behind
  pub place : length before ≡ pos

pub At-left :
    {contents : List ℕ} {pos : ℕ} (xs ys : List ℕ) → At contents pos (xs ++ ys) → At contents pos xs
At-left xs ys a = record {
  before = a.before;
  behind = ys ++ a.behind;
  parts =
      a.parts
      ∙ ap (λ zs. zs ++ a.behind) (sym (append_assoc a.before xs ys))
      ∙ append_assoc (a.before ++ xs) ys a.behind;
  place = a.place;
}

pub At-right :
    {contents : List ℕ} {pos : ℕ} (xs ys : List ℕ)
    → At contents pos (xs ++ ys)
    → At contents (pos + length xs) ys
At-right xs ys a = record {
  before = a.before ++ xs;
  behind = a.behind;
  parts = a.parts ∙ ap (λ zs. zs ++ a.behind) (sym (append_assoc a.before xs ys));
  place = length-append a.before xs ∙ ap (λ n. n + length xs) a.place;
}

pub At-within :
    {contents : List ℕ} {pos : ℕ} (bs : List ℕ)
    → At contents pos bs
    → pos + length bs ≤ length contents
At-within bs a = omega (
  arith,
  ap length a.parts,
  length-append (a.before ++ bs) a.behind,
  length-append a.before bs,
  a.place,
)

pub At-take :
    {contents : List ℕ} {pos : ℕ} (bs : List ℕ)
    → At contents pos bs
    → take (length bs) (drop pos contents) ≡ bs
At-take {pos} bs a =
    ap (λ xs. take (length bs) (drop pos xs)) (a.parts ∙ append_assoc a.before bs a.behind)
    ∙ ap (take (length bs)) (drop-append pos a.before (bs ++ a.behind) a.place)
    ∙ take-append (length bs) bs a.behind refl

as_stated :
    (a : FileAtom) (short start : ℕ)
    → short ≡ a.short_size
    → start ≡ a.start
    → record a { short_size = short; start = start } ≡ a
as_stated a short start e e' = λ i. record a { short_size = e i; start = e' i }

-- A header that is read: the atom, and the context beside the buffer and the place.
pub record HeaderRead (contents : List ℕ) (c : Mp4Context) (a : FileAtom)
    (r : Option FileAtom × Mp4Context) : Type 0 where
  pub found : r.0 ≡ some a
  pub keeps : IsContext contents r.1
  pub frame : Same c r.1

module _ {contents : List ℕ} {ngx_palloc : ℕ → Option ℕ} {ngx_read_file : ℕ → ℕ → Option (List ℕ)}
    (file : IsFile contents ngx_palloc ngx_read_file) where
  -- A read of bytes that are known.
  pub mp4_read-At :
      (c : Mp4Context) (bs : List ℕ) (pos : ℕ)
      → IsContext contents c
      → At contents pos bs
      → (v : Window contents c
          (length bs)
          pos
          (mp4_read ngx_palloc ngx_read_file c (length bs) pos))
        × Holds v.buffer v.place bs
  mp4_read-At c bs pos h a =
      let v = mp4_read-Window file c (length bs) pos h (At-within bs a) in
      (v, subst (Holds v.buffer v.place) (At-take bs a) v.holds)

  -- The first two fields of a header.
  fields :
      (c : Mp4Context) (x y : ℕ)
      → IsContext contents c
      → x < 2 ^ 32
      → y < 2 ^ 32
      → At contents c.offset (bytes_32 x ++ bytes_32 y)
      → (v : Window contents c 8 c.offset (mp4_read ngx_palloc ngx_read_file c 8 c.offset))
        × (read_32 v.buffer v.place ≡ ok x)
        × (read_32 v.buffer (v.place + 4) ≡ ok y)
  fields c x y h x_small y_small there =
      let (v, held) = mp4_read-At c (bytes_32 x ++ bytes_32 y) c.offset h there in
      let r = v.readable in
      (
        v,
        read_32-Holds v.allocation v.place x (bytes_32 y) x_small (omega arith) held,
        read_32-Holds v.allocation (v.place + 4) y [] y_small (omega arith)
            (Holds-right v.buffer v.place (bytes_32 x) (bytes_32 y) held),
      )

  -- Eight bytes further, and within the file.
  moved :
      {c : Mp4Context} {pos : ℕ} {r : Option ℕ × Mp4Context}
      → Window contents c 8 pos r
      → c.offset + 8 < 2 ^ 64
      → r.1.offset ≡ c.offset + 8
  moved v small = v.moves ∙ mod-eq_of_lt small

  -- The size of 64 bits.
  extended_size-size :
      (c : Mp4Context) (a : FileAtom)
      → IsContext contents c
      → IsHeader a
      → At contents c.offset (bytes_64 a.size)
      → (n : ℕ)
      → Returns
          (HeaderRead contents c a)
          (extended_size ngx_palloc ngx_read_file c (record a { size = n }))
  unfolding extended_size
  extended_size-size c a h w there n =
      let (v, held) = mp4_read-At c (bytes_64 a.size) c.offset h there in
      let r64 : read_64 v.buffer v.place ≡ ok a.size =
        read_64-be_64 v.allocation v.place v.readable
        ∙ ap ok (be_64_of_Holds v.buffer v.place a.size held ∙ mod-eq_of_lt w.most) in
      let large : ltb a.size 8 ≡ false = ground (arith, w.least) in
      rw (v.found, v.current, r64, large, extended_size)
        (returns (record { found = refl; keeps = v.keeps; frame = v.frame }))

  -- The file holds the header of `a` at the place where the context is.
  pub mp4_atom_read_header-header :
      (c : Mp4Context) (a : FileAtom)
      → IsContext contents c
      → IsHeader a
      → a.start ≡ c.offset
      → At contents c.offset (header_bytes a)
      → Returns (HeaderRead contents c a) (mp4_atom_read_header ngx_palloc ngx_read_file c)
  unfolding mp4_atom_read_header
  mp4_atom_read_header-header c a h w at there = elim (Bool-cases (wide a)) [
    | inl long ↦
        let there' = rw long at there in
        let (v, f1, f2) =
          fields c 1 a.type h (omega arith) w.type
            (At-left (bytes_32 1 ++ bytes_32 a.type) (bytes_64 a.size) there') in
        let c1 = (mp4_read ngx_palloc ngx_read_file c 8 c.offset).1 in
        let size_at =
          subst (λ n. At contents n (bytes_64 a.size))
            (sym (moved v (omega (arith, At-within _ there', file.small))))
            (At-right (bytes_32 1 ++ bytes_32 a.type) (bytes_64 a.size) there') in
        let stated : record a { short_size = 1; start = c.offset } ≡ a =
          as_stated a 1 c.offset (sym (==→eq a.short_size 1 long)) (sym at) in
        rw (v.found, v.current, f1, f2, mp4_atom_read_header)
          (subst
            (λ x.
              Returns (HeaderRead contents c a)
                (extended_size ngx_palloc ngx_read_file c1 (record x { size = 1 })))
            (sym stated)
            (mono (extended_size-size c1 a v.keeps w size_at 1) (λ r t. record {
              found = t.found;
              keeps = t.keeps;
              frame = Same-trans c _ r.1 v.frame t.frame;
            })))
    | inr short ↦
        let there' = rw short at there in
        let (same, small) = w.narrow (λ e. ground arith) in
        let (v, f1, f2) = fields c a.size a.type h small w.type there' in
        let narrow : (a.size == 1) ≡ false = ground (arith, w.least) in
        let large : ltb a.size 8 ≡ false = ground (arith, w.least) in
        rw (v.found, v.current, f1, f2, narrow, large, mp4_atom_read_header)
          (returns (record {
            found = ap some (as_stated a a.size c.offset (sym same) (sym at));
            keeps = v.keeps;
            frame = v.frame;
          }))
  ]
