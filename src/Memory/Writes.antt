-- ===== src/Memory/Writes.antt =====
-- The writers store the big-endian bytes of their value and nothing else, and the readers get it back.
use nginx_hls_module.Base.{
  ℕ, zero, suc, ◌+◌, ◌-◌, ◌%◌, ◌^◌, ◌≤◌, ◌<◌, ◌≡◌, ◌≢◌, ◌⊎◌, inl, refl, ap, ◌∙◌, List, [], ◌∷◌,
  ◌++◌, arith, length, set, All, le→ltb, lt→ltb, length-set, length-append, get_elem?-set_self,
  get_elem?-set_ne,
}
use nginx_hls_module.Run.{ok}
use nginx_hls_module.Run.Returns
use nginx_hls_module.Run.Returns.{Returns, returns}
use nginx_hls_module.Memory.{
  Memory, IsMemory, Readable, store, read_16, read_32, read_64, write_8, write_16, write_32,
  write_64,
}
use nginx_hls_module.Memory.Holds.{
  Holds, Holds-append, Holds-frame, bytes_16, bytes_32, bytes_64, be_32_of_Holds, be_64_of_Holds,
  be_16_of_Holds,
}
use nginx_hls_module.Memory.Reads.{nth, byte_at, read_16-be_16, read_32-be_32, read_64-be_64}

-- `m'` is `m` but for the `n` bytes from `p` on.
pub record Rewritten (m : Memory) (p n : ℕ) (m' : Memory) : Type 0 where
  pub base : m'.base ≡ m.base
  pub size : length m'.bytes ≡ length m.bytes
  pub wf : IsMemory m'
  pub outside : (q : ℕ) → (q < p) ⊎ (p + n ≤ q) → byte_at m' q ≡ byte_at m q

-- The memory after one stored byte.
put : Memory → ℕ → ℕ → Memory
put m p v = record m { bytes = set m.bytes (p - m.base) v }

All-set :
    (xs : List ℕ) (i v : ℕ) → v < 256 → All (λ b. b < 256) xs → All (λ b. b < 256) (set xs i v)
All-set [] i v h a = tt
All-set (x ∷ xs) zero v h a = (h, a.1)
All-set (x ∷ xs) (suc i) v h a = (a.0, All-set xs i v h a.1)

nth-set_self : (xs : List ℕ) (i v : ℕ) → i < length xs → nth (set xs i v) i ≡ v
unfolding nth
nth-set_self xs i v h = rw (get_elem?-set_self xs i v h, nth)

nth-set_ne : (xs : List ℕ) (i j v : ℕ) → i ≢ j → nth (set xs i v) j ≡ nth xs j
unfolding nth
nth-set_ne xs i j v h = rw (get_elem?-set_ne xs v h, nth)

module _ {m : Memory} (wf : IsMemory m) (p v : ℕ) (r : Readable m p 1) where
  store-put : store m p v ≡ ok (put m p v)
  unfolding store put
  store-put = rw (le→ltb p m.base r.above, lt→ltb (p - m.base) (length m.bytes) (omega arith))

  byte_at-put_self : byte_at (put m p v) p ≡ v
  unfolding byte_at put
  byte_at-put_self =
      rw (le→ltb p m.base r.above) (nth-set_self m.bytes (p - m.base) v (omega arith))

  byte_at-put_ne : (q : ℕ) → q ≢ p → byte_at (put m p v) q ≡ byte_at m q
  unfolding byte_at put
  byte_at-put_ne q h = ground (arith, nth-set_ne m.bytes (p - m.base) (q - m.base) v)

  put-Rewritten : v < 256 → Rewritten m p 1 (put m p v)
  put-Rewritten h = record {
    base = unfold put in refl;
    size = unfold put in length-set m.bytes (p - m.base) v;
    wf = record {
      octets = unfold put in All-set m.bytes (p - m.base) v h wf.octets;
      fits = unfold put in omega (arith, length-set m.bytes (p - m.base) v, wf.fits);
    };
    outside = λ q o. byte_at-put_ne q (omega arith);
  }

-- `m'` is `m` with the bytes `bs` from `p` on.
pub record Stored (m : Memory) (p : ℕ) (bs : List ℕ) (m' : Memory) : Type 0 where
  pub rewritten : Rewritten m p (length bs) m'
  pub holds : Holds m' p bs

pub Rewritten-Readable :
    {m m' : Memory} {p n : ℕ} (q k : ℕ) → Rewritten m p n m' → Readable m q k → Readable m' q k
Rewritten-Readable q k w r = omega (arith, w.base, w.size, r.above, r.below)

pub Rewritten-trans :
    {m m' m'' : Memory} {p n k : ℕ}
    → Rewritten m p n m'
    → Rewritten m' (p + n) k m''
    → Rewritten m p (n + k) m''
Rewritten-trans {p} {n} {k} w w' = record {
  base = w'.base ∙ w.base;
  size = w'.size ∙ w.size;
  wf = w'.wf;
  outside = λ q o. w'.outside q (omega arith) ∙ w.outside q (omega arith);
}

-- What is written behind earlier bytes leaves them.
pub Stored-append :
    {m m' m'' : Memory} (p : ℕ) (xs ys : List ℕ)
    → Stored m p xs m'
    → Stored m' (p + length xs) ys m''
    → Stored m p (xs ++ ys) m''
Stored-append {m} {m'} {m''} p xs ys s t = record {
  rewritten = rw (length-append xs ys) (Rewritten-trans s.rewritten t.rewritten);
  holds =
      Holds-append m'' p xs ys
        (Holds-frame m' m'' p xs (λ i lo hi. t.rewritten.outside i (inl hi)) s.holds) t.holds;
}

Stored-put :
    {m : Memory} (wf : IsMemory m) (p v : ℕ)
    → Readable m p 1
    → v < 256
    → Stored m p (v ∷ []) (put m p v)
Stored-put wf p v r h = record {
  rewritten = put-Rewritten wf p v r h;
  holds = (byte_at-put_self wf p v r, tt);
}

abbrev Writes : Memory → ℕ → List ℕ → ℕ × Memory → Type 0
Writes m p bs (q, m') = (q ≡ p + length bs) × Stored m p bs m'

module _ {m : Memory} (p : ℕ) where
  store-Stored :
      IsMemory m → (v : ℕ) → Readable m p 1 → v < 256 → Returns (Stored m p (v ∷ [])) (store m p v)
  store-Stored wf v r h = rw (store-put wf p v r) (returns (Stored-put wf p v r h))

  -- One more byte behind those that are stored.
  store-next :
      {m' : Memory} {xs : List ℕ} (k v : ℕ)
      → Stored m p xs m'
      → k ≡ length xs
      → Readable m (p + k) 1
      → v < 256
      → Returns (Stored m p (xs ++ (v ∷ []))) (store m' (p + k) v)
  store-next {m' = m'} {xs = xs} k v s e r h =
      let r' = Rewritten-Readable (p + k) 1 s.rewritten r in
      Returns.mono (store-Stored' s.rewritten.wf r')
        λ m'' t. Stored-append p xs (v ∷ []) s (rw e at t)
    where
      store-Stored' :
          IsMemory m'
          → Readable m' (p + k) 1
          → Returns (Stored m' (p + k) (v ∷ [])) (store m' (p + k) v)
      store-Stored' wf r = rw (store-put wf (p + k) v r) (returns (Stored-put wf (p + k) v r h))

module _ {m : Memory} (wf : IsMemory m) (p v : ℕ) where
  pub write_8-Stored : Readable m p 1 → Returns (Writes m p ((v % 2 ^ 8) ∷ [])) (write_8 m p v)
  unfolding write_8
  write_8-Stored r =
      Returns.bind (store-Stored p wf (v % 2 ^ 8) r (omega arith)) λ m1 s1. returns (refl, s1)

  pub write_16-Stored : Readable m p 2 → Returns (Writes m p (bytes_16 v)) (write_16 m p v)
  unfolding write_16
  write_16-Stored r = Returns.bind (store-Stored p wf _ (omega arith) (omega arith)) λ m1 s1.
      Returns.bind (store-next p 1 _ s1 refl (omega arith) (omega arith))
        λ m2 s2. returns (refl, s2)

  pub write_32-Stored : Readable m p 4 → Returns (Writes m p (bytes_32 v)) (write_32 m p v)
  unfolding write_32
  write_32-Stored r = Returns.bind (store-Stored p wf _ (omega arith) (omega arith)) λ m1 s1.
      Returns.bind (store-next p 1 _ s1 refl (omega arith) (omega arith)) λ m2 s2.
        Returns.bind (store-next p 2 _ s2 refl (omega arith) (omega arith)) λ m3 s3.
          Returns.bind (store-next p 3 _ s3 refl (omega arith) (omega arith))
            λ m4 s4. returns (refl, s4)

module _ {m : Memory} (wf : IsMemory m) (p v : ℕ) where
  pub write_64-Stored : Readable m p 8 → Returns (Writes m p (bytes_64 v)) (write_64 m p v)
  unfolding write_64
  write_64-Stored r = Returns.bind (write_32-Stored wf p _ (omega arith)) λ (q1, m1) (e1, s1).
      let w1 = s1.rewritten in
      Returns.bind
        (write_32-Stored w1.wf (p + 4) (v % 2 ^ 32) (Rewritten-Readable (p + 4) 4 w1 (omega arith)))
        λ (q2, m2) (e2, s2). returns (refl, Stored-append p (bytes_32 _) (bytes_32 _) s1 s2)

  Readable-Stored :
      (n : ℕ) {bs : List ℕ} {m' : Memory} → Readable m p n → Stored m p bs m' → Readable m' p n
  Readable-Stored n r s = Rewritten-Readable p n s.rewritten r

  -- A number that is written is read back, its value modulo the width, and no byte outside the
  -- ones written changes; the writer returns the address behind them.
  pub write-read :
      Readable m p 8
      → Returns
          (λ (q, m'). (q ≡ p + 2) × (read_16 m' p ≡ ok (v % 2 ^ 16)) × Rewritten m p 2 m')
          (write_16 m p v)
        × Returns
            (λ (q, m'). (q ≡ p + 4) × (read_32 m' p ≡ ok (v % 2 ^ 32)) × Rewritten m p 4 m')
            (write_32 m p v)
        × Returns
            (λ (q, m'). (q ≡ p + 8) × (read_64 m' p ≡ ok (v % 2 ^ 64)) × Rewritten m p 8 m')
            (write_64 m p v)
  write-read r = (
    Returns.mono (write_16-Stored wf p v (omega arith)) λ (q, m') (e, s). (
      e,
      read_16-be_16 s.rewritten.wf p (Readable-Stored 2 (omega arith) s)
          ∙ ap ok (be_16_of_Holds m' p v s.holds),
      s.rewritten,
    ),
    Returns.mono (write_32-Stored wf p v (omega arith)) λ (q, m') (e, s). (
      e,
      read_32-be_32 s.rewritten.wf p (Readable-Stored 4 (omega arith) s)
          ∙ ap ok (be_32_of_Holds m' p v s.holds),
      s.rewritten,
    ),
    Returns.mono (write_64-Stored r) λ (q, m') (e, s). (
      e,
      read_64-be_64 s.rewritten.wf p (Readable-Stored 8 r s)
          ∙ ap ok (be_64_of_Holds m' p v s.holds),
      s.rewritten,
    ),
  )
