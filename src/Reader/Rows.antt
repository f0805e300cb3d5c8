-- ===== src/Reader/Rows.antt =====
-- The loop that the readers of tables share: `for(i = 0; i != entries; ++i) { ... buffer += stride; }`.
use nginx_hls_module.Base.{
  ℕ, zero, suc, ◌+◌, ◌*◌, ◌<◌, ◌≡◌, refl, ap, List, [], ◌∷◌, some, arith, length, get_elem?,
}
use nginx_hls_module.Run.{Run, ok, ◌>>=◌}
use nginx_hls_module.Run.Finite
use nginx_hls_module.Run.Finite.{Finite, returns}
use nginx_hls_module.Memory.{Memory, Readable}

module _ {A : Type 0} where
  unfoldable pub read_rows : (ℕ → Run A) → ℕ → ℕ → ℕ → Run (List A)
  read_rows row stride zero p = ok []
  read_rows row stride (suc n) p = do
    a ← row p
    rest ← read_rows row stride n (p + stride)
    ok (a ∷ rest)

  -- The rows as a function of their addresses.
  unfoldable pub rows_at : (ℕ → A) → ℕ → ℕ → ℕ → List A
  rows_at f stride zero p = []
  rows_at f stride (suc n) p = f p ∷ rows_at f stride n (p + stride)

  pub read_rows-rows_at :
      (m : Memory) (row : ℕ → Run A) (f : ℕ → A) (stride : ℕ)
      → ((q : ℕ) → Readable m q stride → row q ≡ ok (f q))
      → (n p : ℕ) → Readable m p (n * stride)
      → read_rows row stride n p ≡ ok (rows_at f stride n p)
  unfolding read_rows rows_at
  read_rows-rows_at m row f stride each zero p r = refl
  read_rows-rows_at m row f stride each (suc n) p r =
      rw (each p (omega arith), read_rows-rows_at m row f stride each n (p + stride) (omega arith))

  pub length-rows_at : (f : ℕ → A) (stride n p : ℕ) → length (rows_at f stride n p) ≡ n
  unfolding rows_at
  length-rows_at f stride zero p = refl
  length-rows_at f stride (suc n) p = ap suc (length-rows_at f stride n (p + stride))

  pub get_elem?-rows_at :
      (f : ℕ → A) (stride n p i : ℕ)
      → i < n
      → get_elem? (rows_at f stride n p) i ≡ some (f (p + i * stride))
  unfolding rows_at
  get_elem?-rows_at f stride zero p i h = absurd (omega arith)
  get_elem?-rows_at f stride (suc n) p zero h = ap (λ q. some (f q)) (omega arith)
  get_elem?-rows_at f stride (suc n) p (suc i) h =
      rw (get_elem?-rows_at f stride n (p + stride) i (omega arith))
        (ap (λ q. some (f q)) (omega arith))

  pub read_rows-Finite :
      (row : ℕ → Run A) (stride : ℕ)
      → ((q : ℕ) → Finite (row q))
      → (n p : ℕ) → Finite (read_rows row stride n p)
  unfolding read_rows
  read_rows-Finite row stride each zero p = returns []
  read_rows-Finite row stride each (suc n) p =
      Finite.bind (each p) λ a.
        Finite.bind (read_rows-Finite row stride each n (p + stride)) λ rest. returns (a ∷ rest)
