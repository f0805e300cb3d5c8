-- ===== src/Bucket/Contents.antt =====
-- What a bucket sends: the inserted bytes in order, announced by their number, the last buffer
-- alone marked as the last.
use nginx_hls_module.Base.{
  ℕ, ◌+◌, ◌^◌, ◌<◌, ◌≡◌, ◌∙◌, refl, ap, List, [], ◌∷◌, ◌++◌, append_assoc, append-nil, true, false,
  length, length-append, arith,
}
use native.Mathlib.Nat.{mod-eq_of_lt}
use nginx_hls_module.Bucket.{Buf, Bucket, unlast, bucket_insert}

-- The bytes that the chain sends.
unfoldable pub sent : List Buf → List ℕ
sent [] = []
sent (b ∷ bs) = b.bytes ++ sent bs

-- The flags of the end stand on the last buffer and on no other.
abbrev pub EndsOnce : List Buf → Type 0
EndsOnce [] = Unit
EndsOnce (b ∷ []) = (b.last_buf ≡ true) × (b.last_in_chain ≡ true)
EndsOnce (b ∷ c ∷ bs) = (b.last_buf ≡ false) × (b.last_in_chain ≡ false) × EndsOnce (c ∷ bs)

pub record IsBucket (b : Bucket) : Type 0 where
  pub counted : b.content_length ≡ length (sent b.chain)
  pub ends : EndsOnce b.chain

sent-append : (xs ys : List Buf) → sent (xs ++ ys) ≡ sent xs ++ sent ys
unfolding sent
sent-append [] ys = refl
sent-append (x ∷ xs) ys = rw (sent-append xs ys) (rw (append_assoc x.bytes (sent xs) (sent ys)))

sent-unlast : (bs : List Buf) → sent (unlast bs) ≡ sent bs
unfolding sent unlast
sent-unlast [] = refl
sent-unlast (b ∷ []) = refl
sent-unlast (b ∷ c ∷ bs) = ap (λ t. b.bytes ++ t) (sent-unlast (c ∷ bs))

EndsOnce-append :
    (bs : List Buf) (e : Buf)
    → EndsOnce bs
    → e.last_buf ≡ true
    → e.last_in_chain ≡ true
    → EndsOnce (unlast bs ++ (e ∷ []))
unfolding unlast
EndsOnce-append [] e h p q = (p, q)
EndsOnce-append (b ∷ []) e h p q = (refl, refl, (p, q))
EndsOnce-append (b ∷ c ∷ []) e h p q = (h.0, h.1, (refl, refl, (p, q)))
EndsOnce-append (b ∷ c ∷ d ∷ bs) e h p q = (h.0, h.1, EndsOnce-append (c ∷ d ∷ bs) e h.2 p q)

pub sent-bucket_insert :
    (b : Bucket) (buf : List ℕ) → sent (bucket_insert b buf).chain ≡ sent b.chain ++ buf
unfolding bucket_insert
sent-bucket_insert b buf =
    sent-append (unlast b.chain) _
    ∙ (rw (sent-unlast b.chain) (unfold sent in ap (λ t. sent b.chain ++ t) (append-nil buf)))

-- Inserting bytes into a well-formed bucket, whose length stays below 2^64, appends them to what is
-- sent; the announced length counts them, and only the last buffer is marked as the last.
pub bucket_insert-IsBucket :
    {b : Bucket} (buf : List ℕ)
    → IsBucket b
    → b.content_length + length buf < 2 ^ 64
    → (sent (bucket_insert b buf).chain ≡ sent b.chain ++ buf) × IsBucket (bucket_insert b buf)
unfolding bucket_insert
bucket_insert-IsBucket {b} buf h fits =
    let appended : sent (bucket_insert b buf).chain ≡ sent b.chain ++ buf =
      sent-bucket_insert b buf in
    (
      appended,
      record {
        counted =
            mod-eq_of_lt fits
            ∙ (rw appended (omega (arith, length-append (sent b.chain) buf, h.counted)));
        ends = EndsOnce-append b.chain _ h.ends refl refl;
      },
    )
