-- ===== src/Bucket.antt =====
-- src/output_bucket.h: the chain of buffers that is sent to the client. The pool's allocations
-- succeed; `bucket->chain`, the link of the last buffer, is the end of the list.
pub mod Contents
use nginx_hls_module.Base.{ℕ, ◌+◌, ◌%◌, ◌^◌, List, [], ◌∷◌, ◌++◌, Bool, true, false, length}

pub record Buf : Type 0 where
  pub bytes : List ℕ
  pub memory : Bool
  pub last_buf : Bool
  pub last_in_chain : Bool

pub record Bucket : Type 0 where
  pub chain : List Buf
  pub content_length : ℕ

abbrev pub bucket_init : Bucket
bucket_init = record { chain = []; content_length = 0 }

-- The buffer that was the last one is not any more.
unlast : List Buf → List Buf
unlast [] = []
unlast (b ∷ []) = record b { last_buf = false; last_in_chain = false } ∷ []
unlast (b ∷ c ∷ bs) = b ∷ unlast (c ∷ bs)

pub bucket_insert : Bucket → List ℕ → Bucket
unfolding unlast
bucket_insert bucket buf = record {
  chain =
      unlast bucket.chain
      ++ (record { bytes = buf; memory = true; last_buf = true; last_in_chain = true } ∷ []);
  content_length = (bucket.content_length + length buf) % 2 ^ 64;
}
