-- ===== src/ChunkStorage/RoundTrip.antt =====
-- The number of a chunk is read back from its key.
use meeting_mgr.Base.{ℕ, ◌≡◌, ap, some, ◌++◌}
use meeting_mgr.Base.Text.{Text, remove_prefix-append, remove_suffix-append}
use meeting_mgr.Base.Decimal.{ℤ, six_digits}
use meeting_mgr.Base.Decimal.RoundTrip.{int_of-six_digits}
use meeting_mgr.ChunkStorage.{chunk_prefix, chunk_key, chunk_seq}

-- The number that is read back from a chunk's key is the number that the key was made of, for every
-- integer.
pub chunk_seq-chunk_key :
    (meeting_id : ℕ) (seq : ℤ) (subdir suffix : Text)
    → chunk_seq (chunk_prefix meeting_id subdir) suffix (chunk_key meeting_id seq subdir suffix)
      ≡ some seq
unfolding chunk_seq chunk_key
chunk_seq-chunk_key mid seq subdir suffix =
    rw
      (
        remove_prefix-append (chunk_prefix mid subdir) (six_digits seq ++ suffix),
        remove_suffix-append suffix (six_digits seq),
      )
      (int_of-six_digits seq)

-- So two chunks of one meeting share a key only if they have one number: a retry overwrites, and
-- nothing else does.
pub chunk_key_injective :
    (meeting_id : ℕ) (a b : ℤ) (subdir suffix : Text)
    → chunk_key meeting_id a subdir suffix ≡ chunk_key meeting_id b subdir suffix
    → a ≡ b
chunk_key_injective mid a b subdir suffix e = cc (
  chunk_seq-chunk_key mid a subdir suffix,
  ap (chunk_seq (chunk_prefix mid subdir) suffix) e,
  chunk_seq-chunk_key mid b subdir suffix,
)
