-- ===== src/Files/Hash.antt =====
-- `hash_large_file` of src/utils.py. The hash algorithm of hashlib is an argument.
use portfolio_cv_project.Common.{
  ℕ, zero, suc, ◌+◌, ◌-◌, ◌/◌, ◌%◌, ◌<◌, ltb, Bool, [], ◌∷◌, ◌++◌, Option, none, some,
  if◌then◌else◌, Text, length, take, drop, ◌≡◌, refl, sym, ap, ◌∙◌, arith, take-append-drop,
  length-drop-le,
}

-- A hashlib object, as the bytes' effect on its state.
pub record Hasher (S : Type 0) : Type 0 where
  pub new : S
  pub updated : S → Text → S
  pub digest : S → Text

-- hashlib: repeated calls are equivalent to a single call with the concatenation of the arguments.
pub record IsHasher {S : Type 0} (h : Hasher S) : Type 0 where
  pub updated_nil : (s : S) → h.updated s [] ≡ s
  pub updated-append : (s : S) (a b : Text) → h.updated s (a ++ b) ≡ h.updated (h.updated s a) b

-- A binary stream, at a place in its bytes.
pub record Stream : Type 0 where
  pub bytes : Text
  pub position : ℕ
  pub is_seekable : Bool

module _ {S : Type 0} (h : Hasher S) where
  -- `for chunk in iter(lambda: f.read(chunk_size), b"")`, over what is left of the file; None where
  -- the fuel runs out.
  unfoldable pub update_chunks : ℕ → ℕ → Text → S → Option S
  update_chunks zero chunk_size rest s = none
  update_chunks (suc fuel) chunk_size rest s = elim (take chunk_size rest) [
    | [] ↦ some s
    | c ∷ cs ↦
        update_chunks fuel chunk_size (drop chunk_size rest) (h.updated s (take chunk_size rest))
  ]

  abbrev pub digest_of : Option S → Option Text
  digest_of none = none
  digest_of (some s) = some (h.digest s)

  -- The branch for a path: the bytes of the file from the start.
  unfoldable pub hash_large_file : ℕ → Text → Option Text
  unfolding update_chunks
  hash_large_file chunk_size bytes =
      digest_of (update_chunks (suc (length bytes)) chunk_size bytes h.new)

  -- The branch for a stream: from its place to its end, then back to the start if it can.
  unfoldable pub hash_stream : ℕ → Stream → Option Text × Stream
  unfolding update_chunks
  hash_stream chunk_size f =
      let rest = drop f.position f.bytes in
      (
        digest_of (update_chunks (suc (length rest)) chunk_size rest h.new),
        record f { position = if f.is_seekable then 0 else f.position + length rest },
      )

-- `bytes.hex()`.
abbrev pub digit : ℕ → ℕ
digit n = if ltb n 10 then b'0' + n else b'a' + (n - 10)

abbrev pub hex : Text → Text
hex [] = []
hex (b ∷ bs) = digit (b / 16) ∷ (digit (b % 16) ∷ hex bs)

module _ {S : Type 0} (h : Hasher S) (lawful : IsHasher h) where
  update_chunks_whole :
      (fuel n : ℕ) (rest : Text) (s : S)
      → length rest < fuel
      → update_chunks h fuel (suc n) rest s ≡ some (h.updated s rest)
  unfolding update_chunks
  update_chunks_whole zero n rest s short = absurd (omega arith)
  update_chunks_whole (suc fuel) n [] s short = rw (lawful.updated_nil s)
  update_chunks_whole (suc fuel) n (b ∷ bs) s short =
      update_chunks_whole fuel n (drop n bs) _ (omega (arith, length-drop-le n bs))
      ∙ rw ((sym (lawful.updated-append s (b ∷ take n bs) (drop n bs))), take-append-drop n bs)

  -- With a chunk size of at least one the loop ends, and the hash of a file is that of its bytes fed
  -- in one piece: the chunk size makes no difference. A stream is hashed from its place on, and
  -- stands at its start afterwards if it can seek.
  pub hash_large_file_whole :
      (chunk_size : ℕ) (bytes : Text) (f : Stream)
      → 0 < chunk_size
      → (hash_large_file h chunk_size bytes ≡ some (h.digest (h.updated h.new bytes)))
        × ((hash_stream h chunk_size f).0
            ≡ some (h.digest (h.updated h.new (drop f.position f.bytes))))
        × ((hash_stream h chunk_size f).1.position
            ≡ (if f.is_seekable then 0 else f.position + length (drop f.position f.bytes)))
  unfolding hash_large_file hash_stream
  hash_large_file_whole zero bytes f positive = absurd (omega arith)
  hash_large_file_whole (suc n) bytes f positive = (
    ap (digest_of h) (update_chunks_whole (suc (length bytes)) n bytes h.new (omega arith)),
    ap (digest_of h) (
        update_chunks_whole (suc (length (drop f.position f.bytes))) n (drop f.position f.bytes)
          h.new (omega arith)),
    refl,
  )
