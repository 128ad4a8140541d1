-- ===== src/Chunkserver/ChunkStore/Blocks.antt =====
-- The blocks of a chunk and their checksums, for src/chunkserver/chunk_store.cc.
use gfs_impl_cpp.Base.{
  length, get_elem?, take, drop, ℕ, zero, suc, ◌+◌, ◌-◌, ◌*◌, ◌/◌, ◌≤◌, ◌<◌, ◌≡◌, refl, sym, ap,
  ◌∙◌, some, List, [], ◌∷◌, ◌++◌, arith,
}
use gfs_impl_cpp.Base.Bytes.{Bytes, bytes_key}
use gfs_impl_cpp.Base.Map.{nat_key}
use gfs_impl_cpp.Common.Framing.{crc32}
use gfs_impl_cpp.Chunkserver.ChunkStore.Files.{off_limit}
use gfs_impl_cpp.Chunkserver.ChunkStore.Entries.{ChunkEntry, blocks_of, block_sums}
use native.Mathlib.Nat.{le-div_iff_mul-le, add-mul, one-mul, zero-mul}

module _ {ℓ} {A : Type ℓ} where
  pub get_elem?-left :
      (xs ys : List A) (i : ℕ) → i < length xs → get_elem? (xs ++ ys) i ≡ get_elem? xs i
  get_elem?-left [] ys i h = absurd (omega (arith, h))
  get_elem?-left (x ∷ xs) ys zero h = refl
  get_elem?-left (x ∷ xs) ys (suc i) h = get_elem?-left xs ys i (omega (arith, h))

  pub get_elem?-right :
      (xs ys : List A) (i : ℕ)
      → length xs ≤ i
      → get_elem? (xs ++ ys) i ≡ get_elem? ys (i - length xs)
  get_elem?-right [] ys i h = let e : i - 0 ≡ i = omega arith in rw e refl
  get_elem?-right (x ∷ xs) ys zero h = absurd (omega (arith, h))
  get_elem?-right (x ∷ xs) ys (suc i) h =
      let e : suc i - suc (length xs) ≡ i - length xs = omega arith in
      rw e (get_elem?-right xs ys i (omega (arith, h)))

  pub get_elem?-take :
      (k : ℕ) (xs : List A) (i : ℕ) → i < k → get_elem? (take k xs) i ≡ get_elem? xs i
  get_elem?-take zero xs i h = absurd (omega (arith, h))
  get_elem?-take (suc k) [] i h = refl
  get_elem?-take (suc k) (x ∷ xs) zero h = refl
  get_elem?-take (suc k) (x ∷ xs) (suc i) h = get_elem?-take k xs i (omega (arith, h))

  drop-nil : (k : ℕ) → drop {A = A} k [] ≡ []
  drop-nil zero = refl
  drop-nil (suc k) = refl

  pub drop-drop : (j k : ℕ) (xs : List A) → drop j (drop k xs) ≡ drop (k + j) xs
  drop-drop j zero xs = let e : 0 + j ≡ j = omega arith in rw e refl
  drop-drop j (suc k) [] = drop-nil j ∙ sym (drop-nil (suc k + j))
  drop-drop j (suc k) (x ∷ xs) =
      let e : suc k + j ≡ suc (k + j) = omega arith in rw e (drop-drop j k xs)

  pub take-all : (n : ℕ) (xs : List A) → length xs ≤ n → take n xs ≡ xs
  take-all zero [] h = refl
  take-all zero (x ∷ xs) h = absurd (omega (arith, h))
  take-all (suc n) [] h = refl
  take-all (suc n) (x ∷ xs) h = ap (◌∷◌ x) (take-all n xs (omega (arith, h)))

  pub drop-all : (n : ℕ) (xs : List A) → length xs ≤ n → drop n xs ≡ []
  drop-all zero [] h = refl
  drop-all zero (x ∷ xs) h = absurd (omega (arith, h))
  drop-all (suc n) [] h = refl
  drop-all (suc n) (x ∷ xs) h = drop-all n xs (omega (arith, h))

pub suc_mul : (b bs : ℕ) → (b + 1) * bs ≡ b * bs + bs
suc_mul b bs = add-mul b 1 bs ∙ ap (λ (n : ℕ). b * bs + n) (one-mul bs)

-- A block is there as soon as its first byte is.
module _ (bs len : ℕ) (positive : 0 < bs) (small : len + bs < off_limit) where
  pub blocks_of-exact : blocks_of bs len ≡ (len + bs - 1) / bs
  blocks_of-exact = ap (λ (n : ℕ). n / bs) (omega (arith, small))

  pub lt-blocks_of : (b : ℕ) → b * bs < len → b < blocks_of bs len
  lt-blocks_of b h = rw blocks_of-exact (
      let e : b + 1 ≤ (len + bs - 1) / bs =
        (le-div_iff_mul-le positive).1 (omega (arith, h, suc_mul b bs)) in
      omega (arith, e))

  pub blocks_of-lt : (b : ℕ) → b < blocks_of bs len → b * bs < len
  blocks_of-lt b h =
      let e : b + 1 ≤ (len + bs - 1) / bs = omega (arith, rw blocks_of-exact at h) in
      let g : (b + 1) * bs ≤ len + bs - 1 = (le-div_iff_mul-le positive).0 e in
      omega (arith, g, suc_mul b bs)

module _ (zlib : ℕ → Bytes → ℕ → ℕ) (bs : ℕ) where
  -- The checksum of block `b`.
  abbrev pub sum_at : Bytes → ℕ → ℕ
  sum_at file b = crc32 zlib (take bs (drop (b * bs) file))

  pub sum_at-suc : (file : Bytes) (b : ℕ) → sum_at file (suc b) ≡ sum_at (drop bs file) b
  sum_at-suc file b =
      let e : bs + b * bs ≡ suc b * bs = omega (arith, suc_mul b bs) in
      ap (λ (rest : Bytes). crc32 zlib (take bs rest))
        (sym (drop-drop (b * bs) bs file ∙ ap (λ (k : ℕ). drop k file) e))

  pub get_elem?-block_sums :
      (n : ℕ) (buf : Bytes) (i : ℕ)
      → i < n
      → get_elem? (block_sums zlib bs n buf) i ≡ some (sum_at buf i)
  unfolding block_sums
  get_elem?-block_sums zero buf i h = absurd (omega (arith, h))
  get_elem?-block_sums (suc n) buf zero h = rw (zero-mul bs) refl
  get_elem?-block_sums (suc n) buf (suc i) h =
      get_elem?-block_sums n (drop bs buf) i (omega (arith, h)) ∙ ap some (sym (sum_at-suc buf i))

  pub length-block_sums : (n : ℕ) (buf : Bytes) → length (block_sums zlib bs n buf) ≡ n
  unfolding block_sums
  length-block_sums zero buf = refl
  length-block_sums (suc n) buf = ap suc (length-block_sums n (drop bs buf))

  -- The entry agrees with its file: the length is the file's, and each block has its checksum.
  pub record IsChecked (entry : ChunkEntry) : Type 0 where
    pub size : length entry.chunk ≡ entry.length
    pub count : length entry.checksums ≡ blocks_of bs entry.length
    pub sums :
        (b : ℕ)
        → b < length entry.checksums
        → get_elem? entry.checksums b ≡ some (sum_at entry.chunk b)
