-- ===== src/Chunkserver/ChunkStore/Reads.antt =====
-- `Read` of src/chunkserver/chunk_store.cc on one chunk whose checksums agree with its bytes: it gives
-- the bytes asked for.
use gfs_impl_cpp.Base.{
  ltb, leb, ◌==◌, Bool-cases, length, get_elem?, take, drop, length-take, length-drop, drop-take,
  take-take, ℕ, zero, suc, ◌+◌, ◌-◌, ◌*◌, ◌/◌, ◌%◌, ◌≤◌, ◌<◌, min, ◌≡◌, refl, sym, ap, ◌∙◌, ◌≢◌,
  inl, inr, true, false, some, List, [], ◌∷◌, arith, dec_lt,
}
use gfs_impl_cpp.Base.Bytes.{Bytes, bytes_key}
use gfs_impl_cpp.Base.Map.{nat_key}
use gfs_impl_cpp.Common.Framing.{crc32}
use gfs_impl_cpp.Common.ResultCode.{ok, checksum_mismatch}
use gfs_impl_cpp.Chunkserver.ChunkStore.Files.{pread_all}
use gfs_impl_cpp.Chunkserver.ChunkStore.Entries.{
  faultless, ChunkEntry, u64_mod, blocks_of, verify_blocks, read_entry,
}
use gfs_impl_cpp.Chunkserver.ChunkStore.Blocks.{
  get_elem?-take, drop-drop, take-all, suc_mul, lt-blocks_of, sum_at, sum_at-suc, IsChecked,
}
use gfs_impl_cpp.Chunkserver.ChunkStore.Writes.{IsShort}
use native.Mathlib.Nat.{div-mul-le_self, lt-div-mul-add, add-mul, zero-mul, mul-le-mul_right}
use mathlib.Core.Option.{some-injective, none-ne-some}

get_elem?-drop :
    {A : Type 0} (k : ℕ) (xs : List A) (i : ℕ) → get_elem? (drop k xs) i ≡ get_elem? xs (k + i)
get_elem?-drop zero xs i = let e : 0 + i ≡ i = omega arith in rw e refl
get_elem?-drop (suc k) [] i = refl
get_elem?-drop (suc k) (x ∷ xs) i =
    let e : suc k + i ≡ suc (k + i) = omega arith in rw e (get_elem?-drop k xs i)

nil_of_length : (xs : Bytes) → length xs ≡ 0 → xs ≡ []
nil_of_length [] e = refl
nil_of_length (x ∷ xs) e = absurd (omega (arith, e))

module _ (zlib : ℕ → Bytes → ℕ → ℕ) (bs : ℕ) (positive : 0 < bs) where
  verify_blocks-holds :
      (buf : Bytes) (sums : List ℕ)
      → ((i : ℕ) → i < length sums → get_elem? sums i ≡ some (sum_at zlib bs buf i))
      → verify_blocks zlib bs buf sums ≡ true
  unfolding verify_blocks
  verify_blocks-holds buf [] h = refl
  verify_blocks-holds buf (sum ∷ sums) h =
      let head : crc32 zlib (take bs buf) ≡ sum =
        ap (λ (n : ℕ). crc32 zlib (take bs (drop n buf))) (sym (zero-mul bs))
        ∙ sym (some-injective sum (sum_at zlib bs buf 0) (h 0 (omega arith))) in
      let rest =
        verify_blocks-holds (drop bs buf) sums
          (λ i l. h (suc i) (omega (arith, l)) ∙ ap some (sum_at-suc zlib bs buf i)) in
      let same : (crc32 zlib (take bs buf) == sum) ≡ true = ground (arith, head) in
      rw (same, rest) refl

  verify_blocks-fails :
      (buf : Bytes) (sums : List ℕ) (i sum : ℕ)
      → get_elem? sums i ≡ some sum
      → sum_at zlib bs buf i ≢ sum
      → verify_blocks zlib bs buf sums ≡ false
  unfolding verify_blocks
  verify_blocks-fails buf [] i sum g n = absurd (none-ne-some sum g)
  verify_blocks-fails buf (x ∷ sums) zero sum g n =
      let e : x ≡ sum = some-injective x sum g in
      let other : (crc32 zlib (take bs buf) == x) ≡ false =
        elim (Bool-cases (crc32 zlib (take bs buf) == x)) [
          | inl q ↦
              let agrees : crc32 zlib (take bs buf) ≡ x = ground (arith, q) in
              absurd
                (n (ap (λ (k : ℕ). crc32 zlib (take bs (drop k buf))) (zero-mul bs) ∙ (agrees ∙ e)))
          | inr q ↦ q
        ] in
      rw other refl
  verify_blocks-fails buf (x ∷ sums) (suc i) sum g n =
      let rest =
        verify_blocks-fails (drop bs buf) sums i sum g (λ e. n (sum_at-suc zlib bs buf i ∙ e)) in
      elim (Bool-cases (crc32 zlib (take bs buf) == x)) [
        | inl e ↦ rw (e, rest) refl
        | inr e ↦ rw e refl
      ]

  module _ (entry : ChunkEntry) (offset len : ℕ) (sized : length entry.chunk ≡ entry.length)
      (counted : length entry.checksums ≡ blocks_of bs entry.length)
      (short : IsShort bs entry.length) (starts : offset < entry.length)
      (some_bytes : 0 < len) where
    abbrev end : ℕ
    end = min (offset + len) entry.length

    abbrev first : ℕ
    first = offset / bs

    abbrev last : ℕ
    last = (end - 1) / bs

    abbrev stop : ℕ
    stop = min ((last + 1) * bs) entry.length

    abbrev buf : Bytes
    buf = take (stop - first * bs) (drop (first * bs) entry.chunk)

    low : first * bs ≤ offset
    low = div-mul-le_self offset bs

    high : end ≤ stop
    high = omega (arith, lt-div-mul-add {a = end - 1} positive, suc_mul last bs)

    known : last < length entry.checksums
    known = omega (
      arith,
      counted,
      lt-blocks_of bs entry.length positive (omega (arith, short)) last
          (omega (arith, div-mul-le_self (end - 1) bs, starts, some_bytes)),
    )

    size : length buf ≡ stop - first * bs
    size = omega (
      arith,
      length-take (stop - first * bs) (drop (first * bs) entry.chunk),
      length-drop (first * bs) entry.chunk,
      sized,
    )

    pread_blocks : pread_all true (stop - first * bs) (first * bs) entry.chunk ≡ some buf
    unfolding pread_all
    pread_blocks =
        let some_blocks : (stop - first * bs == 0) ≡ false =
          ground (arith, low, high, starts, some_bytes) in
        let there : leb (first * bs + (stop - first * bs)) (length entry.chunk) ≡ true =
          ground (arith, sized, low, high, starts, some_bytes) in
        rw (some_blocks, there) refl

    -- Block `i` of what is read is block `first + i` of the file, the last one as far as it goes.
    block-buf :
        (i : ℕ)
        → first + i ≤ last
        → take bs (drop (i * bs) buf) ≡ take bs (drop ((first + i) * bs) entry.chunk)
    block-buf i h =
        let rest = drop ((first + i) * bs) entry.chunk in
        let from : first * bs + i * bs ≡ (first + i) * bs = sym (add-mul first i bs) in
        let cut : drop (i * bs) buf ≡ take (stop - first * bs - i * bs) rest =
          drop-take (i * bs) (stop - first * bs) (drop (first * bs) entry.chunk)
          ∙ ap (take (stop - first * bs - i * bs)) (
              drop-drop (i * bs) (first * bs) entry.chunk
              ∙ ap (λ (n : ℕ). drop n entry.chunk) from) in
        let below : (first + i) * bs ≤ last * bs = mul-le-mul_right bs h in
        let whole : take bs (take (stop - first * bs - i * bs) rest) ≡ take bs rest =
          elim (dec_lt (stop - first * bs - i * bs) bs) [
            | yes p ↦ ap (take bs) (
                take-all (stop - first * bs - i * bs) rest (
                  omega (
                    arith,
                    p,
                    length-drop ((first + i) * bs) entry.chunk,
                    sized,
                    from,
                    below,
                    suc_mul last bs,
                  )))
            | no p ↦ take-take bs (stop - first * bs - i * bs) rest (omega (arith, p))
          ] in
        ap (take bs) cut ∙ whole

    verifies :
        ((b : ℕ)
          → b < length entry.checksums
          → get_elem? entry.checksums b ≡ some (sum_at zlib bs entry.chunk b))
        → verify_blocks zlib bs buf (take (last + 1 - first) (drop first entry.checksums)) ≡ true
    verifies sums =
        verify_blocks-holds buf (take (last + 1 - first) (drop first entry.checksums)) (λ i h.
          let l : i < last + 1 - first =
            omega (arith, h, length-take (last + 1 - first) (drop first entry.checksums)) in
          get_elem?-take (last + 1 - first) (drop first entry.checksums) i l
          ∙ get_elem?-drop first entry.checksums i
          ∙ sums (first + i) (omega (arith, l, known))
          ∙ ap (λ (block : Bytes). some (crc32 zlib block)) (sym (block-buf i (omega (arith, l)))))

    -- What lies between the offset and the end.
    asked :
        take (end - offset) (drop (offset - first * bs) buf) ≡ take len (drop offset entry.chunk)
    asked =
        let from : first * bs + (offset - first * bs) ≡ offset = omega (arith, low) in
        let rest = drop offset entry.chunk in
        let cut : drop (offset - first * bs) buf
            ≡ take (stop - first * bs - (offset - first * bs)) rest =
          drop-take (offset - first * bs) (stop - first * bs) (drop (first * bs) entry.chunk)
          ∙ ap (take (stop - first * bs - (offset - first * bs))) (
              drop-drop (offset - first * bs) (first * bs) entry.chunk
              ∙ ap (λ (n : ℕ). drop n entry.chunk) from) in
        ap (take (end - offset)) cut
        ∙ take-take (end - offset) (stop - first * bs - (offset - first * bs)) rest
            (omega (arith, low, high))
        ∙ elim (dec_lt entry.length (offset + len)) [
          | yes p ↦
              take-all (end - offset) rest (omega (arith, p, length-drop offset entry.chunk, sized))
              ∙ sym (take-all len rest (omega (arith, p, length-drop offset entry.chunk, sized)))
          | no p ↦ let e : end - offset ≡ len = omega (arith, p) in ap (λ (n : ℕ). take n rest) e
        ]

    read_entry-inside :
        ((b : ℕ)
          → b < length entry.checksums
          → get_elem? entry.checksums b ≡ some (sum_at zlib bs entry.chunk b))
        → offset + len < u64_mod
        → read_entry zlib bs faultless entry offset len
          ≡ some (ok, take len (drop offset entry.chunk), false)
    unfolding read_entry
    read_entry-inside sums h =
        let e0 : (offset + len) % u64_mod ≡ offset + len = omega (arith, h) in
        let e1 : ltb entry.length offset ≡ false = ground (arith, starts) in
        let e2 : (end == offset) ≡ false = ground (arith, starts, some_bytes) in
        let e3 : leb (length entry.checksums) last ≡ false = ground (arith, known) in
        let e4 : (end == 0) ≡ false = ground (arith, starts, some_bytes) in
        let e5 : ltb stop (first * bs) ≡ false = ground (arith, low, high, starts, some_bytes) in
        let e6 : ltb (length buf) (offset - first * bs) ≡ false =
          ground (arith, size, low, high, starts, some_bytes) in
        let e7 : ltb end offset ≡ false = ground (arith, starts, some_bytes) in
        rw (e0, e1, e2, e3, e4, e5, pread_blocks, read_entry, e0, verifies sums, e6, e7)
          (ap (λ (out : Bytes). some (ok, out, false)) asked)

    -- A checksum that does not agree with its block.
    pub read_entry-detects :
        (b sum : ℕ)
        → first ≤ b
        → b ≤ last
        → get_elem? entry.checksums b ≡ some sum
        → sum_at zlib bs entry.chunk b ≢ sum
        → offset + len < u64_mod
        → read_entry zlib bs faultless entry offset len ≡ some (checksum_mismatch, [], true)
    unfolding read_entry
    read_entry-detects b sum l k g n h =
        let e0 : (offset + len) % u64_mod ≡ offset + len = omega (arith, h) in
        let e1 : ltb entry.length offset ≡ false = ground (arith, starts) in
        let e2 : (end == offset) ≡ false = ground (arith, starts, some_bytes) in
        let e3 : leb (length entry.checksums) last ≡ false = ground (arith, known) in
        let e4 : (end == 0) ≡ false = ground (arith, starts, some_bytes) in
        let e5 : ltb stop (first * bs) ≡ false = ground (arith, low, high, starts, some_bytes) in
        let same : first + (b - first) ≡ b = omega (arith, l) in
        let stored =
          get_elem?-take (last + 1 - first) (drop first entry.checksums) (b - first)
            (omega (arith, l, k))
          ∙ get_elem?-drop first entry.checksums (b - first)
          ∙ ap (get_elem? entry.checksums) same
          ∙ g in
        let block =
          ap (crc32 zlib) (block-buf (b - first) (omega (arith, l, k)))
          ∙ ap (sum_at zlib bs entry.chunk) same in
        let differs =
          verify_blocks-fails buf (take (last + 1 - first) (drop first entry.checksums)) (b - first)
            sum stored (λ e. n (sym block ∙ e)) in
        rw (e0, e1, e2, e3, e4, e5, pread_blocks, read_entry, e0, differs) refl

  -- Every read in range: also of no bytes, and at the end of the chunk.
  pub read_entry-all :
      (entry : ChunkEntry) (offset len : ℕ)
      → IsChecked zlib bs entry
      → IsShort bs entry.length
      → offset ≤ entry.length
      → offset + len < u64_mod
      → read_entry zlib bs faultless entry offset len
        ≡ some (ok, take len (drop offset entry.chunk), false)
  unfolding read_entry
  read_entry-all entry offset len v short starts h =
      elim (Bool-cases (min (offset + len) entry.length == offset)) [
        | inr e ↦
            read_entry-inside entry offset len v.size v.count short (ground (arith, e, starts))
              (ground (arith, e, starts)) v.sums h
        | inl e ↦
            let e0 : (offset + len) % u64_mod ≡ offset + len = omega (arith, h) in
            let e1 : ltb entry.length offset ≡ false = ground (arith, starts) in
            let nothing : take len (drop offset entry.chunk) ≡ [] =
              nil_of_length (take len (drop offset entry.chunk)) (
                ground (
                  arith,
                  e,
                  length-take len (drop offset entry.chunk),
                  length-drop offset entry.chunk,
                  v.size,
                )) in
            rw (e0, e1, e) (ap (λ (out : Bytes). some (ok, out, false)) (sym nothing))
      ]
