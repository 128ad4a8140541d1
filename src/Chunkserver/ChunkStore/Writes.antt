-- ===== src/Chunkserver/ChunkStore/Writes.antt =====
-- `Write` of src/chunkserver/chunk_store.cc on one chunk: it succeeds where nothing fails, and the
-- checksums agree with the bytes afterwards.
use gfs_impl_cpp.Base.{
  leb, length, ℕ, ◌+◌, ◌-◌, ◌*◌, ◌/◌, ◌%◌, ◌≤◌, ◌<◌, max, min, ◌≡◌, refl, sym, ap, ◌∙◌, false, some,
  [], ◌∷◌, arith,
}
use gfs_impl_cpp.Base.Bytes.{Bytes, bytes_key}
use gfs_impl_cpp.Base.Map.{nat_key}
use gfs_impl_cpp.Common.Framing.{crc32}
use gfs_impl_cpp.Common.ResultCode.{ok}
use gfs_impl_cpp.Chunkserver.ChunkStore.Files.{off_limit, is_nil, write_at, pwrite_all}
use gfs_impl_cpp.Chunkserver.ChunkStore.Entries.{
  faultless, ChunkEntry, u64_mod, blocks_of, write_entry,
}
use gfs_impl_cpp.Chunkserver.ChunkStore.Blocks.{suc_mul, blocks_of-exact, IsChecked}
use gfs_impl_cpp.Chunkserver.ChunkStore.Checked.{
  IsStale, recomputed, recompute_blocks-all, recomputed-IsChecked, length-write_at, block-write_at,
}
use native.Mathlib.Nat.{div-mul-le_self, le-div_iff_mul-le, add-div_right, mul-le-mul_right}

-- A chunk of this length stays clear of the end of the integers.
abbrev pub IsShort : ℕ → ℕ → Type 0
IsShort bs len = 8 + 4 * (len + bs) < off_limit

module _ (bs : ℕ) (positive : 0 < bs) where
  blocks_of_mono : (a b : ℕ) → a ≤ b → b + bs < off_limit → blocks_of bs a ≤ blocks_of bs b
  blocks_of_mono a b h small =
      let ea = blocks_of-exact bs a positive (omega (arith, small, h)) in
      let eb = blocks_of-exact bs b positive small in
      let le : (a + bs - 1) / bs ≤ (b + bs - 1) / bs =
        (le-div_iff_mul-le positive).1 (omega (arith, h, div-mul-le_self (a + bs - 1) bs)) in
      omega (arith, ea, eb, le)

  div-le-blocks_of : (a b : ℕ) → a ≤ b → b + bs < off_limit → a / bs ≤ blocks_of bs b
  div-le-blocks_of a b h small =
      let eb = blocks_of-exact bs b positive small in
      let le : a / bs ≤ (b + bs - 1) / bs =
        (le-div_iff_mul-le positive).1 (omega (arith, h, positive, div-mul-le_self a bs)) in
      omega (arith, eb, le)

  -- The last block that the callers pass is the last one there is.
  pub blocks_of-last :
      (len : ℕ) → 0 < len → len + bs < off_limit → blocks_of bs len ≤ (len - 1) / bs + 1
  blocks_of-last len h small =
      let e : len + bs - 1 ≡ len - 1 + bs = omega (arith, h) in
      let f =
        blocks_of-exact bs len positive small
        ∙ ap (λ (n : ℕ). n / bs) e
        ∙ add-div_right (len - 1) positive in
      omega (arith, f)

module _ (zlib : ℕ → Bytes → ℕ → ℕ) (bs : ℕ) (positive : 0 < bs) where
  module _ (entry : ChunkEntry) (offset : ℕ) (payload : Bytes) (v : IsChecked zlib bs entry)
      (some_bytes : is_nil payload ≡ false)
      (short : IsShort bs (max entry.length (offset + length payload))) where
    abbrev pub wrote : ChunkEntry
    wrote = record entry {
      length = max entry.length (offset + length payload);
      chunk = write_at payload offset entry.chunk;
    }

    abbrev pub first : ℕ
    first = min offset entry.length / bs

    not_empty : 0 < length payload
    not_empty =
        elim payload as (λ (p : Bytes). is_nil p ≡ false → 0 < length p) [
          | [] ↦ λ e. absurd (ground (arith, e))
          | c ∷ rest ↦ λ e. omega arith
        ]
          some_bytes

    before_first : (b : ℕ) → b < first → b * bs + bs ≤ min offset entry.length
    before_first b h =
        let step : (b + 1) * bs ≤ first * bs = mul-le-mul_right bs (omega (arith, h)) in
        omega (arith, step, suc_mul b bs, div-mul-le_self (min offset entry.length) bs)

    wrote-IsStale : IsStale zlib bs positive wrote first
    wrote-IsStale = record {
      size =
          length-write_at payload offset entry.chunk some_bytes
          ∙ ap (λ (n : ℕ). max n (offset + length payload)) v.size;
      small = short;
      starts = omega (arith, div-mul-le_self (min offset entry.length) bs, not_empty);
      known = omega (
        arith,
        v.count,
        div-le-blocks_of bs positive (min offset entry.length) entry.length (omega arith)
            (omega (arith, short)),
      );
      few = omega (
        arith,
        v.count,
        blocks_of_mono bs positive entry.length (max entry.length (offset + length payload))
            (omega arith) (omega (arith, short)),
      );
      sums = λ b h.
          let l = before_first b h in
          v.sums b (
            omega (
              arith,
              h,
              v.count,
              div-le-blocks_of bs positive (min offset entry.length) entry.length (omega arith)
                  (omega (arith, short)),
            ))
          ∙ ap (λ (block : Bytes). some (crc32 zlib block))
              (sym (
                block-write_at (b * bs) bs payload offset entry.chunk (omega (arith, l))
                  (omega (arith, l, v.size))));
    }

    pub write_entry-all :
        write_entry zlib bs faultless entry offset payload
        ≡ (recomputed zlib bs positive wrote first, ok)
    unfolding write_entry pwrite_all
    write_entry-all =
        let inside : leb off_limit offset ≡ false = ground (arith, short) in
        let wraps : (offset + length payload) % u64_mod ≡ offset + length payload =
          omega (arith, short) in
        let last = (max entry.length (offset + length payload) - 1) / bs in
        let result = recompute_blocks-all zlib bs positive wrote first last wrote-IsStale (
          blocks_of-last bs positive (max entry.length (offset + length payload))
            (omega (arith, not_empty)) (omega (arith, short))) in
        rw (wraps, inside, result) refl

    pub wrote-IsChecked : IsChecked zlib bs (recomputed zlib bs positive wrote first)
    wrote-IsChecked =
        recomputed-IsChecked zlib bs positive wrote first
          ((max entry.length (offset + length payload) - 1) / bs) wrote-IsStale
          (blocks_of-last bs positive (max entry.length (offset + length payload))
            (omega (arith, not_empty)) (omega (arith, short)))

    pub write_entry-IsChecked :
        let (entry', code) = write_entry zlib bs faultless entry offset payload in
        (code ≡ ok)
        × IsChecked zlib bs entry'
        × (entry'.chunk ≡ write_at payload offset entry.chunk)
        × (entry'.length ≡ max entry.length (offset + length payload))
    write_entry-IsChecked = rw write_entry-all (refl, wrote-IsChecked, refl, refl)
