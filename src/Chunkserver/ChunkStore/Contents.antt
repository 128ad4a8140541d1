-- ===== src/Chunkserver/ChunkStore/Contents.antt =====
-- The store of src/chunkserver/chunk_store.cc as its callers see it: a file of bytes for each handle.
-- The operating system does not fail here.
use gfs_impl_cpp.Base.{
  ltb, leb, ◌==◌, if◌then◌else◌, Bool-cases, Option-cases, length, take, drop, ℕ, ◌+◌, ◌%◌, ◌≤◌,
  ◌<◌, max, ◌≡◌, refl, sym, ap, ◌∙◌, ◌⊎◌, inl, inr, true, false, not, ◌||◌, Bool, Option, none,
  some, [], arith, dec_lt, ℕ_discrete,
}
use gfs_impl_cpp.Base.Bytes.{Bytes, bytes_key}
use gfs_impl_cpp.Base.Map.{nat_key, lookup, insert, contains, lookup-insert}
use gfs_impl_cpp.Common.ResultCode.{ok, out_of_range, failed}
use gfs_impl_cpp.Chunkserver.ChunkStore.{ChunkStore, read, write, create, open_new, version_of}
use gfs_impl_cpp.Chunkserver.ChunkStore.Files.{is_nil, pwrite_all, write_at}
use gfs_impl_cpp.Chunkserver.ChunkStore.Entries.{
  faultless, ChunkEntry, u64_mod, blocks_of, write_version, read_entry, write_entry,
}
use gfs_impl_cpp.Chunkserver.ChunkStore.Blocks.{IsChecked, blocks_of-lt}
use gfs_impl_cpp.Chunkserver.ChunkStore.Writes.{IsShort, write_entry-IsChecked}
use gfs_impl_cpp.Chunkserver.ChunkStore.Reads.{read_entry-all}
use mathlib.Core.Option.{some-injective}
use mathlib.Core.Path.{subst}

abbrev pub chunk_of : Option ChunkEntry → Option Bytes
chunk_of none = none
chunk_of (some entry) = some entry.chunk

read_entry-outside :
    (zlib : ℕ → Bytes → ℕ → ℕ) (bs : ℕ) (entry : ChunkEntry) (offset len : ℕ)
    → leb offset entry.length ≡ false
    → read_entry zlib bs faultless entry offset len ≡ some (out_of_range, [], false)
unfolding read_entry
read_entry-outside zlib bs entry offset len h =
    let e : ltb entry.length offset ≡ true = ground (arith, h) in rw e refl

-- The bytes of a chunk.
abbrev pub contents : ChunkStore → ℕ → Option Bytes
contents s handle = chunk_of (lookup handle s.entries)

-- No entry and no file in the directory has the handle.
abbrev pub is_unused : ChunkStore → ℕ → Bool
is_unused s handle =
    not (contains handle s.entries || contains handle s.chunk_files || contains handle s.meta_files)

-- The checksums of every chunk agree with its bytes, and no chunk is longer than the chunk size, which
-- stays clear of the end of the integers.
pub record IsSound (zlib : ℕ → Bytes → ℕ → ℕ) (s : ChunkStore) : Type 0 where
  pub positive : 0 < s.block_size
  pub short : IsShort s.block_size s.chunk_size
  pub checked :
      (handle : ℕ) (entry : ChunkEntry)
      → lookup handle s.entries ≡ some entry
      → IsChecked zlib s.block_size entry
  pub within :
      (handle : ℕ) (entry : ChunkEntry)
      → lookup handle s.entries ≡ some entry
      → entry.length ≤ s.chunk_size

module _ (zlib : ℕ → Bytes → ℕ → ℕ) (s : ChunkStore) (v : IsSound zlib s) where
  -- A read of a chunk that is there gives the bytes from the offset on, as many as asked for or as
  -- there are, and leaves the store as it is; past the end of the chunk it gives OUT_OF_RANGE. The
  -- offset and the length must not add up to 2^64 or more.
  pub read-contents :
      (handle offset len : ℕ) (file : Bytes)
      → contents s handle ≡ some file
      → offset + len < u64_mod
      → read zlib faultless s handle offset len ≡ (
        s,
        some (
            if leb offset (length file)
            then (ok, take len (drop offset file))
            else (out_of_range, [])),
      )
  unfolding read
  read-contents handle offset len file c h = elim (Option-cases (lookup handle s.entries)) [
    | inl e ↦ absurd (ground (arith, e, c))
    | inr (entry, e) ↦
        let same : file ≡ entry.chunk = some-injective file entry.chunk (sym c ∙ ap chunk_of e) in
        let checked = v.checked handle entry e in
        elim (Bool-cases (leb offset entry.length)) [
          | inl inside ↦
              let result =
                read_entry-all zlib s.block_size v.positive entry offset len checked
                  (omega (arith, v.short, v.within handle entry e)) (ground (arith, inside)) h in
              rw (e, read, result, read, same, checked.size, inside) refl
          | inr outside ↦
              rw
                (
                  e,
                  read,
                  read_entry-outside zlib s.block_size entry offset len outside,
                  read,
                  same,
                  checked.size,
                  outside,
                )
                refl
        ]
  ]

  module _ (handle : ℕ) (new : ChunkEntry) where
    stored : ChunkStore
    stored = record s { entries = insert handle new s.entries }

    found :
        (h : ℕ) (entry : ChunkEntry)
        → lookup h (insert handle new s.entries) ≡ some entry
        → (new ≡ entry) ⊎ (lookup h s.entries ≡ some entry)
    found h entry e = elim (ℕ_discrete h handle) [
      | yes p ↦
          inl
            (some-injective new entry (ground (arith, e, lookup-insert h handle new s.entries, p)))
      | no p ↦ inr (ground (arith, e, lookup-insert h handle new s.entries, p))
    ]

    stored-IsSound :
        IsChecked zlib s.block_size new → new.length ≤ s.chunk_size → IsSound zlib stored
    unfolding stored
    stored-IsSound checked within = record {
      positive = v.positive;
      short = v.short;
      checked = λ h entry e. elim (found h entry e) [
        | inl p ↦ subst (IsChecked zlib s.block_size) p checked
        | inr p ↦ v.checked h entry p
      ];
      within = λ h entry e. elim (found h entry e) [
        | inl p ↦ subst (λ (x : ChunkEntry). x.length ≤ s.chunk_size) p within
        | inr p ↦ v.within h entry p
      ];
    }

    contents-stored :
        (h : ℕ) → contents stored h ≡ (if h == handle then some new.chunk else contents s h)
    unfolding stored
    contents-stored h = ground (arith, lookup-insert h handle new s.entries)

  empty_entry-IsChecked :
      (version : ℕ) (meta : Bytes)
      → IsChecked zlib s.block_size
          (record { version = version; length = 0; checksums = []; chunk = []; meta = meta })
  empty_entry-IsChecked version meta = record {
    size = refl;
    count = elim (dec_lt 0 (blocks_of s.block_size 0)) [
      | yes p ↦
          absurd
            (omega (arith, blocks_of-lt s.block_size 0 v.positive (omega (arith, v.short)) 0 p))
      | no p ↦ omega (arith, p)
    ];
    sums = λ b l. absurd (omega (arith, l));
  }

  created :
      (handle version : ℕ)
      → is_unused s handle ≡ true
      → create faultless s handle version ≡ (
        stored handle (record {
          version = version;
          length = 0;
          checksums = [];
          chunk = [];
          meta = (write_version faultless version []).0;
        }),
        ok,
      )
  unfolding create open_new write_version pwrite_all stored
  created handle version unused =
      let e : contains handle s.entries ≡ false = ground (arith, unused) in
      let c : contains handle s.chunk_files ≡ false = ground (arith, unused) in
      let m : contains handle s.meta_files ≡ false = ground (arith, unused) in
      let new : ChunkEntry = record {
        version = version;
        length = 0;
        checksums = [];
        chunk = [];
        meta = (write_version faultless version []).0;
      } in
      let opened : open_new faultless s handle version ≡ (s, some new) = rw (c, m) refl in
      rw (e, opened, create, opened) refl

  not-created :
      (handle version : ℕ)
      → is_unused s handle ≡ false
      → create faultless s handle version ≡ (s, failed)
  unfolding create open_new
  not-created handle version used = ground arith

  version_of-stored :
      (handle : ℕ) (new : ChunkEntry) (h : ℕ)
      → version_of (stored handle new) h
        ≡ (if h == handle then some new.version else version_of s h)
  unfolding stored version_of
  version_of-stored handle new h = ground (arith, lookup-insert h handle new s.entries)

  -- If the operating system does not fail, Create succeeds where neither an entry nor a file in the
  -- directory has the handle: there is then an empty chunk with the version, and all others have their
  -- bytes and versions as before. Otherwise it fails and the store is as it was. The checksums of every
  -- chunk agree with its bytes in both cases.
  pub create-contents :
      (handle version : ℕ)
      → let (s', code) = create faultless s handle version in
        (code ≡ (if is_unused s handle then ok else failed))
        × IsSound zlib s'
        × (is_unused s handle ≡ false → s' ≡ s)
        × (is_unused s handle ≡ true
            → (h : ℕ)
            → (contents s' h ≡ (if h == handle then some [] else contents s h))
              × (version_of s' h ≡ (if h == handle then some version else version_of s h)))
  create-contents handle version = elim (Bool-cases (is_unused s handle)) [
    | inl unused ↦
        let meta = (write_version faultless version []).0 in
        let new : ChunkEntry = record {
          version = version;
          length = 0;
          checksums = [];
          chunk = [];
          meta = meta;
        } in
        rw (created handle version unused, unused)
          (
            refl,
            stored-IsSound handle new (empty_entry-IsChecked version meta) (omega arith),
            λ used. cc,
            λ _ h. (contents-stored handle new h, version_of-stored handle new h),
          )
    | inr used ↦ rw (not-created handle version used, used) (refl, v, λ _. refl, λ unused. cc)
  ]

  nothing-written :
      (handle offset : ℕ) (payload file : Bytes)
      → contents s handle ≡ some file
      → is_nil payload ≡ true
      → (h : ℕ)
      → contents s h ≡ (if h == handle then some (write_at payload offset file) else contents s h)
  unfolding write_at
  nothing-written handle offset payload file c e h = elim (ℕ_discrete h handle) [
    | yes p ↦ ground (arith, e, p, c)
    | no p ↦ ground (arith, p)
  ]

  -- A write that stays within the chunk size succeeds. Afterwards the chunk has the payload at its
  -- offset, with zeros in between where the offset is past the end, and all other chunks are as
  -- before; the checksums of every chunk agree with its bytes again.
  pub write-contents :
      (handle offset : ℕ) (payload file : Bytes)
      → contents s handle ≡ some file
      → offset + length payload ≤ s.chunk_size
      → let (s', code) = write zlib faultless s handle offset payload in
        (code ≡ ok)
        × IsSound zlib s'
        × ((h : ℕ)
            → contents s' h
              ≡ (if h == handle then some (write_at payload offset file) else contents s h))
  unfolding write
  write-contents handle offset payload file c h = elim (Option-cases (lookup handle s.entries)) [
    | inl e ↦ absurd (ground (arith, e, c))
    | inr (entry, e) ↦
        let same : entry.chunk ≡ file = some-injective entry.chunk file (sym (ap chunk_of e) ∙ c) in
        let fits : ltb s.chunk_size ((offset + length payload) % u64_mod) ≡ false =
          ground (arith, h, v.short) in
        elim (Bool-cases (is_nil payload)) [
          | inl none_given ↦
              rw (e, write, fits, none_given)
                (refl, v, nothing-written handle offset payload file c none_given)
          | inr some_given ↦
              let checked = v.checked handle entry e in
              let short : IsShort s.block_size (max entry.length (offset + length payload)) =
                omega (arith, v.short, h, v.within handle entry e) in
              let written =
                write_entry-IsChecked zlib s.block_size v.positive entry offset payload checked
                  some_given short in
              let new : ChunkEntry =
                (write_entry zlib s.block_size faultless entry offset payload).0 in
              let outcome : write zlib faultless s handle offset payload ≡ (stored handle new, ok) =
                unfold stored in rw (e, write, fits, some_given, written.0) refl in
              rw outcome (
                refl,
                stored-IsSound handle new written.1
                    (omega (arith, written.3, h, v.within handle entry e)),
                λ h'.
                    contents-stored handle new h'
                    ∙ ap (λ (bytes : Bytes). if h' == handle then some bytes else contents s h')
                        (written.2 ∙ ap (write_at payload offset) same),
              )
        ]
  ]
