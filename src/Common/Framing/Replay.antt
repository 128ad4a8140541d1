-- ===== src/Common/Framing/Replay.antt =====
-- What `DecodeRecords` returns on framed records, on a torn tail, and on the part that it accepted.
use mathlib.Core.List.{append_assoc, append-nil}
use gfs_impl_cpp.Common.Framing.{
  u32_mod, frame_header_size, put_u32, get_u32, DecodedRecords, crc32, encode_record, decode_from,
  decode_records,
}
use gfs_impl_cpp.Base.{
  length, take, drop, All, length-append, length-take, length-drop, take-append_self,
  drop-append_self, ℕ, zero, suc, ◌+◌, ◌%◌, ◌≤◌, ◌<◌, ◌≡◌, refl, ◌∙◌, true, false, List, [], ◌∷◌,
  ◌++◌, arith,
}
use gfs_impl_cpp.Base.Bytes.{Bytes, bytes_key}
use gfs_impl_cpp.Base.Map.{nat_key}

get_u32-put_u32 : (v : ℕ) (rest : Bytes) → v < u32_mod → get_u32 (put_u32 v ++ rest) ≡ v
unfolding get_u32 put_u32
get_u32-put_u32 v rest h = omega arith

length-put_u32 : (v : ℕ) → length (put_u32 v) ≡ 4
unfolding put_u32
length-put_u32 v = refl

pub get_u32-take : (k : ℕ) (s : Bytes) → 4 ≤ k → get_u32 (take k s) ≡ get_u32 s
unfolding get_u32
get_u32-take (suc (suc (suc (suc k)))) (a ∷ b ∷ c ∷ d ∷ s) h = refl
get_u32-take (suc (suc (suc (suc k)))) _ h = refl
get_u32-take k s h = absurd (omega arith)

module _ (zlib : ℕ → Bytes → ℕ → ℕ) where
  crc32-lt : (s : Bytes) → crc32 zlib s < u32_mod
  unfolding crc32
  crc32-lt s = omega arith

  -- The frames of the payloads, one behind the other.
  abbrev pub encode_all : List Bytes → Bytes
  encode_all [] = []
  encode_all (p ∷ ps) = encode_record zlib p ++ encode_all ps

  length-encode_record : (p : Bytes) → length (encode_record zlib p) ≡ frame_header_size + length p
  unfolding encode_record
  length-encode_record p = omega (arith, length-append (put_u32 (crc32 zlib p)) p)

  -- The fields that the decoder reads off the front of a frame.
  frame_fields :
      (p rest : Bytes)
      → length p < u32_mod
      → let s = encode_record zlib p ++ rest in
        (get_u32 s ≡ length p)
        × (get_u32 (drop 4 s) ≡ crc32 zlib p)
        × (drop frame_header_size s ≡ p ++ rest)
  unfolding encode_record
  frame_fields p rest h = (
    get_u32-put_u32 (length p % u32_mod) _ (omega arith) ∙ omega arith,
    get_u32-put_u32 (crc32 zlib p) (p ++ rest) (crc32-lt p),
    refl,
  )

  decode_from-encode_record :
      (fuel offset : ℕ) (p rest : Bytes)
      → length p < u32_mod
      → decode_from zlib (suc fuel) offset (encode_record zlib p ++ rest) ≡ (
          let more = decode_from zlib fuel (offset + frame_header_size + length p) rest in
          record more { payloads = p ∷ more.payloads })
  unfolding decode_from
  decode_from-encode_record fuel offset p rest h =
      let (l, c, b) = frame_fields p rest h in
      ground (
        arith,
        l,
        c,
        b,
        take-append_self p rest,
        drop-append_self p rest,
        length-append (encode_record zlib p) rest,
        length-encode_record p,
      )

  -- With more fuel than bytes, the fuel does not matter.
  pub decode_from-fuel :
      (f g offset : ℕ) (rest : Bytes)
      → length rest < f
      → length rest < g
      → decode_from zlib f offset rest ≡ decode_from zlib g offset rest
  unfolding decode_from
  decode_from-fuel zero g offset rest h k = absurd (omega arith)
  decode_from-fuel (suc f) zero offset rest h k = absurd (omega arith)
  decode_from-fuel (suc f) (suc g) offset rest h k =
      let len = get_u32 rest in
      let body = drop frame_header_size rest in
      ground (
        arith,
        decode_from-fuel f g (offset + frame_header_size + len) (drop len body),
        length-drop len body,
        length-drop frame_header_size rest,
      )

  abbrev pub prepend : List Bytes → DecodedRecords → DecodedRecords
  prepend ps d = record d { payloads = ps ++ d.payloads }

  abbrev pub AreFramable : List Bytes → Type 0
  AreFramable = All (λ p. length p < u32_mod)

  decode_from-encode_all :
      (ps : List Bytes) (fuel offset : ℕ) (rest : Bytes)
      → AreFramable ps
      → length (encode_all ps ++ rest) < fuel
      → decode_from zlib fuel offset (encode_all ps ++ rest)
        ≡ prepend ps (decode_from zlib (length rest + 1) (offset + length (encode_all ps)) rest)
  decode_from-encode_all [] fuel offset rest s h =
      let e : offset + 0 ≡ offset = omega arith in
      rw e (decode_from-fuel fuel (length rest + 1) offset rest h (omega arith))
  decode_from-encode_all (p ∷ ps) zero offset rest s h = absurd (omega arith)
  decode_from-encode_all (p ∷ ps) (suc fuel) offset rest s h =
      let total : length (encode_record zlib p ++ encode_all ps)
          ≡ frame_header_size + length p + length (encode_all ps) =
        omega
          (arith, length-append (encode_record zlib p) (encode_all ps), length-encode_record p) in
      let e : offset + frame_header_size + length p + length (encode_all ps)
          ≡ offset + length (encode_record zlib p ++ encode_all ps) =
        omega arith in
      rw
        (
          append_assoc (encode_record zlib p) (encode_all ps) rest,
          decode_from-encode_record fuel offset p (encode_all ps ++ rest) s.0,
          decode_from-encode_all ps fuel (offset + frame_header_size + length p) rest s.1 (
              omega (
                arith,
                length-append (encode_record zlib p ++ encode_all ps) rest,
                length-append (encode_all ps) rest,
              )),
          e,
        )
        refl

  -- Reading back what was written: the records of a log whose payloads are shorter than 2^32 bytes
  -- decode to those payloads, all bytes are consumed, and the tail is not torn.
  pub decode_records-encode_all :
      (ps : List Bytes)
      → AreFramable ps
      → decode_records zlib (encode_all ps)
        ≡ record { payloads = ps; consumed = length (encode_all ps); torn_tail = false }
  unfolding decode_records
  decode_records-encode_all ps s =
      let e =
        decode_from-encode_all ps (length (encode_all ps) + 1) 0 [] s
          (rw append-nil (omega arith)) in
      rw append-nil at e ∙ (unfold decode_from in rw append-nil (ground arith))

  decode_from-torn :
      (k : ℕ) (p : Bytes) (fuel offset : ℕ)
      → length p < u32_mod
      → 0 < k
      → k < frame_header_size + length p
      → decode_from zlib (suc fuel) offset (take k (encode_record zlib p))
        ≡ record { payloads = []; consumed = offset; torn_tail = true }
  unfolding decode_from
  decode_from-torn k p fuel offset s h h' =
      let (l, c, b) = frame_fields p [] s in
      ground (
        arith,
        rw append-nil at l,
        length-take k (encode_record zlib p),
        length-encode_record p,
        get_u32-take k (encode_record zlib p),
      )

  -- A crash in the middle of a write: behind whole records a proper, non-empty prefix of another
  -- one is left out. The whole records are read, `consumed` is where they end, the tail is torn.
  pub decode_records-torn :
      (ps : List Bytes) (p : Bytes) (k : ℕ)
      → AreFramable ps
      → length p < u32_mod
      → 0 < k
      → k < length (encode_record zlib p)
      → decode_records zlib (encode_all ps ++ take k (encode_record zlib p))
        ≡ record { payloads = ps; consumed = length (encode_all ps); torn_tail = true }
  unfolding decode_records
  decode_records-torn ps p k s small h h' =
      let part = take k (encode_record zlib p) in
      let one : length part + 1 ≡ suc (length part) = omega arith in
      decode_from-encode_all ps (length (encode_all ps ++ part) + 1) 0 part s (omega arith)
      ∙ rw
          (
            one,
            decode_from-torn k p (length part) (0 + length (encode_all ps)) small h
                (omega (arith, length-encode_record p)),
            append-nil,
          )
          (ground arith)
