-- ===== src/Common/Framing/Truncation.antt =====
-- The part of a damaged log that `DecodeRecords` accepts, to which recovery truncates the segment.
use gfs_impl_cpp.Common.Framing.{frame_header_size, get_u32, crc32, decode_from, decode_records}
use gfs_impl_cpp.Base.{
  ltb, ◌==◌, Bool-cases, length, take, drop, length-take, length-drop, drop-take, take-take, ℕ,
  zero, suc, ◌+◌, ◌-◌, ◌≤◌, ◌<◌, ◌≡◌, refl, ◌∙◌, inl, inr, Bool, true, false, not, ◌&&◌, [], ◌∷◌,
  arith,
}
use gfs_impl_cpp.Base.Bytes.{Bytes, bytes_key}
use gfs_impl_cpp.Base.Map.{nat_key}
use gfs_impl_cpp.Common.Framing.Replay.{get_u32-take, decode_from-fuel, prepend}

module _ (zlib : ℕ → Bytes → ℕ → ℕ) where
  abbrev length_field : Bytes → ℕ
  length_field rest = get_u32 rest

  abbrev body_of : Bytes → Bytes
  body_of rest = drop frame_header_size rest

  -- A whole frame with the right checksum stands at the front.
  accepted : Bytes → Bool
  accepted rest =
      not (ltb (length rest) frame_header_size)
      && not (ltb (length rest) (frame_header_size + length_field rest))
      && crc32 zlib (take (length_field rest) (body_of rest)) == get_u32 (drop 4 rest)

  decode_from-stops :
      (fuel offset : ℕ) (rest : Bytes)
      → accepted rest ≡ false
      → (torn : Bool) × (decode_from zlib (suc fuel) offset rest
          ≡ record { payloads = []; consumed = offset; torn_tail = torn })
        × (length rest ≡ 0 → torn ≡ false)
  unfolding decode_from accepted
  decode_from-stops fuel offset rest h =
      ((decode_from zlib (suc fuel) offset rest).torn_tail, ground arith, λ e. ground arith)

  decode_from-goes :
      (fuel offset : ℕ) (rest : Bytes)
      → accepted rest ≡ true
      → decode_from zlib (suc fuel) offset rest
        ≡ prepend zlib (take (length_field rest) (body_of rest) ∷ []) (
            decode_from zlib fuel
              (offset + frame_header_size + length_field rest)
              (drop (length_field rest) (body_of rest)))
  unfolding decode_from accepted
  decode_from-goes fuel offset rest h = ground arith

  accepted-length :
      (rest : Bytes) → accepted rest ≡ true → frame_header_size + length_field rest ≤ length rest
  unfolding accepted
  accepted-length rest h = ground arith

  module _ (n : ℕ) (rest : Bytes) (whole : frame_header_size + length_field rest ≤ n) where
    length_field-take : length_field (take n rest) ≡ length_field rest
    length_field-take = get_u32-take n rest (omega arith)

    body_of-take :
        take (length_field rest) (body_of (take n rest)) ≡ take (length_field rest) (body_of rest)
    body_of-take =
        rw (drop-take frame_header_size n rest)
          (take-take (length_field rest) (n - frame_header_size) (body_of rest) (omega arith))

    rest-take :
        drop (length_field rest) (body_of (take n rest))
        ≡ take (n - frame_header_size - length_field rest) (drop (length_field rest) (body_of rest))
    rest-take =
        rw (drop-take frame_header_size n rest)
          (drop-take (length_field rest) (n - frame_header_size) (body_of rest))

    checksum-take : get_u32 (drop 4 (take n rest)) ≡ get_u32 (drop 4 rest)
    checksum-take = rw (drop-take 4 n rest) (get_u32-take (n - 4) (drop 4 rest) (omega arith))

    accepted-take : accepted rest ≡ true → accepted (take n rest) ≡ true
    unfolding accepted
    accepted-take h =
        ground (arith, length_field-take, body_of-take, checksum-take, length-take n rest)

  abbrev Accepts : ℕ → ℕ → Bytes → Type 0
  Accepts fuel offset rest =
      let d = decode_from zlib fuel offset rest in
      (offset ≤ d.consumed)
      × (d.consumed ≤ offset + length rest)
      × (decode_from zlib fuel offset (take (d.consumed - offset) rest)
          ≡ record d { torn_tail = false })

  decode_from-take_go :
      (fuel offset : ℕ) (rest : Bytes)
      → accepted rest ≡ true
      → Accepts fuel
          (offset + frame_header_size + length_field rest)
          (drop (length_field rest) (body_of rest))
      → Accepts (suc fuel) offset rest
  decode_from-take_go fuel offset rest go ih =
      let len = length_field rest in
      let d = decode_from zlib fuel (offset + frame_header_size + len) (drop len (body_of rest)) in
      let n = d.consumed - offset in
      let whole : frame_header_size + len ≤ n = omega (arith, ih.0) in
      let left : n - frame_header_size - len ≡ d.consumed - (offset + frame_header_size + len) =
        omega arith in
      rw (decode_from-goes fuel offset rest go) (
        omega (arith, ih.0),
        omega (
          arith,
          ih.1,
          accepted-length rest go,
          length-drop len (body_of rest),
          length-drop frame_header_size rest,
        ),
        decode_from-goes fuel offset (take n rest) (accepted-take n rest whole go)
            ∙ rw
                (
                  length_field-take n rest whole,
                  body_of-take n rest whole,
                  rest-take n rest whole,
                  left,
                  ih.2,
                )
                refl,
      )

  decode_from-take :
      (fuel offset : ℕ) (rest : Bytes) → length rest < fuel → Accepts fuel offset rest
  decode_from-take zero offset rest h = absurd (omega arith)
  decode_from-take (suc fuel) offset rest h = elim (Bool-cases (accepted rest)) [
    | inl go ↦ decode_from-take_go fuel offset rest go (
        decode_from-take fuel _ _ (
          omega (
            arith,
            accepted-length rest go,
            length-drop (length_field rest) (body_of rest),
            length-drop frame_header_size rest,
          )))
    | inr stop ↦
        let (torn, e, _) = decode_from-stops fuel offset rest stop in
        let z : offset - offset ≡ 0 = omega arith in
        rw (e, z) (omega arith, omega arith, (unfold decode_from in refl))
  ]

  -- Recovery truncates a segment to `consumed` bytes: of any bytes, damaged or not, that part is no
  -- longer than the input, and it decodes to the same records, all consumed, with no torn tail.
  pub decode_records-take_consumed :
      (s : Bytes)
      → let d = decode_records zlib s in
        (d.consumed ≤ length s)
        × (decode_records zlib (take d.consumed s) ≡ record d { torn_tail = false })
  unfolding decode_records
  decode_records-take_consumed s =
      let (low, high, e) = decode_from-take (length s + 1) 0 s (omega arith) in
      let d = decode_from zlib (length s + 1) 0 s in
      let z : d.consumed - 0 ≡ d.consumed = omega arith in
      (
        omega (arith, high),
        decode_from-fuel zlib (length (take d.consumed s) + 1) (length s + 1) 0 (take d.consumed s)
              (omega arith) (omega (arith, length-take d.consumed s))
            ∙ rw z at e,
      )
