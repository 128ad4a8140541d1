-- ===== src/Tests/Texts.antt =====
-- Paths, hexadecimal names and framed records.
use gfs_impl_cpp.Base.{
  length, ℕ, ◌+◌, ◌*◌, ◌≤◌, ◌≡◌, refl, ◌≢◌, ◌↔◌, ◌⊎◌, true, false, some, List, [], ◌∷◌, ◌++◌, take,
  arith,
}
use gfs_impl_cpp.Base.Bytes.{Bytes, bytes, bytes_key}
use gfs_impl_cpp.Base.Int.{negsuc}
use gfs_impl_cpp.Base.Map.{nat_key}
use gfs_impl_cpp.Common.Paths.{
  root, is_valid_path, parent_of, base_name, ancestors_of, child_prefix, hidden_name_for,
  parse_hidden_name,
}
use gfs_impl_cpp.Common.Paths.Validity.{Spelled, IsName, is_valid_path_iff}
use gfs_impl_cpp.Common.Paths.Hidden.{child_prefix-parent_of, parse_hidden_name-hidden_name_for}
use gfs_impl_cpp.Common.Framing.{
  put_u32, get_u32, crc32_from, crc32, encode_record, decode_from, decode_records,
}
use gfs_impl_cpp.Common.Framing.Replay.{encode_all, decode_records-encode_all, decode_records-torn}
use gfs_impl_cpp.Common.Framing.Truncation.{decode_records-take_consumed}
use gfs_impl_cpp.Base.{none}
use gfs_impl_cpp.Common.Ids.{
  hex_digit, hex_from, handle_to_hex, hex_value, hex_read, hex_to_handle,
  hex_to_handle-handle_to_hex,
}
use gfs_impl_cpp.Tests.{strings}

abbrev log_path : Bytes
log_path = bytes "/a/b"

abbrev hidden_log : Bytes
hidden_log = bytes "/a/.deleted.-17.b"

log_path-valid : is_valid_path log_path ≡ true
unfolding strings
log_path-valid = refl

not_valid :
    (is_valid_path (bytes "/a//b") ≡ false)
    × (is_valid_path (bytes "/a/..") ≡ false)
    × (is_valid_path (bytes "/a/") ≡ false)
    × (is_valid_path (bytes "a") ≡ false)
unfolding strings
not_valid = (refl, refl, refl, refl)

hidden_log-printed : hidden_name_for log_path (negsuc 16) ≡ hidden_log
unfolding strings
hidden_log-printed = refl

log_path-ancestors : ancestors_of (bytes "/a/b/c") ≡ root ∷ bytes "/a" ∷ log_path ∷ []
unfolding strings
log_path-ancestors = refl

log_path-ne-root : log_path ≢ root
log_path-ne-root = cc

is_valid_path_iff_example : (is_valid_path log_path ≡ true) ↔ ((log_path ≡ root) ⊎ Spelled log_path)
is_valid_path_iff_example = is_valid_path_iff log_path

child_prefix-parent_of_example :
    (child_prefix (parent_of log_path) ++ base_name log_path ≡ log_path)
    × IsName (base_name log_path)
child_prefix-parent_of_example = child_prefix-parent_of log_path log_path-valid log_path-ne-root

parse_hidden_name-hidden_name_for_example :
    parse_hidden_name (hidden_name_for log_path (negsuc 16)) ≡ some (negsuc 16, log_path)
parse_hidden_name-hidden_name_for_example =
    parse_hidden_name-hidden_name_for log_path (negsuc 16) log_path-valid log_path-ne-root
      (omega arith)

-- A stand-in for zlib's checksum that tells the payloads below apart.
abbrev checksum : ℕ → Bytes → ℕ → ℕ
checksum seed [] n = seed + n
checksum seed (b ∷ bs) n = checksum (seed * 31 + b) bs n

framing : Unit {0}
unfolding strings put_u32 get_u32 crc32_from crc32 encode_record decode_from decode_records
framing = tt

abbrev two_payloads : List Bytes
two_payloads = bytes "ab" ∷ [] ∷ []

two_payloads-size : length (encode_all checksum two_payloads) ≡ 18
unfolding framing
two_payloads-size = refl

third-size : length (encode_record checksum (bytes "xyz")) ≡ 11
unfolding framing
third-size = refl

-- A flipped payload byte ends the log where the record starts.
damaged :
    (decode_records checksum
      (encode_record checksum [] ++ 1 ∷ 0 ∷ 0 ∷ 0 ∷ 9 ∷ 0 ∷ 0 ∷ 0 ∷ 7 ∷ [])).consumed
    ≡ 8
unfolding framing
damaged = refl

decode_records-encode_all_example :
    decode_records checksum (encode_all checksum two_payloads) ≡ record {
      payloads = two_payloads;
      consumed = length (encode_all checksum two_payloads);
      torn_tail = false;
    }
decode_records-encode_all_example =
    decode_records-encode_all checksum two_payloads (omega arith, (omega arith, tt))

decode_records-torn_example :
    decode_records checksum
      (encode_all checksum two_payloads ++ take 9 (encode_record checksum (bytes "xyz")))
    ≡ record {
      payloads = two_payloads;
      consumed = length (encode_all checksum two_payloads);
      torn_tail = true;
    }
decode_records-torn_example =
    decode_records-torn checksum two_payloads (bytes "xyz") 9 (omega arith, (omega arith, tt))
      (omega arith) (omega arith) (omega (arith, third-size))

decode_records-take_consumed_example :
    let d = decode_records checksum (encode_record checksum [] ++ 1 ∷ 0 ∷ []) in
    (d.consumed ≤ length (encode_record checksum [] ++ 1 ∷ 0 ∷ []))
    × (decode_records checksum (take d.consumed (encode_record checksum [] ++ 1 ∷ 0 ∷ []))
        ≡ record d { torn_tail = false })
decode_records-take_consumed_example =
    decode_records-take_consumed checksum (encode_record checksum [] ++ 1 ∷ 0 ∷ [])

hex_run :
    (handle_to_hex 48879 ≡ bytes "000000000000beef")
    × (hex_to_handle (bytes "000000000000BEEF") ≡ some 48879)
    × (hex_to_handle (bytes "0x0000000000beef") ≡ none)
unfolding hex_digit hex_from handle_to_hex hex_value hex_read hex_to_handle
hex_run = (refl, refl, refl)

hex_to_handle-handle_to_hex_example :
    (length (handle_to_hex 48879) ≡ 16) × (hex_to_handle (handle_to_hex 48879) ≡ some 48879)
hex_to_handle-handle_to_hex_example = hex_to_handle-handle_to_hex 48879 (omega arith)
