-- ===== src/Pcbk/Preamble.antt =====
-- The front of a backup file: packages/pcbk-core/src/prelude.ts, and the two functions of header.ts
-- that write what it reads. A byte string is a list of numbers.
pub mod Words
pub mod RoundTrip
use private_communication.Common.{
  ℕ, ◌+◌, ◌*◌, ◌/◌, ◌%◌, ◌<◌, String, Bool, true, false, ◌&&◌, Option, none, some, List, [], ◌∷◌,
  ◌++◌, length, get_elem?, take, drop, slice, ltb, leb, ◌==◌, if◌then◌else◌, Result, ok, err, ◌>>=◌,
  ◌>>◌, guard, expect,
}
use private_communication.Pcbk.Constants.{
  magic, format_version, flags, header_auth_tag_bytes, clear_header_length_bytes,
}

-- `a === b` on byte strings.
abbrev pub bytes_eq : List ℕ → List ℕ → Bool
bytes_eq [] [] = true
bytes_eq (x ∷ xs) (y ∷ ys) = x == y && bytes_eq xs ys
bytes_eq _ _ = false

-- The fixed part: magic, version, flags and the length of the clear header.
abbrev pub prelude_fixed_length : ℕ
prelude_fixed_length = 10

-- `DataView.getUint32(0, true)` on the bytes at hand.
abbrev pub word_of : List ℕ → Option ℕ
word_of (a ∷ b ∷ c ∷ d ∷ _) = some (a + 256 * b + 65536 * c + 16777216 * d)
word_of _ = none

-- readUint32LittleEndian, at an offset that is not negative. Behind the guard there are four bytes.
unfoldable pub read_uint32_little_endian : List ℕ → ℕ → Result String ℕ
read_uint32_little_endian bytes offset = do
  guard (leb (offset + clear_header_length_bytes) (length bytes)) "Not enough bytes to read uint32"
  expect (word_of (drop offset bytes)) "Not enough bytes to read uint32"

-- encodeUint32LittleEndian, at a number that is not negative.
unfoldable pub encode_uint32_little_endian : ℕ → Result String (List ℕ)
encode_uint32_little_endian value = do
  guard (leb value 0xffffffff) "value must be a uint32"
  ok (value % 256 ∷ value / 256 % 256 ∷ value / 65536 % 256 ∷ value / 16777216 % 256 ∷ [])

-- buildHeaderAuthenticationBytes. A store into a Uint8Array keeps the low eight bits.
unfoldable pub build_header_authentication_bytes : List ℕ → ℕ → ℕ → List ℕ → Result String (List ℕ)
build_header_authentication_bytes magic_bytes version flag_bits clear_header = do
  len ← encode_uint32_little_endian (length clear_header)
  ok (magic_bytes ++ (version % 256 ∷ flag_bits % 256 ∷ (len ++ clear_header)))

pub record ParsedPrelude : Type 0 where
  pub magic_bytes : List ℕ
  pub version : ℕ
  pub flag_bits : ℕ
  pub clear_header_length : ℕ
  pub clear_header_bytes : List ℕ
  pub header_auth_tag : List ℕ
  pub prelude_length : ℕ

-- parsePrelude. Decoded as UTF-8, four bytes read "PCBK" only if they are the codes of the letters.
unfoldable pub parse_prelude : List ℕ → Result String ParsedPrelude
parse_prelude bytes = do
  guard (leb (prelude_fixed_length + header_auth_tag_bytes) (length bytes))
      "Backup is too short to contain a valid PCBK prelude"
  let magic_found = slice bytes 0 4
  guard (bytes_eq magic_found magic) "Unsupported PCBK magic"
  version ← expect (get_elem? bytes 4) "Backup is truncated before formatVersion"
  guard (version == format_version) "Unsupported PCBK formatVersion"
  flag_bits ← expect (get_elem? bytes 5) "Backup is truncated before flags"
  guard (flag_bits == flags) "Unsupported PCBK flags"
  len ← read_uint32_little_endian bytes 6
  guard (ltb 0 len) "clearHeaderLength must be a positive uint32"
  let clear_header_end = prelude_fixed_length + len
  let header_auth_end = clear_header_end + header_auth_tag_bytes
  guard (leb header_auth_end (length bytes)) "Backup is truncated before headerAuthTag"
  ok (record {
    magic_bytes = magic_found;
    version = version;
    flag_bits = flag_bits;
    clear_header_length = len;
    clear_header_bytes = slice bytes prelude_fixed_length clear_header_end;
    header_auth_tag = slice bytes clear_header_end header_auth_end;
    prelude_length = header_auth_end;
  })
