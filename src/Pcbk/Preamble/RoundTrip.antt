-- ===== src/Pcbk/Preamble/RoundTrip.antt =====
-- The reader of the preamble against its writer.
use private_communication.Common.{
  ℕ, ◌+◌, ◌-◌, ◌*◌, ◌/◌, ◌%◌, ◌≤◌, ◌<◌, ◌≡◌, ap, sym, subst, subst₂, List, ◌∷◌, ◌++◌, length, take,
  drop, ok, drop-append_length, take-append_length, length-append, take-append-drop, length-take,
  length-drop, drop-add, All, arith, ◌∙◌,
}
use private_communication.Pcbk.Constants.{magic, format_version, flags}
use private_communication.Pcbk.Preamble.{
  read_uint32_little_endian, encode_uint32_little_endian, build_header_authentication_bytes,
  ParsedPrelude, parse_prelude, prelude_fixed_length,
}
use private_communication.Pcbk.Preamble.Words.{IsByte, encode-read}

-- What the reader returns for a clear header of `len` bytes at the head of `body`.
abbrev parsed : ℕ → List ℕ → ParsedPrelude
parsed len body = record {
  magic_bytes = magic;
  version = format_version;
  flag_bits = flags;
  clear_header_length = len;
  clear_header_bytes = take len body;
  header_auth_tag = take 32 (drop len body);
  prelude_length = prelude_fixed_length + len + 32;
}

module _ (a b c d : ℕ) (body : List ℕ) where
  abbrev file : List ℕ
  file = magic ++ (1 ∷ 0 ∷ a ∷ b ∷ c ∷ d ∷ body)

  abbrev len : ℕ
  len = a + 256 * b + 65536 * c + 16777216 * d

  read-len : read_uint32_little_endian file 6 ≡ ok len
  unfolding read_uint32_little_endian
  read-len = ground arith

  drop-file : (n : ℕ) → drop (10 + n) file ≡ drop n body
  drop-file n = drop-add 10 n file

  take-file : (m n k : ℕ) → m ≡ 10 + n → take k (drop m file) ≡ take k (drop n body)
  take-file m n k e = ap (λ j. take k (drop j file)) e ∙ ap (take k) (drop-file n)

  parse-file : 0 < len → len + 32 ≤ length body → parse_prelude file ≡ ok (parsed len body)
  unfolding parse_prelude
  parse-file h k = rw read-len (
      ground (
        arith,
        take-file (10 + len) len 32,
        ap (λ j. take j body) {x = 10 + len - 10} {y = len} (omega arith),
        ap (λ j. take j (drop (10 + len) file)) {x = 10 + len + 32 - (10 + len)} {y = 32}
            (omega arith),
      ))

-- A file that is accepted starts with ten such bytes, and the header and its tag stand behind them.
accepted :
    (bytes : List ℕ) (p : ParsedPrelude)
    → parse_prelude bytes ≡ ok p
    → (a : ℕ) × (b : ℕ) × (c : ℕ) × (d : ℕ) × (body : List ℕ) × (bytes ≡ file a b c d body)
      × (0 < len a b c d body)
      × (len a b c d body + 32 ≤ length body)
unfolding parse_prelude read_uint32_little_endian
accepted (m0 ∷ m1 ∷ m2 ∷ m3 ∷ v ∷ f ∷ a ∷ b ∷ c ∷ d ∷ body) p h =
    (a, b, c, d, body, ground arith, ground arith, ground arith)
accepted _ p h = cc

-- The file is what the writer authenticates for this prelude, its tag of 32 bytes, and a rest that
-- starts where the prelude says.
abbrev pub IsWritten : List ℕ → ParsedPrelude → Type 0
IsWritten bytes p =
    (authenticated : List ℕ) × (rest : List ℕ) × (build_header_authentication_bytes p.magic_bytes
        p.version p.flag_bits p.clear_header_bytes
      ≡ ok authenticated)
    × (bytes ≡ authenticated ++ (p.header_auth_tag ++ rest))
    × (length p.header_auth_tag ≡ 32)
    × (length bytes ≡ p.prelude_length + length rest)

module _ (a b c d : ℕ) (body : List ℕ) (ha : IsByte a) (hb : IsByte b) (hc : IsByte c)
    (hd : IsByte d) (fits : len a b c d body + 32 ≤ length body) where
  length-header : length (take (len a b c d body) body) ≡ len a b c d body
  length-header = omega (arith, length-take (len a b c d body) body)

  parsed-IsWritten : IsWritten (file a b c d body) (parsed (len a b c d body) body)
  unfolding build_header_authentication_bytes
  parsed-IsWritten =
      let n = len a b c d body in
      let behind = drop n body in
      (
        magic ++ (1 ∷ 0 ∷ a ∷ b ∷ c ∷ d ∷ take n body),
        drop 32 behind,
        rw (length-header, encode-read a b c d ha hb hc hd),
        rw (take-append-drop 32 behind, take-append-drop n body),
        omega (arith, length-take 32 behind, length-drop n body),
        omega (arith, length-drop 32 behind, length-drop n body),
      )

-- Every file of bytes that the reader accepts is what the writer authenticates for the prelude that
-- the reader returns, then the tag, then a rest that starts at the prelude's length: the tag is
-- checked against exactly the bytes in front of it.
pub parse_prelude_sound :
    (bytes : List ℕ) (p : ParsedPrelude)
    → All IsByte bytes
    → parse_prelude bytes ≡ ok p
    → IsWritten bytes p
parse_prelude_sound bytes p small h =
    let (a, b, c, d, body, shape, positive, fits) = accepted bytes p h in
    let e : parsed (len a b c d body) body ≡ p =
      ground (arith, parse-file a b c d body positive fits) in
    let s : All IsByte (file a b c d body) = subst (All IsByte) shape small in
    let t = s.1.1.1.1.1.1 in
    subst₂ IsWritten (sym shape) e (parsed-IsWritten a b c d body t.0 t.1.0 t.1.1.0 t.1.1.1.0 fits)

build-shape :
    (clear_header authenticated : List ℕ)
    → build_header_authentication_bytes magic format_version flags clear_header ≡ ok authenticated
    → let n = length clear_header in
      (n ≤ 0xffffffff)
      × (authenticated
          ≡ file (n % 256) (n / 256 % 256) (n / 65536 % 256) (n / 16777216 % 256) clear_header)
unfolding build_header_authentication_bytes encode_uint32_little_endian
build-shape clear_header authenticated e = ground arith

parsed-append :
    (n : ℕ) (clear_header tag rest : List ℕ)
    → n ≡ length clear_header
    → length tag ≡ 32
    → parsed n (clear_header ++ (tag ++ rest)) ≡ record {
      magic_bytes = magic;
      version = format_version;
      flag_bits = flags;
      clear_header_length = length clear_header;
      clear_header_bytes = clear_header;
      header_auth_tag = tag;
      prelude_length = prelude_fixed_length + length clear_header + 32;
    }
parsed-append n ch tag rest e t = ground (
  arith,
  take-append_length n ch (tag ++ rest) e,
  drop-append_length n ch (tag ++ rest) e,
  ap (take 32) (drop-append_length n ch (tag ++ rest) e),
  take-append_length 32 tag rest (sym t),
)

-- For a clear header that is not empty and that the writer can frame, and a tag of 32 bytes: the reader
-- gives back that header and tag, and the length of both with the frame, whatever rest follows.
pub parse_prelude-build :
    (clear_header authenticated tag rest : List ℕ)
    → build_header_authentication_bytes magic format_version flags clear_header ≡ ok authenticated
    → 0 < length clear_header
    → length tag ≡ 32
    → parse_prelude (authenticated ++ (tag ++ rest))
      ≡ ok (record {
        magic_bytes = magic;
        version = format_version;
        flag_bits = flags;
        clear_header_length = length clear_header;
        clear_header_bytes = clear_header;
        header_auth_tag = tag;
        prelude_length = prelude_fixed_length + length clear_header + 32;
      })
parse_prelude-build ch authenticated tag rest e h t =
    let n : ℕ = length ch in
    let body = ch ++ (tag ++ rest) in
    let (fits, shape) = build-shape ch authenticated e in
    rw shape (
      parse-file (n % 256) (n / 256 % 256) (n / 65536 % 256) (n / 16777216 % 256) body (omega arith)
        (omega (arith, length-append ch (tag ++ rest), length-append tag rest))
      ∙ ap ok (parsed-append _ ch tag rest (omega arith) t))

-- A prelude that is read ends within the file.
pub parse_prelude-within :
    (bytes : List ℕ) (p : ParsedPrelude)
    → parse_prelude bytes ≡ ok p
    → p.prelude_length ≤ length bytes
parse_prelude-within bytes p h =
    let (a, b, c, d, body, shape, positive, fits) = accepted bytes p h in
    let e : parsed (len a b c d body) body ≡ p =
      ground (arith, parse-file a b c d body positive fits) in
    omega (arith, ap (λ q. q.prelude_length) e, ap length shape)
