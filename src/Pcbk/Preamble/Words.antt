-- ===== src/Pcbk/Preamble/Words.antt =====
-- The 32-bit lengths of the format, written and read back.
use private_communication.Common.{
  ℕ, ◌+◌, ◌*◌, ◌<◌, ◌≡◌, refl, true, List, [], ◌∷◌, ◌++◌, length, some, ok, drop-append_length,
  length-append, arith,
}
use private_communication.Pcbk.Preamble.{
  read_uint32_little_endian, encode_uint32_little_endian, word_of, bytes_eq,
}

abbrev pub IsByte : ℕ → Type 0
IsByte b = b < 256

pub bytes_eq→eq : (xs ys : List ℕ) → bytes_eq xs ys ≡ true → xs ≡ ys
bytes_eq→eq [] [] h = refl
bytes_eq→eq [] (y ∷ ys) h = cc
bytes_eq→eq (x ∷ xs) [] h = cc
bytes_eq→eq (x ∷ xs) (y ∷ ys) h = ground (arith, bytes_eq→eq xs ys)

pub bytes_eq_refl : (xs : List ℕ) → bytes_eq xs xs ≡ true
bytes_eq_refl [] = refl
bytes_eq_refl (x ∷ xs) = ground (arith, bytes_eq_refl xs)

-- A length is written as four bytes that read as that length, whatever follows them.
pub encode-word :
    (value : ℕ) (word after : List ℕ)
    → encode_uint32_little_endian value ≡ ok word
    → (length word ≡ 4) × (word_of (word ++ after) ≡ some value)
unfolding encode_uint32_little_endian
encode-word value word after e = ground arith

-- Reading at the place where a length was written gives it back.
pub read-encode :
    (before after word : List ℕ) (value : ℕ)
    → encode_uint32_little_endian value ≡ ok word
    → read_uint32_little_endian (before ++ (word ++ after)) (length before) ≡ ok value
unfolding read_uint32_little_endian
read-encode before after word value e =
    let (four, reads) = encode-word value word after e in
    rw (drop-append_length (length before) before (word ++ after) refl, reads)
      (ground (arith, length-append before (word ++ after), length-append word after))

-- Writing what was read gives the four bytes back.
pub encode-read :
    (a b c d : ℕ)
    → IsByte a
    → IsByte b
    → IsByte c
    → IsByte d
    → encode_uint32_little_endian (a + 256 * b + 65536 * c + 16777216 * d) ≡ ok (a ∷ b ∷ c ∷ d ∷ [])
unfolding encode_uint32_little_endian
encode-read a b c d ha hb hc hd = ground arith
