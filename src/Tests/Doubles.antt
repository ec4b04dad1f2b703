-- ===== src/Tests/Doubles.antt =====
-- Stand-ins for the code that the program calls: a CBOR codec that knows one value, a cipher that
-- appends an empty tag, and a comparison of texts by their code points.
use Prim.Native.Char.{code}
use private_communication.Common.{
  ℕ, zero, suc, ◌-◌, ◌/◌, ◌*◌, ◌≡◌, refl, String, true, false, [], ◌∷◌, ◌++◌, length, replicate,
  take, take-append_length, length-append, ok, arith, ℤ, pos, negsuc, sub_ℕ, is_negative,
  if◌then◌else◌, ◌==◌, ==_iff, Bool-cases, inl, inr, ap₂,
}
use text.Mathlib.TextEquality.{Char-path}
use private_communication.Pcbk.Manifest.Compare.{IsCollation}
use private_communication.Pcbk.Value.{Value, bytes}
use private_communication.Pcbk.Cbor.{Codec, RoundTrips}
use private_communication.Pcbk.Subtle.{Subtle, IsLawful}

abbrev pub codec_of : Value → Codec
codec_of v = record { encode = λ _. bytes (0 ∷ []); decode = λ _. ok v }

pub codec_of-RoundTrips : (v : Value) → RoundTrips (codec_of v) v
codec_of-RoundTrips v b e = (λ n. cc, refl)

abbrev pub subtle : Subtle
subtle = record {
  hkdf = λ key salt info bits. ok (replicate (bits / 8) 7);
  hmac_sign = λ key message. replicate 32 5;
  hmac_verify = λ key signature message. true;
  encrypt = λ key iv additional tag_bits plain. ok (plain ++ replicate (tag_bits / 8) 0);
  decrypt = λ key iv additional tag_bits cipher. ok (take (length cipher - tag_bits / 8) cipher);
  argon2id = λ password salt iterations memory parallelism len. ok (replicate len 9);
  normalize_nfkc = λ s. s;
}

length-replicate : (n a : ℕ) → length (replicate n a) ≡ n
length-replicate zero a = refl
length-replicate (suc n) a = omega (arith, length-replicate n a)

pub subtle-IsLawful : IsLawful subtle
subtle-IsLawful = record {
  derives = λ key salt info k n e. ground (arith, length-replicate (n * 8 / 8) 7);
  signs = λ key message. refl;
  verifies = λ key message. refl;
  expands = λ key iv additional plain cipher tag_bits e.
      ground (
        arith,
        length-append plain (replicate (tag_bits / 8) 0),
        length-replicate (tag_bits / 8) 0,
      );
  opens = λ key iv additional plain cipher tag_bits e. ground (
    arith,
    length-append plain (replicate (tag_bits / 8) 0),
    length-replicate (tag_bits / 8) 0,
    take-append_length (length cipher - tag_bits / 8) plain (replicate (tag_bits / 8) 0),
  );
}

-- `first.localeCompare(second)`
abbrev pub by_code : String → String → ℤ
by_code String.[] String.[] = pos 0
by_code String.[] (String.◌∷◌ d t) = negsuc 0
by_code (String.◌∷◌ c s) String.[] = pos 1
by_code (String.◌∷◌ c s) (String.◌∷◌ d t) =
    if code c == code d then by_code s t else sub_ℕ (code c) (code d)

by_code_asym : (a b : String) → is_negative (by_code a b) ≡ true → is_negative (by_code b a) ≡ false
by_code_asym String.[] String.[] h = refl
by_code_asym String.[] (String.◌∷◌ d t) h = refl
by_code_asym (String.◌∷◌ c s) String.[] h = cc
by_code_asym (String.◌∷◌ c s) (String.◌∷◌ d t) h = ground (arith, by_code_asym s t)

by_code_total :
    (a b : String) → is_negative (by_code a b) ≡ false → is_negative (by_code b a) ≡ false → a ≡ b
by_code_total String.[] String.[] h k = refl
by_code_total String.[] (String.◌∷◌ d t) h k = cc
by_code_total (String.◌∷◌ c s) String.[] h k = cc
by_code_total (String.◌∷◌ c s) (String.◌∷◌ d t) h k = elim (Bool-cases (code c == code d)) [
  | inl e ↦
      ap₂ String.◌∷◌ (Char-path c d ((==_iff (code c) (code d)).0 e))
        (by_code_total s t (ground arith) (ground arith))
  | inr e ↦ absurd (ground arith)
]

by_code_trans :
    (a b c : String)
    → is_negative (by_code a b) ≡ true
    → is_negative (by_code b c) ≡ true
    → is_negative (by_code a c) ≡ true
by_code_trans String.[] String.[] c h k = cc
by_code_trans String.[] (String.◌∷◌ d t) String.[] h k = cc
by_code_trans String.[] (String.◌∷◌ d t) (String.◌∷◌ e u) h k = refl
by_code_trans (String.◌∷◌ c s) String.[] u h k = cc
by_code_trans (String.◌∷◌ c s) (String.◌∷◌ d t) String.[] h k = cc
by_code_trans (String.◌∷◌ c s) (String.◌∷◌ d t) (String.◌∷◌ e u) h k =
    ground (arith, by_code_trans s t u)

pub by_code-IsCollation : IsCollation (λ s. Unit {0}) by_code
by_code-IsCollation = record {
  asym = by_code_asym;
  apart = λ a b p q n h. elim (Bool-cases (is_negative (by_code b a))) [
    | inl k ↦ k
    | inr k ↦ absurd (n (by_code_total a b h k))
  ];
  trans = by_code_trans;
}
