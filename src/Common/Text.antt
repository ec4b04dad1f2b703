-- ===== src/Common/Text.antt =====
-- Texts: equality as a Boolean, code points, and UTF-8.
use Prim.Native.Char.{code}
use Prim.Native.Nat.{ℕ, ◌+◌, ◌/◌, ◌%◌}
use Prim.Native.String.{String}
use mathlib.Core.List.{List, [], ◌∷◌, ◌++◌}
use mathlib.Core.Path.{◌≡◌, refl}
use mathlib.Core.Logic.{◌≢◌, ◌⊎◌, inl, inr}
use mathlib.Core.Option.{Option, none, some}
use mathlib.Core.Bool.{false}
use native.Mathlib.Omega.{arith}
use text.Mathlib.Text.{◌==◌ as str_eq}
use text.Mathlib.TextEquality.{eq_iff as str_eq_iff}
use private_communication.Common.Tests.{ltb, Bool-cases, if◌then◌else◌}
pub use text.Mathlib.Text.{◌==◌ as str_eq}
pub use text.Mathlib.TextEquality.{eq_iff as str_eq_iff}

-- The UTF-8 form of a code point, as `TextEncoder` writes it.
abbrev pub utf8_char : ℕ → List ℕ
utf8_char c =
    if ltb c 0x80
    then c ∷ []
    else if ltb c 0x800
    then (0xc0 + c / 64) ∷ (0x80 + c % 64) ∷ []
    else if ltb c 0x10000
    then (0xe0 + c / 4096) ∷ (0x80 + c / 64 % 64) ∷ (0x80 + c % 64) ∷ []
    else (0xf0 + c / 262144) ∷ (0x80 + c / 4096 % 64) ∷ (0x80 + c / 64 % 64) ∷ (0x80 + c % 64) ∷ []

-- `new TextEncoder().encode(s)`
abbrev pub utf8 : String → List ℕ
utf8 String.[] = []
utf8 (String.◌∷◌ c s) = utf8_char (code c) ++ utf8 s

pub String-cases : (s t : String) → (s ≡ t) ⊎ (s ≢ t)
String-cases s t = elim (Bool-cases (str_eq s t)) [
  | inl h ↦ inl ((str_eq_iff s t).0 h)
  | inr h ↦ inr (λ e. cc ((str_eq_iff s t).1 e, h))
]

-- A text that is missing counts as false in a test, and an empty one too.
unfoldable pub present : Option String → Option String
present none = none
present (some s) = if str_eq s "" then none else some s

pub present-some : (s : String) → s ≢ "" → present (some s) ≡ some s
unfolding present
present-some s n = elim (Bool-cases (str_eq s "")) [
  | inl e ↦ absurd (n ((str_eq_iff s "").0 e))
  | inr e ↦ rw e refl
]

pub present-eq-some : (s t : String) → present (some s) ≡ some t → s ≡ t
unfolding present
present-eq-some s t e = ground arith

pub present-named : (o : Option String) (s : String) → present o ≡ some s → s ≢ ""
unfolding present
present-named none s e n = cc (e)
present-named (some t) s e n = elim (Bool-cases (str_eq t "")) [
  | inl h ↦ absurd (ground (arith))
  | inr h ↦ absurd (ground (arith, str_eq_iff t ""))
]

pub apart_by : (s t : String) → str_eq s t ≡ false → s ≢ t
apart_by s t f e = cc ((str_eq_iff s t).1 e, f)

pub str_eq-ne : (s t : String) → s ≢ t → str_eq s t ≡ false
str_eq-ne s t h = elim (Bool-cases (str_eq s t)) [
  | inl e ↦ absurd (h ((str_eq_iff s t).0 e))
  | inr f ↦ f
]
