-- ===== src/Common/Text.antt =====
-- Rust's `str` as the list of its bytes, and the methods of `str` that the source uses.
use Prim.Native.Nat.{ℕ}
use Prim.Native.Char.{code}
use Prim.Native.String.{String}
use mathlib.Core.Bool.{Bool, true, false, ◌&&◌, ◌||◌}
use mathlib.Core.Option.{Option, none, some}
use mathlib.Core.List.{List, [], ◌∷◌}
use gate_rust.Common.Tests.{leb, if◌then◌else◌}
use gate_rust.Common.Equality.{◌==◌, ℕ_eq, list_beq}

abbrev pub Text : Type 0
Text = List ℕ

-- The bytes of an ASCII literal.
abbrev pub ascii : String → Text
ascii String.[] = []
ascii (String.◌∷◌ c s) = code c ∷ ascii s

abbrev pub is_empty : Text → Bool
is_empty [] = true
is_empty (b ∷ s) = false

-- `u8::is_ascii_alphanumeric`
abbrev pub is_ascii_alphanumeric : ℕ → Bool
is_ascii_alphanumeric b =
    (leb b'0' b && leb b b'9') || (leb b'A' b && leb b b'Z') || (leb b'a' b && leb b b'z')

-- `str::strip_prefix`
abbrev pub strip_prefix : Text → Text → Option Text
strip_prefix [] s = some s
strip_prefix (p ∷ ps) [] = none
strip_prefix (p ∷ ps) (b ∷ s) = if p == b then strip_prefix ps s else none

-- `str::strip_suffix`: what stands before the suffix.
abbrev pub strip_suffix : Text → Text → Option Text
strip_suffix t [] = if list_beq t [] then some [] else none
strip_suffix t (b ∷ s) =
    let rest = strip_suffix t s in
    if list_beq t (b ∷ s) then some [] else elim rest [ none ↦ none | some p ↦ some (b ∷ p) ]

-- A text without its last byte.
abbrev pub without_last : Text → Text
without_last [] = []
without_last (b ∷ []) = []
without_last (a ∷ b ∷ s) = a ∷ without_last (b ∷ s)

-- `str::ends_with` and `str::contains` of one ASCII character.
abbrev pub ends_with_byte : ℕ → Text → Bool
ends_with_byte c [] = false
ends_with_byte c (b ∷ []) = b == c
ends_with_byte c (a ∷ b ∷ s) = ends_with_byte c (b ∷ s)

abbrev pub starts_with_byte : ℕ → Text → Bool
starts_with_byte c [] = false
starts_with_byte c (b ∷ s) = b == c
