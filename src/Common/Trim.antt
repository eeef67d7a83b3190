-- ===== src/Common/Trim.antt =====
-- More methods of `str`, on the list of its UTF-8 bytes: `trim`, `trim_end_matches`, `split` and
-- `to_ascii_lowercase`.
use mathlib.Core.List.{reverse}
use gate_rust.Common.Tests.{leb, if◌then◌else◌, Option-cases}
use gate_rust.Common.Lists.{length}
use gate_rust.Common.Equality.{◌==◌, ℕ_eq}
use gate_rust.Common.Text.{Text, is_empty}
use Prim.Native.Nat.{ℕ, zero, suc, ◌+◌, ◌≤◌, ◌<◌}
use mathlib.Core.Path.{◌≡◌, refl}
use mathlib.Core.Logic.{inl, inr}
use mathlib.Core.Bool.{Bool, ◌&&◌, ◌||◌}
use mathlib.Core.Option.{Option, none, some}
use mathlib.Core.List.{List, [], ◌∷◌, map}
use native.Mathlib.Omega.{arith}

abbrev pub lower_byte : ℕ → ℕ
lower_byte b = if leb b'A' b && leb b b'Z' then b + 32 else b

abbrev pub to_ascii_lowercase : Text → Text
to_ascii_lowercase = map lower_byte

-- `trim_end_matches` of one ASCII character.
abbrev pub trim_end_matches : ℕ → Text → Text
trim_end_matches c [] = []
trim_end_matches c (b ∷ s) =
    let rest = trim_end_matches c s in if is_empty rest && b == c then [] else b ∷ rest

abbrev pub push_front : ℕ → List Text → List Text
push_front b [] = (b ∷ []) ∷ []
push_front b (part ∷ parts) = (b ∷ part) ∷ parts

-- `split` at one ASCII character.
abbrev pub split : ℕ → Text → List Text
split c [] = [] ∷ []
split c (b ∷ s) = let rest = split c s in if b == c then [] ∷ rest else push_front b rest

-- The characters of `White_Space`, by the number of their bytes.
abbrev pub is_space1 : ℕ → Bool
is_space1 a = (leb 9 a && leb a 13) || a == 32

abbrev pub is_space2 : ℕ → ℕ → Bool
is_space2 a b = a == 0xC2 && (b == 0x85 || b == 0xA0)

abbrev pub is_space3 : ℕ → ℕ → ℕ → Bool
is_space3 a b c =
    (a == 0xE1 && (b == 0x9A && c == 0x80))
    || ((a == 0xE2
          && ((b == 0x80 && ((leb 0x80 c && leb c 0x8A) || (c == 0xA8 || (c == 0xA9 || c == 0xAF))))
              || (b == 0x81 && c == 0x9F)))
        || (a == 0xE3 && (b == 0x80 && c == 0x80)))

module _ (two : ℕ → ℕ → Bool) (three : ℕ → ℕ → ℕ → Bool) where
  abbrev strip3 : ℕ → ℕ → Text → Option Text
  strip3 a b [] = none
  strip3 a b (c ∷ s) = if three a b c then some s else none

  abbrev strip2 : ℕ → Text → Option Text
  strip2 a [] = none
  strip2 a (b ∷ s) = if two a b then some s else strip3 a b s

  -- A text without the space that it begins with.
  abbrev pub strip_space : Text → Option Text
  strip_space [] = none
  strip_space (a ∷ s) = if is_space1 a then some s else strip2 a s

  -- As often as the fuel allows.
  unfoldable pub strip_spaces : ℕ → Text → Text
  strip_spaces zero s = s
  strip_spaces (suc fuel) s = elim (strip_space s) [ none ↦ s | some rest ↦ strip_spaces fuel rest ]

  strip2_shorter :
      (a : ℕ) (s : Text) {rest : Text} → strip2 a s ≡ some rest → length rest < length s
  strip2_shorter a [] h = absurd (ground arith)
  strip2_shorter a (b ∷ []) h = ground arith
  strip2_shorter a (b ∷ c ∷ s) h = ground arith

  strip_space_shorter :
      (s : Text) {rest : Text} → strip_space s ≡ some rest → length rest < length s
  strip_space_shorter [] h = absurd (ground arith)
  strip_space_shorter (a ∷ s) h = ground (arith, strip2_shorter a s)

  -- The length is fuel enough: no space is left at the beginning.
  pub strip_spaces_enough :
      (fuel : ℕ) (s : Text) → length s ≤ fuel → strip_space (strip_spaces fuel s) ≡ none
  unfolding strip_spaces
  strip_spaces_enough zero [] h = refl
  strip_spaces_enough zero (a ∷ s) h = absurd (omega arith)
  strip_spaces_enough (suc fuel) s h = elim (Option-cases (strip_space s)) [
    | inl clear ↦ rw (clear, strip_spaces) clear
    | inr (rest, found) ↦
        rw (found, strip_spaces)
          (strip_spaces_enough fuel rest (omega (arith, strip_space_shorter s found)))
  ]

-- `str::trim`
unfoldable pub trim : Text → Text
unfolding strip_spaces
trim s =
    let rest = strip_spaces is_space2 is_space3 (length s) s in
    reverse
      (strip_spaces (λ b a. is_space2 a b) (λ c b a. is_space3 a b c) (length rest) (reverse rest))
