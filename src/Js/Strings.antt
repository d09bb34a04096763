-- ===== src/Js/Strings.antt =====
-- Methods of `String`, on lists of UTF-16 code units.
pub mod Laws
use mathlib.Core.List.{reverse}
use fizzbee_mbt_examples.Prelude.{
  ℕ, List, [], ◌∷◌, ◌++◌, Bool, true, false, ◌&&◌, ◌||◌, Text, leb, ◌==◌, if◌then◌else◌,
}

-- White space and line terminators of ECMAScript.
unfoldable pub is_space : ℕ → Bool
is_space c =
    (leb 0x9 c && leb c 0xd)
    || c == 0x20
    || c == 0xa0
    || c == 0x1680
    || (leb 0x2000 c && leb c 0x200a)
    || c == 0x2028
    || c == 0x2029
    || c == 0x202f
    || c == 0x205f
    || c == 0x3000
    || c == 0xfeff

-- `s.trimStart()`
unfoldable pub trim_start : Text → Text
trim_start [] = []
trim_start (c ∷ s) = if is_space c then trim_start s else c ∷ s

-- `s.trimEnd()`
unfoldable pub trim_end : Text → Text
trim_end s = reverse (trim_start (reverse s))

-- `s.trim()`
unfoldable pub trim : Text → Text
trim s = trim_end (trim_start s)

-- `s.startsWith(p)`
abbrev pub starts_with : Text → Text → Bool
starts_with s [] = true
starts_with [] (b ∷ p) = false
starts_with (a ∷ s) (b ∷ p) = (a == b) && starts_with s p

-- `s.includes(p)`
abbrev pub includes : Text → Text → Bool
includes [] p = starts_with [] p
includes (a ∷ s) p = starts_with (a ∷ s) p || includes s p

-- The first part of `s.split(sep)`, for one code unit `sep`, and the rest of the parts.
abbrev pub into_first : ℕ → List Text → List Text
into_first c [] = (c ∷ []) ∷ []
into_first c (p ∷ ps) = (c ∷ p) ∷ ps

unfoldable pub split : Text → ℕ → List Text
split [] sep = [] ∷ []
split (c ∷ s) sep = let rest = split s sep in if c == sep then [] ∷ rest else into_first c rest

-- `parts.join(sep)`
abbrev pub join_after : Text → List Text → Text → Text
join_after p [] sep = p
join_after p (q ∷ ps) sep = p ++ (sep ++ join_after q ps sep)

abbrev pub join : List Text → Text → Text
join [] sep = []
join (p ∷ ps) sep = join_after p ps sep

-- `parts[parts.length - 1]` of a list that begins with `p`.
abbrev pub last_or : Text → List Text → Text
last_or p [] = p
last_or p (q ∷ ps) = last_or q ps
