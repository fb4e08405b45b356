-- ===== src/Utility.antt =====
-- `strsplit` of websocket/Utility.cpp. A string is the list of its character codes, and a position in
-- it the rest of it from there.
pub mod Split
pub mod Fields
mod Tests
use websocket_cpp.Base.{
  ℕ, zero, suc, List, [], ◌∷◌, ◌++◌, length, ◌==◌, if◌then◌else◌, Option, none, some,
}

-- What follows `seperator` in `s`, which begins with it.
unfoldable pub strip_prefix : List ℕ → List ℕ → Option (List ℕ)
strip_prefix [] s = some s
strip_prefix (c ∷ seperator) [] = none
strip_prefix (c ∷ seperator) (d ∷ s) =
    let rest = strip_prefix seperator s in if c == d then rest else none

-- `s.find(seperator)`, which yields what comes before the first occurrence and what comes after it, and
-- `none` for `npos`
unfoldable pub find : List ℕ → List ℕ → Option (List ℕ × List ℕ)
find seperator [] = elim (strip_prefix seperator []) [ some rest ↦ some ([], rest) | none ↦ none ]
find seperator (d ∷ s) = elim (strip_prefix seperator (d ∷ s)) [
  | some rest ↦ some ([], rest)
  | none ↦ elim (find seperator s) [ some (x, rest) ↦ some (d ∷ x, rest) | none ↦ none ]
]

-- `if (pos1 != s.length()) v.push_back(s.substr(pos1))`
abbrev pub push_last : List (List ℕ) → List ℕ → List (List ℕ)
push_last v [] = v
push_last v (c ∷ s) = v ++ ((c ∷ s) ∷ [])

-- The loop of `strsplit`, where `s` is the string from `pos1`; `none` when the fuel ends.
unfoldable pub split_loop : ℕ → List ℕ → List (List ℕ) → List ℕ → Option (List (List ℕ))
split_loop zero seperator v s = none
split_loop (suc fuel) seperator v s = elim (find seperator s) [
  | none ↦ some (push_last v s)
  | some (x, rest) ↦ split_loop fuel seperator (v ++ (x ∷ [])) rest
]

unfoldable pub strsplit : List ℕ → List ℕ → List (List ℕ) → Option (List (List ℕ))
strsplit s seperator v = split_loop (suc (length s)) seperator v s
