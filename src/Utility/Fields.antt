-- ===== src/Utility/Fields.antt =====
-- `strsplit` at a single character, on a string that is given by its fields.
use websocket_cpp.Base.{
  ℕ, zero, suc, ◌<◌, ◌≡◌, refl, ap, ◌∙◌, List, [], ◌∷◌, ◌++◌, false, length, length-append, ◌==◌,
  ==_iff, none, some, arith, append_assoc, is_digit, AllDigits,
}
use websocket_cpp.Utility.{strip_prefix, find, push_last, split_loop}
use websocket_cpp.Utility.Split.{split_loop_lem}

-- The character does not occur.
abbrev pub Without : ℕ → List ℕ → Type 0
Without c [] = Unit
Without c (d ∷ s) = ((c == d) ≡ false) × Without c s

find_here : (c : ℕ) (r : List ℕ) → find (c ∷ []) (c ∷ r) ≡ some ([], r)
unfolding find strip_prefix
find_here c r = rw (find, (==_iff c c).1 refl) refl

pub find_field : (c : ℕ) (x r : List ℕ) → Without c x → find (c ∷ []) (x ++ (c ∷ r)) ≡ some (x, r)
unfolding find strip_prefix
find_field c [] r w = find_here c r
find_field c (d ∷ x) r w = rw (find, w.0, find_field c x r w.1) refl

find_nowhere : (c : ℕ) (x : List ℕ) → Without c x → find (c ∷ []) x ≡ none
unfolding find strip_prefix
find_nowhere c [] w = refl
find_nowhere c (d ∷ x) w = rw (find, w.0, find_nowhere c x w.1) refl

-- One round of the loop takes the first field.
pub split_loop-field :
    (fuel c : ℕ) (v : List (List ℕ)) (x r : List ℕ)
    → Without c x
    → length (x ++ (c ∷ r)) < fuel
    → (g : ℕ) × (split_loop fuel (c ∷ []) v (x ++ (c ∷ r))
        ≡ split_loop g (c ∷ []) (v ++ (x ∷ [])) r)
      × (length r < g)
unfolding split_loop
split_loop-field zero c v x r w enough = absurd (omega arith)
split_loop-field (suc fuel) c v x r w enough =
    (fuel, rw (split_loop, find_field c x r w) refl, omega (arith, length-append x (c ∷ r)))

-- The last round takes the last field.
pub split_loop-last :
    (fuel c : ℕ) (v : List (List ℕ)) (x : List ℕ)
    → Without c x
    → length x < fuel
    → split_loop fuel (c ∷ []) v x ≡ some (push_last v x)
unfolding split_loop
split_loop-last zero c v x w enough = absurd (omega arith)
split_loop-last (suc fuel) c v x w enough = rw (split_loop, find_nowhere c x w) refl

-- What is in the vector before the loop stays at its place.
pub split_loop-keeps :
    (fuel c : ℕ) (v : List (List ℕ)) (s : List ℕ)
    → length s < fuel
    → (more : List (List ℕ)) × (split_loop fuel (c ∷ []) v s ≡ some (v ++ more))
split_loop-keeps fuel c v s enough =
    let (d, e) = split_loop_lem fuel c [] v s enough in
    let (more, same) = pushed v d.pieces d.last in (more, e ∙ ap some same)
  where
    pushed :
        (v pieces : List (List ℕ)) (last : List ℕ)
        → (more : List (List ℕ)) × (push_last (v ++ pieces) last ≡ v ++ more)
    pushed v pieces [] = (pieces, refl)
    pushed v pieces (c ∷ s) = (pieces ++ ((c ∷ s) ∷ []), append_assoc v pieces ((c ∷ s) ∷ []))

-- A character that is no digit does not occur in a number.
pub AllDigits-Without : (c : ℕ) (s : List ℕ) → is_digit c ≡ false → AllDigits s → Without c s
AllDigits-Without c [] n a = tt
AllDigits-Without c (d ∷ s) n a = (ground (arith, a.0), AllDigits-Without c s n a.1)
