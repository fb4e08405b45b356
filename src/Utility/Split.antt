-- ===== src/Utility/Split.antt =====
-- `strsplit` returns, and what it yields.
use websocket_cpp.Base.{
  ℕ, zero, suc, ◌<◌, ◌≡◌, refl, sym, ap, ◌∙◌, List, [], ◌∷◌, ◌++◌, append_assoc, length,
  length-append, ◌==◌, ==_iff, none, some, Option-cases, Bool-cases, inl, inr, arith, append-nil,
}
use websocket_cpp.Utility.{strip_prefix, find, push_last, split_loop, strsplit}

strip_prefix_lem :
    (p s : List ℕ) (r : List ℕ)
    → strip_prefix p s ≡ some r
    → (s ≡ p ++ r) × ((t : List ℕ) → strip_prefix p (s ++ t) ≡ some (r ++ t))
unfolding strip_prefix
strip_prefix_lem [] s r h = let e : s ≡ r = cc in (e, λ t. ap (λ x. some (x ++ t)) e)
strip_prefix_lem (c ∷ p) [] r h = cc
strip_prefix_lem (c ∷ p) (d ∷ s) r h = elim (Bool-cases (c == d)) [
  | inl y ↦
      let (e, more) = strip_prefix_lem p s r (rw y at h) in
      let same = (==_iff c d).0 y in (rw (same, e) refl, λ t. rw y (more t))
  | inr n ↦ let bad = rw n at h in cc
]

-- Every piece, with the separator after it.
abbrev pub joined : List ℕ → List (List ℕ) → List ℕ
joined seperator [] = []
joined seperator (x ∷ xs) = x ++ (seperator ++ joined seperator xs)

abbrev pub Free : List ℕ → List (List ℕ) → Type 0
Free seperator [] = Unit
Free seperator (x ∷ xs) = (find seperator x ≡ none) × Free seperator xs

find_here :
    (q s : List ℕ) (d : ℕ) (r : List ℕ)
    → strip_prefix q (d ∷ s) ≡ some r
    → find q (d ∷ s) ≡ some ([], r)
unfolding find
find_here q s d r e = rw (find, e) refl

find_next :
    (q s : List ℕ) (d : ℕ) (y r : List ℕ)
    → strip_prefix q (d ∷ s) ≡ none
    → find q s ≡ some (y, r)
    → find q (d ∷ s) ≡ some (d ∷ y, r)
unfolding find
find_next q s d y r e f = rw (find, e, f) refl

find_never :
    (q s : List ℕ) (d : ℕ) → strip_prefix q (d ∷ s) ≡ none → find q s ≡ none → find q (d ∷ s) ≡ none
unfolding find
find_never q s d e f = rw (find, e, f) refl

find-nil : (c : ℕ) (p : List ℕ) → find (c ∷ p) [] ≡ none
unfolding find strip_prefix
find-nil c p = refl

-- A prefix that a string does not have, the string's own beginning does not have.
strip_prefix-none : (q s t : List ℕ) → strip_prefix q (s ++ t) ≡ none → strip_prefix q s ≡ none
strip_prefix-none q s t e = elim (Option-cases (strip_prefix q s)) [
  | inl n ↦ n
  | inr (r, f) ↦ let g = (strip_prefix_lem q s r f).1 t in cc
]

-- A separator that is found is the first one.
find_lem :
    (c : ℕ) (p s x r : List ℕ)
    → find (c ∷ p) s ≡ some (x, r)
    → (s ≡ x ++ ((c ∷ p) ++ r)) × (find (c ∷ p) x ≡ none)
find_lem c p [] x r h = let n = find-nil c p in cc
find_lem c p (d ∷ s) x r h = elim (Option-cases (strip_prefix (c ∷ p) (d ∷ s))) [
  | inr (rest, e) ↦
      let found = sym (find_here (c ∷ p) s d rest e) ∙ h in
      let same : x ≡ [] = cc in
      let after : rest ≡ r = cc in
      rw (same, ← after) ((strip_prefix_lem (c ∷ p) (d ∷ s) rest e).0, find-nil c p)
  | inl e ↦ elim (Option-cases (find (c ∷ p) s)) [
    | inl n ↦ let none_found = find_never (c ∷ p) s d e n in cc
    | inr ((y, rest), f) ↦
        let found = sym (find_next (c ∷ p) s d y rest e f) ∙ h in
        let same : x ≡ d ∷ y = cc in
        let after : rest ≡ r = cc in
        let (w, n) = find_lem c p s y rest f in
        rw (same, ← after)
          (
            ap (λ z. d ∷ z) w,
            find_never (c ∷ p) y d
                (strip_prefix-none (c ∷ p) (d ∷ y) ((c ∷ p) ++ rest) (rw (← w) e)) n,
          )
  ]
]

-- How `seperator` divides `s`: into pieces that it follows and a last piece, and does not occur in any.
pub record Division (seperator s : List ℕ) : Type 0 where
  pub pieces : List (List ℕ)
  pub last : List ℕ
  pub whole : s ≡ joined seperator pieces ++ last
  pub free : Free seperator pieces
  pub last_free : find seperator last ≡ none

rest_shorter :
    (fuel c : ℕ) (p s x r : List ℕ)
    → s ≡ x ++ ((c ∷ p) ++ r)
    → length s < suc fuel
    → length r < fuel
rest_shorter fuel c p s x r e enough =
    omega (arith, ap length e, length-append x ((c ∷ p) ++ r), length-append (c ∷ p) r)

whole_next :
    (q s x r : List ℕ) (pieces : List (List ℕ)) (last : List ℕ)
    → s ≡ x ++ (q ++ r)
    → r ≡ joined q pieces ++ last
    → s ≡ joined q (x ∷ pieces) ++ last
whole_next q s x r pieces last e f =
    rw (e, f, append_assoc x (q ++ joined q pieces) last, append_assoc q (joined q pieces) last)
      refl

pub split_loop_lem :
    (fuel c : ℕ) (p : List ℕ) (v : List (List ℕ)) (s : List ℕ)
    → length s < fuel
    → (d : Division (c ∷ p) s) × (split_loop fuel (c ∷ p) v s
        ≡ some (push_last (v ++ d.pieces) d.last))
unfolding split_loop
split_loop_lem zero c p v s enough = absurd (omega arith)
split_loop_lem (suc fuel) c p v s enough = elim (Option-cases (find (c ∷ p) s)) [
  | inl n ↦ (
    record { pieces = []; last = s; whole = refl; free = tt; last_free = n },
    rw (split_loop, n, append-nil v) refl,
  )
  | inr ((x, r), f) ↦
      let (e, n) = find_lem c p s x r f in
      let (d, more) =
        split_loop_lem fuel c p (v ++ (x ∷ [])) r (rest_shorter fuel c p s x r e enough) in
      (
        record {
          pieces = x ∷ d.pieces;
          last = d.last;
          whole = whole_next (c ∷ p) s x r d.pieces d.last e d.whole;
          free = (n, d.free);
          last_free = d.last_free;
        },
        rw (split_loop, f) (rw (append_assoc v (x ∷ []) d.pieces) at more),
      )
]

-- With a separator that is not empty `strsplit` returns. The string is divided into pieces that the
-- separator follows and a last piece, and does not occur in any of them; the pieces are added to the
-- vector in their order, and the last one too unless it is empty.
pub strsplit_lem :
    (s : List ℕ) (c : ℕ) (p : List ℕ) (v : List (List ℕ))
    → (d : Division (c ∷ p) s) × (strsplit s (c ∷ p) v ≡ some (push_last (v ++ d.pieces) d.last))
unfolding strsplit
strsplit_lem s c p v = split_loop_lem (suc (length s)) c p v s (omega arith)
