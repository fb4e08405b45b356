-- ===== src/ReactorThreadPool/Rounds.antt =====
-- The reactors of a pool take turns.
use websocket_cpp.Base.{
  ℕ, zero, suc, ◌+◌, ◌-◌, ◌<◌, ◌≡◌, refl, sym, ap, ◌∙◌, List, [], ◌∷◌, ◌++◌, length, get_elem?, leb,
  le→leb, lt→leb, take, drop, drop-all, some, ◌⊎◌, inl, inr, if◌then◌else◌, ok, >>=-eq-ok, arith,
}
use websocket_cpp.ReactorThreadPool.{ReactorThreadPool, next_loop, next_loops}

-- The pool at another reactor
abbrev pub at : ℕ → ReactorThreadPool → ReactorThreadPool
at i p = record p { index = i }

-- What stands at an index, and what is from there on
drop-get_elem? :
    (i : ℕ) (xs : List ℕ)
    → i < length xs
    → (x : ℕ) × (get_elem? xs i ≡ some x) × (drop i xs ≡ x ∷ drop (suc i) xs)
unfolding drop
drop-get_elem? i [] h = absurd (omega arith)
drop-get_elem? zero (x ∷ xs) h = (x, refl, refl)
drop-get_elem? (suc i) (x ∷ xs) h = drop-get_elem? i xs (omega arith)

next_loop_lem :
    (p : ReactorThreadPool) (i x : ℕ)
    → get_elem? p.loops i ≡ some x
    → i < length p.loops
    → next_loop (at i p) ≡ ok (x, at (if leb (length p.loops) (i + 1) then 0 else i + 1) p)
unfolding next_loop
next_loop_lem p i x e h = ground arith

-- A call that does not reach the end of the pool, and one that does
next_within :
    (p : ReactorThreadPool) (i x : ℕ)
    → get_elem? p.loops i ≡ some x
    → i + 1 < length p.loops
    → next_loop (at i p) ≡ ok (x, at (i + 1) p)
next_within p i x e h =
    next_loop_lem p i x e (omega arith)
    ∙ ap (λ b. ok (x, at (if b then 0 else i + 1) p)) (lt→leb (length p.loops) (i + 1) h)

next_end :
    (p : ReactorThreadPool) (i x : ℕ)
    → get_elem? p.loops i ≡ some x
    → i + 1 ≡ length p.loops
    → next_loop (at i p) ≡ ok (x, at 0 p)
next_end p i x e h =
    next_loop_lem p i x e (omega arith)
    ∙ ap (λ b. ok (x, at (if b then 0 else i + 1) p))
        (le→leb (length p.loops) (i + 1) (omega arith))

next_loops_step :
    (n : ℕ) (p q r : ReactorThreadPool) (x : ℕ) (xs : List ℕ)
    → next_loop p ≡ ok (x, q)
    → next_loops n q ≡ ok (xs, r)
    → next_loops (suc n) p ≡ ok (x ∷ xs, r)
unfolding next_loops
next_loops_step n p q r x xs e f = rw (next_loops, e, f) refl

next_loops-add :
    (m n : ℕ) (p q r : ReactorThreadPool) (xs ys : List ℕ)
    → next_loops m p ≡ ok (xs, q)
    → next_loops n q ≡ ok (ys, r)
    → next_loops (m + n) p ≡ ok (xs ++ ys, r)
unfolding next_loops
next_loops-add zero n p q r xs ys e f =
    let none : xs ≡ [] = cc in
    let same : p ≡ q = cc in
    ap (λ k. next_loops k p) {y = n} (omega arith)
    ∙ ap (next_loops n) same
    ∙ f
    ∙ ap (λ l. ok (l ++ ys, r)) (sym none)
next_loops-add (suc m) n p q r xs ys e f =
    let ((x, p2), e1, e2) = >>=-eq-ok (next_loop p) _ e in
    let ((rest, q2), e3, e4) = >>=-eq-ok (next_loops m p2) _ e2 in
    let same : q2 ≡ q = cc in
    let all : x ∷ rest ≡ xs = cc in
    ap (λ k. next_loops k p) {y = suc (m + n)} (omega arith)
    ∙ next_loops_step (m + n) p p2 r x (rest ++ ys) e1
        (next_loops-add m n p2 q r rest ys (e3 ∙ ap (λ t. ok (rest, t)) same) f)
    ∙ ap (λ l. ok (l ++ ys, r)) all

climb :
    (k i : ℕ) (p : ReactorThreadPool)
    → i + k < length p.loops
    → next_loops k (at i p) ≡ ok (take k (drop i p.loops), at (i + k) p)
unfolding next_loops take
climb zero i p h = ap (λ j. ok ([], at j p)) {y = i + 0} (omega arith)
climb (suc k) i p h =
    let (x, e, d) = drop-get_elem? i p.loops (omega arith) in
    next_loops_step k (at i p) (at (i + 1) p) (at (i + 1 + k) p) x (take k (drop (i + 1) p.loops))
      (next_within p i x e (omega arith)) (climb k (i + 1) p (omega arith))
    ∙ ap (λ j. ok (x ∷ take k (drop j p.loops), at (i + 1 + k) p)) {y = suc i} (omega arith)
    ∙ ap (λ j. ok (x ∷ take k (drop (suc i) p.loops), at j p)) {y = i + suc k} (omega arith)
    ∙ ap (λ l. ok (take (suc k) l, at (i + suc k) p)) (sym d)

to_end :
    (k i : ℕ) (p : ReactorThreadPool)
    → i + suc k ≡ length p.loops
    → next_loops (suc k) (at i p) ≡ ok (drop i p.loops, at 0 p)
unfolding next_loops
to_end zero i p h =
    let (x, e, d) = drop-get_elem? i p.loops (omega arith) in
    next_loops_step 0 (at i p) (at 0 p) (at 0 p) x [] (next_end p i x e (omega arith)) refl
    ∙ ap (λ l. ok (l, at 0 p))
        (ap (λ l. x ∷ l) (sym (drop-all (suc i) p.loops (omega arith))) ∙ sym d)
to_end (suc k) i p h =
    let (x, e, d) = drop-get_elem? i p.loops (omega arith) in
    next_loops_step (suc k) (at i p) (at (i + 1) p) (at 0 p) x (drop (i + 1) p.loops)
      (next_within p i x e (omega arith)) (to_end k (i + 1) p (omega arith))
    ∙ ap (λ j. ok (x ∷ drop j p.loops, at 0 p)) {y = suc i} (omega arith)
    ∙ ap (λ l. ok (l, at 0 p)) (sym d)

-- As many calls of `nextLoop` as there are reactors, from any place on, never fail, yield every reactor
-- once, in their order from that place round to it, and leave the pool at that place.
pub next_loops_round :
    (i : ℕ) (p : ReactorThreadPool)
    → i < length p.loops
    → next_loops (length p.loops) (at i p) ≡ ok (drop i p.loops ++ take i p.loops, at i p)
unfolding drop
next_loops_round i p h =
    let k = length p.loops - i - 1 in
    ap (λ n. next_loops n (at i p)) {y = suc k + i} (omega arith)
    ∙ next_loops-add (suc k) i (at i p) (at 0 p) (at (0 + i) p) (drop i p.loops)
        (take i (drop 0 p.loops)) (to_end k i p (omega arith)) (climb i 0 p (omega arith))
    ∙ ap (λ j. ok (drop i p.loops ++ take i p.loops, at j p)) {y = i} (omega arith)

-- There is no reactor but the base, or the next one is there.
pub record IsReady (p : ReactorThreadPool) : Type 0 where
  pub ready : (p.loops ≡ []) ⊎ (p.index < length p.loops)

pub next_loop-IsReady :
    (p : ReactorThreadPool)
    → IsReady p
    → (loop : ℕ) × (q : ReactorThreadPool) × (next_loop p ≡ ok (loop, q)) × IsReady q
unfolding next_loop
next_loop-IsReady p r = elim r.ready [
  | inl e ↦ (p.base_loop, p, ground arith, r)
  | inr h ↦
      let (x, e, d) = drop-get_elem? p.index p.loops h in
      let i : ℕ = if leb (length p.loops) (p.index + 1) then 0 else p.index + 1 in
      (x, at i p, next_loop_lem p p.index x e h, record { ready = inr (turn p.index h) })
]
  where
    turn :
        (i : ℕ)
        → i < length p.loops
        → (if leb (length p.loops) (i + 1) then 0 else i + 1) < length p.loops
    turn i h = ground arith
