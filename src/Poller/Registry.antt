-- ===== src/Poller/Registry.antt =====
-- The descriptors that are polled and the table of their handlers.
use websocket_cpp.Base.{
  ℕ, zero, suc, ◌≡◌, ◌≢◌, refl, List, [], ◌∷◌, ltb, if◌then◌else◌, take, Option, none, some,
  Bool-cases, ==_iff, inl, inr, ok,
}
use websocket_cpp.Poller.{EventHandler, PollFd, SelectPoller, find_active}

-- The descriptor is not polled.
abbrev pub Absent : ℕ → List PollFd → Type 0
Absent fd [] = Unit
Absent fd (x ∷ xs) = (x.fd ≢ fd) × Absent fd xs

abbrev pub IsDistinct : List PollFd → Type 0
IsDistinct [] = Unit
IsDistinct (x ∷ xs) = Absent x.fd xs × IsDistinct xs

-- Each polled descriptor has a handler, which is a handler of that descriptor.
abbrev pub Handled : (ℕ → EventHandler) → (ℕ → Option ℕ) → List PollFd → Type 0
Handled store handlers [] = Unit
Handled store handlers (x ∷ xs) =
    ((ptr : ℕ) × (handlers x.fd ≡ some ptr) × ((store ptr).fd ≡ x.fd)) × Handled store handlers xs

-- No descriptor is polled twice, each has its handler, and no other has one.
pub record IsValid (store : ℕ → EventHandler) (p : SelectPoller) : Type 0 where
  pub distinct : IsDistinct p.poll_fds
  pub handled : Handled store p.ev_handlers p.poll_fds
  pub only : (fd : ℕ) → Absent fd p.poll_fds → p.ev_handlers fd ≡ none

-- What `findActiveEvHandlers` is to find: those with `revents`, with their handlers.
abbrev pub active : (ℕ → Option ℕ) → List PollFd → List (ℕ × ℕ)
active handlers [] = []
active handlers (x ∷ xs) =
    let rest = active handlers xs in
    if ltb 0 x.revents
    then elim (handlers x.fd) [ none ↦ rest | some ptr ↦ (ptr, x.revents) ∷ rest ]
    else rest

-- On a valid poller `findActiveEvHandlers` passes its assertions and yields the active handlers in the
-- order of the descriptors, up to the number that `poll` has returned.
pub find_active_lem :
    (store : ℕ → EventHandler) (handlers : ℕ → Option ℕ) (n : ℕ) (xs : List PollFd)
    → Handled store handlers xs
    → find_active store handlers n xs ≡ ok (take n (active handlers xs))
unfolding find_active take
find_active_lem store handlers zero [] h = refl
find_active_lem store handlers (suc n) [] h = refl
find_active_lem store handlers zero (x ∷ xs) h = refl
find_active_lem store handlers (suc n) (x ∷ xs) h =
    let (ptr, e, same) = h.0 in
    elim (Bool-cases (ltb 0 x.revents)) [
      | inl y ↦
          rw (y, e, (==_iff (store ptr).fd x.fd).1 same, find_active_lem store handlers n xs h.1)
            refl
      | inr z ↦ rw (z, find_active_lem store handlers (suc n) xs h.1) refl
    ]
