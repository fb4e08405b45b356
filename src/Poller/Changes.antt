-- ===== src/Poller/Changes.antt =====
-- How the table of handlers and the list of descriptors change.
use websocket_cpp.Base.{
  ℕ, ◌≡◌, ◌≢◌, refl, ap, sym, ◌∙◌, List, [], ◌∷◌, ◌++◌, ◌==◌, Option, none, some, Bool-cases,
  ==_iff, inl, inr,
}
use websocket_cpp.Poller.{EventHandler, PollFd, set_handler, set_events}
use websocket_cpp.Poller.Registry.{Absent, IsDistinct, Handled}

pub set_handler_same :
    (handlers : ℕ → Option ℕ) (fd : ℕ) (o : Option ℕ) → set_handler handlers fd o fd ≡ o
unfolding set_handler
set_handler_same handlers fd o = rw ((==_iff fd fd).1 refl)

pub set_handler_other :
    (handlers : ℕ → Option ℕ) (fd k : ℕ) (o : Option ℕ)
    → k ≢ fd
    → set_handler handlers fd o k ≡ handlers k
unfolding set_handler
set_handler_other handlers fd k o n = elim (Bool-cases (k == fd)) [
  | inl y ↦ absurd (n ((==_iff k fd).0 y))
  | inr y ↦ rw y
]

pub Handled-set_handler :
    (store : ℕ → EventHandler) (handlers : ℕ → Option ℕ) (fd : ℕ) (o : Option ℕ) (xs : List PollFd)
    → Absent fd xs
    → Handled store handlers xs
    → Handled store (set_handler handlers fd o) xs
Handled-set_handler store handlers fd o [] a h = tt
Handled-set_handler store handlers fd o (x ∷ xs) a h =
    let (ptr, e, same) = h.0 in
    (
      (ptr, set_handler_other handlers fd x.fd o a.0 ∙ e, same),
      Handled-set_handler store handlers fd o xs a.1 h.1,
    )

pub none-Absent :
    (store : ℕ → EventHandler) (handlers : ℕ → Option ℕ) (fd : ℕ) (xs : List PollFd)
    → Handled store handlers xs
    → handlers fd ≡ none
    → Absent fd xs
none-Absent store handlers fd [] h e = tt
none-Absent store handlers fd (x ∷ xs) h e =
    let (ptr, held, same) = h.0 in
    ((λ at. clash ptr (sym held ∙ ap handlers at ∙ e)), none-Absent store handlers fd xs h.1 e)
  where
    clash : (ptr : ℕ) → some ptr ≢ none
    clash ptr q = cc q

pub Absent-append :
    (fd : ℕ) (y : PollFd) (xs : List PollFd) → Absent fd xs → y.fd ≢ fd → Absent fd (xs ++ (y ∷ []))
Absent-append fd y [] a n = (n, tt)
Absent-append fd y (x ∷ xs) a n = (a.0, Absent-append fd y xs a.1 n)

pub append-Absent :
    (fd : ℕ) (y : PollFd) (xs : List PollFd)
    → Absent fd (xs ++ (y ∷ []))
    → Absent fd xs × (y.fd ≢ fd)
append-Absent fd y [] a = (tt, a.0)
append-Absent fd y (x ∷ xs) a = let (b, n) = append-Absent fd y xs a.1 in ((a.0, b), n)

pub IsDistinct-append :
    (y : PollFd) (xs : List PollFd) → Absent y.fd xs → IsDistinct xs → IsDistinct (xs ++ (y ∷ []))
IsDistinct-append y [] a d = (tt, tt)
IsDistinct-append y (x ∷ xs) a d =
    (Absent-append x.fd y xs d.0 (λ e. a.0 (sym e)), IsDistinct-append y xs a.1 d.1)

pub Handled-append :
    (store : ℕ → EventHandler) (handlers : ℕ → Option ℕ) (y : PollFd) (xs : List PollFd)
    → Handled store handlers xs
    → Handled store handlers (y ∷ [])
    → Handled store handlers (xs ++ (y ∷ []))
Handled-append store handlers y [] h k = k
Handled-append store handlers y (x ∷ xs) h k = (h.0, Handled-append store handlers y xs h.1 k)

set_events-Absent : (fd f e : ℕ) (xs : List PollFd) → Absent fd xs → Absent fd (set_events f e xs)
unfolding set_events
set_events-Absent fd f e [] a = tt
set_events-Absent fd f e (x ∷ xs) a = elim (Bool-cases (x.fd == f)) [
  | inl y ↦ rw y a
  | inr n ↦ rw n (a.0, set_events-Absent fd f e xs a.1)
]

pub Absent-set_events :
    (fd f e : ℕ) (xs : List PollFd) → Absent fd (set_events f e xs) → Absent fd xs
unfolding set_events
Absent-set_events fd f e [] a = tt
Absent-set_events fd f e (x ∷ xs) a = elim (Bool-cases (x.fd == f)) [
  | inl y ↦ rw y at a
  | inr n ↦ let b = rw n at a in (b.0, Absent-set_events fd f e xs b.1)
]

pub set_events-IsDistinct :
    (f e : ℕ) (xs : List PollFd) → IsDistinct xs → IsDistinct (set_events f e xs)
unfolding set_events
set_events-IsDistinct f e [] d = tt
set_events-IsDistinct f e (x ∷ xs) d = elim (Bool-cases (x.fd == f)) [
  | inl y ↦ rw y d
  | inr n ↦ rw n (set_events-Absent x.fd f e xs d.0, set_events-IsDistinct f e xs d.1)
]

pub set_events-Handled :
    (store : ℕ → EventHandler) (handlers : ℕ → Option ℕ) (f e : ℕ) (xs : List PollFd)
    → Handled store handlers xs
    → Handled store handlers (set_events f e xs)
unfolding set_events
set_events-Handled store handlers f e [] h = tt
set_events-Handled store handlers f e (x ∷ xs) h = elim (Bool-cases (x.fd == f)) [
  | inl y ↦ rw y h
  | inr n ↦ rw n (h.0, set_events-Handled store handlers f e xs h.1)
]
