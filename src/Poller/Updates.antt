-- ===== src/Poller/Updates.antt =====
-- `registerEvHandler` and `removeEvHandler` keep the poller valid.
use websocket_cpp.Base.{
  ℕ, ◌≡◌, ◌≢◌, refl, sym, subst, ◌∙◌, List, [], ◌∷◌, false, ◌==◌, Option, none, some, Option-cases,
  Bool-cases, ==_iff, inl, inr, arith,
}
use websocket_cpp.Poller.{
  EventHandler, PollFd, SelectPoller, set_handler, register_ev_handler, remove_fd,
  remove_ev_handler,
}
use websocket_cpp.Poller.Registry.{Absent, IsDistinct, Handled, IsValid}
use websocket_cpp.Poller.Changes.{
  set_handler_same, set_handler_other, Handled-set_handler, none-Absent, append-Absent,
  IsDistinct-append, Handled-append, Absent-set_events, set_events-IsDistinct, set_events-Handled,
}

-- `registerEvHandler` keeps the poller valid; the handler's descriptor has a handler after that, which is
-- the given one unless there was one, and other descriptors keep theirs.
pub register_ev_handler_lem :
    (store : ℕ → EventHandler) (ptr : ℕ) (p : SelectPoller)
    → IsValid store p
    → let r = register_ev_handler store ptr p in
      IsValid store r
      × (r.ev_handlers (store ptr).fd
          ≡ elim (p.ev_handlers (store ptr).fd) [ none ↦ some ptr | some old ↦ some old ])
      × ((fd : ℕ) → fd ≢ (store ptr).fd → r.ev_handlers fd ≡ p.ev_handlers fd)
unfolding register_ev_handler
register_ev_handler_lem store ptr p v = elim (Option-cases (p.ev_handlers (store ptr).fd)) [
  | inl e ↦
      let fd = (store ptr).fd in
      let y : PollFd = record { fd = fd; events = (store ptr).events; revents = 0 } in
      let a = none-Absent store p.ev_handlers fd p.poll_fds v.handled e in
      let handlers = set_handler p.ev_handlers fd (some ptr) in
      rw (register_ev_handler, e)
        (
          record {
            distinct = IsDistinct-append y p.poll_fds a v.distinct;
            handled =
                Handled-append store handlers y p.poll_fds
                  (Handled-set_handler store p.ev_handlers fd (some ptr) p.poll_fds a v.handled)
                  ((ptr, set_handler_same p.ev_handlers fd (some ptr), refl), tt);
            only = λ k b.
                let (c, n) = append-Absent k y p.poll_fds b in
                set_handler_other p.ev_handlers fd k (some ptr) (λ q. n (sym q)) ∙ v.only k c;
          },
          set_handler_same p.ev_handlers fd (some ptr),
          (λ k n. set_handler_other p.ev_handlers fd k (some ptr) n),
        )
  | inr (old, e) ↦
      let fd = (store ptr).fd in
      rw (register_ev_handler, e)
        (
          record {
            distinct = set_events-IsDistinct fd (store ptr).events p.poll_fds v.distinct;
            handled =
                set_events-Handled store p.ev_handlers fd (store ptr).events p.poll_fds v.handled;
            only = λ k b. v.only k (Absent-set_events k fd (store ptr).events p.poll_fds b);
          },
          e,
          (λ k n. refl),
        )
]

remove_fd-Absent : (k fd : ℕ) (xs : List PollFd) → Absent k xs → Absent k (remove_fd fd xs)
unfolding remove_fd
remove_fd-Absent k fd [] a = tt
remove_fd-Absent k fd (x ∷ xs) a = elim (Bool-cases (x.fd == fd)) [
  | inl y ↦ rw y a.1
  | inr n ↦ rw n (a.0, remove_fd-Absent k fd xs a.1)
]

Absent-remove_fd : (k fd : ℕ) (xs : List PollFd) → k ≢ fd → Absent k (remove_fd fd xs) → Absent k xs
unfolding remove_fd
Absent-remove_fd k fd [] n a = tt
Absent-remove_fd k fd (x ∷ xs) n a = elim (Bool-cases (x.fd == fd)) [
  | inl y ↦ ((λ e. n (sym e ∙ (==_iff x.fd fd).0 y)), rw y at a)
  | inr m ↦ let b = rw m at a in (b.0, Absent-remove_fd k fd xs n b.1)
]

differs : (a b : ℕ) → (a == b) ≡ false → a ≢ b
differs a b h = ground arith

remove_fd-IsDistinct :
    (fd : ℕ) (xs : List PollFd)
    → IsDistinct xs
    → IsDistinct (remove_fd fd xs) × Absent fd (remove_fd fd xs)
unfolding remove_fd
remove_fd-IsDistinct fd [] d = (tt, tt)
remove_fd-IsDistinct fd (x ∷ xs) d = elim (Bool-cases (x.fd == fd)) [
  | inl y ↦ rw y (d.1, subst (λ k. Absent k xs) ((==_iff x.fd fd).0 y) d.0)
  | inr n ↦
      let (e, a) = remove_fd-IsDistinct fd xs d.1 in
      rw n ((remove_fd-Absent x.fd fd xs d.0, e), (differs x.fd fd n, a))
]

remove_fd-Handled :
    (store : ℕ → EventHandler) (handlers : ℕ → Option ℕ) (fd : ℕ) (xs : List PollFd)
    → Handled store handlers xs
    → Handled store handlers (remove_fd fd xs)
unfolding remove_fd
remove_fd-Handled store handlers fd [] h = tt
remove_fd-Handled store handlers fd (x ∷ xs) h = elim (Bool-cases (x.fd == fd)) [
  | inl y ↦ rw y h.1
  | inr n ↦ rw n (h.0, remove_fd-Handled store handlers fd xs h.1)
]

-- `removeEvHandler` keeps the poller valid; the handler's descriptor is not polled after that and has no
-- handler, and other descriptors keep theirs.
pub remove_ev_handler_lem :
    (store : ℕ → EventHandler) (ptr : ℕ) (p : SelectPoller)
    → IsValid store p
    → let r = remove_ev_handler store ptr p in
      IsValid store r
      × Absent (store ptr).fd r.poll_fds
      × (r.ev_handlers (store ptr).fd ≡ none)
      × ((fd : ℕ) → fd ≢ (store ptr).fd → r.ev_handlers fd ≡ p.ev_handlers fd)
unfolding remove_ev_handler
remove_ev_handler_lem store ptr p v = elim (Option-cases (p.ev_handlers (store ptr).fd)) [
  | inl e ↦
      rw (remove_ev_handler, e)
        (
          record { distinct = v.distinct; handled = v.handled; only = v.only },
          none-Absent store p.ev_handlers (store ptr).fd p.poll_fds v.handled e,
          e,
          (λ k n. refl),
        )
  | inr (old, e) ↦
      let fd = (store ptr).fd in
      let (d, a) = remove_fd-IsDistinct fd p.poll_fds v.distinct in
      rw (remove_ev_handler, e)
        (
          record {
            distinct = d;
            handled =
                Handled-set_handler store p.ev_handlers fd none (remove_fd fd p.poll_fds) a
                  (remove_fd-Handled store p.ev_handlers fd p.poll_fds v.handled);
            only = λ k b. elim (Bool-cases (k == fd)) [
              | inl y ↦ rw ((==_iff k fd).0 y) (set_handler_same p.ev_handlers fd none)
              | inr n ↦
                  set_handler_other p.ev_handlers fd k none (differs k fd n)
                  ∙ v.only k (Absent-remove_fd k fd p.poll_fds (differs k fd n) b)
            ];
          },
          a,
          set_handler_same p.ev_handlers fd none,
          (λ k n. set_handler_other p.ev_handlers fd k none n),
        )
]
