-- ===== src/Poller/Tests.antt =====
-- The poller at concrete values.
use websocket_cpp.Base.{
  ℕ, ◌≡◌, ◌≢◌, ◌==◌, refl, [], ◌∷◌, if◌then◌else◌, none, some, ok, take, arith,
}
use websocket_cpp.Poller.{
  EventHandler, SelectPoller, on_read, hand_event, find_active, register_ev_handler,
}
use websocket_cpp.Poller.Registry.{IsValid, active, find_active_lem}
use websocket_cpp.Poller.Updates.{register_ev_handler_lem}

-- The handler at `n` is one of descriptor `n`.
abbrev store : ℕ → EventHandler
store n = record { fd = n; events = 3 }

abbrev two_fds : SelectPoller
two_fds = record {
  poll_fds =
      record { fd = 5; events = 3; revents = 1 } ∷ record { fd = 7; events = 3; revents = 4 } ∷ [];
  ev_handlers = λ fd. if fd == 5 then some 5 else if fd == 7 then some 7 else none;
}

two_fds-IsValid : IsValid store two_fds
two_fds-IsValid = record {
  distinct = (((λ e. omega arith), tt), (tt, tt));
  handled = ((5, refl, refl), ((7, refl, refl), tt));
  only = λ fd a. ground (arith, a.0, a.1.0);
}

find_active_example :
    find_active store two_fds.ev_handlers 2 two_fds.poll_fds
    ≡ ok (take 2 (active two_fds.ev_handlers two_fds.poll_fds))
find_active_example =
    find_active_lem store two_fds.ev_handlers 2 two_fds.poll_fds two_fds-IsValid.handled

register_ev_handler_example :
    let r = register_ev_handler store 9 two_fds in
    IsValid store r
    × (r.ev_handlers 9 ≡ elim (two_fds.ev_handlers 9) [ none ↦ some 9 | some old ↦ some old ])
    × ((fd : ℕ) → fd ≢ 9 → r.ev_handlers fd ≡ two_fds.ev_handlers fd)
register_ev_handler_example = register_ev_handler_lem store 9 two_fds two_fds-IsValid

-- The other end has closed, and its last data was not read.
hup_with_data : hand_event 0x11 ≡ on_read ∷ []
unfolding hand_event
hup_with_data = refl
