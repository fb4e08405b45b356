-- ===== src/Poller/Flags.antt =====
-- The events that a handler waits for: combinations of POLLIN, POLLPRI and POLLOUT.
use websocket_cpp.Base.{
  ℕ, ◌<◌, ◌≡◌, refl, Bool, true, false, not, ◌&&◌, ltb, if◌then◌else◌, passes, passes_sound, arith,
  bit_or, ltb→lt,
}
use websocket_cpp.Poller.{
  EventHandler, Change, enable_read, disable_read, enable_write, disable_write, disable_all,
  change_events, has_bits, pollin, pollpri, pollout,
}

-- Whether the handler waits for reading, and for writing, after a change, given whether it did before.
abbrev pub reads_after : Change → Bool → Bool
reads_after enable_read b = true
reads_after disable_read b = false
reads_after enable_write b = b
reads_after disable_write b = b
reads_after disable_all b = false

abbrev pub writes_after : Change → Bool → Bool
writes_after enable_read b = b
writes_after disable_read b = b
writes_after enable_write b = true
writes_after disable_write b = false
writes_after disable_all b = false

abbrev pub reads : ℕ → Bool
reads events = has_bits events (bit_or pollin pollpri)

abbrev pub writes : ℕ → Bool
writes events = has_bits events pollout

abbrev same : Bool → Bool → Bool
same a b = if a then b else not b

abbrev after : Change → ℕ → ℕ
after ch events = (change_events ch (record { fd = 0; events = events })).events

abbrev agrees : Change → ℕ → Bool
agrees ch events =
    ltb (after ch events) 8
    && (same (reads (after ch events)) (reads_after ch (reads events))
        && same (writes (after ch events)) (writes_after ch (writes events)))

-- By evaluation on the eight combinations.
all_agree : (ch : Change) → passes (agrees ch) 8 ≡ true
unfolding passes change_events
all_agree enable_read = refl
all_agree disable_read = refl
all_agree enable_write = refl
all_agree disable_write = refl
all_agree disable_all = refl

same_sound : (a b : Bool) → same a b ≡ true → a ≡ b
same_sound a b h = ground arith

and_sound : (a b : Bool) → (a && b) ≡ true → (a ≡ true) × (b ≡ true)
and_sound a b h = ground arith

change_events_record :
    (ch : Change) (e : EventHandler) → (change_events ch e).events ≡ after ch e.events
unfolding change_events
change_events_record enable_read e = refl
change_events_record disable_read e = refl
change_events_record enable_write e = refl
change_events_record disable_write e = refl
change_events_record disable_all e = refl

-- Each of the five changes sets or clears what it names, and leaves the other direction as it was. The
-- events are a combination of POLLIN, POLLPRI and POLLOUT, and stay one.
pub change_events_lem :
    (ch : Change) (e : EventHandler)
    → e.events < 8
    → let f = change_events ch e in
      (f.events < 8)
      × (reads f.events ≡ reads_after ch (reads e.events))
      × (writes f.events ≡ writes_after ch (writes e.events))
change_events_lem ch e small =
    let ok = passes_sound (agrees ch) 8 e.events small (all_agree ch) in
    let (a, bc) = and_sound _ _ ok in
    let (b, c) = and_sound _ _ bc in
    rw (change_events_record ch e) (ltb→lt _ 8 a, same_sound _ _ b, same_sound _ _ c)
