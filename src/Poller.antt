-- ===== src/Poller.antt =====
-- `SelectPoller` of base/SelectPoller.cpp and `EventHandler` of base/EventHandler.h and
-- base/EventHandler.cpp. An `EventHandler*` is a number, and `store` what the handlers hold. File
-- descriptors are not negative.
pub mod Flags
pub mod Registry
pub mod Changes
pub mod Updates
mod Tests
use websocket_cpp.Base.{
  ℕ, zero, suc, ◌+◌, ◌-◌, ◌^◌, List, [], ◌∷◌, ◌++◌, Bool, true, false, not, ◌&&◌, bit_and, bit_or,
  ltb, ◌==◌, if◌then◌else◌, Option, none, some, Result, ok, err, aborted, ◌>>=◌, ◌>>◌, assert,
}

-- The flags of poll.h
abbrev pub pollin : ℕ
pollin = 0x1

abbrev pub pollpri : ℕ
pollpri = 0x2

abbrev pub pollout : ℕ
pollout = 0x4

abbrev pub pollerr : ℕ
pollerr = 0x8

abbrev pub pollhup : ℕ
pollhup = 0x10

abbrev pub pollnval : ℕ
pollnval = 0x20

abbrev pub pollrdhup : ℕ
pollrdhup = 0x2000

-- The members of `EventHandler` that the poller reads.
pub record EventHandler : Type 0 where
  pub fd : ℕ
  pub events : ℕ

-- `events_ &= ~flags` on an `int` that is not negative
abbrev pub clear_bits : ℕ → ℕ → ℕ
clear_bits events flags = bit_and events (2 ^ 31 - 1 - flags)

pub data Change : Type 0 where
  enable_read disable_read enable_write disable_write disable_all : Change

-- `enableRead`, `disableRead`, `enableWrite`, `disableWrite` and `disableAll`, before their `update`
pub change_events : Change → EventHandler → EventHandler
change_events enable_read e = record e { events = bit_or e.events (bit_or pollin pollpri) }
change_events disable_read e = record e { events = clear_bits e.events (bit_or pollin pollpri) }
change_events enable_write e = record e { events = bit_or e.events pollout }
change_events disable_write e = record e { events = clear_bits e.events pollout }
change_events disable_all e = record e { events = 0 }

pub data Callback : Type 0 where
  on_close on_error on_read on_write : Callback

abbrev pub has_bits : ℕ → ℕ → Bool
has_bits revents flags = ltb 0 (bit_and revents flags)

-- `handEvent`: the callbacks whose conditions hold, in order; one that is not set does nothing.
unfoldable pub hand_event : ℕ → List Callback
hand_event revents =
    (if has_bits revents pollhup && not (has_bits revents pollin) then on_close ∷ [] else [])
    ++ ((if has_bits revents (bit_or pollerr pollnval) then on_error ∷ [] else [])
        ++ ((if has_bits revents (bit_or pollin (bit_or pollpri pollrdhup))
              then on_read ∷ []
              else [])
            ++ (if has_bits revents pollout then on_write ∷ [] else [])))

-- `struct pollfd`
pub record PollFd : Type 0 where
  pub fd : ℕ
  pub events : ℕ
  pub revents : ℕ

pub record SelectPoller : Type 0 where
  pub poll_fds : List PollFd
  pub ev_handlers : ℕ → Option ℕ

pub set_handler : (ℕ → Option ℕ) → ℕ → Option ℕ → ℕ → Option ℕ
set_handler handlers fd o k = if k == fd then o else handlers k

-- The loop of `registerEvHandler` over the descriptors that are there.
pub set_events : ℕ → ℕ → List PollFd → List PollFd
set_events fd events [] = []
set_events fd events (x ∷ xs) =
    if x.fd == fd
    then record x { events = events; revents = 0 } ∷ xs
    else x ∷ set_events fd events xs

pub register_ev_handler : (ℕ → EventHandler) → ℕ → SelectPoller → SelectPoller
register_ev_handler store ptr p = elim (p.ev_handlers (store ptr).fd) [
  | none ↦ record {
    poll_fds =
        p.poll_fds
        ++ (record { fd = (store ptr).fd; events = (store ptr).events; revents = 0 } ∷ []);
    ev_handlers = set_handler p.ev_handlers (store ptr).fd (some ptr);
  }
  | some old ↦ record p { poll_fds = set_events (store ptr).fd (store ptr).events p.poll_fds }
]

-- `pollFds_.erase` of the first one with that descriptor
pub remove_fd : ℕ → List PollFd → List PollFd
remove_fd fd [] = []
remove_fd fd (x ∷ xs) = if x.fd == fd then xs else x ∷ remove_fd fd xs

pub remove_ev_handler : (ℕ → EventHandler) → ℕ → SelectPoller → SelectPoller
remove_ev_handler store ptr p = elim (p.ev_handlers (store ptr).fd) [
  | none ↦ p
  | some old ↦ record {
    poll_fds = remove_fd (store ptr).fd p.poll_fds;
    ev_handlers = set_handler p.ev_handlers (store ptr).fd none;
  }
]

-- `findActiveEvHandlers` after `poll` has set `revents`: the active handlers with their events.
pub find_active : (ℕ → EventHandler) → (ℕ → Option ℕ) → ℕ → List PollFd → Result (List (ℕ × ℕ))
find_active store handlers ev_num [] = ok []
find_active store handlers zero (x ∷ xs) = ok []
find_active store handlers (suc ev_num) (x ∷ xs) =
    let skip = find_active store handlers (suc ev_num) xs in
    let more = find_active store handlers ev_num xs in
    if ltb 0 x.revents
    then elim (handlers x.fd) [
      | none ↦ err aborted
      | some ptr ↦ do assert ((store ptr).fd == x.fd); rest ← more; ok ((ptr, x.revents) ∷ rest)
    ]
    else skip
