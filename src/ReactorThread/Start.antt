-- ===== src/ReactorThread/Start.antt =====
-- `startLoop` returns, and what happens where the thread cannot be created.
use websocket_cpp.Base.{
  ℕ, zero, suc, ◌+◌, ◌<◌, ◌≡◌, refl, Bool, true, false, if◌then◌else◌, Result, ok, arith,
}
use websocket_cpp.ReactorThread.{
  ReactorThread, Owner, at_start, wants_lock, waiting, unlocked, returned, quitting, joining, gone,
  Worker, absent, created, looping, leaving, ended,
}
use websocket_cpp.ReactorThread.Steps.{
  Step, starts, tests, returns, publishes, quits, leaves, ends, unused, destroys, wakes, joins,
  spurious, Reach, next, stray, Later, now, step, stray_step,
}
use websocket_cpp.ReactorThread.Shapes.{IsSound, Reach-IsSound}

-- What every step makes smaller
abbrev owner_left : Owner → ℕ
owner_left at_start = 30
owner_left wants_lock = 7
owner_left waiting = 6
owner_left unlocked = 5
owner_left (returned p) = 4
owner_left quitting = 3
owner_left joining = 2
owner_left gone = 0

abbrev worker_left : Worker → ℕ
worker_left absent = 0
worker_left created = 10
worker_left looping = 3
worker_left leaving = 2
worker_left ended = 1

abbrev left : ReactorThread → ℕ
left s = owner_left s.owner + worker_left s.worker + (if s.quit then 0 else 1)

Step-left : {s t : ReactorThread} → Step true s (ok t) → IsSound true s → left t < left s
Step-left (starts o e) v = ground arith
Step-left (tests o) v = ground arith
Step-left (returns o) v = ground arith
Step-left (publishes w) v = ground arith
Step-left (quits w q) v = ground arith
Step-left (leaves w q) v = ground arith
Step-left (ends w) v = ground arith
Step-left (unused o e) v = ground arith
Step-left (destroys p o e) v = ground arith
Step-left (wakes o e) v = ground arith
Step-left (joins o w e) v = ground arith

-- Inside `startLoop` or the destructor
abbrev pub busy : Owner → Bool
busy at_start = false
busy (returned p) = false
busy gone = false
busy _ = true

-- The owner has not begun, has the loop, or is done, with no handle of pthread left; or it is in one of its
-- functions, and some thread can go on.
pub data Stands (s : ReactorThread) : Type 0 where
  not_begun : s.owner ≡ at_start → Stands s
  has_loop : s.owner ≡ returned true → s.loop ≡ true → Stands s
  done : s.owner ≡ gone → s.thread.handles ≡ 0 → Stands s
  moves : (r : Result ReactorThread) → busy s.owner ≡ true → Step true s r → Stands s

-- Every run from here ends, and all along the owner stands well.
pub data Ends : ReactorThread → Type 0 where
  all_end :
      (s : ReactorThread) → Stands s → ((t : ReactorThread) → Step true s (ok t) → Ends t) → Ends s

joins_stand :
    (s : ReactorThread) (w : Worker) → s.worker ≡ w → s.owner ≡ joining → IsSound true s → Stands s
joins_stand s absent w o v = absurd (ground arith)
joins_stand s created w o v = absurd (ground arith)
joins_stand s looping w o v = moves _ (rw o refl) (leaves w (ground arith))
joins_stand s leaving w o v = moves _ (rw o refl) (ends w)
joins_stand s ended w o v = moves _ (rw o refl) (joins o w refl)

stands_at : (s : ReactorThread) (o : Owner) → s.owner ≡ o → IsSound true s → Stands s
stands_at s at_start o v = not_begun o
stands_at s wants_lock o v = moves _ (rw o refl) (tests o)
stands_at s waiting o v = moves _ (rw o refl) (publishes (ground arith))
stands_at s unlocked o v = moves _ (rw o refl) (returns o)
stands_at s (returned true) o v = has_loop o (ground arith)
stands_at s (returned false) o v = absurd (ground arith)
stands_at s quitting o v = moves _ (rw o refl) (wakes o refl)
stands_at s joining o v = joins_stand s s.worker refl o v
stands_at s gone o v = done o (ground arith)

Ends-below : (n : ℕ) (s : ReactorThread) → left s < n → Reach true s → Ends s
Ends-below zero s h r = elim h [ ]
Ends-below (suc n) s h r =
    let v = Reach-IsSound r in
    all_end s (stands_at s s.owner refl v)
      (λ t st. Ends-below n t (let d = Step-left st v in omega arith) (next r st))

-- Where `pthread_create` answers 0: from every state that the owner and the thread reach, every run ends,
-- if `wait` does not return without a notification any more. All along a call of `startLoop` or of the
-- destructor that has not returned is not stuck: one of the two threads has a step. What `startLoop`
-- returns is the reactor, never NULL, and behind the destructor no handle of pthread is left.
pub start_loop-Ends : {s : ReactorThread} → Reach true s → Ends s
start_loop-Ends {s} r = Ends-below (left s + 1) s (omega arith) r

-- Before the lock, in `wait`, or behind the lock of `startLoop`
abbrev pub in_start_loop : Owner → Bool
in_start_loop wants_lock = true
in_start_loop waiting = true
in_start_loop unlocked = true
in_start_loop _ = false

Step-in_start_loop :
    {s t : ReactorThread}
    → Step false s (ok t)
    → IsSound false s
    → in_start_loop s.owner ≡ true
    → in_start_loop t.owner ≡ true
Step-in_start_loop (starts o e) v i = ground arith
Step-in_start_loop (tests o) v i = ground arith
Step-in_start_loop (returns o) v i = ground arith
Step-in_start_loop (publishes w) v i = ground arith
Step-in_start_loop (quits w q) v i = i
Step-in_start_loop (leaves w q) v i = i
Step-in_start_loop (ends w) v i = i
Step-in_start_loop (unused o e) v i = ground arith
Step-in_start_loop (destroys p o e) v i = ground arith
Step-in_start_loop (wakes o e) v i = ground arith
Step-in_start_loop (joins o w e) v i = ground arith

hangs_on :
    {s t : ReactorThread}
    → Reach false s
    → in_start_loop s.owner ≡ true
    → Later false s t
    → Reach false t × (in_start_loop t.owner ≡ true)
hangs_on r i now = (r, i)
hangs_on r i (step l st) =
    let (q, j) = hangs_on r i l in (next q st, Step-in_start_loop st (Reach-IsSound q) j)
hangs_on r i (stray_step l (spurious o)) =
    let (q, j) = hangs_on r i l in (stray q (spurious o), refl)

-- Where `pthread_create` fails, `start` prints an error and `startLoop` waits for a thread that does not
-- exist: once in `startLoop` the owner is in it in every state that comes later.
pub failed_create_hangs :
    {s t : ReactorThread}
    → Reach false s
    → in_start_loop s.owner ≡ true
    → Later false s t
    → in_start_loop t.owner ≡ true
failed_create_hangs r i l = (hangs_on r i l).1
