-- ===== src/TimerQueue/Events.antt =====
-- `eventRead`, `addTimer`, `delTimerInLoop` and the constructor on a valid queue.
use websocket_cpp.Base.{
  ℕ, ◌<◌, ◌≡◌, refl, ap, sym, ◌∙◌, List, [], ◌∷◌, ◌++◌, map, Bool, if◌then◌else◌, arith, Bool-cases,
  ◌⊎◌, inl, inr, none, some, ok, err, faulted, ==_iff, lt→ltb, le→ltb,
}
use native.Mathlib.Decide.{dec_lt}
use websocket_cpp.TimerQueue.{
  empty_queue, sentinel, TimerQueue, Timer, TimerEntity, get_expire_timer, deref, valid, rearm,
  reset_expired, reset_timer_fd, event_read, add_timer, new_timer_queue,
}
use websocket_cpp.TimerQueue.Order.{All}
use websocket_cpp.TimerQueue.Live.{Apart, IsDistinct, IsLive, IsValid, insert_lem}
use websocket_cpp.TimerQueue.Changes.{
  IsOut, deref_eq, restart_all_lem, expire_together, split_valid, reset_timer_fd-IsValid,
}

rearm_lem :
    (now : ℕ) (q : TimerQueue) (xs : List TimerEntity)
    → IsValid q
    → All (IsLive q.heap) xs
    → (r : TimerQueue) × (rearm now q xs ≡ ok r) × IsValid r
unfolding rearm
rearm_lem now q [] v l = (q, refl, v)
rearm_lem now q (x ∷ xs) v l =
    let (t, held, at) = l.0 in
    elim (Bool-cases (valid t.expiration)) [
      | inl y ↦ (
        reset_timer_fd now q t.expiration,
        rw (rearm, deref_eq q x.ptr t held, y) refl,
        reset_timer_fd-IsValid now q t.expiration v,
      )
      | inr n ↦ (q, rw (rearm, deref_eq q x.ptr t held, n) refl, v)
    ]

reset_expired_lem :
    (now : ℕ) (q : TimerQueue) (es : List TimerEntity)
    → IsValid q
    → IsDistinct es
    → IsOut q es
    → (r : TimerQueue) × (reset_expired now q es ≡ ok r) × IsValid r
unfolding reset_expired
reset_expired_lem now q es v d out =
    let (s, e1, vs) = restart_all_lem now q es v d out in
    let (r, e2, vr) = rearm_lem now s s.timer_lists vs vs.live in
    (r, rw (reset_expired, e1, e2) refl, vr)

deref-none : (q : TimerQueue) (ptr : ℕ) → q.heap ptr ≡ none → deref q ptr ≡ err faulted
unfolding deref
deref-none q ptr h = rw (deref, h) refl

-- `eventRead` on a valid queue, at any time: it reads no deleted timer, runs the timers that
-- `getExpireTimer` takes, and leaves a valid queue.
pub event_read_lem :
    (evtime now : ℕ) (q : TimerQueue)
    → IsValid q
    → (r : TimerQueue) × (event_read evtime now q
        ≡ ok (map (λ x. x.ptr) (get_expire_timer q evtime).0, r))
      × IsValid r
unfolding event_read
event_read_lem evtime now q v = go (get_expire_timer q evtime).0 refl
  where
    s : TimerQueue
    s = (get_expire_timer q evtime).1

    parts :
        (es : List TimerEntity)
        → (get_expire_timer q evtime).0 ≡ es
        → IsValid s × IsDistinct es × IsOut s es
    parts es e =
        split_valid q s es (ap (λ t. t ++ s.timer_lists) (sym e) ∙ (expire_together q evtime).0)
          (expire_together q evtime).1 v

    go :
        (es : List TimerEntity)
        → (get_expire_timer q evtime).0 ≡ es
        → (r : TimerQueue) × (event_read evtime now q
            ≡ ok (map (λ x. x.ptr) (get_expire_timer q evtime).0, r))
          × IsValid r
    go [] e = (s, rw (event_read, e) refl, (parts [] e).0)
    go (x ∷ xs) e =
        let (vs, d, out) = parts (x ∷ xs) e in
        let (r, er, vr) = reset_expired_lem now s (x ∷ xs) vs d out in
        (r, rw (event_read, e, er) refl, vr)

-- `addTimer` of an allocated timer that is not in the queue keeps the queue valid if the timer's time
-- is valid. Otherwise `insert` deletes the timer, and `addTimer` reads it after that.
pub add_timer_lem :
    (now : ℕ) (q : TimerQueue) (ptr : ℕ) (t : Timer)
    → IsValid q
    → q.heap ptr ≡ some t
    → Apart ptr q.timer_lists
    → ((0 < t.expiration) × (r : TimerQueue) × (add_timer now q ptr ≡ ok r) × IsValid r)
      ⊎ ((t.expiration ≡ 0) × (add_timer now q ptr ≡ err faulted))
unfolding add_timer
add_timer_lem now q ptr t v held a =
    let (c, r, e, i, after) = insert_lem q ptr t v held a in
    elim (dec_lt 0 t.expiration) [
      | yes y ↦
          let still : r.heap ptr ≡ some t =
            after ∙ ap (λ b. if b then some t else none) (lt→ltb 0 t.expiration y) in
          elim (Bool-cases c) [
            | inl d ↦ inl (
              y,
              reset_timer_fd now r t.expiration,
              rw (add_timer, deref_eq q ptr t held, e, deref_eq r ptr t still, d) refl,
              reset_timer_fd-IsValid now r t.expiration i.keeps,
            )
            | inr d ↦ inl (
              y,
              r,
              rw (add_timer, deref_eq q ptr t held, e, deref_eq r ptr t still, d) refl,
              i.keeps,
            )
          ]
      | no n ↦
          let gone : r.heap ptr ≡ none =
            after ∙ ap (λ b. if b then some t else none) (le→ltb 0 t.expiration (omega arith)) in
          inr (omega arith, rw (add_timer, deref_eq q ptr t held, e, deref-none r ptr gone) refl)
    ]

-- The constructor makes a valid queue.
pub new_timer_queue_lem :
    (now : ℕ) (bsetup : Bool) (ptr : ℕ)
    → (q : TimerQueue) × (new_timer_queue now bsetup ptr ≡ ok q) × IsValid q
unfolding new_timer_queue
new_timer_queue_lem now bsetup ptr =
    elim (add_timer_lem now (empty_queue now bsetup ptr) ptr (sentinel now)
      (record { sorted = tt; distinct = tt; live = tt }) (rw ((==_iff ptr ptr).1 refl) refl) tt) [
        | inl (y, r, e, v) ↦ (r, rw (new_timer_queue, e) refl, v)
        | inr (z, e) ↦ absurd (omega arith)
      ]
