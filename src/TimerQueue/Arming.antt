-- ===== src/TimerQueue/Arming.antt =====
-- The timer descriptor follows the first timer of the queue.
use websocket_cpp.Base.{
  ℕ, ◌<◌, ◌≡◌, ◌++◌, refl, ap, sym, subst, ◌∙◌, List, [], ◌∷◌, map, Bool, true, false, lt→ltb,
  ltb→lt, err, if◌then◌else◌, Option, none, some, Result, ok, ◌>>=◌, arith, Bool-cases, >>=-eq-ok,
  inl, inr,
}
use websocket_cpp.TimerQueue.{
  TimerQueue, Timer, TimerEntity, how_much_time_from_now, reset_timer_fd, insert_entity,
  is_earliest, before, insert, update, deref, valid, restart_timer, restart_all, rearm,
  reset_expired, add_timer, get_expire_timer, from_bound, bound_at, event_read, has_ptr, remove_ptr,
  rearm_first, del_timer_in_loop,
}
use websocket_cpp.TimerQueue.Order.{All, All-insert_entity}
use websocket_cpp.TimerQueue.Expire.{All-append}
use websocket_cpp.TimerQueue.Live.{IsLive, IsValid}
use websocket_cpp.TimerQueue.Changes.{deref_eq, restart_all_lem, expire_together, split_valid}

-- The time of the first timer
abbrev pub first_time : List TimerEntity → Option ℕ
first_time [] = none
first_time (x ∷ xs) = some x.time

-- From one queue to another at the time `now`: the descriptor was set then for the first timer, or was
-- left alone and the time of the first timer has not changed, or there is no timer.
pub data Follows (now : ℕ) (q r : TimerQueue) : Type 0 where
  set_for :
      (tm : ℕ)
      → first_time r.timer_lists ≡ some tm
      → r.armed ≡ how_much_time_from_now now tm
      → r.armed_at ≡ now
      → Follows now q r
  kept :
      first_time r.timer_lists ≡ first_time q.timer_lists
      → r.armed ≡ q.armed
      → r.armed_at ≡ q.armed_at
      → Follows now q r
  nothing : r.timer_lists ≡ [] → Follows now q r

-- The descriptor was set once, and all times are valid.
pub record IsUsable (q : TimerQueue) : Type 0 where
  pub was_set : q.bsetup ≡ true
  pub times : All (λ x. 0 < x.time) q.timer_lists

reset_timer_fd_eq :
    (now : ℕ) (q : TimerQueue) (tm : ℕ)
    → q.bsetup ≡ true
    → reset_timer_fd now q tm ≡ record q { armed = how_much_time_from_now now tm; armed_at = now }
unfolding reset_timer_fd
reset_timer_fd_eq now q tm h = rw h refl

first_earliest :
    (e : TimerEntity) (xs : List TimerEntity)
    → is_earliest e.time xs ≡ true
    → first_time (insert_entity e xs) ≡ some e.time
unfolding insert_entity is_earliest before
first_earliest e [] h = refl
first_earliest e (x ∷ xs) h = ground arith

first_later :
    (e : TimerEntity) (xs : List TimerEntity)
    → is_earliest e.time xs ≡ false
    → first_time (insert_entity e xs) ≡ first_time xs
unfolding insert_entity is_earliest before
first_later e [] h = cc h
first_later e (x ∷ xs) h = ground arith

-- `insert` of a timer with a valid time
pub insert_eq :
    (q : TimerQueue) (ptr : ℕ) (t : Timer)
    → q.heap ptr ≡ some t
    → 0 < t.expiration
    → insert q ptr
      ≡ ok (
        is_earliest t.expiration q.timer_lists,
        record q {
          timer_lists = insert_entity (record { time = t.expiration; ptr = ptr }) q.timer_lists;
        },
      )
unfolding insert
insert_eq q ptr t held pos = rw (insert, deref_eq q ptr t held, lt→ltb 0 t.expiration pos) refl

pub add_timer-Follows :
    (now : ℕ) (q : TimerQueue) (ptr : ℕ) (t : Timer)
    → q.heap ptr ≡ some t
    → 0 < t.expiration
    → IsUsable q
    → (r : TimerQueue) × (add_timer now q ptr ≡ ok r) × Follows now q r × IsUsable r
unfolding add_timer
add_timer-Follows now q ptr t held pos s =
    let e : TimerEntity = record { time = t.expiration; ptr = ptr } in
    let r : TimerQueue = record q { timer_lists = insert_entity e q.timer_lists } in
    let times = All-insert_entity (λ x. 0 < x.time) e q.timer_lists pos s.times in
    elim (Bool-cases (is_earliest t.expiration q.timer_lists)) [
      | inl y ↦ (
        record r { armed = how_much_time_from_now now t.expiration; armed_at = now },
        rw (add_timer, deref_eq q ptr t held, insert_eq q ptr t held pos, deref_eq r ptr t held, y)
            (ap ok (reset_timer_fd_eq now r t.expiration s.was_set)),
        set_for t.expiration (first_earliest e q.timer_lists y) refl refl,
        record { was_set = s.was_set; times = times },
      )
      | inr n ↦ (
        r,
        rw (add_timer, deref_eq q ptr t held, insert_eq q ptr t held pos, deref_eq r ptr t held, n)
            refl,
        kept (first_later e q.timer_lists n) refl refl,
        record { was_set = s.was_set; times = times },
      )
    ]

rearm_first-Follows :
    (now : ℕ) (p q : TimerQueue) (xs : List TimerEntity)
    → q.timer_lists ≡ xs
    → q.bsetup ≡ true
    → Follows now p (rearm_first now q xs)
unfolding rearm_first
rearm_first-Follows now p q [] e h = nothing e
rearm_first-Follows now p q (x ∷ xs) e h =
    rw (reset_timer_fd_eq now q x.time h) (set_for x.time (ap first_time e) refl refl)

rearm_first-IsUsable :
    (now : ℕ) (q : TimerQueue) (xs : List TimerEntity)
    → IsUsable q
    → IsUsable (rearm_first now q xs)
unfolding rearm_first
rearm_first-IsUsable now q [] s = s
rearm_first-IsUsable now q (x ∷ xs) s =
    rw (reset_timer_fd_eq now q x.time s.was_set) (record { was_set = s.was_set; times = s.times })

All-remove_ptr :
    (ptr : ℕ) (xs : List TimerEntity)
    → All (λ x. 0 < x.time) xs
    → All (λ x. 0 < x.time) (remove_ptr ptr xs)
unfolding remove_ptr
All-remove_ptr ptr [] h = tt
All-remove_ptr ptr (x ∷ xs) h = ground (arith, All-remove_ptr ptr xs)

pub del_timer_in_loop-Follows :
    (now : ℕ) (q : TimerQueue) (ptr : ℕ)
    → IsUsable q
    → Follows now q (del_timer_in_loop now q ptr) × IsUsable (del_timer_in_loop now q ptr)
unfolding del_timer_in_loop
del_timer_in_loop-Follows now q ptr s = elim (Bool-cases (has_ptr ptr q.timer_lists)) [
  | inl y ↦
      let r : TimerQueue = record q {
        timer_lists = remove_ptr ptr q.timer_lists;
        heap = update q.heap ptr none;
      } in
      rw y (
        rearm_first-Follows now q r r.timer_lists refl s.was_set,
        rearm_first-IsUsable now r r.timer_lists
            (record { was_set = s.was_set; times = All-remove_ptr ptr q.timer_lists s.times }),
      )
  | inr n ↦ rw n (kept refl refl refl, s)
]

-- The result of a run, `d` where it failed
abbrev pub value_of : {A : Type 0} → A → Result A → A
value_of d (ok v) = v
value_of d (err how) = d

inserted-IsUsable :
    (q : TimerQueue) (ptr : ℕ) (t : Timer) (b changed : Bool)
    → (b ≡ true → 0 < t.expiration)
    → IsUsable q
    → let r : Bool × TimerQueue =
        if b
        then (
          changed,
          record q {
            timer_lists = insert_entity (record { time = t.expiration; ptr = ptr }) q.timer_lists;
          },
        )
        else (false, record q { heap = update q.heap ptr none }) in
      IsUsable r.1
inserted-IsUsable q ptr t true changed pos s = record {
  was_set = s.was_set;
  times = All-insert_entity (λ x. 0 < x.time) _ q.timer_lists (pos refl) s.times;
}
inserted-IsUsable q ptr t false changed pos s = record { was_set = s.was_set; times = s.times }

insert-IsUsable :
    (q r : TimerQueue) (ptr : ℕ) → (insert q ptr >>= λ p. ok p.1) ≡ ok r → IsUsable q → IsUsable r
unfolding insert
insert-IsUsable q r ptr h s =
    let (x, a, b) = >>=-eq-ok (insert q ptr) _ h in
    let (t, d, k) = >>=-eq-ok (deref q ptr) _ a in
    let e : x.1 ≡ r = ap (value_of x.1) b in
    subst IsUsable (ap (λ (y : Result (Bool × TimerQueue)). (value_of x y).1) k ∙ e) (
      inserted-IsUsable q ptr t (valid t.expiration) (is_earliest t.expiration q.timer_lists)
        (λ y. ltb→lt 0 t.expiration y) s)

restart_one-IsUsable :
    (q p r : TimerQueue) (ptr : ℕ) (b : Bool)
    → (if b then (insert p ptr >>= λ u. ok u.1) else ok q) ≡ ok r
    → IsUsable q
    → IsUsable p
    → IsUsable r
restart_one-IsUsable q p r ptr true h s u = insert-IsUsable p r ptr h u
restart_one-IsUsable q p r ptr false h s u = let e : q ≡ r = cc in subst IsUsable e s

restart_all-IsUsable :
    (now : ℕ) (q r : TimerQueue) (es : List TimerEntity)
    → restart_all now q es ≡ ok r
    → IsUsable q
    → IsUsable r
unfolding restart_all
restart_all-IsUsable now q r [] h s = let e : q ≡ r = cc in subst IsUsable e s
restart_all-IsUsable now q r (e ∷ es) h s =
    let (t, d, h2) = >>=-eq-ok (deref q e.ptr) _ h in
    let (u, h3, h4) = >>=-eq-ok _ _ h2 in
    restart_all-IsUsable now u r es h4 (
      restart_one-IsUsable q (record q { heap = update q.heap e.ptr (some (restart_timer now t)) })
        u e.ptr t.repeat h3 s (record { was_set = s.was_set; times = s.times }))

rearm-Follows :
    (now : ℕ) (p q : TimerQueue) (xs : List TimerEntity)
    → q.timer_lists ≡ xs
    → All (IsLive q.heap) xs
    → IsUsable q
    → (r : TimerQueue) × (rearm now q xs ≡ ok r) × Follows now p r × IsUsable r
unfolding rearm
rearm-Follows now p q [] e l s = (q, refl, nothing e, s)
rearm-Follows now p q (x ∷ xs) e l s =
    let (t, held, at) = l.0 in
    let pos : 0 < t.expiration =
      rw at (subst (λ (ys : List TimerEntity). All (λ y. 0 < y.time) ys) e s.times).0 in
    (
      record q { armed = how_much_time_from_now now t.expiration; armed_at = now },
      rw (rearm, deref_eq q x.ptr t held, lt→ltb 0 t.expiration pos)
          (ap ok (reset_timer_fd_eq now q t.expiration s.was_set)),
      set_for t.expiration (ap first_time e ∙ ap some (sym at)) refl refl,
      record { was_set = s.was_set; times = s.times },
    )

get_expire_timer_set : (q : TimerQueue) (tm : ℕ) → (get_expire_timer q tm).1.bsetup ≡ q.bsetup
unfolding get_expire_timer
get_expire_timer_set q tm = go (from_bound (bound_at tm) q.timer_lists) refl
  where
    go :
        (rest : List TimerEntity)
        → from_bound (bound_at tm) q.timer_lists ≡ rest
        → (get_expire_timer q tm).1.bsetup ≡ q.bsetup
    go [] e = rw (get_expire_timer, e) refl
    go (x ∷ xs) e = rw (get_expire_timer, e) refl

event_read_eq :
    (evtime now : ℕ) (q u r : TimerQueue) (x : TimerEntity) (xs : List TimerEntity)
    → (get_expire_timer q evtime).0 ≡ x ∷ xs
    → restart_all now (get_expire_timer q evtime).1 (x ∷ xs) ≡ ok u
    → rearm now u u.timer_lists ≡ ok r
    → event_read evtime now q ≡ ok (map (λ y. y.ptr) (x ∷ xs), r)
unfolding event_read reset_expired
event_read_eq evtime now q u r x xs e e1 e2 = rw (event_read, e, reset_expired, e1, e2) refl

pub event_read-Follows :
    (evtime now : ℕ) (q : TimerQueue) (x : TimerEntity) (xs : List TimerEntity)
    → (get_expire_timer q evtime).0 ≡ x ∷ xs
    → IsValid q
    → IsUsable q
    → (r : TimerQueue) × (event_read evtime now q ≡ ok (map (λ y. y.ptr) (x ∷ xs), r))
      × Follows now q r
      × IsUsable r
event_read-Follows evtime now q x xs e v s =
    let rest = (get_expire_timer q evtime).1 in
    let (whole, same_heap) = expire_together q evtime in
    let together = ap (λ t. t ++ rest.timer_lists) (sym e) ∙ whole in
    let (vr, d, out) = split_valid q rest (x ∷ xs) together same_heap v in
    let sr : IsUsable rest = record {
      was_set = get_expire_timer_set q evtime ∙ s.was_set;
      times =
          (All-append (λ y. 0 < y.time) (x ∷ xs) rest.timer_lists
            (subst (λ (ys : List TimerEntity). All (λ y. 0 < y.time) ys) (sym together) s.times)).1;
    } in
    let (u, e1, vu) = restart_all_lem now rest (x ∷ xs) vr d out in
    let su = restart_all-IsUsable now rest u (x ∷ xs) e1 sr in
    let (r, e2, f, sr2) = rearm-Follows now q u u.timer_lists refl vu.live su in
    (r, event_read_eq evtime now q u r x xs e e1 e2, f, sr2)
