-- ===== src/TimerQueue/Changes.antt =====
-- The operations of the queue keep it valid, and read no deleted timer.
use websocket_cpp.Base.{
  ℕ, ◌≡◌, ◌≢◌, refl, ap, sym, subst, ◌∙◌, List, [], ◌∷◌, ◌++◌, true, Bool, Bool-cases, inl, inr,
  Option, some, ok,
}
use websocket_cpp.TimerQueue.{
  TimerQueue, Timer, TimerEntity, below, from_bound, bound_at, get_expire_timer, insert, update,
  deref, restart_all, restart_timer, reset_timer_fd,
}
use websocket_cpp.TimerQueue.Order.{All, All-map, IsSorted, below-from_bound}
use websocket_cpp.TimerQueue.Live.{
  Apart, IsDistinct, IsLive, IsAllocated, IsValid, insert_lem, update_same, update_other,
  IsLive-update,
}
use websocket_cpp.TimerQueue.Expire.{All-append}

pub deref_eq : (q : TimerQueue) (ptr : ℕ) (t : Timer) → q.heap ptr ≡ some t → deref q ptr ≡ ok t
unfolding deref
deref_eq q ptr t h = rw (deref, h) refl

-- Every timer of `es` is allocated, and none is in the queue.
abbrev pub IsOut : TimerQueue → List TimerEntity → Type 0
IsOut q es = All (IsAllocated q.heap) es × All (λ e. Apart e.ptr q.timer_lists) es

IsOut-insert :
    (q r : TimerQueue) (ptr : ℕ) (es : List TimerEntity)
    → ((p : ℕ) → p ≢ ptr → r.heap p ≡ q.heap p)
    → ((p : ℕ) → p ≢ ptr → Apart p q.timer_lists → Apart p r.timer_lists)
    → Apart ptr es
    → IsOut q es
    → IsOut r es
IsOut-insert q r ptr [] others apart a o = (tt, tt)
IsOut-insert q r ptr (e ∷ es) others apart a (alloc, out) =
    let (t, held) = alloc.0 in
    let (rest_alloc, rest_out) = IsOut-insert q r ptr es others apart a.1 (alloc.1, out.1) in
    (((t, others e.ptr a.0 ∙ held), rest_alloc), (apart e.ptr a.0 out.0, rest_out))

pub update_heap-IsValid :
    (q : TimerQueue) (ptr : ℕ) (o : Option Timer)
    → IsValid q
    → Apart ptr q.timer_lists
    → IsValid (record q { heap = update q.heap ptr o })
update_heap-IsValid q ptr o v a = record {
  sorted = v.sorted;
  distinct = v.distinct;
  live = IsLive-update q.heap ptr o q.timer_lists a v.live;
}

-- A timer of the expired ones is restarted, or left as it is.
restart_one :
    (now : ℕ) (q : TimerQueue) (ptr : ℕ) (t : Timer)
    → IsValid q
    → Apart ptr q.timer_lists
    → (c : Bool) × (s : TimerQueue) × (insert
          (record q { heap = update q.heap ptr (some (restart_timer now t)) })
          ptr
        ≡ ok (c, s))
      × IsValid s
      × ((p : ℕ) → p ≢ ptr → s.heap p ≡ q.heap p)
      × ((p : ℕ) → p ≢ ptr → Apart p q.timer_lists → Apart p s.timer_lists)
restart_one now q ptr t v a =
    let o = some (restart_timer now t) in
    let q1 : TimerQueue = record q { heap = update q.heap ptr o } in
    let (c, s, e, i, _) =
      insert_lem q1 ptr (restart_timer now t) (update_heap-IsValid q ptr o v a)
        (update_same q.heap ptr o) a in
    (c, s, e, i.keeps, (λ p n. i.others p n ∙ update_other q.heap ptr p o n), i.apart)

restart_step :
    (now : ℕ) (q s : TimerQueue) (e : TimerEntity) (es : List TimerEntity) (t : Timer) (c : Bool)
    → q.heap e.ptr ≡ some t
    → t.repeat ≡ true
    → insert (record q { heap = update q.heap e.ptr (some (restart_timer now t)) }) e.ptr
      ≡ ok (c, s)
    → restart_all now q (e ∷ es) ≡ restart_all now s es
unfolding restart_all
restart_step now q s e es t c held y eq = rw (restart_all, deref_eq q e.ptr t held, eq, y) refl

pub restart_all_lem :
    (now : ℕ) (q : TimerQueue) (es : List TimerEntity)
    → IsValid q
    → IsDistinct es
    → IsOut q es
    → (r : TimerQueue) × (restart_all now q es ≡ ok r) × IsValid r
unfolding restart_all
restart_all_lem now q [] v d o = (q, refl, v)
restart_all_lem now q (e ∷ es) v d (alloc, out) =
    let (t, held) = alloc.0 in
    elim (Bool-cases t.repeat) [
      | inl y ↦
          let (c, s, eq, vs, others, apart) = restart_one now q e.ptr t v out.0 in
          let (r, er, vr) =
            restart_all_lem now s es vs d.1
              (IsOut-insert q s e.ptr es others apart d.0 (alloc.1, out.1)) in
          (r, restart_step now q s e es t c held y eq ∙ er, vr)
      | inr n ↦
          let (r, er, vr) = restart_all_lem now q es v d.1 (alloc.1, out.1) in
          (r, rw (restart_all, deref_eq q e.ptr t held, n, er) refl, vr)
    ]

-- `getExpireTimer` splits the queue, and leaves the timers alone.
pub expire_together :
    (q : TimerQueue) (tm : ℕ)
    → let (expired, r) = get_expire_timer q tm in
      (expired ++ r.timer_lists ≡ q.timer_lists) × (r.heap ≡ q.heap)
unfolding get_expire_timer
expire_together q tm = go (from_bound (bound_at tm) q.timer_lists) refl
  where
    go :
        (rest : List TimerEntity)
        → from_bound (bound_at tm) q.timer_lists ≡ rest
        → let (expired, r) = get_expire_timer q tm in
          (expired ++ r.timer_lists ≡ q.timer_lists) × (r.heap ≡ q.heap)
    go [] e = rw (get_expire_timer, e) (refl, refl)
    go (x ∷ xs) e =
        rw (get_expire_timer, e)
          (
            ap (λ t. below (bound_at tm) q.timer_lists ++ t) (sym e)
                ∙ below-from_bound (bound_at tm) q.timer_lists,
            refl,
          )

IsSorted-append : (xs ys : List TimerEntity) → IsSorted (xs ++ ys) → IsSorted ys
IsSorted-append [] ys h = h
IsSorted-append (x ∷ xs) ys h = IsSorted-append xs ys h.1

IsDistinct-append :
    (xs ys : List TimerEntity)
    → IsDistinct (xs ++ ys)
    → IsDistinct xs × IsDistinct ys × All (λ e. Apart e.ptr ys) xs
IsDistinct-append [] ys h = (tt, h, tt)
IsDistinct-append (x ∷ xs) ys h =
    let (a, b, c) = IsDistinct-append xs ys h.1 in
    let (near, far) = All-append (λ y. y.ptr ≢ x.ptr) xs ys h.0 in ((near, a), b, (far, c))

-- A split of a valid queue: the expired timers are out, and the rest is valid.
pub split_valid :
    (q r : TimerQueue) (es : List TimerEntity)
    → es ++ r.timer_lists ≡ q.timer_lists
    → r.heap ≡ q.heap
    → IsValid q
    → IsValid r × IsDistinct es × IsOut r es
split_valid q r es e h v =
    let (d1, d2, out) = IsDistinct-append es r.timer_lists (subst IsDistinct (sym e) v.distinct) in
    let (live1, live2) = All-append (IsLive r.heap) es r.timer_lists (rw (h, e) v.live) in
    (
      record {
        sorted = IsSorted-append es r.timer_lists (subst IsSorted (sym e) v.sorted);
        distinct = d2;
        live = live2;
      },
      d1,
      (All-map (IsLive r.heap) (IsAllocated r.heap) es (λ x l. (l.0, l.1)) live1, out),
    )

pub reset_timer_fd-IsValid :
    (now : ℕ) (q : TimerQueue) (tm : ℕ) → IsValid q → IsValid (reset_timer_fd now q tm)
unfolding reset_timer_fd
reset_timer_fd-IsValid now q tm v = elim (Bool-cases q.bsetup) [
  | inl y ↦
      rw (reset_timer_fd, y) (record { sorted = v.sorted; distinct = v.distinct; live = v.live })
  | inr n ↦
      rw (reset_timer_fd, n) (record { sorted = v.sorted; distinct = v.distinct; live = v.live })
]
