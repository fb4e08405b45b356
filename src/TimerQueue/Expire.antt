-- ===== src/TimerQueue/Expire.antt =====
-- `getExpireTimer` and `eventRead`.
use websocket_cpp.Base.{ℕ, ◌<◌, ◌≤◌, ◌≡◌, List, [], ◌∷◌, ◌++◌, ◌⊎◌}
use websocket_cpp.TimerQueue.{TimerQueue, TimerEntity, get_expire_timer}
use websocket_cpp.TimerQueue.Order.{All}

-- What `getExpireTimer` takes at `tm`: the entities that have expired, in order, of a queue that is
-- sorted, and leaves the others.
pub record IsSplit (q : TimerQueue) (tm : ℕ) (expired : List TimerEntity) (r : TimerQueue)
    : Type 0 where
  pub together : expired ++ r.timer_lists ≡ q.timer_lists
  pub due : All (λ x. x.time ≤ tm) expired
  pub rest : All (λ x. tm < x.time) r.timer_lists

pub All-append :
    (P : TimerEntity → Type 0) (xs ys : List TimerEntity) → All P (xs ++ ys) → All P xs × All P ys
All-append P [] ys h = (tt, h)
All-append P (x ∷ xs) ys h = let (a, b) = All-append P xs ys h.1 in ((h.0, a), b)

abbrev pub HasExpired : TimerQueue → ℕ → Type 0
HasExpired q tm =
    let (expired, r) = get_expire_timer q tm in
    (All (λ x. x.time ≤ tm) q.timer_lists × (expired ≡ []) × (r ≡ q))
    ⊎ (IsSplit q tm expired r × (r ≡ record q { timer_lists = r.timer_lists }))
