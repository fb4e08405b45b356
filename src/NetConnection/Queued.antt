-- ===== src/NetConnection/Queued.antt =====
-- Data that another thread sends, through the queue of the loop.
use websocket_cpp.Base.{
  ℕ, ◌-◌, ◌≡◌, refl, ap, ◌∙◌, List, [], ◌∷◌, ◌++◌, append-nil, map, flatten, Bool, true, false,
  length, take, drop, take-all, drop-all, ◌==◌, if◌then◌else◌, Option, none, some, ok, arith, ◌>>=◌,
}
use websocket_cpp.Buffer.{readable_bytes}
use websocket_cpp.Poller.{EventHandler}
use websocket_cpp.NetConnection.{
  NetConnection, connected, WriteResult, wrote, would_block, Effect, write_complete, wire,
  conn_callback, msg_recv, close_callback, shutdown_write, Outcome, Task, send_task, run_task,
  store_remainder, queue, send,
}
use websocket_cpp.NetConnection.Sending.{wired, wired-append, send_in_reactor_eq, send_connected_eq}

-- A function of the queue, on this connection: `none` is one of another object.
pub run_job : ℕ → Option Task → WriteResult → NetConnection → Outcome
run_job junk none answer c = ok ([], c)
run_job junk (some t) answer c = run_task junk answer t c

-- The functions that the loop called, on this connection. `job` has what each number stands for, and
-- `answer` what `write` returns in that function, if it calls it.
pub run_jobs : ℕ → (ℕ → Option Task) → (ℕ → WriteResult) → List ℕ → NetConnection → Outcome
run_jobs junk job answer [] c = ok ([], c)
run_jobs junk job answer (f ∷ fs) c = do
  (es, d) ← run_job junk (job f) (answer f) c
  (more, r) ← run_jobs junk job answer fs d
  ok (es ++ more, r)

-- The calls of `send`, from a thread that is not the loop's
pub send_each : ℕ → List (List ℕ) → NetConnection → Outcome
send_each junk [] c = ok ([], c)
send_each junk (bytes ∷ rest) c = do
  (es, d) ← send false junk would_block c bytes
  (more, r) ← send_each junk rest d
  ok (es ++ more, r)

abbrev pub with_task : Option Task → List Task → List Task
with_task none ts = ts
with_task (some t) ts = t ∷ ts

-- The functions of this connection
abbrev pub tasks_of : (ℕ → Option Task) → List ℕ → List Task
tasks_of job [] = []
tasks_of job (f ∷ fs) = with_task (job f) (tasks_of job fs)

-- What is handed to the loop
abbrev pub queued_tasks : List Effect → List Task
queued_tasks [] = []
queued_tasks (queue t ∷ es) = t ∷ queued_tasks es
queued_tasks (wire bytes ∷ es) = queued_tasks es
queued_tasks (conn_callback b ∷ es) = queued_tasks es
queued_tasks (msg_recv bytes ∷ es) = queued_tasks es
queued_tasks (write_complete ∷ es) = queued_tasks es
queued_tasks (close_callback ∷ es) = queued_tasks es
queued_tasks (shutdown_write ∷ es) = queued_tasks es

abbrev pub queues : List (List ℕ) → List Effect
queues [] = []
queues (bytes ∷ rest) = queue (send_task bytes) ∷ queues rest

module _ (junk : ℕ) (c : NetConnection) (on : c.state ≡ connected) where
  send_queues :
      (answer : WriteResult) (bytes : List ℕ)
      → send false junk answer c bytes ≡ ok (queue (send_task bytes) ∷ [], c)
  unfolding send
  send_queues answer bytes = rw on refl

  pub send_each_eq : (frames : List (List ℕ)) → send_each junk frames c ≡ ok (queues frames, c)
  unfolding send_each
  send_each_eq [] = refl
  send_each_eq (bytes ∷ rest) =
      rw (send_each, send_queues would_block bytes, send_each_eq rest) refl

  queued_tasks-queues :
      (frames : List (List ℕ)) → queued_tasks (queues frames) ≡ map send_task frames
  queued_tasks-queues [] = refl
  queued_tasks-queues (bytes ∷ rest) = ap (λ t. send_task bytes ∷ t) (queued_tasks-queues rest)

  -- On a connected connection every `send` hands the loop a call of `sendInReactor`, in order.
  pub send_each_lem :
      (frames : List (List ℕ)) (es : List Effect) (d : NetConnection)
      → send_each junk frames c ≡ ok (es, d)
      → queued_tasks es ≡ map send_task frames
  send_each_lem frames es d e =
      let eq = send_each_eq frames in
      let same : es ≡ queues frames = cc in ap queued_tasks same ∙ queued_tasks-queues frames

-- `write` takes all that each of the functions sends.
abbrev pub TakesAll : (ℕ → Option Task) → (ℕ → WriteResult) → Type 0
TakesAll job answer =
    (f : ℕ) (bytes : List ℕ) → job f ≡ some (send_task bytes) → answer f ≡ wrote (length bytes)

module _ (junk : ℕ) (c : NetConnection) (ev : EventHandler) (on : c.state ≡ connected)
    (held : c.event ≡ some ev) (empty : readable_bytes c.write_buffer ≡ 0) where
  nothing_left : (bytes : List ℕ) → store_remainder junk c (drop (length bytes) bytes) ≡ ok c
  unfolding store_remainder
  nothing_left bytes = rw (drop-all (length bytes) bytes (omega arith)) refl

  run_one :
      (bytes : List ℕ)
      → (es : List Effect) × (run_task junk (wrote (length bytes)) (send_task bytes) c ≡ ok (es, c))
        × (wired es ≡ bytes)
  unfolding run_task
  run_one bytes = (
    _,
    send_in_reactor_eq junk (wrote (length bytes)) c bytes on
        ∙ send_connected_eq junk (length bytes) c c ev bytes held empty (nothing_left bytes),
    no_more (length bytes - length bytes == 0) ∙ take-all (length bytes) bytes (omega arith),
  )
    where
      no_more :
          (b : Bool)
          → take (length bytes) bytes ++ wired (if b then write_complete ∷ [] else [])
            ≡ take (length bytes) bytes
      no_more true = append-nil (take (length bytes) bytes)
      no_more false = append-nil (take (length bytes) bytes)

  -- If the functions of this connection that were called are sends, and `write` takes all of each, the
  -- socket took their data in order, and the connection is as it was.
  pub run_jobs_lem :
      (job : ℕ → Option Task) (answer : ℕ → WriteResult) (frames : List (List ℕ)) (fs : List ℕ)
      → TakesAll job answer
      → tasks_of job fs ≡ map send_task frames
      → (es : List Effect) × (run_jobs junk job answer fs c ≡ ok (es, c))
        × (wired es ≡ flatten frames)
  unfolding run_jobs run_job flatten
  run_jobs_lem job answer [] [] all h = ([], refl, refl)
  run_jobs_lem job answer (bytes ∷ rest) [] all h = cc h
  run_jobs_lem job answer frames (f ∷ fs) all h =
      go frames (job f) refl h (λ rest later. run_jobs_lem job answer rest fs all later)
    where
      go :
          (frames : List (List ℕ)) (o : Option Task)
          → job f ≡ o
          → with_task o (tasks_of job fs) ≡ map send_task frames
          → ((rest : List (List ℕ))
              → tasks_of job fs ≡ map send_task rest
              → (es : List Effect) × (run_jobs junk job answer fs c ≡ ok (es, c))
                × (wired es ≡ flatten rest))
          → (es : List Effect) × (run_jobs junk job answer (f ∷ fs) c ≡ ok (es, c))
            × (wired es ≡ flatten frames)
      go frames none e h ih = let (more, m, v) = ih frames h in (more, rw (run_jobs, e, m) refl, v)
      go [] (some t) e h ih = cc h
      go (bytes ∷ rest) (some t) e h ih =
          let is_send : t ≡ send_task bytes = cc in
          let later : tasks_of job fs ≡ map send_task rest = cc in
          let mine : job f ≡ some (send_task bytes) = cc in
          let (es, r, w) = run_one bytes in
          let (more, m, v) = ih rest later in
          (
            es ++ more,
            rw (run_jobs, mine, all f bytes mine, r, m) refl,
            wired-append es more ∙ ap (λ t. t ++ wired more) w ∙ ap (λ t. bytes ++ t) v,
          )
