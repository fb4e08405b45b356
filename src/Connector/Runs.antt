-- ===== src/Connector/Runs.antt =====
-- What holds of a connector whatever is called on it.
use websocket_cpp.Base.{
  ℕ, suc, ◌+◌, ◌≤◌, ◌≡◌, refl, List, [], ◌∷◌, ◌++◌, ◌==◌, ◌⊎◌, inl, inr, none, some, ok, err,
  aborted, ◌>>=◌, >>=-eq-ok, arith, Option-cases, Bool-cases,
}
use websocket_cpp.Connector.{
  NetState, disconnected, connected, Connector, new_connector, Effect, close_fd, new_handler,
  delete_handler, new_connection, cancel_timer, Outcome, retry, reset_event, handle_write,
  connect_impl, connect, start_in_loop, stop,
}

-- What happens to a connector: `start` with the answers of the system, its descriptor becomes ready to
-- write, or `stop`.
pub data Event : Type 0 where
  start : (sockfd : ℕ) → (error : ℕ) → Event
  write_ready : (error : ℕ) → Event
  stops : Event

-- The poller calls `handleWrite` only while there is a handler.
unfoldable pub step : Event → Connector → Outcome
step (start sockfd error) c = start_in_loop sockfd error c
step (write_ready error) c = elim c.event [
  | none ↦ ok ([], c)
  | some fd ↦ ok (handle_write error c)
]
step stops c = ok (stop c)

unfoldable pub run : List Event → Connector → Outcome
run [] c = ok ([], c)
run (e ∷ es) c = do (acts, d) ← step e c; (more, r) ← run es d; ok (acts ++ more, r)

-- How many connections are handed over.
abbrev pub handed : List Effect → ℕ
handed [] = 0
handed (new_connection fd ∷ acts) = suc (handed acts)
handed (close_fd fd ∷ acts) = handed acts
handed (new_handler fd ∷ acts) = handed acts
handed (delete_handler fd ∷ acts) = handed acts
handed (cancel_timer tm ∷ acts) = handed acts

abbrev pub IsStart : Event → Type 0
IsStart (start sockfd error) = Unit {0}
IsStart (write_ready error) = ⊥
IsStart stops = ⊥

abbrev pub HasStart : List Event → Type 0
HasStart [] = ⊥
HasStart (e ∷ es) = IsStart e ⊎ HasStart es

-- 1 after a connection was handed over, 0 before.
abbrev pub score : NetState → ℕ
score disconnected = 0
score connected = 1

-- A connected connector has no handler; no timer is ever armed.
pub record IsValid (c : Connector) : Type 0 where
  pub idle : c.state ≡ connected → c.event ≡ none
  pub unarmed : c.retry_timer ≡ none

abbrev pub Keeps : Connector → List Effect → Connector → Type 0
Keeps c acts d = IsValid d × (handed acts + score c.state ≡ score d.state)

step-Keeps :
    (e : Event) (c : Connector) (acts : List Effect) (d : Connector)
    → IsValid c
    → step e c ≡ ok (acts, d)
    → Keeps c acts d
unfolding step start_in_loop connect connect_impl retry reset_event handle_write stop
step-Keeps (start sockfd error) c acts d v h = ground arith
step-Keeps (write_ready error) c acts d v h = ground arith
step-Keeps stops c acts d v h = ground arith

handed-append : (xs ys : List Effect) → handed (xs ++ ys) ≡ handed xs + handed ys
handed-append [] ys = omega arith
handed-append (close_fd fd ∷ xs) ys = handed-append xs ys
handed-append (new_handler fd ∷ xs) ys = handed-append xs ys
handed-append (delete_handler fd ∷ xs) ys = handed-append xs ys
handed-append (new_connection fd ∷ xs) ys = omega (arith, handed-append xs ys)
handed-append (cancel_timer tm ∷ xs) ys = handed-append xs ys

run-Keeps :
    (es : List Event) (c : Connector) (acts : List Effect) (d : Connector)
    → IsValid c
    → run es c ≡ ok (acts, d)
    → Keeps c acts d
unfolding run
run-Keeps [] c acts d v h = ground arith
run-Keeps (e ∷ es) c acts d v h =
    let ((first, c2), h1, h2) = >>=-eq-ok (step e c) _ h in
    let ((more, r), h3, h4) = >>=-eq-ok (run es c2) _ h2 in
    let (v2, n1) = step-Keeps e c first c2 v h1 in
    let (v3, n2) = run-Keeps es c2 more r v2 h3 in
    let same : r ≡ d = cc in
    let all : acts ≡ first ++ more = cc in
    rw (← same, all) (v3, omega (arith, handed-append first more))

-- On a connected connector `start` fails, and nothing else has an effect.
connected_step :
    (e : Event) (c : Connector)
    → c.state ≡ connected
    → c.event ≡ none
    → (IsStart e × (step e c ≡ err aborted)) ⊎ ((IsStart e → ⊥) × (step e c ≡ ok ([], c)))
unfolding step start_in_loop stop reset_event
connected_step (start sockfd error) c h n = inl (tt, rw (step, h) refl)
connected_step (write_ready error) c h n = inr ((λ a. a), ground arith)
connected_step stops c h n = inr ((λ a. a), ground arith)

start_aborts :
    (es : List Event) (c : Connector)
    → c.state ≡ connected
    → c.event ≡ none
    → HasStart es
    → run es c ≡ err aborted
unfolding run
start_aborts [] c h n s = absurd s
start_aborts (e ∷ es) c h n s = elim (connected_step e c h n) [
  | inl (is, r) ↦ rw (run, r) refl
  | inr (is_not, r) ↦ elim s [
    | inl is ↦ absurd (is_not is)
    | inr later ↦ rw (run, r, start_aborts es c h n later) refl
  ]
]

score_one : (s : NetState) → score s ≡ 1 → s ≡ connected
score_one disconnected h = absurd (omega arith)
score_one connected h = refl

score-le : (s : NetState) → score s ≤ 1
score-le disconnected = omega arith
score-le connected = omega arith

-- One step at a time, for the client that a connector belongs to.
pub start_disconnected :
    (sockfd error : ℕ) (c : Connector)
    → IsValid c
    → c.state ≡ disconnected
    → (es : List Effect) × (d : Connector) × (start_in_loop sockfd error c ≡ ok (es, d))
      × IsValid d
      × (d.state ≡ disconnected)
unfolding start_in_loop connect connect_impl retry
start_disconnected sockfd error c v h =
    let (es, d) = connect sockfd error c in
    (es, d, rw (start_in_loop, h) refl, ground arith, ground arith)

pub start_connected :
    (sockfd error : ℕ) (c : Connector)
    → c.state ≡ connected
    → start_in_loop sockfd error c ≡ err aborted
unfolding start_in_loop
start_connected sockfd error c h = rw (start_in_loop, h) refl

abbrev pub Announced : ℕ → Connector → Type 0
Announced error c =
    (fd : ℕ) × (d : Connector) × (step (write_ready error) c
      ≡ ok (delete_handler fd ∷ new_connection fd ∷ [], d))
    × IsValid d
    × (d.state ≡ connected)

abbrev pub Quiet : ℕ → Connector → Type 0
Quiet error c =
    (es : List Effect) × (d : Connector) × (step (write_ready error) c ≡ ok (es, d))
    × IsValid d
    × (d.state ≡ c.state)
    × (handed es ≡ 0)

-- A descriptor that is ready to write makes a connection, or changes the state in nothing.
pub write_ready_cases :
    (error : ℕ) (c : Connector)
    → IsValid c
    → (Announced error c × (c.state ≡ disconnected)) ⊎ Quiet error c
unfolding step handle_write reset_event retry
write_ready_cases error c v = elim (Option-cases c.event) [
  | inl n ↦ inr ([], c, ground arith, v, refl, refl)
  | inr (fd, e) ↦ elim (Bool-cases (error == 0)) [
    | inl z ↦ inl (
      (fd, record c { state = connected; event = none }, ground arith, ground arith, refl),
      ground arith,
    )
    | inr z ↦ inr (
      delete_handler fd ∷ close_fd fd ∷ [],
      record c { state = disconnected; event = none },
      ground arith,
      ground arith,
      ground arith,
      refl,
    )
  ]
]

-- A connector hands over one connection in its life at most, whatever is called on it, and after that
-- every later `start` aborts the process: nothing sets its state back.
pub once_connected :
    (es : List Event) (acts : List Effect) (c : Connector)
    → run es new_connector ≡ ok (acts, c)
    → (handed acts ≤ 1)
      × (handed acts ≡ 1 → (fs : List Event) → HasStart fs → run fs c ≡ err aborted)
once_connected es acts c h =
    let (v, n) =
      run-Keeps es new_connector acts c (record { idle = λ e. refl; unarmed = refl }) h in
    (
      omega (arith, score-le c.state, n),
      (λ one fs s.
          let on = score_one c.state (omega (arith, n)) in start_aborts fs c on (v.idle on) s),
    )
