-- ===== src/NetConnection/Stranded.antt =====
-- What becomes of data that could not be sent at once.
use websocket_cpp.Base.{
  ℕ, ◌<◌, ◌≡◌, refl, ap, ◌∙◌, List, [], ◌∷◌, ◌++◌, false, ltb, ◌==◌, Option, none, some, Result, ok,
  err, ◌>>=◌, Bool-cases, ==_iff, ◌⊎◌, inl, inr, arith,
}
use native.Mathlib.Decide.{ℕ_discrete}
use websocket_cpp.Buffer.{Buffer, readable_bytes, readfd, reset}
use websocket_cpp.Poller.{EventHandler, Callback, on_close, on_error, on_read, on_write}
use websocket_cpp.NetConnection.{
  NetConnection, NetState, disconnected, connecting, connected, WriteResult, would_block, Outcome,
  handler, is_writeable, handle_close, handle_error, handle_read, handle_received, send_connected,
  send_in_reactor, shutdown_in_reactor, on_callback, call_back, call_backs,
}
use websocket_cpp.NetConnection.Sending.{wired, wired-append, send_in_reactor_eq}

-- The outcome writes nothing to the socket and leaves the write buffer as `b`.
abbrev pub Quiet : Buffer → Outcome → Type 0
Quiet b (err how) = Unit
Quiet b (ok (es, d)) = (wired es ≡ []) × (d.write_buffer ≡ b)

pub Quiet-bind {ℓ} :
    {X : Type ℓ} (b : Buffer) (m : Result X) (next : X → Outcome)
    → ((x : X) → Quiet b (next x))
    → Quiet b (m >>= next)
Quiet-bind b (err how) next q = tt
Quiet-bind b (ok x) next q = q x

pub handle_close-Quiet : (c : NetConnection) → Quiet c.write_buffer (handle_close c)
unfolding handle_close
handle_close-Quiet c = Quiet-bind c.write_buffer (handler c) _ (λ ev. (refl, refl))

handle_error-Quiet : (c : NetConnection) → Quiet c.write_buffer (handle_error c)
unfolding handle_error
handle_error-Quiet c = Quiet-bind c.write_buffer (handler c) _ (λ ev. (refl, refl))

handle_received-Quiet :
    (c : NetConnection) (n : Option ℕ) → Quiet c.write_buffer (handle_received c n)
unfolding handle_received
handle_received-Quiet c none = handle_error-Quiet c
handle_received-Quiet c (some n) = elim (Bool-cases (ltb 0 n)) [
  | inl y ↦ rw y (refl, refl)
  | inr z ↦ rw z (handle_close-Quiet c)
]

handle_read-Quiet :
    (junk : ℕ) (answer : Option (List ℕ)) (c : NetConnection)
    → Quiet c.write_buffer (handle_read junk answer c)
unfolding handle_read
handle_read-Quiet junk answer c = Quiet-bind c.write_buffer (handler c) _ (λ ev.
    Quiet-bind c.write_buffer (readfd junk (reset c.read_buffer) answer) _
      (λ r. handle_received-Quiet (record c { read_buffer = r.1 }) r.0))

on_callback-Quiet :
    (junk : ℕ) (answer : Option (List ℕ)) (cb : Callback) (c : NetConnection)
    → Quiet c.write_buffer (on_callback junk answer cb c)
unfolding on_callback
on_callback-Quiet junk answer on_close c = (refl, refl)
on_callback-Quiet junk answer on_error c = (refl, refl)
on_callback-Quiet junk answer on_read c = handle_read-Quiet junk answer c
on_callback-Quiet junk answer on_write c = handle_error-Quiet c

-- Two quiet steps, one after the other.
pub Quiet-then :
    (b : Buffer) (o : Outcome) (next : NetConnection → Outcome)
    → Quiet b o
    → ((d : NetConnection) → d.write_buffer ≡ b → Quiet d.write_buffer (next d))
    → Quiet b (o >>= λ (now, d). next d >>= λ (later, e). ok (now ++ later, e))
Quiet-then b (err how) next q r = tt
Quiet-then b (ok (now, d)) next q r = joined (next d) (r d q.1)
  where
    joined :
        (o : Outcome) → Quiet d.write_buffer o → Quiet b (o >>= λ (later, e). ok (now ++ later, e))
    joined (err how) q2 = tt
    joined (ok (later, e)) q2 =
        (wired-append now later ∙ ap (λ t. t ++ wired later) q.0 ∙ q2.0, q2.1 ∙ q.1)

call_back-Quiet :
    (junk : ℕ) (answer : Option (List ℕ)) (cb : Callback) (c : NetConnection)
    → Quiet c.write_buffer (call_back junk answer cb c)
unfolding call_back
call_back-Quiet junk answer cb c =
    go (on_callback junk answer cb c) (on_callback-Quiet junk answer cb c)
  where
    go :
        (o : Outcome)
        → Quiet c.write_buffer o
        → Quiet c.write_buffer (o >>= λ (now, d). handler d >>= λ ev. ok (now, d))
    go (err how) q = tt
    go (ok (now, d)) q = Quiet-bind c.write_buffer (handler d) _ (λ ev. q)

pub call_backs-Quiet :
    (junk : ℕ) (answer : Option (List ℕ)) (cbs : List Callback) (c : NetConnection)
    → Quiet c.write_buffer (call_backs junk answer cbs c)
unfolding call_backs
call_backs-Quiet junk answer [] c = (refl, refl)
call_backs-Quiet junk answer (cb ∷ cbs) c =
    Quiet-then c.write_buffer (call_back junk answer cb c) (call_backs junk answer cbs)
      (call_back-Quiet junk answer cb c) (λ d e. call_backs-Quiet junk answer cbs d)

-- `sendInReactor` on a connection that has something in its write buffer.
send_connected_busy :
    (junk : ℕ) (answer : WriteResult) (c : NetConnection) (bytes : List ℕ)
    → 0 < readable_bytes c.write_buffer
    → send_connected junk answer c bytes ≡ ok ([], c)
unfolding send_connected
send_connected_busy junk answer c bytes busy =
    rw (send_connected, nonzero (readable_bytes c.write_buffer) busy) refl
  where
    nonzero : (n : ℕ) → 0 < n → (n == 0) ≡ false
    nonzero n h = ground arith

send_connected_blocked :
    (junk : ℕ) (c : NetConnection) (ev : EventHandler) (bytes : List ℕ)
    → c.event ≡ some ev
    → readable_bytes c.write_buffer ≡ 0
    → send_connected junk would_block c bytes ≡ ok ([], c)
unfolding send_connected
send_connected_blocked junk c ev bytes h z =
    rw (send_connected, (==_iff (readable_bytes c.write_buffer) 0).1 z, h) refl

-- Data is lost without a notice: `sendInReactor` on a connected connection does nothing at all if
-- something is left in the write buffer from before, or if the socket would block at once.
pub send_loses :
    (junk : ℕ) (answer : WriteResult) (c : NetConnection) (ev : EventHandler) (bytes : List ℕ)
    → c.state ≡ connected
    → c.event ≡ some ev
    → (0 < readable_bytes c.write_buffer) ⊎ (answer ≡ would_block)
    → send_in_reactor junk answer c bytes ≡ ok ([], c)
send_loses junk answer c ev bytes s h (inl busy) =
    send_in_reactor_eq junk answer c bytes s ∙ send_connected_busy junk answer c bytes busy
send_loses junk answer c ev bytes s h (inr e) =
    send_in_reactor_eq junk answer c bytes s ∙ ap (λ a. send_connected junk a c bytes) e ∙ go
  where
    go : send_connected junk would_block c bytes ≡ ok ([], c)
    go = elim (ℕ_discrete (readable_bytes c.write_buffer) 0) [
      | yes z ↦ send_connected_blocked junk c ev bytes h z
      | no n ↦ send_connected_busy junk would_block c bytes (omega arith)
    ]

pub send_in_reactor-Quiet :
    (junk : ℕ) (answer : WriteResult) (c : NetConnection) (bytes : List ℕ)
    → 0 < readable_bytes c.write_buffer
    → Quiet c.write_buffer (send_in_reactor junk answer c bytes)
unfolding send_in_reactor
send_in_reactor-Quiet junk answer c bytes busy = go c.state
  where
    kept : Quiet c.write_buffer (send_connected junk answer c bytes)
    kept = rw (send_connected_busy junk answer c bytes busy) (refl, refl)

    go :
        (t : NetState)
        → Quiet c.write_buffer (elim t [
          | disconnected ↦ ok ([], c)
          | connecting ↦ send_connected junk answer c bytes
          | connected ↦ send_connected junk answer c bytes
        ])
    go disconnected = (refl, refl)
    go connecting = kept
    go connected = kept

pub shutdown_in_reactor-Quiet : (c : NetConnection) → Quiet c.write_buffer (shutdown_in_reactor c)
unfolding shutdown_in_reactor
shutdown_in_reactor-Quiet c = Quiet-bind c.write_buffer (handler c) _ (λ ev.
    elim (Bool-cases (is_writeable ev)) [ inl y ↦ rw y (refl, refl) | inr n ↦ rw n (refl, refl) ])
