-- ===== src/NetConnection/Closing.antt =====
-- Reading from a connection, and its end.
use websocket_cpp.Base.{
  ℕ, ◌≡◌, refl, ap, ◌∙◌, List, length, ◌≤◌, lt→ltb, arith, [], ◌∷◌, false, Option, none, some, ok,
  err, faulted, ◌>>=◌,
}
use websocket_cpp.Buffer.{Buffer, reset, readfd}
use websocket_cpp.Buffer.Contents.{IsValid}
use websocket_cpp.Buffer.Receive.{readfd-reset}
use websocket_cpp.Poller.{EventHandler, Callback, on_read, hand_event}
use websocket_cpp.NetConnection.{
  NetConnection, disconnected, Effect, conn_callback, close_callback, msg_recv, Outcome,
  handle_close, handle_read, handle_received, call_back, call_backs, on_callback, handle_event,
}

-- What `handleRead` does with each answer of `readv`.
abbrev pub Received : NetConnection → List ℕ → List Effect → NetConnection → Type 0
Received c [] es d =
    (es ≡ conn_callback false ∷ close_callback ∷ [])
    × (d.state ≡ disconnected)
    × (d.event ≡ none)
    × (d.write_buffer ≡ c.write_buffer)
Received c (x ∷ xs) es d =
    (es ≡ msg_recv (x ∷ xs) ∷ [])
    × (d.state ≡ c.state)
    × (d.event ≡ c.event)
    × (d.write_buffer ≡ c.write_buffer)

handle_read_eq :
    (junk n : ℕ) (c : NetConnection) (ev : EventHandler) (bytes : List ℕ) (rb : Buffer)
    → c.event ≡ some ev
    → readfd junk (reset c.read_buffer) (some bytes) ≡ ok (some n, rb)
    → handle_read junk (some bytes) c ≡ handle_received (record c { read_buffer = rb }) (some n)
unfolding handle_read
handle_read_eq junk n c ev bytes rb h r = rw (handle_read, r) (opened c.event h)
  where
    opened :
        (o : Option EventHandler)
        → o ≡ some ev
        → ◌≡◌ {A = Outcome}
            (elim o [ none ↦ err faulted | some e ↦ ok e ] >>= λ e.
              handle_received (record c { read_buffer = rb }) (some n))
            (handle_received (record c { read_buffer = rb }) (some n))
    opened none e = cc e
    opened (some x) e = refl

close_eq :
    (c : NetConnection) (ev : EventHandler)
    → c.event ≡ some ev
    → handle_close c
      ≡ ok (
        conn_callback false ∷ close_callback ∷ [],
        record c { state = disconnected; event = none },
      )
unfolding handle_close
close_eq c ev h = rw (handle_close, h) refl

-- `handleRead` on an open connection with a valid buffer, where at most 65536 bytes wait: the message
-- callback is given exactly these bytes, and nothing else changes; if there are none the connection is closed, the callbacks are
-- called and the handler is deleted.
pub handle_read_lem :
    (junk : ℕ) (c : NetConnection) (ev : EventHandler) (bytes : List ℕ)
    → c.event ≡ some ev
    → IsValid c.read_buffer
    → length bytes ≤ 65536
    → (es : List Effect) × (d : NetConnection) × (handle_read junk (some bytes) c ≡ ok (es, d))
      × IsValid d.read_buffer
      × Received c bytes es d
unfolding handle_received
handle_read_lem junk c ev [] h v short =
    let (rb, r, v2, held) = readfd-reset junk c.read_buffer [] v short in
    (
      conn_callback false ∷ close_callback ∷ [],
      record c { read_buffer = rb; state = disconnected; event = none },
      handle_read_eq junk 0 c ev [] rb h r ∙ close_eq (record c { read_buffer = rb }) ev h,
      v2,
      (refl, refl, refl, refl),
    )
handle_read_lem junk c ev (x ∷ xs) h v short =
    let (rb, r, v2, held) = readfd-reset junk c.read_buffer (x ∷ xs) v short in
    (
      msg_recv (x ∷ xs) ∷ [],
      record c { read_buffer = rb },
      handle_read_eq junk (length (x ∷ xs)) c ev (x ∷ xs) rb h r
          ∙ rw (lt→ltb 0 (length (x ∷ xs)) (omega arith))
              (ap (λ t. ok (msg_recv t ∷ [], record c { read_buffer = rb })) held),
      v2,
      (refl, refl, refl, refl),
    )

call_back_read :
    (junk : ℕ) (c d : NetConnection) (es : List Effect)
    → handle_read junk (some []) c ≡ ok (es, d)
    → d.event ≡ none
    → call_back junk (some []) on_read c ≡ err faulted
unfolding call_back on_callback
call_back_read junk c d es e gone = rw (call_back, e, gone) refl

-- When the other end closes an open connection, the read callback deletes the event handler whose
-- `handEvent` called it, and which then reads its member `revents_`. Reading is the first that the
-- descriptor is ready for.
pub peer_close_faults :
    (junk revents : ℕ) (cbs : List Callback) (c : NetConnection) (ev : EventHandler)
    → c.event ≡ some ev
    → IsValid c.read_buffer
    → hand_event revents ≡ on_read ∷ cbs
    → handle_event junk revents (some []) c ≡ err faulted
unfolding handle_event call_backs
peer_close_faults junk revents cbs c ev h v r =
    let (es, d, e, v2, (e1, e2, gone, e3)) = handle_read_lem junk c ev [] h v (omega arith) in
    rw (handle_event, r, call_back_read junk c d es e gone) refl
