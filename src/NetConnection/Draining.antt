-- ===== src/NetConnection/Draining.antt =====
-- Writing out what is in the write buffer, as `handleWrite` does it.
use websocket_cpp.Base.{
  ℕ, ◌-◌, ◌<◌, ◌≤◌, ◌≡◌, refl, ap, sym, ◌∙◌, List, [], ◌∷◌, ◌++◌, append-nil, length, take, drop,
  length-drop, take-append-drop, ◌==◌, if◌then◌else◌, some, ok, ◌>>=◌, lt→ltb, Bool-cases, inl, inr,
}
use websocket_cpp.Buffer.{Buffer, readable_bytes, retrieve}
use websocket_cpp.Buffer.Contents.{contents, IsValid, length-contents, retrieve_lem}
use websocket_cpp.Poller.{EventHandler, change_events, disable_write}
use websocket_cpp.Poller.Flags.{change_events_lem}
use websocket_cpp.NetConnection.{
  NetConnection, Effect, wire, write_complete, Outcome, connected, wrote, handle_write,
  send_in_reactor,
}
use websocket_cpp.NetConnection.Sending.{
  wired, wired-append, IsOpen, IsIdle, length-zero, send_in_reactor_lem,
}

-- What `handleWrite` leaves.
pub record Drained (c : NetConnection) (n : ℕ) (d : NetConnection) : Type 0 where
  pub same_state : d.state ≡ c.state
  pub ev : EventHandler
  pub opened : IsOpen d ev
  pub valid : IsValid d.write_buffer
  pub pending : contents d.write_buffer ≡ drop n (contents c.write_buffer)

handle_write_eq :
    (n : ℕ) (c : NetConnection) (ev : EventHandler) (wb : Buffer)
    → 0 < n
    → c.event ≡ some ev
    → retrieve c.write_buffer n ≡ ok wb
    → handle_write (wrote n) c
      ≡ ok (
          if readable_bytes wb == 0
          then (
            wire (take n (contents c.write_buffer)) ∷ write_complete ∷ [],
            record c { write_buffer = wb; event = some (change_events disable_write ev) },
          )
          else (wire (take n (contents c.write_buffer)) ∷ [], record c { write_buffer = wb }))
unfolding handle_write
handle_write_eq n c ev wb pos h r = rw (handle_write, lt→ltb 0 n pos, r, h) refl

pub handle_write_lem :
    (n : ℕ) (c : NetConnection) (ev : EventHandler)
    → IsOpen c ev
    → IsValid c.write_buffer
    → 0 < n
    → n ≤ readable_bytes c.write_buffer
    → (es : List Effect) × (d : NetConnection) × (handle_write (wrote n) c ≡ ok (es, d))
      × (wired es ≡ take n (contents c.write_buffer))
      × Drained c n d
handle_write_lem n c ev h v pos fits =
    let (wb, r, got) = retrieve_lem c.write_buffer n v fits in
    elim (Bool-cases (readable_bytes wb == 0)) [
      | inl y ↦ (
        wire (take n (contents c.write_buffer)) ∷ write_complete ∷ [],
        record c { write_buffer = wb; event = some (change_events disable_write ev) },
        handle_write_eq n c ev wb pos h.held r ∙ rw y refl,
        append-nil (take n (contents c.write_buffer)),
        record {
          same_state = refl;
          ev = change_events disable_write ev;
          opened = record { held = refl; flags = (change_events_lem disable_write ev h.flags).0 };
          valid = got.valid;
          pending = got.rest;
        },
      )
      | inr z ↦ (
        wire (take n (contents c.write_buffer)) ∷ [],
        record c { write_buffer = wb },
        handle_write_eq n c ev wb pos h.held r ∙ rw z refl,
        append-nil (take n (contents c.write_buffer)),
        record {
          same_state = refl;
          ev = ev;
          opened = record { held = h.held; flags = h.flags };
          valid = got.valid;
          pending = got.rest;
        },
      )
    ]

-- `handleWrite` again and again, with what the socket takes each time.
pub drain : List ℕ → NetConnection → Outcome
drain [] c = ok ([], c)
drain (n ∷ ns) c = do
  (now, d) ← handle_write (wrote n) c
  (later, e) ← drain ns d
  ok (now ++ later, e)

-- The socket takes something each time, and `m` bytes in all.
abbrev pub Takes : List ℕ → ℕ → Type 0
Takes [] m = m ≡ 0
Takes (n ∷ ns) m = (0 < n) × (n ≤ m) × Takes ns (m - n)

drain-step :
    (n : ℕ) (ns : List ℕ) (c d e : NetConnection) (now later : List Effect)
    → handle_write (wrote n) c ≡ ok (now, d)
    → drain ns d ≡ ok (later, e)
    → drain (n ∷ ns) c ≡ ok (now ++ later, e)
unfolding drain
drain-step n ns c d e now later h r = rw (drain, h, r) refl

pub drain_lem :
    (ns : List ℕ) (c : NetConnection) (ev : EventHandler)
    → IsOpen c ev
    → IsValid c.write_buffer
    → Takes ns (readable_bytes c.write_buffer)
    → (es : List Effect) × (d : NetConnection) × (drain ns c ≡ ok (es, d))
      × (wired es ≡ contents c.write_buffer)
      × (readable_bytes d.write_buffer ≡ 0)
unfolding drain
drain_lem [] c ev h v t = (
  [],
  c,
  refl,
  sym (length-zero (contents c.write_buffer) (length-contents c.write_buffer v ∙ t)),
  t,
)
drain_lem (n ∷ ns) c ev h v (pos, fits, t) =
    let (now, d, e1, w1, dr) = handle_write_lem n c ev h v pos fits in
    let left : readable_bytes d.write_buffer ≡ readable_bytes c.write_buffer - n =
      sym (length-contents d.write_buffer dr.valid)
      ∙ ap length dr.pending
      ∙ length-drop n (contents c.write_buffer)
      ∙ ap (λ k. k - n) (length-contents c.write_buffer v) in
    let (later, e, e2, w2, z) = drain_lem ns d dr.ev dr.opened dr.valid (rw left t) in
    (
      now ++ later,
      e,
      drain-step n ns c d e now later e1 e2,
      wired-append now later
          ∙ ap (λ t. t ++ wired later) w1
          ∙ ap (λ t. take n (contents c.write_buffer) ++ t) (w2 ∙ dr.pending)
          ∙ take-append-drop n (contents c.write_buffer),
      z,
    )

-- What `sendInReactor` stores, `handleWrite` would write out: if the socket takes the first `n` bytes at
-- once, and the others in any positive portions later, it takes the data in order, and the write buffer
-- is empty then. The connection is connected and idle before.
pub send_then_drain :
    (junk n : ℕ) (ns : List ℕ) (c : NetConnection) (ev : EventHandler) (bytes : List ℕ)
    → c.state ≡ connected
    → IsOpen c ev
    → IsIdle c.write_buffer
    → n ≤ length bytes
    → Takes ns (length bytes - n)
    → (es more : List Effect) × (d e : NetConnection) × (send_in_reactor junk (wrote n) c bytes
        ≡ ok (es, d))
      × (drain ns d ≡ ok (more, e))
      × (wired (es ++ more) ≡ bytes)
      × (readable_bytes e.write_buffer ≡ 0)
send_then_drain junk n ns c ev bytes s h i fits t =
    let (es, d, e1, w1, st) = send_in_reactor_lem junk n c ev bytes s h i fits in
    let left : readable_bytes d.write_buffer ≡ length bytes - n =
      sym (length-contents d.write_buffer st.valid) ∙ ap length st.pending ∙ length-drop n bytes in
    let (more, e, e2, w2, z) = drain_lem ns d st.ev st.opened st.valid (rw left t) in
    (es, more, d, e, e1, e2, wired-append es more ∙ ap (λ t. wired es ++ t) w2 ∙ w1, z)
