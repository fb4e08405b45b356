-- ===== src/NetConnection/Sending.antt =====
-- Sending on a connection, and writing out what was left.
use websocket_cpp.Base.{
  ℕ, ◌+◌, ◌-◌, ◌<◌, ◌≤◌, ◌≡◌, refl, ap, sym, ◌∙◌, List, [], ◌∷◌, ◌++◌, append-nil, append_assoc,
  Bool, true, false, length, take, drop, take-append-drop, ◌==◌, if◌then◌else◌, some, ok, arith,
  lt→ltb, le→ltb, Bool-cases, ==_iff, ◌⊎◌, inl, inr,
}
use native.Mathlib.Decide.{dec_lt, dec_le}
use websocket_cpp.Buffer.{Buffer, readable_bytes, writeable_bytes, prepend_size}
use websocket_cpp.Buffer.Contents.{contents, IsValid, length-contents}
use websocket_cpp.Buffer.Space.{write_appends}
use websocket_cpp.Poller.{EventHandler, change_events, enable_write}
use websocket_cpp.Poller.Flags.{change_events_lem}
use websocket_cpp.NetConnection.{
  NetConnection, NetState, disconnected, connecting, WriteResult, Effect, wire, conn_callback,
  msg_recv, write_complete, close_callback, shutdown_write, queue, Outcome, connected, wrote,
  store_remainder, send_connected, send_in_reactor, is_writeable,
}

-- The bytes that the socket took.
abbrev pub wired : List Effect → List ℕ
wired [] = []
wired (wire bytes ∷ es) = bytes ++ wired es
wired (conn_callback b ∷ es) = wired es
wired (msg_recv bytes ∷ es) = wired es
wired (write_complete ∷ es) = wired es
wired (close_callback ∷ es) = wired es
wired (shutdown_write ∷ es) = wired es
wired (queue t ∷ es) = wired es

pub wired-append : (xs ys : List Effect) → wired (xs ++ ys) ≡ wired xs ++ wired ys
wired-append [] ys = refl
wired-append (wire bytes ∷ es) ys =
    ap (λ t. bytes ++ t) (wired-append es ys) ∙ sym (append_assoc bytes (wired es) (wired ys))
wired-append (conn_callback b ∷ es) ys = wired-append es ys
wired-append (msg_recv bytes ∷ es) ys = wired-append es ys
wired-append (write_complete ∷ es) ys = wired-append es ys
wired-append (close_callback ∷ es) ys = wired-append es ys
wired-append (shutdown_write ∷ es) ys = wired-append es ys
wired-append (queue t ∷ es) ys = wired-append es ys

-- Nothing waits in the write buffer, which is valid and begins where an empty buffer does.
pub record IsIdle (b : Buffer) : Type 0 where
  pub valid : IsValid b
  pub empty : readable_bytes b ≡ 0
  pub settled : b.read_pos ≡ prepend_size

pub length-zero : (xs : List ℕ) → length xs ≡ 0 → xs ≡ []
length-zero [] h = refl
length-zero (x ∷ xs) h = absurd (omega arith)

idle-contents : (b : Buffer) → IsIdle b → contents b ≡ []
idle-contents b i = length-zero (contents b) (length-contents b i.valid ∙ i.empty)

-- The handler of an open connection waits for a combination of the flags that the code uses.
pub record IsOpen (c : NetConnection) (ev : EventHandler) : Type 0 where
  pub held : c.event ≡ some ev
  pub flags : ev.events < 8

-- The handler after `sendInReactor` has stored data.
abbrev watching : EventHandler → EventHandler
watching ev = if is_writeable ev then ev else change_events enable_write ev

watching_lem :
    (ev : EventHandler)
    → ev.events < 8
    → ((watching ev).events < 8) × (is_writeable (watching ev) ≡ true)
watching_lem ev small =
    let (a, b, c) = change_events_lem enable_write ev small in
    elim (Bool-cases (is_writeable ev)) [ inl y ↦ rw y (small, y) | inr n ↦ rw n (a, c) ]

-- What `sendInReactor` leaves in the connection, if `rest` could not be written.
pub record Stored (c : NetConnection) (rest : List ℕ) (d : NetConnection) : Type 0 where
  pub same_state : d.state ≡ c.state
  pub ev : EventHandler
  pub opened : IsOpen d ev
  pub valid : IsValid d.write_buffer
  pub pending : contents d.write_buffer ≡ rest
  pub watched : 0 < length rest → is_writeable ev ≡ true

store_remainder_lem :
    (junk : ℕ) (c : NetConnection) (ev : EventHandler) (rest : List ℕ)
    → IsOpen c ev
    → IsIdle c.write_buffer
    → (d : NetConnection) × (store_remainder junk c rest ≡ ok d) × Stored c rest d
unfolding store_remainder
store_remainder_lem junk c ev rest h i = elim (dec_lt 0 (length rest)) [
  | yes y ↦
      let (wb, w, v, held, r) =
        write_appends junk c.write_buffer rest i.valid (omega (arith, i.settled)) way in
      let (small, watched) = watching_lem ev h.flags in
      (
        record c { write_buffer = wb; event = some (watching ev) },
        rw (store_remainder, lt→ltb 0 (length rest) y, w, h.held) refl,
        record {
          same_state = refl;
          ev = watching ev;
          opened = record { held = refl; flags = small };
          valid = v;
          pending = held ∙ ap (λ t. t ++ rest) (idle-contents c.write_buffer i);
          watched = λ z. watched;
        },
      )
  | no n ↦ (
    c,
    rw (store_remainder, le→ltb 0 (length rest) (omega arith)) refl,
    record {
      same_state = refl;
      ev = ev;
      opened = h;
      valid = i.valid;
      pending = idle-contents c.write_buffer i ∙ sym (length-zero rest (omega arith));
      watched = λ z. absurd (omega arith);
    },
  )
]
  where
    way :
        (length rest ≤ writeable_bytes c.write_buffer)
        ⊎ (writeable_bytes c.write_buffer + c.write_buffer.read_pos < length rest + prepend_size)
    way = elim (dec_le (length rest) (writeable_bytes c.write_buffer)) [
      | yes a ↦ inl a
      | no a ↦ inr (omega (arith, i.settled))
    ]

pub send_in_reactor_eq :
    (junk : ℕ) (answer : WriteResult) (c : NetConnection) (bytes : List ℕ)
    → c.state ≡ connected
    → send_in_reactor junk answer c bytes ≡ send_connected junk answer c bytes
unfolding send_in_reactor
send_in_reactor_eq junk answer c bytes s = go c.state s
  where
    go :
        (t : NetState)
        → t ≡ connected
        → ◌≡◌ {A = Outcome}
            (elim t [
              | disconnected ↦ ok ([], c)
              | connecting ↦ send_connected junk answer c bytes
              | connected ↦ send_connected junk answer c bytes
            ])
            (send_connected junk answer c bytes)
    go disconnected h = cc h
    go connecting h = refl
    go connected h = refl

pub send_connected_eq :
    (junk n : ℕ) (c d : NetConnection) (ev : EventHandler) (bytes : List ℕ)
    → c.event ≡ some ev
    → readable_bytes c.write_buffer ≡ 0
    → store_remainder junk c (drop n bytes) ≡ ok d
    → send_connected junk (wrote n) c bytes
      ≡ ok (wire (take n bytes) ∷ (if length bytes - n == 0 then write_complete ∷ [] else []), d)
unfolding send_connected
send_connected_eq junk n c d ev bytes h z e =
    rw (send_connected, e, (==_iff (readable_bytes c.write_buffer) 0).1 z, h) refl

-- On a connected, idle connection whose socket takes `n` bytes of the data, these and what is then in
-- the write buffer are the data, and the socket is watched for being writeable if something is left.
pub send_in_reactor_lem :
    (junk n : ℕ) (c : NetConnection) (ev : EventHandler) (bytes : List ℕ)
    → c.state ≡ connected
    → IsOpen c ev
    → IsIdle c.write_buffer
    → n ≤ length bytes
    → (es : List Effect) × (d : NetConnection) × (send_in_reactor junk (wrote n) c bytes
        ≡ ok (es, d))
      × (wired es ++ contents d.write_buffer ≡ bytes)
      × Stored c (drop n bytes) d
send_in_reactor_lem junk n c ev bytes s h i fits =
    let (d, e, st) = store_remainder_lem junk c ev (drop n bytes) h i in
    let done : List Effect = if length bytes - n == 0 then write_complete ∷ [] else [] in
    (
      wire (take n bytes) ∷ done,
      d,
      send_in_reactor_eq junk (wrote n) c bytes s
          ∙ send_connected_eq junk n c d ev bytes h.held i.empty e,
      ap (λ t. t ++ contents d.write_buffer) (no_more (length bytes - n == 0))
          ∙ ap (λ t. take n bytes ++ t) st.pending
          ∙ take-append-drop n bytes,
      st,
    )
  where
    no_more :
        (b : Bool) → take n bytes ++ wired (if b then write_complete ∷ [] else []) ≡ take n bytes
    no_more true = append-nil (take n bytes)
    no_more false = append-nil (take n bytes)
