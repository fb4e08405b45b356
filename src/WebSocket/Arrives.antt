-- ===== src/WebSocket/Arrives.antt =====
-- From the user of the client to the application of the server, through everything in between.
use websocket_cpp.Base.{
  ℕ, suc, ◌%◌, ◌/◌, ◌^◌, ◌≤◌, ◌<◌, ◌≡◌, ◌≢◌, refl, ap, sym, subst, ◌∙◌, ◌⊎◌, List, [], ◌∷◌, ◌++◌,
  append-nil, map, flatten, Bool, true, none, some, length, if◌then◌else◌, err, ok, Option, arith,
}
use websocket_cpp.Buffer.{readable_bytes}
use websocket_cpp.Buffer.Contents.{IsValid}
use websocket_cpp.Poller.{EventHandler}
use websocket_cpp.Protocol.Head.{WsHead, text_frame}
use websocket_cpp.Protocol.Mask.Laws.{IsBytes}
use websocket_cpp.Protocol.Encode.{Encoded, encode_frame}
use websocket_cpp.Protocol.Decode.{WsProtocol, decode_frame, returned}
use websocket_cpp.Protocol.RoundTrip.Message.{decode_frame-encode_frame}
use websocket_cpp.Heartbeat.{ConnHeart}
use websocket_cpp.Heartbeat.Receiver.{IsDistinct}
use websocket_cpp.Heartbeat.Exchange.{asks_ping}
use websocket_cpp.TimerQueue.{microseconds_per_second}
use websocket_cpp.NetConnection.{
  NetConnection, connected, WriteResult, Effect, Task, msg_recv, handle_read,
}
use websocket_cpp.NetConnection.Sending.{wired}
use websocket_cpp.NetConnection.Queued.{
  run_jobs, send_each, tasks_of, queued_tasks, TakesAll, send_each_lem, run_jobs_lem,
}
use websocket_cpp.NetConnection.Closing.{handle_read_lem}
use websocket_cpp.Reactor.Steps.{System, Reach}
use websocket_cpp.Reactor.Order.{Reach-IsOrdered}
use websocket_cpp.WebSocketServer.{Handled, on_conn_message}
use websocket_cpp.WebSocketServer.Messages.{IsHandled, server_receives}
use websocket_cpp.WsNet.Send.{on_conn, send_lem}
use websocket_cpp.WebSocket.{Sent, send_string}

-- What the connection is given
abbrev pub bytes_of : Sent → List (List ℕ)
bytes_of none = []
bytes_of (some (err how)) = []
bytes_of (some (ok sends)) = map (λ s. s.1) sends

bytes_of-on_conn : (fd : ℕ) (frames : List (List ℕ)) → map (λ s. s.1) (on_conn fd frames) ≡ frames
bytes_of-on_conn fd [] = refl
bytes_of-on_conn fd (b ∷ frames) = ap (λ t. b ∷ t) (bytes_of-on_conn fd frames)

send_string_eq :
    (fuel : ℕ) (reads : ℕ → Bool) (n fd : ℕ) (from : WsHead) (xs : List ℕ) (e : Encoded)
    → n < fuel
    → reads n ≡ true
    → ((i j : ℕ) → i ≤ j → reads i ≡ true → reads j ≡ true)
    → encode_frame from xs (length xs) text_frame ≡ ok e
    → send_string fuel reads (some fd) from xs ≡ some (ok (on_conn fd e.frames))
unfolding send_string
send_string_eq fuel reads n fd from xs e h y stays sent =
    send_lem fuel reads n fd from xs text_frame e h y stays sent

nothing_received : (p : WsProtocol) (f : ℕ) → (decode_frame (suc f) p [] 0).status ≢ returned
unfolding decode_frame
nothing_received p f e = cc e

-- What is read is passed on as it is, if it is something.
read_one :
    (junk : ℕ) (c : NetConnection) (ev : EventHandler) (bytes : List ℕ)
    → bytes ≢ []
    → c.event ≡ some ev
    → IsValid c.read_buffer
    → length bytes ≤ 65536
    → (d : NetConnection) × (handle_read junk (some bytes) c ≡ ok (msg_recv bytes ∷ [], d))
read_one junk c ev [] some_byte held v short = absurd (some_byte refl)
read_one junk c ev (x ∷ xs) some_byte held v short =
    let (es, d, e, w, r) = handle_read_lem junk c ev (x ∷ xs) held v short in
    (d, e ∙ ap (λ t. ok (t, d)) r.0)

-- A payload that gets through: bytes, not empty, shorter than 500 or with 126 or more in its last slice,
-- and at most 4000000.
pub record IsSendable (xs : List ℕ) : Type 0 where
  pub bytes : IsBytes xs
  pub some_byte : 0 < length xs
  pub long_tail : (length xs < 500) ⊎ (126 ≤ length xs % 500)
  pub small : length xs ≤ 4000000

wire_not_empty :
    (from : WsHead) (xs : List ℕ) (heap : List ℕ) (e : Encoded)
    → IsSendable xs
    → length xs ≤ length heap
    → encode_frame from xs (length xs) text_frame ≡ ok e
    → flatten e.frames ≢ []
wire_not_empty from xs heap e good room encoded nothing =
    let p : WsProtocol = record { frame_buff = heap; frame_pos = 0 } in
    let (e', encoded', got) =
      decode_frame-encode_frame from text_frame xs p (suc (length xs)) tt good.bytes good.some_byte
        good.long_tail good.small room (omega arith) in
    let same : e' ≡ e = cc in
    nothing_received p (length xs) (
      subst (λ w. (decode_frame (suc (length xs)) p w (length w)).status ≡ returned)
        (ap (λ d. flatten d.frames) same ∙ nothing) got.returns)

-- What the socket of the client took, what the server's end of the connection passes on, and what its
-- application gets
pub record Arrives (junk fd f now conn : ℕ) (c peer : NetConnection) (stack : WsHead)
    (heap : List ℕ) (list : List ConnHeart) (job : ℕ → Option Task) (answer : ℕ → WriteResult)
    (done : List ℕ) (sends : Sent) (xs : List ℕ) : Type 0 where
  pub frames : List (List ℕ)
  pub returns : sends ≡ some (ok (on_conn fd frames))
  pub effects : List Effect
  pub writes : run_jobs junk job answer done c ≡ ok (effects, c)
  pub after : NetConnection
  pub reads :
      handle_read junk (some (wired effects)) peer ≡ ok (msg_recv (wired effects) ∷ [], after)
  pub handled : Handled
  pub serves : on_conn_message f stack now heap conn (wired effects) list ≡ ok (handled, returned)
  pub told : IsHandled now conn (if asks_ping xs (length xs) then [] else xs ∷ []) handled

module _ (junk now conn : ℕ) (c peer : NetConnection) (ev peer_ev : EventHandler)
    (on : c.state ≡ connected) (held : c.event ≡ some ev)
    (empty : readable_bytes c.write_buffer ≡ 0) (peer_held : peer.event ≡ some peer_ev)
    (peer_valid : IsValid peer.read_buffer) where
  -- A string that the user gives to `sendString` gets to the application of the server.
  --
  -- The client is connected at one of the times at which `send` looks, and stays so. Each frame is sent on
  -- its connection from a thread that is not the loop's, which hands the loop a function; no other function
  -- of this connection was handed to the loop, and all that were, also those of other objects, have been
  -- called. The connection is connected, with nothing in its write buffer, and `write` takes all of each
  -- frame. All the frames, at most 65536 bytes, wait at the server's end, which is open and has a valid
  -- buffer, when it reads.
  --
  -- Then `sendString` returns, with all frames given to the connection; the server's end reads exactly what
  -- was written, its decoder returns, and the application gets the string, once and unchanged, unless it
  -- is "PING", which is answered. The string is not empty and has at most 4000000 bytes, and, if it has 500
  -- or more, 126 or more in its last slice; what `new` allocates at the server has room for it, the fuel of
  -- the decoder is at least its length, the list of the heartbeat holds no connection twice, and the time
  -- in seconds fits 32 bits.
  pub string-Arrives :
      (fuel f n fd : ℕ) (reads : ℕ → Bool) (from stack : WsHead) (xs heap : List ℕ)
      (list : List ConnHeart) (job : ℕ → Option Task) (answer : ℕ → WriteResult)
      (handed : List Effect) (after : NetConnection) {s : System}
      → n < fuel
      → reads n ≡ true
      → ((i j : ℕ) → i ≤ j → reads i ≡ true → reads j ≡ true)
      → IsSendable xs
      → Reach s
      → send_each junk (bytes_of (send_string fuel reads (some fd) from xs)) c ≡ ok (handed, after)
      → tasks_of job s.queued ≡ queued_tasks handed
      → s.reactor.running ++ s.reactor.functor_list ≡ []
      → TakesAll job answer
      → length (flatten (bytes_of (send_string fuel reads (some fd) from xs))) ≤ 65536
      → length xs ≤ length heap
      → length xs ≤ f
      → IsDistinct list
      → now / microseconds_per_second < 2 ^ 32
      → Arrives junk fd f now conn c peer stack heap list job answer s.reactor.done
          (send_string fuel reads (some fd) from xs)
          xs
  string-Arrives fuel f n fd reads from stack xs heap list job answer handed after {s} lt y stays
        good r sends jobs drained all short room enough distinct fits =
      let (e, h, sent_ok, serves, told) =
        server_receives f from stack text_frame now heap conn xs list tt good.bytes good.some_byte
          good.long_tail good.small room enough distinct fits in
      let returns = send_string_eq fuel reads n fd from xs e lt y stays sent_ok in
      let given : bytes_of (send_string fuel reads (some fd) from xs) ≡ e.frames =
        ap bytes_of returns ∙ bytes_of-on_conn fd e.frames in
      let called : s.reactor.done ≡ s.queued =
        sym (append-nil s.reactor.done)
        ∙ ap (λ t. s.reactor.done ++ t) (sym drained)
        ∙ Reach-IsOrdered r in
      let (es, writes, wire) =
        run_jobs_lem junk c ev on held empty job answer e.frames s.reactor.done all (
          ap (tasks_of job) called
          ∙ jobs
          ∙ send_each_lem junk c on e.frames handed after
              (subst (λ t. send_each junk t c ≡ ok (handed, after)) given sends)) in
      let (d, reads_it) =
        read_one junk peer peer_ev (wired es)
          (λ z. wire_not_empty from xs heap e good room sent_ok (sym wire ∙ z)) peer_held peer_valid
          (subst (λ t. length t ≤ 65536) (ap flatten given ∙ sym wire) short) in
      record {
        frames = e.frames;
        returns = returns;
        effects = es;
        writes = writes;
        after = d;
        reads = reads_it;
        handled = h;
        serves = ap (λ w. on_conn_message f stack now heap conn w list) wire ∙ serves;
        told = told;
      }
