-- ===== src/WebSocket/Tests.antt =====
-- A greeting from a client to a server.
use websocket_cpp.Base.{
  ℕ, ◌≤◌, ◌≡◌, refl, List, [], ◌∷◌, Bool, true, false, some, none, Option, flatten, ◌==◌,
  if◌then◌else◌, ap, ◌∙◌, length, take, drop, replicate, inl, arith, ltb,
}
use websocket_cpp.Protocol.Head.{WsHead}
use websocket_cpp.Protocol.Encode.{encode_frame}
use websocket_cpp.Buffer.{Buffer}
use websocket_cpp.Buffer.Contents.{IsValid}
use websocket_cpp.Protocol.Mask.{compute_mask, mask_from}
use websocket_cpp.NetConnection.{NetConnection, connected, WriteResult, wrote, Task, send_task}
use websocket_cpp.NetConnection.Queued.{send_each, TakesAll, send_each_eq}
use websocket_cpp.Poller.{EventHandler}
use websocket_cpp.Reactor.Steps.{
  System, running_tasks, other_push, enter, poll_other, take as take_task, call, Reach, here, next,
}
use websocket_cpp.WsNet.Send.{
  wait_connected, enc_frame_callback, enc_frame_callbacks, send_now, send,
}
use websocket_cpp.WebSocket.{send_string}
use websocket_cpp.WebSocket.Arrives.{bytes_of, IsSendable, Arrives, string-Arrives}

abbrev junk_head : WsHead
junk_head = record { fin = 0; rsv = 5; opcode = 9; mask = 0; payload_len = 77 }

abbrev greeting : List ℕ
greeting = 72 ∷ 105 ∷ []

-- The connection comes up between the second and the third look.
abbrev reads : ℕ → Bool
reads k = ltb 1 k

abbrev frame : List ℕ
frame = 17 ∷ 5 ∷ 2 ∷ 8 ∷ 32 ∷ 128 ∷ 74 ∷ 97 ∷ []

sends : bytes_of (send_string 5 reads (some 3) junk_head greeting) ≡ frame ∷ []
unfolding send_string send wait_connected send_now enc_frame_callbacks enc_frame_callback
    encode_frame compute_mask mask_from take drop
sends = refl

abbrev empty_buffer : Buffer
empty_buffer = record { mem = replicate 16 7; size = 0; read_pos = 8; write_pos = 8 }

empty_buffer-IsValid : IsValid empty_buffer
unfolding replicate
empty_buffer-IsValid = omega arith

abbrev ev : EventHandler
ev = record { fd = 3; events = 3 }

abbrev open_conn : NetConnection
open_conn = record {
  state = connected;
  event = some ev;
  read_buffer = empty_buffer;
  write_buffer = empty_buffer;
}

-- The frame and a function of another object have been handed to the loop, and called.
abbrev idle : System
idle = record {
  reactor = record {
    functor_list = [];
    running = [];
    task_running = true;
    wakeups = 0;
    quit = false;
    done = 5 ∷ 9 ∷ [];
  };
  phase = running_tasks;
  pending = 2;
  queued = 5 ∷ 9 ∷ [];
}

Reach-idle : Reach idle
Reach-idle =
    next
      (next
        (next
          (next (next (next (next here (enter refl refl)) (other_push 5)) (other_push 9))
            (poll_other refl))
          (take_task refl (λ e. cc e)))
        (call 5 (9 ∷ []) refl refl))
      (call 9 [] refl refl)

reads_stay : (i j : ℕ) → i ≤ j → reads i ≡ true → reads j ≡ true
reads_stay i j h y = ground arith

greeting-IsSendable : IsSendable greeting
greeting-IsSendable = record {
  bytes = omega arith;
  some_byte = omega arith;
  long_tail = inl (omega arith);
  small = omega arith;
}

-- The frame is the function 5 of the loop; the others are of other objects.
abbrev job : ℕ → Option Task
job f = if f == 5 then some (send_task frame) else none

abbrev answer : ℕ → WriteResult
answer f = wrote 8

takes_all : TakesAll job answer
takes_all f bytes h = cases (f == 5) h
  where
    cases :
        (b : Bool)
        → (if b then some (send_task frame) else none) ≡ some (send_task bytes)
        → wrote 8 ≡ wrote (length bytes)
    cases true e = ap (λ t. wrote (length t)) (let same : frame ≡ bytes = cc in same)
    cases false e = cc e

one_read : length (flatten (frame ∷ [])) ≤ 65536
unfolding flatten
one_read = omega arith

string-Arrives_example :
    Arrives 7 3 2 100000000 4 open_conn open_conn junk_head
      (0 ∷ 0 ∷ [])
      []
      job
      answer
      (5 ∷ 9 ∷ [])
      (send_string 5 reads (some 3) junk_head greeting)
      greeting
string-Arrives_example =
    string-Arrives 7 100000000 4 open_conn open_conn ev ev refl refl refl refl empty_buffer-IsValid
      5 2 2 3 reads junk_head junk_head greeting (0 ∷ 0 ∷ []) [] job answer _ open_conn
      (omega arith) refl reads_stay greeting-IsSendable Reach-idle
      (ap (λ t. send_each 7 t open_conn) sends ∙ send_each_eq 7 open_conn refl (frame ∷ [])) refl
      refl takes_all (rw sends one_read) (omega arith) (omega arith) tt (omega arith)
