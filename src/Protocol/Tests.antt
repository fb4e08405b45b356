-- ===== src/Protocol/Tests.antt =====
-- The protocol on concrete data.
use websocket_cpp.Base.{
  ℕ, zero, suc, ◌-◌, ◌*◌, ◌/◌, ◌%◌, ◌≡◌, ◌≢◌, ◌↔◌, ◌⊎◌, inl, inr, refl, List, [], ◌∷◌, length, take,
  drop, replicate, length-replicate, flatten, ok, faulted, aborted, ◌==◌, if◌then◌else◌, arith,
}
use websocket_cpp.Protocol.Head.{WsHead, text_frame, blob_frame, close_frame, head_of}
use websocket_cpp.Protocol.Mask.{mask_from, compute_mask, compute_un_mask}
use websocket_cpp.Protocol.Mask.Laws.{IsBytes}
use websocket_cpp.Protocol.Encode.{Encoded, encode_frame}
use websocket_cpp.Protocol.Decode.{WsProtocol, returned, running, failed, decode_frame}
use websocket_cpp.Protocol.Decode.Ends.{MeetsStuck, decode_frame_ends, decode_frame_stuck}
use websocket_cpp.Protocol.RoundTrip.{Delivers, receive}
use websocket_cpp.Protocol.RoundTrip.Message.{decode_frame-encode_frame}
use websocket_cpp.Protocol.RoundTrip.Tails.{short_tail}
use websocket_cpp.Protocol.RoundTrip.Multiples.{Lost, multiples-Lost}
use websocket_cpp.Protocol.RoundTrip.Control.{control_round_trip}
use websocket_cpp.Protocol.RoundTrip.Truncated.{arrived, truncated_faults}

abbrev stack : WsHead
stack = record { fin = 0; rsv = 5; opcode = 9; mask = 1; payload_len = 77 }

abbrev hello : List ℕ
hello = 104 ∷ 101 ∷ 108 ∷ 108 ∷ 111 ∷ []

-- `n` bytes `0x63`.
abbrev run_of : ℕ → List ℕ
run_of n = replicate n 0x63

abbrev fresh : WsProtocol
fresh = record { frame_buff = replicate 4096 0; frame_pos = 0 }

run_of-IsBytes : (n : ℕ) → IsBytes (run_of n)
unfolding replicate
run_of-IsBytes zero = tt
run_of-IsBytes (suc n) = (omega arith, run_of-IsBytes n)

length-run : (n : ℕ) → length (run_of n) ≡ n
length-run n = length-replicate n 0x63

length-fresh : length fresh.frame_buff ≡ 4096
length-fresh = length-replicate {A = ℕ} 4096 0

hello_frame :
    encode_frame stack hello 5 text_frame
    ≡ ok (record {
      payload = 106 ∷ 109 ∷ 76 ∷ 236 ∷ 109 ∷ [];
      frames = (17 ∷ 11 ∷ 2 ∷ 8 ∷ 32 ∷ 128 ∷ 106 ∷ 109 ∷ 76 ∷ 236 ∷ 109 ∷ []) ∷ [];
    })
unfolding encode_frame compute_mask mask_from take drop
hello_frame = refl

hello_received :
    decode_frame 3
      (record { frame_buff = []; frame_pos = 0 })
      (17 ∷ 11 ∷ 2 ∷ 8 ∷ 32 ∷ 128 ∷ 106 ∷ 109 ∷ 76 ∷ 236 ∷ 109 ∷ [])
      11
    ≡ record {
      proto = record { frame_buff = []; frame_pos = 0 };
      calls = hello ∷ [];
      status = returned;
    }
unfolding decode_frame compute_un_mask mask_from take drop
hello_received = refl

-- Two slices, of 500 and 200 bytes.
decode_frame-encode_frame_example :
    (e : Encoded) × (encode_frame stack (run_of 700) (length (run_of 700)) blob_frame ≡ ok e)
    × Delivers fresh (run_of 700 ∷ []) (receive 700 fresh e.frames)
decode_frame-encode_frame_example =
    decode_frame-encode_frame stack blob_frame (run_of 700) fresh 700 tt (run_of-IsBytes 700)
      (omega (arith, length-run 700)) (inr (omega (arith, length-run 700)))
      (omega (arith, length-run 700)) (omega (arith, length-run 700, length-fresh))
      (omega (arith, length-run 700))

-- A last slice of 48 bytes, as in the program's own unit test.
short_tail_example :
    (e : Encoded) × (got : List ℕ) × (encode_frame stack
        (run_of 2048)
        (length (run_of 2048))
        text_frame
      ≡ ok e)
    × Delivers fresh (got ∷ []) (receive 2048 fresh e.frames)
    × ((got ≡ run_of 2048) ↔ (
        take
          (length (run_of 2048) % 500)
          (drop ((length (run_of 2048) / 500 - 1) * 500) (run_of 2048))
        ≡ drop (length (run_of 2048) / 500 * 500) (run_of 2048)))
short_tail_example =
    short_tail stack text_frame (run_of 2048) fresh 2048 tt (run_of-IsBytes 2048)
      (omega (arith, length-run 2048)) (omega (arith, length-run 2048))
      (omega (arith, length-run 2048)) (omega (arith, length-run 2048))
      (omega (arith, length-run 2048, length-fresh)) (omega (arith, length-run 2048))

multiples-Lost_example :
    (e : Encoded) × (encode_frame stack (run_of 1500) (length (run_of 1500)) text_frame ≡ ok e)
    × Lost
        (if length (run_of 1500) == 500 then returned else failed aborted)
        (receive 1500 fresh e.frames)
multiples-Lost_example =
    multiples-Lost stack text_frame (run_of 1500) fresh 1500 tt (run_of-IsBytes 1500)
      (omega (arith, length-run 1500)) (omega (arith, length-run 1500))
      (omega (arith, length-run 1500)) (omega (arith, length-run 1500, length-fresh))
      (omega (arith, length-run 1500))

control_round_trip_example :
    (e : Encoded) × (encode_frame stack hello 5 close_frame ≡ ok e)
    × (receive 1 fresh e.frames ≡ record { proto = fresh; calls = hello ∷ []; status = returned })
control_round_trip_example =
    control_round_trip 0 fresh stack close_frame hello tt (omega arith) (inl refl) (omega arith)
      (omega arith) (omega arith)

truncated_faults_example :
    (e : Encoded) × (encode_frame stack hello 5 text_frame ≡ ok e)
    × (decode_frame 1 fresh (arrived 8 (flatten e.frames)) 8
        ≡ record { proto = fresh; calls = []; status = failed faulted })
truncated_faults_example =
    truncated_faults 0 fresh stack text_frame hello 8 tt (omega arith) (omega arith)
      (inl (omega arith, omega arith, omega arith))

decode_frame_ends_example :
    ((decode_frame 12 fresh (17 ∷ 11 ∷ hello) 7).status ≢ running) ⊎ MeetsStuck (17 ∷ 11 ∷ hello)
decode_frame_ends_example = decode_frame_ends 12 fresh (17 ∷ 11 ∷ hello) 7 (omega arith)

-- The bytes 17 and 254: a last text frame, not masked, with a `PayloadLen` of 127.
decode_frame_stuck_example :
    decode_frame 9 fresh (17 ∷ 254 ∷ hello) 7
    ≡ record { proto = fresh; calls = replicate 9 []; status = running }
decode_frame_stuck_example =
    decode_frame_stuck 9 fresh (head_of 17 254) (17 ∷ 254 ∷ hello) 7 refl (omega arith)
      (omega arith) (omega arith) (omega arith)
