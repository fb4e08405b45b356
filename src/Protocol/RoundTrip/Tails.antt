-- ===== src/Protocol/RoundTrip/Tails.antt =====
-- Messages in slices whose last slice is short or empty.
use websocket_cpp.Base.{
  ℕ, ◌-◌, ◌*◌, ◌/◌, ◌%◌, ◌<◌, ◌≤◌, ◌≡◌, ◌↔◌, ap, sym, ◌∙◌, List, [], ◌∷◌, ◌++◌, length, take, drop,
  length-take, take-append-drop, drop-append_of_eq, ok, lt→ltb, arith,
}
use websocket_cpp.Protocol.Head.{WsHead, OpCode}
use websocket_cpp.Protocol.Mask.Laws.{IsBytes}
use websocket_cpp.Protocol.Encode.{Encoded, encode_frame}
use websocket_cpp.Protocol.Encode.Shape.{IsData, encode_frame_data}
use websocket_cpp.Protocol.Decode.{WsProtocol}
use websocket_cpp.Protocol.RoundTrip.{Delivers, sliced, receive}
use websocket_cpp.Protocol.RoundTrip.Message.{receive-sliced}

-- With a last slice of 1 to 125 bytes, the last slice is taken 500 bytes too early: the receiver gets
-- the payload exactly if the payload's bytes from there agree with its end. `i` counts the full
-- slices.
pub short_tail :
    (stack : WsHead) (type : OpCode) (xs : List ℕ) (p : WsProtocol) (f : ℕ)
    → IsData type
    → IsBytes xs
    → 500 ≤ length xs
    → 0 < length xs % 500
    → length xs % 500 < 126
    → length xs ≤ 4000000
    → length xs ≤ length p.frame_buff
    → length xs ≤ f
    → let i = length xs / 500 in
      (e : Encoded) × (got : List ℕ) × (encode_frame stack xs (length xs) type ≡ ok e)
      × Delivers p (got ∷ []) (receive f p e.frames)
      × ((got ≡ xs) ↔ (take (length xs % 500) (drop ((i - 1) * 500) xs) ≡ drop (i * 500) xs))
short_tail stack type xs p f d b big last_pos short small room fuel = (
  _,
  sliced xs,
  encode_frame_data stack xs type d (omega arith),
  receive-sliced stack type xs p f d b last_pos big small room fuel,
  rw (lt→ltb (length xs % 500) 126 short) agree,
)
  where
    i : ℕ
    i = length xs / 500

    early : List ℕ
    early = take (length xs % 500) (drop ((i - 1) * 500) xs)

    agree : (take (i * 500) xs ++ early ≡ xs) ↔ (early ≡ drop (i * 500) xs)
    agree = (
      λ e.
          sym (
            drop-append_of_eq (i * 500) (take (i * 500) xs) early
              (omega (arith, length-take (i * 500) xs)))
          ∙ ap (drop (i * 500)) e,
      λ e. ap (λ t. take (i * 500) xs ++ t) e ∙ take-append-drop (i * 500) xs,
    )
