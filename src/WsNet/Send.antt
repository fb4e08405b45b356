-- ===== src/WsNet/Send.antt =====
-- `send` of websocket/WSNet.cpp, and its wait for the connection.
use native.Mathlib.Decide.{dec_lt}
use websocket_cpp.Base.{
  ◌≢◌, subst, ap, ℕ, zero, suc, ◌+◌, ◌≤◌, ◌<◌, ◌≡◌, refl, List, [], ◌∷◌, ◌++◌, map, Bool, true,
  false, Option, none, some, length, if◌then◌else◌, Result, ok, ◌>>=◌, Bool-cases, inl, inr, ◌∙◌,
  sym, arith,
}
use websocket_cpp.Protocol.Head.{WsHead, OpCode}
use websocket_cpp.Protocol.Encode.{Encoded, encode_frame}

-- `while (!bconnected_)`, a sleep of 100 milliseconds each round: `reads k` is `bconnected_` at the k-th
-- time that it is read. The number of rounds, or none when the fuel has run out.
unfoldable pub wait_connected : ℕ → (ℕ → Bool) → ℕ → Option ℕ
wait_connected zero reads k = none
wait_connected (suc fuel) reads k =
    let rest = wait_connected fuel reads (suc k) in if reads k then some k else rest

-- `encFrameCallback`: what `send` of a connection is given. `conn` is what `getConn` returns.
unfoldable pub enc_frame_callback : Option ℕ → List ℕ → List (ℕ × List ℕ)
enc_frame_callback none bytes = []
enc_frame_callback (some conn) bytes = (conn, bytes) ∷ []

unfoldable pub enc_frame_callbacks : Option ℕ → List (List ℕ) → List (ℕ × List ℕ)
enc_frame_callbacks conn [] = []
enc_frame_callbacks conn (bytes ∷ rest) =
    enc_frame_callback conn bytes ++ enc_frame_callbacks conn rest

-- `send` behind the wait: `again` is `bconnected_` at its second test.
unfoldable pub send_now : Bool → Option ℕ → WsHead → List ℕ → OpCode → Result (List (ℕ × List ℕ))
send_now again conn stack payload type =
    if again
    then (do
      e ← encode_frame stack payload (length payload) type
      ok (enc_frame_callbacks conn e.frames))
    else ok []

-- `send`; none when the fuel of the wait has run out
unfoldable pub send :
    ℕ → (ℕ → Bool) → Option ℕ → WsHead → List ℕ → OpCode → Option (Result (List (ℕ × List ℕ)))
send fuel reads conn stack payload type = elim (wait_connected fuel reads 0) [
  | none ↦ none
  | some k ↦ some (send_now (reads (suc k)) conn stack payload type)
]

-- The wait ends at the first time that `bconnected_` is true, and only then.
abbrev pub Awaited : (ℕ → Bool) → ℕ → Option ℕ → Type 0
Awaited reads k none = Unit
Awaited reads k (some n) = (k ≤ n) × (reads n ≡ true) × ((j : ℕ) → k ≤ j → j < n → reads j ≡ false)

wait_connected-Awaited :
    (fuel : ℕ) (reads : ℕ → Bool) (k : ℕ) → Awaited reads k (wait_connected fuel reads k)
unfolding wait_connected
wait_connected-Awaited zero reads k = tt
wait_connected-Awaited (suc fuel) reads k = elim (Bool-cases (reads k)) [
  | inl y ↦ rw y (omega arith, y, λ j a b. absurd (omega arith))
  | inr n ↦
      rw n (later (wait_connected fuel reads (suc k)) (wait_connected-Awaited fuel reads (suc k)) n)
]
  where
    later : (o : Option ℕ) → Awaited reads (suc k) o → reads k ≡ false → Awaited reads k o
    later none a f = tt
    later (some n) (a, y, h) f = (omega arith, y, λ j b c. at j b c (h j))
      where
        at : (j : ℕ) → k ≤ j → j < n → (suc k ≤ j → j < n → reads j ≡ false) → reads j ≡ false
        at j b c g = elim (dec_lt k j) [
          | yes l ↦ g (omega arith) c
          | no l ↦ let e : j ≡ k = omega arith in rw e f
        ]

-- A true reading within the fuel is found.
wait_connected-some :
    (fuel : ℕ) (reads : ℕ → Bool) (k n : ℕ)
    → k ≤ n
    → n < k + fuel
    → reads n ≡ true
    → (m : ℕ) × (wait_connected fuel reads k ≡ some m)
unfolding wait_connected
wait_connected-some zero reads k n a b y = absurd (omega arith)
wait_connected-some (suc fuel) reads k n a b y = elim (Bool-cases (reads k)) [
  | inl now ↦ (k, rw now refl)
  | inr not_now ↦
      rw not_now (wait_connected-some fuel reads (suc k) n (next not_now) (omega arith) y)
]
  where
    clash : true ≢ false
    clash h = cc h

    next : reads k ≡ false → suc k ≤ n
    next f = elim (dec_lt k n) [
      | yes l ↦ omega arith
      | no l ↦ let e : n ≡ k = omega arith in absurd (clash (sym y ∙ ap reads e ∙ f))
    ]

-- `send` returns if `bconnected_` is true at some time that it is read, and goes by what it reads next.
pub send_eq :
    (fuel : ℕ) (reads : ℕ → Bool) (n : ℕ) (conn : Option ℕ) (stack : WsHead) (payload : List ℕ)
    (type : OpCode)
    → n < fuel
    → reads n ≡ true
    → (m : ℕ) × (reads m ≡ true)
      × (send fuel reads conn stack payload type
          ≡ some (send_now (reads (suc m)) conn stack payload type))
unfolding send
send_eq fuel reads n conn stack payload type h y =
    let (m, e) = wait_connected-some fuel reads 0 n (omega arith) (omega arith) y in
    (m, (subst (Awaited reads 0) e (wait_connected-Awaited fuel reads 0)).1, rw (send, e) refl)

-- The frames with the connection that sends them
abbrev pub on_conn : ℕ → List (List ℕ) → List (ℕ × List ℕ)
on_conn fd = map (λ b. (fd, b))

callbacks_eq :
    (fd : ℕ) (frames : List (List ℕ)) → enc_frame_callbacks (some fd) frames ≡ on_conn fd frames
unfolding enc_frame_callbacks enc_frame_callback
callbacks_eq fd [] = refl
callbacks_eq fd (b ∷ frames) = ap (λ t. (fd, b) ∷ t) (callbacks_eq fd frames)

-- A client that is connected at some time of the wait and stays so gives the frames to its connection.
pub send_lem :
    (fuel : ℕ) (reads : ℕ → Bool) (n fd : ℕ) (from : WsHead) (xs : List ℕ) (type : OpCode)
    (e : Encoded)
    → n < fuel
    → reads n ≡ true
    → ((i j : ℕ) → i ≤ j → reads i ≡ true → reads j ≡ true)
    → encode_frame from xs (length xs) type ≡ ok e
    → send fuel reads (some fd) from xs type ≡ some (ok (on_conn fd e.frames))
unfolding send_now
send_lem fuel reads n fd from xs type e h y stays sent =
    let (m, now, q) = send_eq fuel reads n (some fd) from xs type h y in
    q
    ∙ rw (stays m (suc m) (omega arith) now, send_now, sent)
        (ap (λ t. some (ok t)) (callbacks_eq fd e.frames))

wait_connected-none :
    (fuel : ℕ) (reads : ℕ → Bool) (k : ℕ)
    → ((j : ℕ) → reads j ≡ false)
    → wait_connected fuel reads k ≡ none
unfolding wait_connected
wait_connected-none zero reads k never = refl
wait_connected-none (suc fuel) reads k never =
    rw (never k) (wait_connected-none fuel reads (suc k) never)

-- A client that never gets its connection never returns from `send`.
pub send_waits :
    (fuel : ℕ) (reads : ℕ → Bool) (conn : Option ℕ) (stack : WsHead) (payload : List ℕ)
    (type : OpCode)
    → ((k : ℕ) → reads k ≡ false)
    → send fuel reads conn stack payload type ≡ none
unfolding send
send_waits fuel reads conn stack payload type never =
    rw (send, wait_connected-none fuel reads 0 never) refl
