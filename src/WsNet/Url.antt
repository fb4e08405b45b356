-- ===== src/WsNet/Url.antt =====
-- The constructor of `WSNet`: from an url to the address that its `NetClient` connects to.
pub mod Parts
pub mod Address
use websocket_cpp.Base.{
  ℕ, suc, ◌+◌, ◌-◌, ◌%◌, ◌^◌, ◌<◌, ◌≤◌, ◌≡◌, refl, sym, ap, subst, ◌∙◌, List, [], ◌∷◌, ◌++◌,
  append_assoc, append-nil, Bool, true, false, ◌&&◌, ◌||◌, length, length-append, get_elem?, leb,
  ◌==◌, if◌then◌else◌, Option, none, some, Result, ok, err, faulted, ◌>>=◌, decimal, read_digits,
  is_digit, AllDigits, AllDigits-decimal, decimal_pos, le→leb, read_digits-decimal, arith,
}
use websocket_cpp.Utility.{strsplit, push_last, split_loop}
use websocket_cpp.Utility.Fields.{Without, split_loop-field, split_loop-last, split_loop-keeps}
use websocket_cpp.SocketOpts.{SockAddr, make_sock_addr, host_to_network16}

-- `std::isspace`
abbrev pub is_space : ℕ → Bool
is_space c = c == 32 || leb 9 c && leb c 13

pub skip_spaces : List ℕ → List ℕ
skip_spaces [] = []
skip_spaces (c ∷ s) = if is_space c then skip_spaces s else c ∷ s

-- The sign and the digits, as a `uint16_t`
pub signed_port : List ℕ → ℕ
signed_port [] = 0
signed_port (c ∷ s) =
    if c == 45
    then (2 ^ 16 - read_digits 0 s % 2 ^ 16) % 2 ^ 16
    else read_digits 0 (if c == 43 then s else c ∷ s) % 2 ^ 16

-- `atoi`, cut down to a `short` and taken for a `uint16_t` by `makeSockAddr`
pub atoi_port : List ℕ → ℕ
atoi_port s = signed_port (skip_spaces s)

-- `vec[i]`
abbrev pub item : List (List ℕ) → ℕ → Result (List ℕ)
item v i = elim (get_elem? v i) [ none ↦ err faulted | some x ↦ ok x ]

-- `strsplit` into an empty vector, whose fuel does not end
pub parts : List ℕ → ℕ → List (List ℕ)
parts s c = elim (strsplit s (c ∷ []) []) [ none ↦ [] | some v ↦ v ]

-- The characters before a 0
pub c_str : List ℕ → List ℕ
c_str [] = []
c_str (c ∷ s) = let rest = c_str s in if c == 0 then [] else c ∷ rest

-- `vec[2]`, taken apart at the colon, and `new NetClient`
pub client_at : (List ℕ → Option ℕ) → List (List ℕ) → Result SockAddr
client_at inet_pton vec = do
  addr ← item vec 2
  let v = parts addr 58
  host ← item v 0
  port ← item v 1
  make_sock_addr inet_pton (c_str host) (atoi_port (c_str port))

-- What `client_` connects to, none for NULL
pub new_ws_net : (List ℕ → Option ℕ) → List ℕ → Result (Option SockAddr)
new_ws_net inet_pton url =
    let vec = parts url 47 in
    if leb 2 (length vec) then (do a ← client_at inet_pton vec; ok (some a)) else ok none
