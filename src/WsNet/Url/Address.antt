-- ===== src/WsNet/Url/Address.antt =====
-- The address that an url gives.
use websocket_cpp.Base.{
  ℕ, suc, ◌%◌, ◌^◌, ◌<◌, ◌≡◌, refl, ap, ◌∙◌, List, [], ◌∷◌, ◌++◌, true, false, length,
  length-append, leb, ◌==◌, Option, some, ok, err, faulted, ◌>>=◌, decimal, read_digits, is_digit,
  AllDigits, AllDigits-decimal, decimal_pos, le→leb, read_digits-decimal, arith,
}
use websocket_cpp.Utility.Fields.{Without, split_loop-field, split_loop-last, AllDigits-Without}
use websocket_cpp.SocketOpts.{make_sock_addr, host_to_network16}
use websocket_cpp.WsNet.Url.{
  is_space, skip_spaces, signed_port, atoi_port, parts, c_str, client_at, new_ws_net,
}
use websocket_cpp.WsNet.Url.Parts.{parts_eq, IsPath, parts_url, parts_address}

Without-append : (c : ℕ) (xs ys : List ℕ) → Without c xs → Without c ys → Without c (xs ++ ys)
Without-append c [] ys w v = v
Without-append c (x ∷ xs) ys w v = (w.0, Without-append c xs ys w.1 v)

c_str_lem : (s : List ℕ) → Without 0 s → c_str s ≡ s
unfolding c_str
c_str_lem [] w = refl
c_str_lem (c ∷ s) w = let e : (c == 0) ≡ false = ground (arith, w.0) in rw (e, c_str_lem s w.1) refl

plain_digit :
    (c : ℕ) → is_digit c ≡ true → (is_space c ≡ false) × ((c == 45) ≡ false) × ((c == 43) ≡ false)
plain_digit c h = (ground arith, ground arith, ground arith)

atoi_port-digits : (s : List ℕ) → AllDigits s → atoi_port s ≡ read_digits 0 s % 2 ^ 16
unfolding atoi_port skip_spaces signed_port read_digits
atoi_port-digits [] a = refl
atoi_port-digits (c ∷ s) a = let (sp, minus, plus) = plain_digit c a.0 in rw (sp, minus, plus) refl

client_at_eq :
    (inet_pton : List ℕ → Option ℕ) (addr host port : List ℕ) (scheme : List ℕ)
    (more : List (List ℕ))
    → parts addr 58 ≡ host ∷ port ∷ []
    → client_at inet_pton (scheme ∷ [] ∷ addr ∷ more)
      ≡ make_sock_addr inet_pton (c_str host) (atoi_port (c_str port))
unfolding client_at
client_at_eq inet_pton addr host port scheme more e = rw (client_at, e) refl

new_ws_net_eq :
    (inet_pton : List ℕ → Option ℕ) (url : List ℕ) (v : List (List ℕ))
    → parts url 47 ≡ v
    → leb 2 (length v) ≡ true
    → new_ws_net inet_pton url ≡ (client_at inet_pton v >>= λ a. ok (some a))
unfolding new_ws_net
new_ws_net_eq inet_pton url v e l = rw (new_ws_net, e, l) refl

make_sock_addr_eq :
    (inet_pton : List ℕ → Option ℕ) (ip : List ℕ) (port a : ℕ)
    → inet_pton ip ≡ some a
    → make_sock_addr inet_pton ip port
      ≡ ok (record { sin_addr = a; sin_port = host_to_network16 port })
unfolding make_sock_addr
make_sock_addr_eq inet_pton ip port a e = rw (make_sock_addr, e) refl

-- An url of the form `scheme://host:port`, with a path or without, whose host is an address: the client
-- connects to that address and port. The port is below 65536; the parts hold no slash, colon or 0 of
-- their own.
pub new_ws_net_lem :
    (inet_pton : List ℕ → Option ℕ) (scheme host path : List ℕ) (port a : ℕ)
    → Without 47 scheme
    → Without 47 host
    → Without 58 host
    → Without 0 host
    → IsPath path
    → port < 2 ^ 16
    → inet_pton host ≡ some a
    → new_ws_net inet_pton (scheme ++ (47 ∷ 47 ∷ ((host ++ (58 ∷ decimal port)) ++ path)))
      ≡ ok (some (record { sin_addr = a; sin_port = host_to_network16 port }))
new_ws_net_lem inet_pton scheme host path port a ws wh colon zeros p small e =
    let digits = AllDigits-decimal port in
    let addr : List ℕ = host ++ (58 ∷ decimal port) in
    let slashes = AllDigits-Without 47 (decimal port) refl digits in
    let (more, u) =
      parts_url scheme addr path ws (Without-append 47 host (58 ∷ decimal port) wh (refl, slashes))
        (omega (arith, length-append host (58 ∷ decimal port))) p in
    let v =
      parts_address host (decimal port) colon (AllDigits-Without 58 (decimal port) refl digits)
        (decimal_pos port) in
    let cut = c_str_lem (decimal port) (AllDigits-Without 0 (decimal port) refl digits) in
    let number : atoi_port (c_str (decimal port)) ≡ port =
      ap atoi_port cut
      ∙ atoi_port-digits (decimal port) digits
      ∙ omega (arith, read_digits-decimal port) in
    new_ws_net_eq inet_pton _ _ u (le→leb 2 (length (scheme ∷ [] ∷ addr ∷ more)) (omega arith))
    ∙ ap (λ r. r >>= λ a. ok (some a))
        (client_at_eq inet_pton addr host (decimal port) scheme more v)
    ∙ rw (number, c_str_lem host zeros, make_sock_addr_eq inet_pton host port a e) refl

-- An url of two parts, as `scheme:host` before a slash and a name behind it: there is no third part, but
-- it is read.
pub new_ws_net_faults :
    (inet_pton : List ℕ → Option ℕ) (first second : List ℕ)
    → Without 47 first
    → Without 47 second
    → 0 < length second
    → new_ws_net inet_pton (first ++ (47 ∷ second)) ≡ err faulted
unfolding client_at
new_ws_net_faults inet_pton first [] w v pos = absurd (omega arith)
new_ws_net_faults inet_pton first (c ∷ s) w v pos =
    let url : List ℕ = first ++ (47 ∷ (c ∷ s)) in
    let (f, e, enough) = split_loop-field (suc (length url)) 47 [] first (c ∷ s) w (omega arith) in
    let u = parts_eq url 47 _ (e ∙ split_loop-last f 47 (first ∷ []) (c ∷ s) v enough) in
    new_ws_net_eq inet_pton url _ u refl
