-- ===== src/SocketOpts.antt =====
-- Addresses and `accept` of base/SocketOpts.cpp. `inet_pton` is a
-- parameter, which yields none for a text that is no address. The host keeps the low byte first.
use websocket_cpp.Base.{
  ℕ, ◌+◌, ◌*◌, ◌/◌, ◌%◌, ◌^◌, List, Bool, ◌||◌, ◌==◌, if◌then◌else◌, Option, none, some, Result, ok,
  err, aborted, ◌≡◌, ◌<◌, arith,
}

-- `htobe16` and `be16toh` of a `uint16_t`
abbrev pub swap16 : ℕ → ℕ
swap16 n = n % 256 * 256 + n / 256 % 256

abbrev pub host_to_network16 : ℕ → ℕ
host_to_network16 n = swap16 n

abbrev pub network_to_host16 : ℕ → ℕ
network_to_host16 n = swap16 n

-- `struct sockaddr_in`: the address, and the port in network order
pub record SockAddr : Type 0 where
  pub sin_addr : ℕ
  pub sin_port : ℕ

unfoldable pub make_sock_addr : (List ℕ → Option ℕ) → List ℕ → ℕ → Result SockAddr
make_sock_addr inet_pton ip port = elim (inet_pton ip) [
  | none ↦ err aborted
  | some a ↦ ok (record { sin_addr = a; sin_port = host_to_network16 port })
]

-- What `accept4` answers: a descriptor with the address of the peer, or an `errno`.
pub data Accepted : Type 0 where
  new_socket : ℕ → SockAddr → Accepted
  refused : ℕ → Accepted

-- The errors on which `accept` asserts: EBADF, EFAULT, EINVAL, ENFILE, ENOBUFS, ENOMEM, ENOTSOCK and
-- EOPNOTSUPP
abbrev pub is_unexpected : ℕ → Bool
is_unexpected error =
    error == 9
    || error == 14
    || error == 22
    || error == 23
    || error == 105
    || error == 12
    || error == 88
    || error == 95

-- `accept`, none for -1
unfoldable pub accept : Accepted → Result (Option (ℕ × SockAddr))
accept (new_socket fd peer) = ok (some (fd, peer))
accept (refused error) = if is_unexpected error then err aborted else ok none

-- The port is the same after a conversion and back.
pub network_to_host16-host_to_network16 :
    (n : ℕ) → n < 2 ^ 16 → network_to_host16 (host_to_network16 n) ≡ n
network_to_host16-host_to_network16 n h = omega arith
