-- ===== src/NetServer.antt =====
-- `NetServer` of net/NetServer.cpp: its table of connections, and the reactors that they get. A
-- `NetConnection*` is a number. Everything runs in the thread of the base loop.
pub mod Ids
pub mod Table
pub mod History
mod Tests
use websocket_cpp.Base.{
  ℕ, ◌+◌, List, [], ◌∷◌, ◌++◌, Bool, true, false, ◌&&◌, ◌==◌, if◌then◌else◌, Option, none, some,
  Result, ok, ◌>>=◌, decimal,
}
use websocket_cpp.Heartbeat.{same_bytes}
use websocket_cpp.ReactorThreadPool.{ReactorThreadPool, next_loop}

-- The text of a peer's address, as `toIp` writes it, and its port
pub record Peer : Type 0 where
  pub ip : List ℕ
  pub port : ℕ

-- `snprintf(buf, sizeof(buf), "%s#%d#%d", ipstr, port, connIndex_)`; an address and the numbers take less
-- than 64 characters.
pub conn_id : Peer → ℕ → List ℕ
conn_id p index = p.ip ++ (35 ∷ (decimal p.port ++ (35 ∷ decimal index)))

-- A `std::map` from ids to pointers, none for NULL
abbrev pub ConnectionMap : Type 0
ConnectionMap = List (List ℕ × Option ℕ)

pub find_conn : List ℕ → ConnectionMap → Option (Option ℕ)
find_conn id [] = none
find_conn id ((k, v) ∷ m) = if same_bytes k id then some v else find_conn id m

-- `conns_[id] = conn`
pub set_conn : List ℕ → Option ℕ → ConnectionMap → ConnectionMap
set_conn id conn [] = (id, conn) ∷ []
set_conn id conn ((k, v) ∷ m) =
    if same_bytes k id then (k, conn) ∷ m else (k, v) ∷ set_conn id conn m

-- `conns_.erase(id)`
pub erase_conn : List ℕ → ConnectionMap → ConnectionMap
erase_conn id [] = []
erase_conn id ((k, v) ∷ m) = if same_bytes k id then m else (k, v) ∷ erase_conn id m

pub record NetServer : Type 0 where
  pub conns : ConnectionMap
  pub conn_index : ℕ
  pub pool : ReactorThreadPool

abbrev pub new_net_server : ReactorThreadPool → NetServer
new_net_server pool = record { conns = []; conn_index = 0; pool = pool }

-- `newConnAccept`, where `new NetConnection` yields `conn`: the reactor that the connection gets, its id,
-- and the server
pub new_conn_accept : Peer → ℕ → NetServer → Result (ℕ × List ℕ × NetServer)
new_conn_accept peer conn s = do
  (loop, pool) ← next_loop s.pool
  let id = conn_id peer s.conn_index
  ok (loop, id, record s { conns = set_conn id (some conn) s.conns; pool = pool })

-- `removeConnInLoop` for a connection with that id
pub remove_conn : List ℕ → NetServer → NetServer
remove_conn id s = record s { conns = erase_conn id s.conns }

-- `conns_[connid]`, which puts a NULL in the map where there is nothing
pub getconn_in : List ℕ → ConnectionMap → Option (Option ℕ) → Option ℕ × ConnectionMap
getconn_in id m none = (none, set_conn id none m)
getconn_in id m (some conn) = (conn, m)

pub getconn : List ℕ → NetServer → Option ℕ × NetServer
getconn id s = elim s.conns [
  | [] ↦ (none, s)
  | x ∷ xs ↦
      let (conn, m) = getconn_in id s.conns (find_conn id s.conns) in (conn, record s { conns = m })
]
