-- ===== src/NetServer/History.antt =====
-- The table of connections over any history.
use websocket_cpp.Base.{
  ℕ, ◌≡◌, refl, sym, ap, ◌∙◌, List, [], ◌∷◌, Bool-cases, inl, inr, if◌then◌else◌, Option, some,
  none, Result, ok, ◌>>=◌,
}
use websocket_cpp.Utility.Fields.{Without}
use websocket_cpp.ReactorThreadPool.{ReactorThreadPool, next_loop}
use websocket_cpp.ReactorThreadPool.Rounds.{IsReady, next_loop-IsReady}
use websocket_cpp.NetServer.{
  Peer, conn_id, ConnectionMap, find_conn, set_conn, NetServer, new_net_server, new_conn_accept,
  remove_conn, getconn,
}
use websocket_cpp.NetServer.Table.{
  same_peer, joined, Distinct, set_conn-Distinct, erase_conn-Distinct, of_same_peer, conn_id_same,
  shown-set, shown-erase, getconn_cases,
}

-- What happens to a server: a connection is accepted, one is removed that was accepted from that peer,
-- and the application asks for one.
pub data Event : Type 0 where
  accepts : (peer : Peer) → (conn : ℕ) → Event
  removes : (peer : Peer) → Event
  asks : (peer : Peer) → Event

pub step : Event → NetServer → Result NetServer
step (accepts peer conn) s = do (loop, id, t) ← new_conn_accept peer conn s; ok t
step (removes peer) s = ok (remove_conn (conn_id peer 0) s)
step (asks peer) s = ok (getconn (conn_id peer 0) s).1

pub run : List Event → NetServer → Result NetServer
run [] s = ok s
run (e ∷ es) s = do t ← step e s; run es t

-- The connection that a peer is known by, by the history: the one that was last accepted from it, unless
-- a connection of this peer was removed after that, be it an earlier one.
abbrev pub known_by : Peer → Event → Option ℕ → Option ℕ
known_by p (accepts q conn) before = if same_peer q p then some conn else before
known_by p (removes q) before = if same_peer q p then none else before
known_by p (asks q) before = before

abbrev pub known : Peer → List Event → Option ℕ → Option ℕ
known p [] before = before
known p (e ∷ es) before = known p es (known_by p e before)

abbrev pub peer_of : Event → Peer
peer_of (accepts p conn) = p
peer_of (removes p) = p
peer_of (asks p) = p

-- The addresses hold no "#".
abbrev pub ArePlain : List Event → Type 0
ArePlain [] = Unit
ArePlain (e ∷ es) = Without 35 (peer_of e).ip × ArePlain es

-- The ids in the map are distinct, and all have the index 0.
pub record IsValid (s : NetServer) : Type 0 where
  pub distinct : Distinct s.conns
  pub first : s.conn_index ≡ 0
  pub ready : IsReady s.pool

-- What the map says of a peer
abbrev pub shown : Peer → NetServer → Option ℕ
shown p s = joined (find_conn (conn_id p 0) s.conns)

-- How a step goes: it succeeds, and what the map says of every peer is what the event makes of it.
abbrev Follows : Event → NetServer → Type 0
Follows e s =
    (t : NetServer) × (step e s ≡ ok t)
    × IsValid t
    × ((p : Peer) → Without 35 p.ip → shown p t ≡ known_by p e (shown p s))

accepts_eq :
    (q : Peer) (conn loop : ℕ) (pool : ReactorThreadPool) (s : NetServer)
    → next_loop s.pool ≡ ok (loop, pool)
    → step (accepts q conn) s
      ≡ ok (record s { conns = set_conn (conn_id q s.conn_index) (some conn) s.conns; pool = pool })
unfolding step new_conn_accept
accepts_eq q conn loop pool s e = rw (new_conn_accept, e) refl

accepts_lem :
    (q : Peer) (conn : ℕ) (s : NetServer) → IsValid s → Without 35 q.ip → Follows (accepts q conn) s
accepts_lem q conn s v w =
    let (loop, pool, e, r) = next_loop-IsReady s.pool v.ready in
    (
      _,
      accepts_eq q conn loop pool s e,
      record {
        distinct = set_conn-Distinct (conn_id q s.conn_index) (some conn) s.conns v.distinct;
        first = v.first;
        ready = r;
      },
      (λ p plain.
          ap (λ i. joined (find_conn (conn_id p 0) (set_conn (conn_id q i) (some conn) s.conns)))
            v.first
          ∙ shown-set p q plain w s.conns (some conn)),
    )

removes_lem : (q : Peer) (s : NetServer) → IsValid s → Without 35 q.ip → Follows (removes q) s
unfolding step remove_conn
removes_lem q s v w = (
  remove_conn (conn_id q 0) s,
  refl,
  record {
    distinct = erase_conn-Distinct (conn_id q 0) s.conns v.distinct;
    first = v.first;
    ready = v.ready;
  },
  (λ p plain. shown-erase p q plain w s.conns v.distinct),
)

-- A NULL for a peer of whom the map says nothing
null_shown :
    (q p : Peer) (m : ConnectionMap)
    → find_conn (conn_id q 0) m ≡ none
    → (if same_peer q p then none else joined (find_conn (conn_id p 0) m))
      ≡ joined (find_conn (conn_id p 0) m)
null_shown q p m n = elim (Bool-cases (same_peer q p)) [
  | inr y ↦ rw y refl
  | inl y ↦
      let (ip, port) = of_same_peer q p y in
      rw y (sym (ap (λ i. joined (find_conn i m)) (sym (conn_id_same q p 0 ip port)) ∙ ap joined n))
]

asks_lem : (q : Peer) (s : NetServer) → IsValid s → Without 35 q.ip → Follows (asks q) s
unfolding step
asks_lem q s v w = elim (getconn_cases (conn_id q 0) s).1 [
  | inl same ↦ (s, ap ok same, v, (λ p plain. refl))
  | inr (n, e) ↦ (
    record s { conns = set_conn (conn_id q 0) none s.conns },
    ap ok e,
    record {
      distinct = set_conn-Distinct (conn_id q 0) none s.conns v.distinct;
      first = v.first;
      ready = v.ready;
    },
    (λ p plain. shown-set p q plain w s.conns none ∙ null_shown q p s.conns n),
  )
]

step_lem : (e : Event) (s : NetServer) → IsValid s → Without 35 (peer_of e).ip → Follows e s
step_lem (accepts q conn) s v w = accepts_lem q conn s v w
step_lem (removes q) s v w = removes_lem q s v w
step_lem (asks q) s v w = asks_lem q s v w

run_lem :
    (es : List Event) (s : NetServer)
    → IsValid s
    → ArePlain es
    → (t : NetServer) × (run es s ≡ ok t)
      × ((p : Peer) → Without 35 p.ip → shown p t ≡ known p es (shown p s))
unfolding run
run_lem [] s v plain = (s, refl, (λ p w. refl))
run_lem (e ∷ es) s v plain =
    let (t, h, v2, f) = step_lem e s v plain.0 in
    let (u, h2, g) = run_lem es t v2 plain.1 in
    (u, rw (run, h) h2, (λ p w. g p w ∙ ap (known p es) (f p w)))

-- Over any history of a server, with any reactors, nothing fails, and `getconn` finds the connection that
-- was last accepted from a peer, unless one from this peer was removed after that, be it an earlier one:
-- all ids have the index 0. Other peers make no difference, and neither does the NULL that `getconn` puts
-- in the map. The addresses hold no "#".
pub getconn-run :
    (es : List Event) (pool : ReactorThreadPool)
    → IsReady pool
    → ArePlain es
    → (s : NetServer) × (run es (new_net_server pool) ≡ ok s)
      × ((p : Peer) → Without 35 p.ip → (getconn (conn_id p 0) s).0 ≡ known p es none)
unfolding find_conn
getconn-run es pool r plain =
    let (s, e, f) =
      run_lem es (new_net_server pool) (record { distinct = tt; first = refl; ready = r }) plain in
    (s, e, (λ p w. (getconn_cases (conn_id p 0) s).0 ∙ f p w))
