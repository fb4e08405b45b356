-- ===== src/NetServer/Table.antt =====
-- Lookups in the table of connections, by peer.
use websocket_cpp.Base.{
  ℕ, ◌≡◌, refl, sym, ap, ◌∙◌, List, [], ◌∷◌, Bool, true, false, ◌&&◌, ◌==◌, Bool-cases,
  Option-cases, inl, inr, ◌⊎◌, if◌then◌else◌, Option, some, none, arith,
}
use websocket_cpp.Heartbeat.{same_bytes}
use websocket_cpp.Utility.Fields.{Without}
use websocket_cpp.ReactorThreadPool.{ReactorThreadPool}
use websocket_cpp.NetServer.{
  Peer, conn_id, ConnectionMap, find_conn, set_conn, erase_conn, NetServer, getconn_in, getconn,
}
use websocket_cpp.NetServer.Ids.{same_bytes_iff, conn_id_injective}

abbrev pub same_peer : Peer → Peer → Bool
same_peer p q = same_bytes p.ip q.ip && p.port == q.port

-- A NULL in the map, or nothing, is no connection.
abbrev pub joined : Option (Option ℕ) → Option ℕ
joined none = none
joined (some v) = v

abbrev pub Distinct : ConnectionMap → Type 0
Distinct [] = Unit
Distinct ((k, v) ∷ m) = (find_conn k m ≡ none) × Distinct m

find-set_conn :
    (j k : List ℕ) (v : Option ℕ) (m : ConnectionMap)
    → find_conn j (set_conn k v m) ≡ (if same_bytes k j then some v else find_conn j m)
unfolding find_conn set_conn
find-set_conn j k v [] = refl
find-set_conn j k v ((i, w) ∷ m) =
    ground
      (arith, same_bytes_iff i k, same_bytes_iff k j, same_bytes_iff i j, find-set_conn j k v m)

find-erase_conn :
    (j k : List ℕ) (m : ConnectionMap)
    → Distinct m
    → find_conn j (erase_conn k m) ≡ (if same_bytes k j then none else find_conn j m)
unfolding find_conn erase_conn
find-erase_conn j k [] d = elim (Bool-cases (same_bytes k j)) [
  | inl y ↦ rw y refl
  | inr n ↦ rw n refl
]
find-erase_conn j k ((i, w) ∷ m) d =
    ground
      (arith, same_bytes_iff i k, same_bytes_iff k j, same_bytes_iff i j, find-erase_conn j k m d.1)

pub set_conn-Distinct :
    (k : List ℕ) (v : Option ℕ) (m : ConnectionMap) → Distinct m → Distinct (set_conn k v m)
unfolding set_conn find_conn
set_conn-Distinct k v [] d = (refl, tt)
set_conn-Distinct k v ((i, w) ∷ m) d = elim (Bool-cases (same_bytes i k)) [
  | inl y ↦ rw y (d.0, d.1)
  | inr n ↦
      let other : same_bytes k i ≡ false = ground (arith, same_bytes_iff i k, same_bytes_iff k i) in
      rw n (find-set_conn i k v m ∙ rw other d.0, set_conn-Distinct k v m d.1)
]

pub erase_conn-Distinct : (k : List ℕ) (m : ConnectionMap) → Distinct m → Distinct (erase_conn k m)
unfolding erase_conn find_conn
erase_conn-Distinct k [] d = tt
erase_conn-Distinct k ((i, w) ∷ m) d = elim (Bool-cases (same_bytes i k)) [
  | inl y ↦ rw y d.1
  | inr n ↦
      let other : same_bytes k i ≡ false = ground (arith, same_bytes_iff i k, same_bytes_iff k i) in
      rw n (find-erase_conn i k m d.1 ∙ rw other d.0, erase_conn-Distinct k m d.1)
]

bool_iff : (a b : Bool) → (a ≡ true → b ≡ true) → (b ≡ true → a ≡ true) → a ≡ b
bool_iff true b f g = sym (f refl)
bool_iff false true f g = g refl
bool_iff false false f g = refl

pub conn_id_same : (q p : Peer) (i : ℕ) → q.ip ≡ p.ip → q.port ≡ p.port → conn_id q i ≡ conn_id p i
unfolding conn_id
conn_id_same q p i e f = cc

same_peer_of : (q p : Peer) → q.ip ≡ p.ip → q.port ≡ p.port → same_peer q p ≡ true
same_peer_of q p e f = ground (arith, same_bytes_iff q.ip p.ip)

pub of_same_peer : (q p : Peer) → same_peer q p ≡ true → (q.ip ≡ p.ip) × (q.port ≡ p.port)
of_same_peer q p h = ground (arith, same_bytes_iff q.ip p.ip)

-- The map and the history agree on which ids are the same.
same_id :
    (q p : Peer)
    → Without 35 q.ip
    → Without 35 p.ip
    → same_bytes (conn_id q 0) (conn_id p 0) ≡ same_peer q p
same_id q p w v =
    bool_iff (same_bytes (conn_id q 0) (conn_id p 0)) (same_peer q p)
      (λ y.
        let (ip, port, index) =
          conn_id_injective q p 0 0 w v ((same_bytes_iff (conn_id q 0) (conn_id p 0)).0 y) in
        same_peer_of q p ip port)
      (λ y.
        let (ip, port) = of_same_peer q p y in
        (same_bytes_iff (conn_id q 0) (conn_id p 0)).1 (conn_id_same q p 0 ip port))

joined-if :
    (b : Bool) (v : Option ℕ) (o : Option (Option ℕ))
    → joined (if b then some v else o) ≡ (if b then v else joined o)
joined-if true v o = refl
joined-if false v o = refl

joined-if_none :
    (b : Bool) (o : Option (Option ℕ))
    → joined (if b then none else o) ≡ (if b then none else joined o)
joined-if_none true o = refl
joined-if_none false o = refl

-- What a map says of a peer after a change for another, or the same
module _ (p q : Peer) (plain : Without 35 p.ip) (w : Without 35 q.ip) (m : ConnectionMap) where
  pub shown-set :
      (v : Option ℕ)
      → joined (find_conn (conn_id p 0) (set_conn (conn_id q 0) v m))
        ≡ (if same_peer q p then v else joined (find_conn (conn_id p 0) m))
  shown-set v =
      ap joined (find-set_conn (conn_id p 0) (conn_id q 0) v m)
      ∙ joined-if (same_bytes (conn_id q 0) (conn_id p 0)) v (find_conn (conn_id p 0) m)
      ∙ ap (λ b. if b then v else joined (find_conn (conn_id p 0) m)) (same_id q p w plain)

  pub shown-erase :
      Distinct m
      → joined (find_conn (conn_id p 0) (erase_conn (conn_id q 0) m))
        ≡ (if same_peer q p then none else joined (find_conn (conn_id p 0) m))
  shown-erase d =
      ap joined (find-erase_conn (conn_id p 0) (conn_id q 0) m d)
      ∙ joined-if_none (same_bytes (conn_id q 0) (conn_id p 0)) (find_conn (conn_id p 0) m)
      ∙ ap (λ b. if b then none else joined (find_conn (conn_id p 0) m)) (same_id q p w plain)

-- A question puts a NULL in the map at most, where there is nothing.
abbrev pub Asked : List ℕ → NetServer → Type 0
Asked id s =
    ((getconn id s).0 ≡ joined (find_conn id s.conns))
    × (((getconn id s).1 ≡ s)
        ⊎ ((find_conn id s.conns ≡ none)
            × ((getconn id s).1 ≡ record s { conns = set_conn id none s.conns })))

getconn_eq :
    (id k : List ℕ) (v : Option ℕ) (m : ConnectionMap) (i : ℕ) (pool : ReactorThreadPool)
    (o : Option (Option ℕ))
    → find_conn id ((k, v) ∷ m) ≡ o
    → getconn id (record { conns = (k, v) ∷ m; conn_index = i; pool = pool }) ≡ (
      (getconn_in id ((k, v) ∷ m) o).0,
      record { conns = (getconn_in id ((k, v) ∷ m) o).1; conn_index = i; pool = pool },
    )
unfolding getconn
getconn_eq id k v m i pool o e = rw (getconn, e) refl

getconn_nil :
    (id : List ℕ) (i : ℕ) (pool : ReactorThreadPool)
    → Asked id (record { conns = []; conn_index = i; pool = pool })
unfolding getconn find_conn
getconn_nil id i pool = (refl, inl refl)

pub getconn_cases : (id : List ℕ) (s : NetServer) → Asked id s
unfolding getconn_in find_conn
getconn_cases id s = go s.conns s.conn_index s.pool
  where
    go :
        (m : ConnectionMap) (i : ℕ) (pool : ReactorThreadPool)
        → Asked id (record { conns = m; conn_index = i; pool = pool })
    go [] i pool = getconn_nil id i pool
    go ((k, v) ∷ m) i pool = elim (Option-cases (find_conn id ((k, v) ∷ m))) [
      | inl n ↦
          let g = getconn_eq id k v m i pool none n in
          (ap (λ r. r.0) g ∙ ap joined (sym n), inr (n, ap (λ r. r.1) g))
      | inr (o, e) ↦
          let g = getconn_eq id k v m i pool (some o) e in
          (ap (λ r. r.0) g ∙ ap joined (sym e), inl (ap (λ r. r.1) g))
    ]
