-- ===== src/Acceptor.antt =====
-- `Acceptor` of net/Acceptor.cpp.
use websocket_cpp.Base.{ℕ, List, [], ◌∷◌, Bool, ltb, if◌then◌else◌, none, some, Result, ok, ◌>>=◌}
use websocket_cpp.SocketOpts.{SockAddr, Accepted, accept}

-- What `Acceptor::handleRead` does with a connection: a call of `acceptConnFunc_`, or `close`
pub data Acceptance : Type 0 where
  hand_over : ℕ → SockAddr → Acceptance
  close_fd : ℕ → Acceptance

-- `Acceptor::handleRead`; `has_callback` says whether `acceptConnFunc_` is set.
unfoldable pub handle_read : Bool → Accepted → Result (List Acceptance)
handle_read has_callback answer = do
  conn ← accept answer
  elim conn [
    | none ↦ ok []
    | some (fd, peer) ↦
        if ltb 0 fd
        then ok ((if has_callback then hand_over fd peer else close_fd fd) ∷ [])
        else ok []
  ]
