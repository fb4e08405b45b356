-- ===== src/ReactorThreadPool.antt =====
-- `ReactorThreadPool` of base/ReactorThreadPool.cpp. A `Reactor*` is a number.
pub mod Rounds
mod Tests
use websocket_cpp.Base.{
  ℕ, zero, suc, ◌+◌, List, [], ◌∷◌, ◌++◌, length, get_elem?, leb, if◌then◌else◌, Option, none, some,
  Result, ok, err, faulted, ◌>>=◌,
}

-- `numThreads_` is the number of the reactors that `start` is given.
pub record ReactorThreadPool : Type 0 where
  pub base_loop : ℕ
  pub loops : List ℕ
  pub index : ℕ

abbrev pub new_pool : ℕ → ReactorThreadPool
new_pool base = record { base_loop = base; loops = []; index = 0 }

-- `start`, with what each `startLoop` returns, in order
pub start : List ℕ → ReactorThreadPool → ReactorThreadPool
start started p = record p { loops = p.loops ++ started }

-- `loops_[index_]`
abbrev pub loop_at : List ℕ → ℕ → Result ℕ
loop_at loops i = elim (get_elem? loops i) [ none ↦ err faulted | some loop ↦ ok loop ]

unfoldable pub next_loop : ReactorThreadPool → Result (ℕ × ReactorThreadPool)
next_loop p = elim p.loops [
  | [] ↦ ok (p.base_loop, p)
  | x ∷ xs ↦ do
    loop ← loop_at p.loops p.index
    let i = p.index + 1
    ok (loop, record p { index = if leb (length p.loops) i then 0 else i })
]

-- The reactors of so many calls, in order
pub next_loops : ℕ → ReactorThreadPool → Result (List ℕ × ReactorThreadPool)
next_loops zero p = ok ([], p)
next_loops (suc n) p = do (loop, q) ← next_loop p; (loops, r) ← next_loops n q; ok (loop ∷ loops, r)
