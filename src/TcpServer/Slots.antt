-- ===== src/TcpServer/Slots.antt =====
-- The server of lib/tcp_utils.c with its threads, as steps in any order: the main thread waits,
-- accepts and adds jobs, and the thread pool runs them. A step is taken as a whole.
pub mod Invariant
use cs2310_prj.Base.{
  is_neg, ℤ, ℕ, zero, suc, ◌+◌, ◌-◌, ◌≤◌, ◌<◌, ◌≡◌, ◌≢◌, inl, inr, refl, ◌∙◌, Bool, true, false,
  ◌||◌, Option, none, some, List, [], ◌∷◌, ◌++◌, arith, ◌==◌, if◌then◌else◌, Bool-cases,
  Option-cases,
}
use cs2310_prj.TcpServer.{
  send_buffer, read_to_buffer, TcpBuffer, Pool, Callbacks, Io, Handling, fd_setsize, init_pool,
  free_slot, is_free, with_pool, occupy, one_less, add_conn, close_slot, clear_fd, unlock, lock,
  leave, with_output, store_buffers, send_replies, handle_received, handle_read, is_ready,
  dispatch_from, dispatch,
}

-- The pool of connections, the jobs that wait or run, and the program's own state.
pub record Server (S : Type 0) : Type 0 where
  pub pool : Pool
  pub jobs : List ℕ
  pub state : S

abbrev pub occurrences : ℕ → List ℕ → ℕ
occurrences i [] = 0
occurrences i (j ∷ jobs) = if i == j then suc (occurrences i jobs) else occurrences i jobs

abbrev pub finished : ℕ → List ℕ → List ℕ
finished i [] = []
finished i (j ∷ jobs) = if i == j then jobs else j ∷ finished i jobs

-- `select` says how many descriptors are ready and which; `accept` delivers any
-- descriptor, also one that a slot still holds whose connection is being closed; the thread pool
-- runs a job of its queue.
pub data Step {S : Type 0} (cb : Callbacks S) (σ : Server S) : Server S → Type 0 where
  wait : (n : ℕ) → Step cb σ (record σ { pool = record σ.pool { nready = n } })
  accept :
      (fd : ℕ) (garbage : List ℕ) (p : Pool) (s : S)
      → add_conn cb fd garbage σ.pool σ.state ≡ some (p, s)
      → Step cb σ (record σ { pool = p; state = s })
  add_jobs :
      (ready : ℕ → Bool)
      → Step cb σ (record σ {
        pool = (dispatch ready σ.pool σ.jobs).0;
        jobs = (dispatch ready σ.pool σ.jobs).1;
      })
  work :
      (i : ℕ) (io : Io) (p : Pool) (s : S) (out : List ℕ)
      → 0 < occurrences i σ.jobs
      → handle_read cb i io σ.pool σ.state ≡ some (p, s, out)
      → Step cb σ (record { pool = p; jobs = finished i σ.jobs; state = s })

-- The states of a server that was started by `init_pool`, on memory that held the pool `p`.
pub data Reach {S : Type 0} (cb : Callbacks S) (listenfd : ℕ) (p : Pool) (s : S)
    : Server S → Type 0 where
  start : Reach cb listenfd p s (record { pool = init_pool listenfd p; jobs = []; state = s })
  later : {σ τ : Server S} → Reach cb listenfd p s σ → Step cb σ τ → Reach cb listenfd p s τ

abbrev pub one_if : Bool → ℕ
one_if b = if b then 1 else 0

-- A slot has a job exactly while it is locked, and then one only. The loop over the slots reaches
-- each connection, and `select` is given a number beyond its descriptor.
pub record IsValid (p : Pool) (jobs : List ℕ) : Type 0 where
  pub one_job : (i : ℕ) → occurrences i jobs ≡ one_if (p.locked i)
  pub watched : (i fd : ℕ) → p.connfd i ≡ some fd → (i ≤ p.maxi) × (fd ≤ p.maxfd) × (i < fd_setsize)

-- What a run of a job makes of the pool: the slot is unlocked, and its connection kept or closed.
pub data Left (p : Pool) (i : ℕ) : Pool → Type 0 where
  kept : (rb wb : TcpBuffer) → Left p i (unlock (store_buffers p i rb wb) i)
  closed : (rb wb : TcpBuffer) → Left p i (unlock (close_slot (store_buffers p i rb wb) i) i)
