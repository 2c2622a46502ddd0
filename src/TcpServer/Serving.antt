-- ===== src/TcpServer/Serving.antt =====
-- The loop of `server_run`, lib/tcp_utils.c, over the slots, and the run of a job.
use cs2310_prj.Base.{ℕ, zero, suc, ◌+◌, ◌<◌, ◌≡◌, ap, ◌∙◌, Bool, false, Option, some, List, arith}
use cs2310_prj.TcpServer.{Pool, Callbacks, Io, is_ready, handle_read}
use cs2310_prj.TcpServer.Slots.{
  Server, work, Reach, later, Left, kept, closed, occurrences, finished, one_if,
}
use cs2310_prj.TcpServer.Slots.Invariant.{handle_read-Left, Reach-IsValid}

-- The slots among the `n` from `i` on with a descriptor that is ready.
abbrev pub ready_slots : ℕ → ℕ → (ℕ → Bool) → (ℕ → Option ℕ) → ℕ
ready_slots zero i ready connfd = 0
ready_slots (suc n) i ready connfd =
    one_if (is_ready (connfd i) ready) + ready_slots n (i + 1) ready connfd

module _ {S : Type 0} (cb : Callbacks S) where
  Left-unlocked : (p : Pool) (i : ℕ) (p' : Pool) → Left p i p' → p'.locked i ≡ false
  Left-unlocked p i p' (kept rb wb) = ground arith
  Left-unlocked p i p' (closed rb wb) = ground arith

  -- In every reachable state, a job of a slot that runs to its end leaves the slot unlocked and
  -- without a job, so that the next round of `server_run` can serve the connection again.
  pub handle_read-releases :
      (listenfd : ℕ) (p : Pool) (s : S) (σ : Server S) (i : ℕ) (io : Io) (p' : Pool) (s' : S)
      (out : List ℕ)
      → Reach cb listenfd p s σ
      → 0 < occurrences i σ.jobs
      → handle_read cb i io σ.pool σ.state ≡ some (p', s', out)
      → (p'.locked i ≡ false) × (occurrences i (finished i σ.jobs) ≡ 0)
  handle_read-releases listenfd p s σ i io p' s' out reach h e =
      let step = work i io p' s' out h e in
      let v = Reach-IsValid cb listenfd p s _ (later reach step) in
      let free = Left-unlocked σ.pool i p' (handle_read-Left cb i io σ.pool σ.state p' s' out e) in
      (free, v.one_job i ∙ ap one_if free)
