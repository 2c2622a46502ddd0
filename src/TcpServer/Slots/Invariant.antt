-- ===== src/TcpServer/Slots/Invariant.antt =====
-- What the steps of the server of lib/tcp_utils.c keep.
use cs2310_prj.Base.{
  is_neg, ℤ, ℕ, zero, suc, ◌+◌, ◌-◌, ◌<◌, ◌≡◌, inl, inr, refl, Bool, true, false, ◌||◌, Option,
  none, some, List, [], ◌∷◌, ◌++◌, arith, ◌==◌, Bool-cases, Option-cases,
}
use cs2310_prj.TcpServer.{
  send_buffer, read_to_buffer, TcpBuffer, Pool, Callbacks, Io, Handling, fd_setsize, init_pool,
  free_slot, is_free, with_pool, occupy, one_less, add_conn, close_slot, unlock, lock, leave,
  with_output, store_buffers, send_replies, handle_received, handle_read, is_ready, dispatch_from,
  dispatch,
}
use cs2310_prj.TcpServer.Slots.{
  Server, occurrences, finished, Step, wait, accept, add_jobs, work, Reach, start, later, one_if,
  IsValid, Left, kept, closed,
}

init_pool-IsValid : (listenfd : ℕ) (p : Pool) → IsValid (init_pool listenfd p) []
unfolding init_pool
init_pool-IsValid listenfd p = record { one_job = λ i. refl; watched = λ i fd e. absurd (cc) }

wait-IsValid :
    (n : ℕ) (p : Pool) (jobs : List ℕ) → IsValid p jobs → IsValid (record p { nready = n }) jobs
wait-IsValid n p jobs v = record { one_job = v.one_job; watched = v.watched }

free_slot-found :
    (n i : ℕ) (connfd : ℕ → Option ℕ) (k : ℕ)
    → free_slot n i connfd ≡ some k
    → (k < i + n) × (is_free (connfd k) ≡ true)
unfolding free_slot
free_slot-found zero i connfd k e = absurd (cc)
free_slot-found (suc n) i connfd k e = elim (Bool-cases (is_free (connfd i))) [
  | inl hit ↦ ground arith
  | inr miss ↦ ground (arith, free_slot-found n (i + 1) connfd k)
]

occupy-IsValid :
    (p : Pool) (jobs : List ℕ) (k fd : ℕ) (garbage : List ℕ)
    → IsValid p jobs
    → k < fd_setsize
    → is_free (p.connfd k) ≡ true
    → IsValid (occupy p k fd garbage) jobs
unfolding occupy
occupy-IsValid p jobs k fd garbage v l free = record {
  one_job = v.one_job;
  watched = λ i d e. ground (arith, v.watched i d);
}

module _ {S : Type 0} (cb : Callbacks S) where
  placed : (o : Option S) (p p' : Pool) (s' : S) → with_pool p o ≡ some (p', s') → p ≡ p'
  placed none p p' s' e = absurd (cc)
  placed (some s) p p' s' e = cc

  add_conn-IsValid :
      (fd : ℕ) (garbage : List ℕ) (p p' : Pool) (s s' : S) (jobs : List ℕ)
      → IsValid p jobs
      → add_conn cb fd garbage p s ≡ some (p', s')
      → IsValid p' jobs
  unfolding add_conn
  add_conn-IsValid fd garbage p p' s s' jobs v e =
      let v' = wait-IsValid (p.nready - 1) p jobs v in
      elim (Option-cases (free_slot fd_setsize 0 p.connfd)) [
        | inl full ↦ let q : one_less p ≡ p' = ground arith in rw (← q) v'
        | inr (k, found) ↦
            let f = free_slot-found fd_setsize 0 p.connfd k found in
            let q : occupy (one_less p) k fd garbage ≡ p' =
              placed (cb.on_connection k s) _ p' s' (ground arith) in
            rw (← q) (occupy-IsValid (one_less p) jobs k fd garbage v' (omega (arith, f)) f.1)
      ]

occurrences-append :
    (i : ℕ) (jobs more : List ℕ)
    → occurrences i (jobs ++ more) ≡ occurrences i jobs + occurrences i more
occurrences-append i [] more = omega arith
occurrences-append i (j ∷ jobs) more = ground (arith, occurrences-append i jobs more)

lock-IsValid :
    (p : Pool) (jobs : List ℕ) (k : ℕ)
    → IsValid p jobs
    → p.locked k ≡ false
    → IsValid (lock p k) (jobs ++ k ∷ [])
lock-IsValid p jobs k v free = record {
  one_job = λ i. ground (arith, occurrences-append i jobs (k ∷ []), v.one_job i);
  watched = v.watched;
}

pub dispatch_from-IsValid :
    (n i : ℕ) (ready : ℕ → Bool) (p : Pool) (jobs : List ℕ)
    → IsValid p jobs
    → IsValid (dispatch_from n i ready p jobs).0 (dispatch_from n i ready p jobs).1
unfolding dispatch_from
dispatch_from-IsValid zero i ready p jobs v = v
dispatch_from-IsValid (suc n) i ready p jobs v = elim (Bool-cases (p.nready == 0)) [
  | inl stop ↦ rw stop v
  | inr more ↦ elim (Bool-cases (is_ready (p.connfd i) ready)) [
    | inr idle ↦ rw (more, idle) (dispatch_from-IsValid n (i + 1) ready p jobs v)
    | inl active ↦ elim (Bool-cases (p.locked i)) [
      | inl held ↦ rw (more, active, held) (dispatch_from-IsValid n (i + 1) ready p jobs v)
      | inr free ↦
          rw (more, active, free)
            (dispatch_from-IsValid n (i + 1) ready (lock p i) (jobs ++ i ∷ [])
              (lock-IsValid p jobs i v free))
    ]
  ]
]

occurrences-finished :
    (i k : ℕ) (jobs : List ℕ)
    → 0 < occurrences k jobs
    → occurrences i (finished k jobs) + one_if (i == k) ≡ occurrences i jobs
occurrences-finished i k [] h = absurd (omega arith)
occurrences-finished i k (j ∷ jobs) h = ground (arith, occurrences-finished i k jobs)

close_slot-IsValid :
    (p : Pool) (jobs : List ℕ) (i : ℕ) (rb wb : TcpBuffer)
    → IsValid p jobs
    → 0 < occurrences i jobs
    → IsValid (unlock (close_slot (store_buffers p i rb wb) i) i) (finished i jobs)
unfolding close_slot
close_slot-IsValid p jobs i rb wb v h = record {
  one_job = λ j. ground (arith, occurrences-finished j i jobs h, v.one_job j, v.one_job i);
  watched = λ j fd e. ground (arith, v.watched j fd);
}

Left-IsValid :
    (p : Pool) (jobs : List ℕ) (i : ℕ) (p' : Pool)
    → IsValid p jobs
    → 0 < occurrences i jobs
    → Left p i p'
    → IsValid p' (finished i jobs)
Left-IsValid p jobs i p' v h (kept rb wb) = record {
  one_job = λ j. ground (arith, occurrences-finished j i jobs h, v.one_job j, v.one_job i);
  watched = v.watched;
}
Left-IsValid p jobs i p' v h (closed rb wb) = close_slot-IsValid p jobs i rb wb v h

module _ {S : Type 0} (cb : Callbacks S) where
  leave-Left :
      (i : ℕ) (closing : Bool) (p : Pool) (rb wb : TcpBuffer) (s : S) (p' : Pool) (s' : S)
      → leave cb i closing (store_buffers p i rb wb) s ≡ some (p', s')
      → Left p i p'
  leave-Left i true p rb wb s p' s' e = rw (← placed cb (cb.cleanup i s) _ p' s' e) (closed rb wb)
  leave-Left i false p rb wb s p' s' e =
      let q : unlock (store_buffers p i rb wb) i ≡ p' = cc in rw (← q) (kept rb wb)

  with_output-some :
      (o : Option (Pool × S)) (sent : List ℕ) (p' : Pool) (s' : S) (out : List ℕ)
      → with_output sent o ≡ some (p', s', out)
      → (o ≡ some (p', s')) × (sent ≡ out)
  with_output-some none sent p' s' out e = absurd (cc)
  with_output-some (some (p, s)) sent p' s' out e = (cc, cc)

  send_replies-Left :
      (i : ℕ) (io : Io) (count : ℤ) (p : Pool) (o : Option (TcpBuffer × Handling S)) (p' : Pool)
      (s' : S) (out : List ℕ)
      → send_replies cb i io count p o ≡ some (p', s', out)
      → Left p i p'
  send_replies-Left i io count p none p' s' out e = absurd (cc)
  send_replies-Left i io count p (some (rb, h)) p' s' out e =
      elim (Option-cases (send_buffer io.sends h.write_buf)) [
        | inl stuck ↦ absurd (ground arith)
        | inr ((wb, sent), went) ↦
            let closing = is_neg count || h.close_flag in
            let l = leave cb i closing (store_buffers p i rb wb) h.state in
            let e' : with_output sent l ≡ some (p', s', out) = ground arith in
            leave-Left i closing p rb wb h.state p' s' (with_output-some l sent p' s' out e').0
      ]

  pub handle_read-Left :
      (i : ℕ) (io : Io) (p : Pool) (s : S) (p' : Pool) (s' : S) (out : List ℕ)
      → handle_read cb i io p s ≡ some (p', s', out)
      → Left p i p'
  unfolding handle_read
  handle_read-Left i io p s p' s' out e =
      elim (Option-cases (read_to_buffer io.recvs 0 (p.read_buf i))) [
        | inl stuck ↦ absurd (ground arith)
        | inr ((count, rb), got) ↦
            let o =
              handle_received cb i count rb
                (record { write_buf = p.write_buf i; close_flag = false; state = s }) in
            let e' : send_replies cb i io count p o ≡ some (p', s', out) = ground arith in
            send_replies-Left i io count p o p' s' out e'
      ]

  Step-IsValid :
      (σ : Server S) (τ : Server S) → IsValid σ.pool σ.jobs → Step cb σ τ → IsValid τ.pool τ.jobs
  unfolding dispatch
  Step-IsValid σ τ v (wait n) = wait-IsValid n σ.pool σ.jobs v
  Step-IsValid σ τ v (accept fd garbage p s e) =
      add_conn-IsValid cb fd garbage σ.pool p σ.state s σ.jobs v e
  Step-IsValid σ τ v (add_jobs ready) =
      dispatch_from-IsValid (σ.pool.maxi + 1) 0 ready σ.pool σ.jobs v
  Step-IsValid σ τ v (work i io p s out h e) =
      Left-IsValid σ.pool σ.jobs i p v h (handle_read-Left i io σ.pool σ.state p s out e)

  -- In every state that a server reaches from `init_pool` by steps of its main thread, over any
  -- descriptors that `accept` delivers, and by whole jobs, in any order: a slot has one job while
  -- its mutex is locked and none else; and a slot with a connection lies below `FD_SETSIZE` and up
  -- to `maxi`, the last slot of the server's loop, and its descriptor is at most `maxfd`.
  pub Reach-IsValid :
      (listenfd : ℕ) (p : Pool) (s : S) (σ : Server S)
      → Reach cb listenfd p s σ
      → IsValid σ.pool σ.jobs
  Reach-IsValid listenfd p s σ start = init_pool-IsValid listenfd p
  Reach-IsValid listenfd p s σ (later {σ = ρ} r step) =
      Step-IsValid ρ σ (Reach-IsValid listenfd p s ρ r) step
