-- ===== src/Threads/Killed.antt =====
-- `recover_threads_snapshot` of src/threads.c reaches every thread and keeps no reference.
use afl_snapshot_lkm.Base.{
  ℕ, zero, suc, ◌+◌, ◌-◌, ◌≤◌, ◌<◌, ◌≡◌, refl, ◌==◌, ◌&&◌, ◌||◌, not, Bool, true, false,
  if◌then◌else◌, Option, none, some, List, [], ◌∷◌, elem, elem-cons, elem-nil, length, arith,
  eq_refl, Bool-cases, inl, inr, ◌∙◌, ap,
}
use afl_snapshot_lkm.Threads.{ThreadOps, next_tid, kill_others, recover_threads_snapshot}

-- The documented effects, for which threads have been killed and how many references there are to each.
-- A killed thread is still in its group while the loop runs.
pub record ThreadLaws {T : Type 0} (o : ThreadOps T) (killed : T → ℕ → Bool) (refs : T → ℕ → ℕ)
    : Type 0 where
  pub killed-kill : (s : T) (t q : ℕ) → killed (o.kill s t) q ≡ (t == q || killed s q)
  pub killed-get : (s : T) (t q : ℕ) → killed (o.get_task_struct s t) q ≡ killed s q
  pub killed-put : (s : T) (t q : ℕ) → killed (o.put_task_struct s t) q ≡ killed s q
  pub refs-kill : (s : T) (t q : ℕ) → refs (o.kill s t) q ≡ refs s q
  pub refs-get :
      (s : T) (t q : ℕ) → refs (o.get_task_struct s t) q ≡ (if t == q then 1 else 0) + refs s q
  pub refs-put :
      (s : T) (t q : ℕ) → refs (o.put_task_struct s t) q ≡ refs s q - (if t == q then 1 else 0)
  pub next-kill : (s : T) (t q : ℕ) → o.next_thread (o.kill s t) q ≡ o.next_thread s q
  pub next-get : (s : T) (t q : ℕ) → o.next_thread (o.get_task_struct s t) q ≡ o.next_thread s q
  pub next-put : (s : T) (t q : ℕ) → o.next_thread (o.put_task_struct s t) q ≡ o.next_thread s q
  pub leader-kill :
      (s : T) (t q : ℕ) → o.thread_group_leader (o.kill s t) q ≡ o.thread_group_leader s q
  pub leader-get :
      (s : T) (t q : ℕ)
      → o.thread_group_leader (o.get_task_struct s t) q ≡ o.thread_group_leader s q
  pub leader-put :
      (s : T) (t q : ℕ)
      → o.thread_group_leader (o.put_task_struct s t) q ≡ o.thread_group_leader s q
  pub alive-kill : (s : T) (t q : ℕ) → o.pid_alive (o.kill s t) q ≡ o.pid_alive s q
  pub alive-get : (s : T) (t q : ℕ) → o.pid_alive (o.get_task_struct s t) q ≡ o.pid_alive s q
  pub alive-put : (s : T) (t q : ℕ) → o.pid_alive (o.put_task_struct s t) q ≡ o.pid_alive s q

module _ {T : Type 0} (o : ThreadOps T) where
  -- The threads `ts` follow `t` in the ring of its group, which closes at the leader; all are alive.
  abbrev pub Follow : T → ℕ → List ℕ → Type 0
  Follow s t [] = (o.pid_alive s t ≡ true) × (o.thread_group_leader s (o.next_thread s t) ≡ true)
  Follow s t (u ∷ us) =
      (o.pid_alive s t ≡ true)
      × (o.next_thread s t ≡ u)
      × (o.thread_group_leader s u ≡ false)
      × Follow s u us

  module _ (killed : T → ℕ → Bool) (refs : T → ℕ → ℕ) (laws : ThreadLaws o killed refs) where
    -- The state in which the loop goes on after `t`.
    abbrev visited : T → ℕ → ℕ → T
    visited s tsk t = if t == tsk then s else o.kill s t

    -- The ring is the same in `s'`.
    abbrev SameRing : T → T → Type 0
    SameRing s s' =
        ((q : ℕ) → o.next_thread s' q ≡ o.next_thread s q)
        × ((q : ℕ) → o.thread_group_leader s' q ≡ o.thread_group_leader s q)
        × ((q : ℕ) → o.pid_alive s' q ≡ o.pid_alive s q)

    Follow-same : (s s' : T) (t : ℕ) (ts : List ℕ) → SameRing s s' → Follow s t ts → Follow s' t ts
    Follow-same s s' t [] r f =
        (r.2 t ∙ f.0, r.1 (o.next_thread s' t) ∙ ap (o.thread_group_leader s) (r.0 t) ∙ f.1)
    Follow-same s s' t (u ∷ us) r f =
        (r.2 t ∙ f.0, r.0 t ∙ f.1, r.1 u ∙ f.2, Follow-same s s' u us r f.3)

    visited-ring : (s : T) (tsk t : ℕ) → SameRing s (visited s tsk t)
    visited-ring s tsk t = elim (Bool-cases (t == tsk)) [
      | inl e ↦ rw e (λ q. refl, λ q. refl, λ q. refl)
      | inr e ↦ rw e (laws.next-kill s t, laws.leader-kill s t, laws.alive-kill s t)
    ]

    visited-killed :
        (s : T) (tsk t q : ℕ)
        → killed (visited s tsk t) q ≡ (killed s q || (t == q && not (q == tsk)))
    visited-killed s tsk t q = ground (arith, laws.killed-kill s t q)

    visited-refs : (s : T) (tsk t q : ℕ) → refs (visited s tsk t) q ≡ refs s q
    visited-refs s tsk t q = ground (arith, laws.refs-kill s t q)

    -- The state once the loop has gone from `t` to `u`.
    abbrev stepped : T → ℕ → ℕ → T
    stepped s t u = o.put_task_struct (o.get_task_struct s u) t

    stepped-ring : (s : T) (t u : ℕ) → SameRing s (stepped s t u)
    stepped-ring s t u = (
      λ q. laws.next-put (o.get_task_struct s u) t q ∙ laws.next-get s u q,
      λ q. laws.leader-put (o.get_task_struct s u) t q ∙ laws.leader-get s u q,
      λ q. laws.alive-put (o.get_task_struct s u) t q ∙ laws.alive-get s u q,
    )

    stepped-refs :
        (s : T) (t u q : ℕ)
        → refs (stepped s t u) q
          ≡ ((if u == q then 1 else 0) + refs s q) - (if t == q then 1 else 0)
    stepped-refs s t u q =
        laws.refs-put (o.get_task_struct s u) t q
        ∙ ap (λ n. n - (if t == q then 1 else 0)) (laws.refs-get s u q)

    next_tid-last : (s : T) (t : ℕ) → Follow s t [] → next_tid o s t ≡ (o.put_task_struct s t, none)
    unfolding next_tid
    next_tid-last s t f = rw (next_tid, f.0, f.1) refl

    next_tid-more :
        (s : T) (t u : ℕ) (us : List ℕ)
        → Follow s t (u ∷ us)
        → next_tid o s t ≡ (stepped s t u, some u)
    unfolding next_tid
    next_tid-more s t u us f = rw (next_tid, f.0, f.1, f.2) refl

    -- What the loop does with the result of `next_tid`.
    abbrev resume : ℕ → ℕ → T × Option ℕ → Option T
    resume fuel tsk r = elim (r.1) [ none ↦ some r.0 | some t ↦ kill_others o fuel r.0 tsk t ]

    kill_step :
        (fuel : ℕ) (s : T) (tsk t : ℕ)
        → kill_others o (suc fuel) s tsk t ≡ resume fuel tsk (next_tid o (visited s tsk t) t)
    unfolding kill_others
    kill_step fuel s tsk t = refl

    -- With a reference to `t` held, the loop kills the threads from `t` on and gives the reference
    -- back.
    kill_others_lem :
        (fuel : ℕ) (s : T) (tsk t : ℕ) (ts : List ℕ)
        → Follow s t ts
        → 1 ≤ refs s t
        → length ts < fuel
        → (s' : T) × (kill_others o fuel s tsk t ≡ some s')
          × ((q : ℕ) → killed s' q ≡ (killed s q || (elem q (t ∷ ts) && not (q == tsk))))
          × ((q : ℕ) → refs s' q ≡ refs s q - (if t == q then 1 else 0))
    kill_others_lem zero s tsk t ts f r l = absurd (omega arith)
    kill_others_lem (suc fuel) s tsk t [] f r l =
        let v = visited s tsk t in
        let g = Follow-same s v t [] (visited-ring s tsk t) f in
        (
          o.put_task_struct v t,
          kill_step fuel s tsk t ∙ ap (resume fuel tsk) (next_tid-last v t g),
          λ q.
              laws.killed-put v t q
              ∙ ground (arith, visited-killed s tsk t q, elem-cons q t [], elem-nil q),
          λ q.
              laws.refs-put v t q
              ∙ ap (λ n. n - (if t == q then 1 else 0)) (visited-refs s tsk t q),
        )
    kill_others_lem (suc fuel) s tsk t (u ∷ us) f r l =
        let v = visited s tsk t in
        let g = Follow-same s v t (u ∷ us) (visited-ring s tsk t) f in
        let w = stepped v t u in
        let ih =
          kill_others_lem fuel w tsk u us (Follow-same v w u us (stepped-ring v t u) g.3)
            (ground (
              arith,
              stepped-refs v t u u,
              eq_refl u,
              visited-refs s tsk t u,
              visited-refs s tsk t t,
            ))
            (omega arith) in
        (
          ih.0,
          kill_step fuel s tsk t ∙ ap (resume fuel tsk) (next_tid-more v t u us g) ∙ ih.1,
          λ q.
              ih.2 q
              ∙ ground (
                arith,
                laws.killed-put (o.get_task_struct v u) t q,
                laws.killed-get v u q,
                visited-killed s tsk t q,
                elem-cons q t (u ∷ us),
              ),
          λ q. ih.3 q ∙ ground (arith, stepped-refs v t u q, visited-refs s tsk t q),
        )

    pub recover_threads_snapshot-kills :
        (fuel : ℕ) (s : T) (tsk : ℕ) (ts : List ℕ)
        → Follow s (o.group_leader s tsk) ts
        → length ts < fuel
        → (s' : T) × (recover_threads_snapshot o fuel s tsk ≡ some s')
          × ((q : ℕ)
              → killed s' q
                ≡ (killed s q || (elem q (o.group_leader s tsk ∷ ts) && not (q == tsk))))
          × ((q : ℕ) → refs s' q ≡ refs s q)
    unfolding recover_threads_snapshot
    recover_threads_snapshot-kills fuel s tsk ts f l =
        let t = o.group_leader s tsk in
        let g = o.get_task_struct s t in
        let r =
          kill_others_lem fuel g tsk t ts
            (Follow-same s g t ts (laws.next-get s t, laws.leader-get s t, laws.alive-get s t) f)
            (ground (arith, laws.refs-get s t t, eq_refl t)) l in
        (
          r.0,
          r.1,
          λ q. r.2 q ∙ ap (λ b. b || (elem q (t ∷ ts) && not (q == tsk))) (laws.killed-get s t q),
          λ q. r.3 q ∙ ground (arith, laws.refs-get s t q),
        )
