-- ===== src/Threads.antt =====
-- `recover_threads_snapshot`, src/threads.c: a restore kills the other threads of the process.
-- `T` is the state of the kernel's threads; a thread is named by a number, and its references are
-- counted. RCU is left out.
pub mod Killed
use afl_snapshot_lkm.Base.{ℕ, zero, suc, ◌==◌, Bool, true, false, if◌then◌else◌, Option, none, some}

pub record ThreadOps (T : Type 0) : Type 0 where
  pub group_leader : T → ℕ → ℕ
  pub pid_alive : T → ℕ → Bool
  pub next_thread : T → ℕ → ℕ
  pub thread_group_leader : T → ℕ → Bool
  -- `send_sig` with SIGKILL
  pub kill : T → ℕ → T
  pub get_task_struct : T → ℕ → T
  pub put_task_struct : T → ℕ → T

module _ {T : Type 0} (o : ThreadOps T) where
  -- The thread after `start`, with a reference; the one to `start` is given back.
  unfoldable pub next_tid : T → ℕ → T × Option ℕ
  next_tid s start =
      let pos = o.next_thread s start in
      if o.pid_alive s start
      then if o.thread_group_leader s pos
        then (o.put_task_struct s start, none)
        else (o.put_task_struct (o.get_task_struct s pos) start, some pos)
      else (o.put_task_struct s start, none)

  -- The loop from `t` on: `none` where the fuel runs out.
  unfoldable pub kill_others : ℕ → T → ℕ → ℕ → Option T
  kill_others zero s tsk t = none
  kill_others (suc fuel) s tsk t =
      let (s', next) = next_tid (if t == tsk then s else o.kill s t) t in
      elim next [ none ↦ some s' | some t' ↦ kill_others fuel s' tsk t' ]

  unfoldable pub recover_threads_snapshot : ℕ → T → ℕ → Option T
  recover_threads_snapshot fuel s tsk =
      let t = o.group_leader s tsk in kill_others fuel (o.get_task_struct s t) tsk t
