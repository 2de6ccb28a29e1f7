-- ===== src/Tests/Threads.antt =====
-- A process of three threads, 3 being the leader and 4 the one with the snapshot; and another process.
use afl_snapshot_lkm.Base.{ℕ, ◌+◌, ◌-◌, refl, Bool, true, false, ◌||◌, ◌==◌, if◌then◌else◌, [], ◌∷◌}
use afl_snapshot_lkm.Threads.{ThreadOps}
use afl_snapshot_lkm.Threads.Killed.{ThreadLaws, Follow}

-- Which threads have been killed, and how many references there are to each.
pub record Group : Type 0 where
  pub killed : ℕ → Bool
  pub refs : ℕ → ℕ

abbrev pub group : ThreadOps Group
group = record {
  group_leader = λ s t. 3;
  pid_alive = λ s t. true;
  next_thread = λ s t. if t == 3 then 4 else if t == 4 then 5 else 3;
  thread_group_leader = λ s t. t == 3;
  kill = λ s t. record s { killed = λ q. t == q || s.killed q };
  get_task_struct = λ s t. record s { refs = λ q. (if t == q then 1 else 0) + s.refs q };
  put_task_struct = λ s t. record s { refs = λ q. s.refs q - (if t == q then 1 else 0) };
}

abbrev pub was_killed : Group → ℕ → Bool
was_killed s q = s.killed q

abbrev pub references : Group → ℕ → ℕ
references s q = s.refs q

pub group_laws : ThreadLaws group was_killed references
group_laws = record {
  killed-kill = λ s t q. refl;
  killed-get = λ s t q. refl;
  killed-put = λ s t q. refl;
  refs-kill = λ s t q. refl;
  refs-get = λ s t q. refl;
  refs-put = λ s t q. refl;
  next-kill = λ s t q. refl;
  next-get = λ s t q. refl;
  next-put = λ s t q. refl;
  leader-kill = λ s t q. refl;
  leader-get = λ s t q. refl;
  leader-put = λ s t q. refl;
  alive-kill = λ s t q. refl;
  alive-get = λ s t q. refl;
  alive-put = λ s t q. refl;
}

abbrev pub running : Group
running = record { killed = λ q. false; refs = λ q. 1 }

pub rest-Follow : Follow group running 3 (4 ∷ 5 ∷ [])
rest-Follow = (refl, refl, refl, (refl, refl, refl, (refl, refl)))
