-- ===== src/System/Calls.antt =====
-- Any sequence of calls of the module, one after another: no look-up runs in the middle of a clean.
use afl_snapshot_lkm.Base.{ℕ, ◌≡◌, refl, none, some, List, [], sym, subst}
use afl_snapshot_lkm.Task.{TaskData, get_task_data}
use afl_snapshot_lkm.Task.Listed.{Distinct, put_task_data}
use afl_snapshot_lkm.Cache.{Cache, get_task_data_with_cache}
use afl_snapshot_lkm.Cache.Coherent.{looked_up, Event-Coherent}
use afl_snapshot_lkm.Files.{ℤ}
use afl_snapshot_lkm.Memory.Session.{Step}
use afl_snapshot_lkm.Memory.Take.{Vma, WalkState}
use afl_snapshot_lkm.Memory.Take.Establish.{Calls}
use afl_snapshot_lkm.Snapshot.{World, Kernel, exit_snapshot, do_exit_hook}
use afl_snapshot_lkm.Snapshot.Events.{MmEvents, VmaEvents}
use afl_snapshot_lkm.Device.{IoctlMacros, Caller, replied, mod_dev_ioctl}
use afl_snapshot_lkm.System.Lived.{Step-Follows}
use afl_snapshot_lkm.System.Tasks.{Consistent}
use afl_snapshot_lkm.System.Operations.{Sane, follow-Consistent, do_exit-Sane, exit_group-Sane}
use afl_snapshot_lkm.System.Device.{ioctl-Sane}

module _ {K S P T : Type 0} (m : IoctlMacros) (k : Kernel K S P T) where
  -- One call, with the state before and after it. `current` is the task that makes it.
  pub data Call (w : World K S T) (w' : World K S T) : Type 0 where
    -- a command of the device that returns; the walk over a region does nothing but call the entries
    ioctl :
        (fuel : ℕ) (c : Caller S) (current cmd arg : ℕ) (res : ℤ)
        → ((st : WalkState S) (v : Vma) → Calls k.mmu st (c.chances.walk_page_vma st v).0)
        → mod_dev_ioctl m k fuel c w current cmd arg ≡ replied w' res
        → Call w w'
    -- `exit_group`, as far as the module has to do with it
    exit_group :
        (fuel current res : ℕ) → exit_snapshot k fuel w current ≡ some (w', res) → Call w w'
    -- `do_exit`
    exit : (current : ℕ) → w' ≡ do_exit_hook k w current → Call w w'
    -- a hook on the memory looks the task data up
    lookup :
        (cpu current : ℕ)
        → w' ≡ record w { cache = (get_task_data_with_cache w.tasks w.cache cpu current).0 }
        → Call w w'
    -- and what such a hook does then, with what the process does, where memory for copies can be had
    memory :
        (current : ℕ) (d d' : TaskData) (s' : S)
        → get_task_data w.tasks current ≡ some d
        → Step k.mmu d w.space d' s'
        → w' ≡ record w { tasks = put_task_data w.tasks d'; space = s' }
        → Call w w'
    -- the rest of the kernel, which changes nothing of the module: another process runs, and files,
    -- threads and registers change
    elsewhere : w'.tasks ≡ w.tasks → w'.cache ≡ w.cache → Call w w'

  pub data Run (w : World K S T) : World K S T → Type 0 where
    loaded : Run w w
    then_call : {w₁ w₂ : World K S T} → Run w w₁ → Call w₁ w₂ → Run w w₂

  module _ (mm : MmEvents k.mmu k.mm) (vma : VmaEvents k.mmu k.vma) where
    lookup-Consistent :
        (ds : List TaskData) (c : Cache) (cpu current : ℕ)
        → Consistent ds c
        → Consistent ds (get_task_data_with_cache ds c cpu current).0
    lookup-Consistent ds c cpu current h = record {
      distinct = h.distinct;
      coherent = Event-Coherent ds c _ _ (looked_up cpu current refl refl) h.coherent;
      lived = h.lived;
    }

    Call-Sane : (w w' : World K S T) → Call w w' → Sane k w → Sane k w'
    Call-Sane w w' (ioctl fuel c current cmd arg res calls e) h =
        ioctl-Sane m k mm vma fuel c w w' current cmd arg res calls e h
    Call-Sane w w' (exit_group fuel current res e) h =
        exit_group-Sane k mm vma fuel w w' current res e h
    Call-Sane w w' (exit current e) h = subst (Sane k) (sym e) (do_exit-Sane k w current h)
    Call-Sane w w' (lookup cpu current e) h =
        subst (Sane k) (sym e) (lookup-Consistent w.tasks w.cache cpu current h)
    Call-Sane w w' (memory current d d' s' g t e) h =
        subst (Sane k) (sym e)
          (follow-Consistent w.tasks w.cache current d d' g (Step-Follows k.mmu d w.space t) h)
    Call-Sane w w' (elsewhere e c) h =
        subst (λ x. Consistent x w'.cache) (sym e) (subst (Consistent w.tasks) (sym c) h)

    -- After any calls each task has one data at most, which has nothing of a snapshot or both flags
    -- of one, and no CPU has another pointer for a task in its cache than that of the list, or null
    -- where there is no snapshot. The conditions: the module starts with no task data and empty
    -- caches, the calls follow one another, the walk over a region that a take makes does nothing
    -- but call the entries, and the kernel's functions on the memory do nothing to the pages but
    -- what the events of a run do.
    pub reachable-Consistent :
        (w w' : World K S T)
        → w.tasks ≡ []
        → ((cpu : ℕ) → w.cache.last_task cpu ≡ none)
        → Run w w'
        → Consistent w'.tasks w'.cache
    unfolding Distinct get_task_data
    reachable-Consistent w w' t c loaded =
        subst (λ x. Consistent x w.cache) (sym t)
          (record {
            distinct = tt;
            coherent = λ i q e. absurd (let n = c i in cc);
            lived = λ q d e. absurd (cc);
          })
    reachable-Consistent w w' t c (then_call {w₁ = w₁} {w₂ = w₂} r e) =
        Call-Sane w₁ w₂ e (reachable-Consistent w w₁ t c r)
