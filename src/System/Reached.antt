-- ===== src/System/Reached.antt =====
-- What the state of the module that any calls lead to is good for.
use afl_snapshot_lkm.Base.{
  ℕ, ◌≡◌, refl, true, false, Option, none, some, some-injective, [], ◌∙◌, sym, ap, Bool-cases,
  Option-cases, inl, inr, has_flag, subst,
}
use afl_snapshot_lkm.Page.{SnapshotPage}
use afl_snapshot_lkm.Task.{TaskData, snapshot_had, get_task_data, had_snapshot}
use afl_snapshot_lkm.Cache.{get_task_data_with_cache}
use afl_snapshot_lkm.Cache.Coherent.{is_snapshotted}
use afl_snapshot_lkm.Memory.{ran}
use afl_snapshot_lkm.Snapshot.{World, Kernel, do_exit_hook}
use afl_snapshot_lkm.Snapshot.Events.{MmEvents, VmaEvents}
use afl_snapshot_lkm.Snapshot.Exit.{exit_none, do_exit_hook-gone}
use afl_snapshot_lkm.Device.{IoctlMacros}
use afl_snapshot_lkm.System.Lived.{Lived, unmade, unmade-have}
use afl_snapshot_lkm.System.Tasks.{Consistent}
use afl_snapshot_lkm.System.Calls.{Run, then_call, exit, reachable-Consistent}
use afl_snapshot_lkm.System.Hooks.{
  HookState, with_cached, with_listed, wp_page_on, rmap_on, munmap_on, wp_page-Idle, rmap-Idle,
  munmap-Idle, cached-listed, listed_unmade,
}

-- What a hook finds.
abbrev pub hook_state : {K S T : Type 0} → World K S T → HookState S
hook_state w = (w.tasks, w.cache, w.space)

-- What it leaves if it finds nothing to do.
abbrev pub looked_up_state : {K S T : Type 0} → World K S T → ℕ → ℕ → HookState S
looked_up_state w cpu owner =
    (w.tasks, (get_task_data_with_cache w.tasks w.cache cpu owner).0, w.space)

module _ {K S P T : Type 0} (m : IoctlMacros) (k : Kernel K S P T) (mm : MmEvents k.mmu k.mm)
    (vma : VmaEvents k.mmu k.vma) (w : World K S T) (no_tasks : w.tasks ≡ [])
    (no_cache : (cpu : ℕ) → w.cache.last_task cpu ≡ none) where
  -- After any calls each of the three hooks on the memory, on any CPU and for any process, does what
  -- it does with the data that the list has for the process, though it takes the data from the
  -- cache: it uses no data that has been freed, and misses no snapshot. The conditions: the module
  -- starts with no task data and empty caches, the calls follow one another, and the kernel's
  -- functions on the memory do nothing to the pages but what the events of a run do.
  pub cached_hooks-listed :
      (w' : World K S T) (cpu owner : ℕ)
      → Run m k w w'
      → let h = hook_state w' in
        let h' = looked_up_state w' cpu owner in
        ((kmalloc : Option ℕ) (address : ℕ) (pte : P)
          → let hook = wp_page_on k.mmu kmalloc w'.space address pte in
            with_cached hook h cpu owner ≡ with_listed hook h' owner)
        × ((kmalloc : Option SnapshotPage) (address : ℕ)
            → let hook = rmap_on k.mmu kmalloc w'.space address in
              with_cached hook h cpu owner ≡ with_listed hook h' owner)
        × ((kmalloc : ℕ → Option ℕ) (start len : ℕ)
            → let hook = munmap_on k.mmu kmalloc w'.space start len in
              with_cached hook h cpu owner ≡ with_listed hook h' owner)
  cached_hooks-listed w' cpu owner r =
      let c = reachable-Consistent m k mm vma w w' no_tasks no_cache r in
      let h = hook_state w' in
      (
        λ kmalloc address pte.
            cached-listed k.mmu _ h cpu owner (wp_page-Idle k.mmu kmalloc w'.space address pte)
              c.coherent,
        λ kmalloc address.
            cached-listed k.mmu _ h cpu owner (rmap-Idle k.mmu kmalloc w'.space address) c.coherent,
        λ kmalloc start len.
            cached-listed k.mmu _ h cpu owner (munmap-Idle k.mmu kmalloc w'.space start len)
              c.coherent,
      )

  -- Data that has had no snapshot has nothing of one.
  never_had : (d : TaskData) → Lived d → had_snapshot d ≡ false → d.ss ≡ unmade
  never_had d (inl e) n = e
  never_had d (inr e) n =
      absurd (let z : had_snapshot d ≡ true = ap (has_flag snapshot_had) e in cc)

  left-unmade :
      (w' : World K S T) (current : ℕ) (d : TaskData)
      → Consistent w'.tasks w'.cache
      → get_task_data (do_exit_hook k w' current).tasks current ≡ some d
      → d.ss ≡ unmade
  left-unmade w' current d c e = elim (Option-cases (get_task_data w'.tasks current)) [
    | inl g ↦
        let same = (exit_none k 0 w' current g).1 in
        absurd
          (let z : none ≡ some d = sym (ap (λ x. get_task_data x.tasks current) same ∙ g) ∙ e in cc)
    | inr (d', g) ↦
        let gone = (do_exit_hook-gone k w' current d' c.distinct g).0 in
        elim (Bool-cases (had_snapshot d')) [
          | inl z ↦ absurd (let y : none ≡ some d = sym (gone ∙ rw z refl) ∙ e in cc)
          | inr z ↦
              let y : some d' ≡ some d = sym (gone ∙ rw z refl) ∙ e in
              subst (λ x. x.ss ≡ unmade) (some-injective _ _ y)
                (never_had d' (c.lived current d' g) z)
        ]
  ]

  no_snapshot :
      (found : Option TaskData)
      → ((d : TaskData) → found ≡ some d → d.ss ≡ unmade)
      → is_snapshotted found ≡ false
  no_snapshot none h = refl
  no_snapshot (some d) h = unmade-have d (h d refl)

  -- After any calls and the hook of `do_exit` for a task, its data, if it has any left, has nothing
  -- of a snapshot, and each of the three hooks on the memory, on any CPU, changes nothing for it but
  -- the cache. The conditions are those of `cached_hooks-listed`.
  pub exited-forgotten :
      (w' : World K S T) (cpu current : ℕ)
      → Run m k w w'
      → let x = do_exit_hook k w' current in
        ((d : TaskData) → get_task_data x.tasks current ≡ some d → d.ss ≡ unmade)
        × ((kmalloc : Option ℕ) (address : ℕ) (pte : P)
            → with_cached (wp_page_on k.mmu kmalloc x.space address pte) (hook_state x) cpu current
              ≡ ran (looked_up_state x cpu current, false))
        × ((kmalloc : Option SnapshotPage) (address : ℕ)
            → with_cached (rmap_on k.mmu kmalloc x.space address) (hook_state x) cpu current
              ≡ ran (looked_up_state x cpu current, false))
        × ((kmalloc : ℕ → Option ℕ) (start len : ℕ)
            → with_cached (munmap_on k.mmu kmalloc x.space start len) (hook_state x) cpu current
              ≡ ran (looked_up_state x cpu current, false))
  exited-forgotten w' cpu current r =
      let x = do_exit_hook k w' current in
      let c = reachable-Consistent m k mm vma w w' no_tasks no_cache r in
      let left = λ (d : TaskData) (e : get_task_data x.tasks current ≡ some d).
        left-unmade w' current d c e in
      let n = no_snapshot (get_task_data x.tasks current) left in
      let hooks = cached_hooks-listed x cpu current (then_call r (exit current refl)) in
      let h = looked_up_state x cpu current in
      (
        left,
        λ kmalloc address pte.
            hooks.0 kmalloc address pte
            ∙ listed_unmade k.mmu _ h current (wp_page-Idle k.mmu kmalloc x.space address pte) n,
        λ kmalloc address.
            hooks.1 kmalloc address
            ∙ listed_unmade k.mmu _ h current (rmap-Idle k.mmu kmalloc x.space address) n,
        λ kmalloc start len.
            hooks.2 kmalloc start len
            ∙ listed_unmade k.mmu _ h current (munmap-Idle k.mmu kmalloc x.space start len) n,
      )
