-- ===== src/System/Hooks.antt =====
-- The hooks on the memory with the look-up that they begin with: `do_wp_page_hook`,
-- `page_add_new_anon_rmap_hook` and `__do_munmap_hook` of src/memory.c. The data is found by its
-- pointer, and a pointer to data that is no longer in the list is used after it has been freed,
-- which is `oops`.
use afl_snapshot_lkm.Base.{
  ℕ, ◌≡◌, refl, ◌==◌, Bool, true, false, Option, none, some, List, [], ◌∷◌, ◌∙◌, sym, ap,
  Bool-cases, Option-cases, inl, inr, eq_refl, some-injective,
}
use afl_snapshot_lkm.Page.{SnapshotPage}
use afl_snapshot_lkm.Task.{TaskData, get_task_data, have_snapshot}
use afl_snapshot_lkm.Task.Listed.{put_task_data, get_task_data-tsk, get_task_data-cons}
use afl_snapshot_lkm.Mmu.{Mmu}
use afl_snapshot_lkm.Cache.{Cache, pointer, get_task_data_with_cache}
use afl_snapshot_lkm.Cache.Coherent.{Coherent, is_snapshotted, lookup-result}
use afl_snapshot_lkm.Memory.{Run, ran, oops}
use afl_snapshot_lkm.Memory.Fault.{page_add_new_anon_rmap_hook, do_wp_page_hook, do_munmap_hook}

-- What a hook works on: the list, the caches, and the memory.
abbrev pub HookState : Type 0 → Type 0
HookState S = List TaskData × Cache × S

-- The data is changed in place.
abbrev pub written_back :
    {S : Type 0} → List TaskData → Cache → Run (TaskData × S × Bool) → Run (HookState S × Bool)
written_back ds c oops = oops
written_back ds c (ran r) = ran ((put_task_data ds r.0, c, r.1), r.2)

-- The data to a pointer.
abbrev pub with_data :
    {S : Type 0}
    → (TaskData → Run (TaskData × S × Bool))
    → List TaskData
    → Cache
    → Option TaskData
    → Run (HookState S × Bool)
with_data hook ds c none = oops
with_data hook ds c (some d) = written_back ds c (hook d)

-- A null pointer ends the hook.
abbrev pub with_pointer :
    {S : Type 0}
    → (TaskData → Run (TaskData × S × Bool))
    → HookState S
    → Option ℕ
    → Run (HookState S × Bool)
with_pointer hook h none = ran (h, false)
with_pointer hook h (some t) = with_data hook h.0 h.1 (get_task_data h.0 t)

-- A hook, once it is on the data, on the CPU `cpu` for `owner`, the owner of the memory.
unfoldable pub with_cached :
    {S : Type 0}
    → (TaskData → Run (TaskData × S × Bool))
    → HookState S
    → ℕ
    → ℕ
    → Run (HookState S × Bool)
with_cached hook h cpu owner =
    let (c, found) = get_task_data_with_cache h.0 h.1 cpu owner in
    with_pointer hook (h.0, c, h.2) found

-- The same with a look-up in the list.
abbrev pub with_listed :
    {S : Type 0}
    → (TaskData → Run (TaskData × S × Bool))
    → HookState S
    → ℕ
    → Run (HookState S × Bool)
with_listed hook h owner = with_pointer hook h (pointer (get_task_data h.0 owner))

-- `page_add_new_anon_rmap_hook` only touches the data.
abbrev pub same_memory : {S : Type 0} → S → Run TaskData → Run (TaskData × S × Bool)
same_memory s oops = oops
same_memory s (ran d) = ran (d, s, false)

module _ {S P : Type 0} (k : Mmu S P) where
  abbrev pub wp_page_on : Option ℕ → S → ℕ → P → TaskData → Run (TaskData × S × Bool)
  wp_page_on kmalloc s address orig_pte d = ran (do_wp_page_hook k kmalloc d s address orig_pte)

  abbrev pub rmap_on : Option SnapshotPage → S → ℕ → TaskData → Run (TaskData × S × Bool)
  rmap_on kmalloc s address d = same_memory s (page_add_new_anon_rmap_hook kmalloc d address)

  abbrev pub munmap_on : (ℕ → Option ℕ) → S → ℕ → ℕ → TaskData → Run (TaskData × S × Bool)
  munmap_on kmalloc s start len d = ran (do_munmap_hook k kmalloc d s start len, s, false)

  -- Without a snapshot they change nothing.
  abbrev pub Idle : S → (TaskData → Run (TaskData × S × Bool)) → Type 0
  Idle s hook = (d : TaskData) → have_snapshot d ≡ false → hook d ≡ ran (d, s, false)

  pub wp_page-Idle :
      (kmalloc : Option ℕ) (s : S) (address : ℕ) (pte : P)
      → Idle s (wp_page_on kmalloc s address pte)
  unfolding do_wp_page_hook
  wp_page-Idle kmalloc s address pte d n = rw (wp_page_on, do_wp_page_hook, n) refl

  pub rmap-Idle :
      (kmalloc : Option SnapshotPage) (s : S) (address : ℕ) → Idle s (rmap_on kmalloc s address)
  unfolding page_add_new_anon_rmap_hook
  rmap-Idle kmalloc s address d n = rw (rmap_on, page_add_new_anon_rmap_hook, n) refl

  pub munmap-Idle :
      (kmalloc : ℕ → Option ℕ) (s : S) (start len : ℕ) → Idle s (munmap_on kmalloc s start len)
  unfolding do_munmap_hook
  munmap-Idle kmalloc s start len d n = rw (munmap_on, do_munmap_hook, n) refl

  -- Data that is written as it was.
  put_same :
      (ds : List TaskData) (t : ℕ) (d : TaskData)
      → get_task_data ds t ≡ some d
      → put_task_data ds d ≡ ds
  unfolding get_task_data put_task_data
  put_same [] t d e = absurd (cc)
  put_same (x ∷ ds) t d e = elim (Bool-cases (x.tsk == t)) [
    | inl y ↦
        let same : x ≡ d = some-injective _ _ (sym (get_task_data-cons x ds t ∙ rw y refl) ∙ e) in
        let here : (x.tsk == d.tsk) ≡ true = ap (λ z. x.tsk == z.tsk) (sym same) ∙ eq_refl x.tsk in
        rw (put_task_data, here) (ap (λ z. z ∷ ds) (sym same))
    | inr y ↦
        let later : get_task_data ds t ≡ some d = sym (get_task_data-cons x ds t ∙ rw y refl) ∙ e in
        let apart : (x.tsk == d.tsk) ≡ false =
          ap (λ z. x.tsk == z) (get_task_data-tsk ds t d later) ∙ y in
        rw (put_task_data, apart) (ap (λ z. x ∷ z) (put_same ds t d later))
  ]

  -- A look-up comes to nothing for a task without a snapshot.
  pub listed_unmade :
      (hook : TaskData → Run (TaskData × S × Bool)) (h : HookState S) (owner : ℕ)
      → Idle h.2 hook
      → is_snapshotted (get_task_data h.0 owner) ≡ false
      → with_listed hook h owner ≡ ran (h, false)
  listed_unmade hook h owner idle n = elim (Option-cases (get_task_data h.0 owner)) [
    | inl g ↦ rw g refl
    | inr (d, g) ↦
        let own = get_task_data-tsk h.0 owner d g in
        let still : have_snapshot d ≡ false = ap is_snapshotted (sym g) ∙ n in
        ap (λ x. with_pointer hook h (pointer x)) g
        ∙ ap (λ t. with_data hook h.0 h.1 (get_task_data h.0 t)) own
        ∙ ap (with_data hook h.0 h.1) g
        ∙ ap (written_back h.0 h.1) (idle d still)
        ∙ ap (λ ds. ran ((ds, h.1, h.2), false)) (put_same h.0 owner d g)
  ]

  -- If the caches are coherent, a cached look-up comes to the same as one in the list.
  pub cached-listed :
      (hook : TaskData → Run (TaskData × S × Bool)) (h : HookState S) (cpu owner : ℕ)
      → Idle h.2 hook
      → Coherent h.0 h.1
      → with_cached hook h cpu owner
        ≡ with_listed hook (h.0, (get_task_data_with_cache h.0 h.1 cpu owner).0, h.2) owner
  unfolding with_cached
  cached-listed hook h cpu owner idle coherent =
      let c = (get_task_data_with_cache h.0 h.1 cpu owner).0 in
      elim (lookup-result h.0 h.1 cpu owner coherent) [
        | inl e ↦ ap (with_pointer hook (h.0, c, h.2)) e
        | inr (e, n) ↦
            ap (with_pointer hook (h.0, c, h.2)) e
            ∙ sym (listed_unmade hook (h.0, c, h.2) owner idle n)
      ]
