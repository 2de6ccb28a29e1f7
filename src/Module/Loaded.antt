-- ===== src/Module/Loaded.antt =====
-- What is left in the kernel after `mod_init` and after `mod_exit` of src/module.c.
use afl_snapshot_lkm.Base.{
  ℕ, ◌≡◌, refl, ◌==◌, ◌&&◌, Bool, true, false, Option, List, [], ◌∷◌, ==_iff, Bool-cases, inl, inr,
  ◌∙◌, ap, arith,
}
use afl_snapshot_lkm.Hook.{Hook, try_hook, unhook_all}
use afl_snapshot_lkm.Hook.Tracked.{Tracked, listed, try_hook-Tracked, unhook_all-Tracked}
use afl_snapshot_lkm.Module.Seen.{ModuleLaws, try_hooks-seen, unhook_all-seen}
use afl_snapshot_lkm.Module.{
  ModuleOps, resolve_non_exported_symbols, try_hooks, do_wp_page, page_add_new_anon_rmap, do_munmap,
  hooked_names, give_up, init_hooks, mod_init, mod_exit,
}

abbrev pub names_of : List Hook → List ℕ
names_of [] = []
names_of (h ∷ hooks) = h.symbol_name ∷ names_of hooks

-- Each name goes to the front of the list.
abbrev names_after : List ℕ → List ℕ → List ℕ
names_after [] known = known
names_after (n ∷ ns) known = names_after ns (n ∷ known)

module _ {L : Type 0} (o : ModuleOps L) (registered : L → ℕ → Bool) (device : L → Bool)
    (syscalls : L → Bool) (laws : ModuleLaws o registered device syscalls) where
  abbrev pub HooksTracked : L → List Hook → Type 0
  HooksTracked l hooks = Tracked o.tracer registered laws.tracer_laws l hooks

  try_hooks-Tracked :
      (kzalloc : ℕ → Option ℕ) (l : L) (hooks : List Hook) (names : List ℕ)
      → HooksTracked l hooks
      → let r = try_hooks o kzalloc l hooks names in
        HooksTracked r.0 r.1 × (r.2 ≡ true → names_of r.1 ≡ names_after names (names_of hooks))
  unfolding try_hooks
  try_hooks-Tracked kzalloc l hooks [] t = (t, λ z. refl)
  try_hooks-Tracked kzalloc l hooks (name ∷ names) t =
      let r = try_hook o.tracer (kzalloc name) l hooks name in
      let first =
        try_hook-Tracked o.tracer registered laws.tracer_laws (kzalloc name) l hooks name t in
      let rest = try_hooks-Tracked kzalloc r.0 r.1 names first.0 in
      elim (Bool-cases (r.2 == 0)) [
        | inl e ↦
            let added = first.1 ((==_iff r.2 0).0 e) in
            rw (try_hooks, e)
              (rest.0, λ z. rest.1 z ∙ ap (λ hs. names_after names (names_of hs)) added.2)
        | inr e ↦ rw (try_hooks, e) (first.0, λ z. absurd (cc))
      ]

  -- What `err_hooks` leaves: nothing but the hooks of system calls.
  give_up_lem :
      (l : L) (hooks : List Hook) (res : ℕ)
      → HooksTracked l hooks
      → let r = give_up o l hooks res in
        (r.1 ≡ [])
        × ((n : ℕ) → registered r.0 n ≡ false)
        × (device r.0 ≡ false)
        × (syscalls r.0 ≡ syscalls l)
  give_up_lem l hooks res t =
      let u = unhook_all-Tracked o.tracer registered laws.tracer_laws l hooks t in
      let l' = (unhook_all o.tracer l hooks).0 in
      (
        u.0,
        λ n. laws.registered-deregister l' n ∙ u.1 n,
        laws.device-deregister l',
        laws.syscalls-deregister l'
            ∙ unhook_all-seen o syscalls laws.syscalls-filter laws.syscalls-trace
                laws.syscalls-untrace l hooks,
      )

  -- What `mod_init` has done if it returns 0, and what it leaves otherwise.
  abbrev pub Loaded : L × List Hook × ℕ → Type 0
  Loaded r =
      HooksTracked r.0 r.1
      × (names_of r.1 ≡ do_munmap ∷ page_add_new_anon_rmap ∷ do_wp_page ∷ [])
      × (device r.0 ≡ true)
      × (syscalls r.0 ≡ true)

  abbrev pub NotLoaded : L × List Hook × ℕ → Bool → Type 0
  NotLoaded r kept =
      (r.1 ≡ [])
      × ((n : ℕ) → registered r.0 n ≡ false)
      × (device r.0 ≡ false)
      × (syscalls r.0 ≡ kept)

  abbrev Ended : L × List Hook × ℕ → Bool → Type 0
  Ended r kept = (r.2 ≡ 0 → Loaded r) × ((r.2 == 0) ≡ false → NotLoaded r kept)

  init_hooks_lem :
      (kzalloc : ℕ → Option ℕ) (l : L)
      → HooksTracked l []
      → device l ≡ true
      → syscalls l ≡ true
      → Ended (init_hooks o kzalloc l []) true
  unfolding init_hooks
  init_hooks_lem kzalloc l t d s =
      let h = try_hooks o kzalloc l [] (hooked_names o) in
      let tracked = try_hooks-Tracked kzalloc l [] (hooked_names o) t in
      let d' =
        try_hooks-seen o device laws.device-filter laws.device-trace laws.device-untrace kzalloc l
          [] (hooked_names o)
        ∙ d in
      let s' =
        try_hooks-seen o syscalls laws.syscalls-filter laws.syscalls-trace laws.syscalls-untrace
          kzalloc l [] (hooked_names o)
        ∙ s in
      let res = (resolve_non_exported_symbols (o.kallsyms_lookup_name h.0)).1 in
      let g = give_up_lem h.0 h.1 res tracked.0 in
      let g' = give_up_lem h.0 h.1 2 tracked.0 in
      elim (Bool-cases h.2) [
        | inl e ↦ elim (Bool-cases (res == 0)) [
          | inl z ↦
              rw (init_hooks, e)
                (rw (init_hooks, z)
                  (λ y. (tracked.0, tracked.1 e, d', s'), λ y. absurd (ground (arith, y))))
          | inr z ↦
              rw (init_hooks, e)
                (rw (init_hooks, z)
                  (λ y. absurd (ground (arith, y, z)), λ y. (g.0, g.1, g.2, g.3 ∙ s')))
        ]
        | inr e ↦
            rw (init_hooks, e) (λ y. absurd (omega (arith, y)), λ y. (g'.0, g'.1, g'.2, g'.3 ∙ s'))
      ]

  -- `mod_init` in a kernel that knows nothing of the module. If it returns 0, the tracer knows exactly the
  -- hooks of the list, which are those of the three functions, the device is there, and the hooks of
  -- system calls are. Otherwise no hook is registered or listed, and the device is gone; but the hooks of
  -- system calls stay if they were installed, that is if the device could be registered and
  -- `fh_install_hooks` returned 0. The kernel's functions have their documented effect.
  pub mod_init-Loaded :
      (kzalloc : ℕ → Option ℕ) (l : L)
      → HooksTracked l []
      → device l ≡ false
      → syscalls l ≡ false
      → let r = mod_init o kzalloc l [] in
        (r.2 ≡ 0 → Loaded r)
        × ((r.2 == 0) ≡ false
            → NotLoaded r
                ((o.misc_register l).1 == 0 && (o.fh_install_hooks (o.misc_register l).0).1 == 0))
  unfolding mod_init listed
  mod_init-Loaded kzalloc l t d s =
      let l₁ = (o.misc_register l).0 in
      let l₂ = (o.fh_install_hooks l₁).0 in
      let t₁ : (n : ℕ) → registered l₁ n ≡ false = λ n. laws.registered-register l n ∙ t n in
      let t₂ : (n : ℕ) → registered l₂ n ≡ false = λ n. laws.registered-install l₁ n ∙ t₁ n in
      let s₁ = laws.syscalls-register l ∙ s in
      elim (Bool-cases ((o.misc_register l).1 == 0)) [
        | inr e ↦
            rw (mod_init, e)
              (
                λ y. absurd (ground (arith, y, e)),
                λ y. (refl, t₁, laws.device-register l ∙ rw e d, s₁),
              )
        | inl e ↦
            let d₂ : device l₂ ≡ true =
              laws.device-install l₁ ∙ laws.device-register l ∙ rw e refl in
            elim (Bool-cases ((o.fh_install_hooks l₁).1 == 0)) [
              | inr z ↦
                  rw (mod_init, e)
                    (rw (mod_init, z)
                      (
                        λ y. absurd (ground (arith, y, z)),
                        λ y. (
                          refl,
                          λ n. laws.registered-deregister l₂ n ∙ t₂ n,
                          laws.device-deregister l₂,
                          laws.syscalls-deregister l₂ ∙ laws.syscalls-install l₁ ∙ rw z s₁,
                        ),
                      ))
              | inl z ↦
                  rw (mod_init, e)
                    (rw (mod_init, z)
                      (init_hooks_lem kzalloc l₂ t₂ d₂ (laws.syscalls-install l₁ ∙ rw z refl)))
            ]
      ]

  -- After `mod_init`, if it has returned 0, and then `mod_exit` the kernel knows nothing of the module
  -- again: no hook is registered or listed, and neither the device nor the hooks of system calls are
  -- there. Before, it knew nothing of it, and its functions have their documented effect.
  pub mod_exit-mod_init :
      (kzalloc : ℕ → Option ℕ) (l : L)
      → HooksTracked l []
      → device l ≡ false
      → syscalls l ≡ false
      → let r = mod_init o kzalloc l [] in
        r.2 ≡ 0
        → let x = mod_exit o r.0 r.1 in
          (x.1 ≡ [])
          × ((n : ℕ) → registered x.0 n ≡ false)
          × (device x.0 ≡ false)
          × (syscalls x.0 ≡ false)
  unfolding mod_exit
  mod_exit-mod_init kzalloc l t d s y =
      let r = mod_init o kzalloc l [] in
      let loaded = (mod_init-Loaded kzalloc l t d s).0 y in
      let u = unhook_all-Tracked o.tracer registered laws.tracer_laws r.0 r.1 loaded.0 in
      let l' = (unhook_all o.tracer r.0 r.1).0 in
      (
        u.0,
        λ n.
            laws.registered-deregister (o.fh_remove_hooks l') n
            ∙ laws.registered-remove l' n
            ∙ u.1 n,
        laws.device-deregister (o.fh_remove_hooks l'),
        laws.syscalls-deregister (o.fh_remove_hooks l') ∙ laws.syscalls-remove l',
      )
