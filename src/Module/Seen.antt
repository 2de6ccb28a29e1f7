-- ===== src/Module/Seen.antt =====
-- What can be seen of the module in the kernel, for `mod_init` and `mod_exit` of src/module.c.
use afl_snapshot_lkm.Base.{
  ℕ, ◌≡◌, refl, ◌==◌, Bool, true, false, if◌then◌else◌, Option, none, some, List, [], ◌∷◌, ◌∙◌,
  arith,
}
use afl_snapshot_lkm.Hook.{Hook, try_hook, unhook_all}
use afl_snapshot_lkm.Hook.Tracked.{FtraceLaws}
use afl_snapshot_lkm.Module.{ModuleOps, try_hooks}

-- What can be seen of the kernel: which hooks its tracer knows, whether the device is there, and whether
-- the hooks of system calls are. The operations have their documented effect on these, and an operation
-- on one of them leaves the others alone.
pub record ModuleLaws {L : Type 0} (o : ModuleOps L) (registered : L → ℕ → Bool) (device : L → Bool)
    (syscalls : L → Bool) : Type 0 where
  pub tracer_laws : FtraceLaws o.tracer registered
  pub registered-register : (l : L) (n : ℕ) → registered (o.misc_register l).0 n ≡ registered l n
  pub registered-deregister : (l : L) (n : ℕ) → registered (o.misc_deregister l) n ≡ registered l n
  pub registered-install : (l : L) (n : ℕ) → registered (o.fh_install_hooks l).0 n ≡ registered l n
  pub registered-remove : (l : L) (n : ℕ) → registered (o.fh_remove_hooks l) n ≡ registered l n
  pub device-register :
      (l : L)
      → device (o.misc_register l).0 ≡ (if (o.misc_register l).1 == 0 then true else device l)
  pub device-deregister : (l : L) → device (o.misc_deregister l) ≡ false
  pub device-install : (l : L) → device (o.fh_install_hooks l).0 ≡ device l
  pub device-remove : (l : L) → device (o.fh_remove_hooks l) ≡ device l
  pub device-filter : (l : L) (h f : ℕ) → device (o.tracer.ftrace_set_filter l h f).0 ≡ device l
  pub device-trace : (l : L) (h : ℕ) → device (o.tracer.register_ftrace_function l h).0 ≡ device l
  pub device-untrace :
      (l : L) (h : ℕ) → device (o.tracer.unregister_ftrace_function l h).0 ≡ device l
  pub syscalls-register : (l : L) → syscalls (o.misc_register l).0 ≡ syscalls l
  pub syscalls-deregister : (l : L) → syscalls (o.misc_deregister l) ≡ syscalls l
  pub syscalls-install :
      (l : L)
      → syscalls (o.fh_install_hooks l).0
        ≡ (if (o.fh_install_hooks l).1 == 0 then true else syscalls l)
  pub syscalls-remove : (l : L) → syscalls (o.fh_remove_hooks l) ≡ false
  pub syscalls-filter :
      (l : L) (h f : ℕ) → syscalls (o.tracer.ftrace_set_filter l h f).0 ≡ syscalls l
  pub syscalls-trace :
      (l : L) (h : ℕ) → syscalls (o.tracer.register_ftrace_function l h).0 ≡ syscalls l
  pub syscalls-untrace :
      (l : L) (h : ℕ) → syscalls (o.tracer.unregister_ftrace_function l h).0 ≡ syscalls l

module _ {L : Type 0} (o : ModuleOps L) where
  -- Something that the tracer's operations leave alone stays through the hooks of src/hook.c.
  module _ (seen : L → Bool)
      (filter : (l : L) (h f : ℕ) → seen (o.tracer.ftrace_set_filter l h f).0 ≡ seen l)
      (trace : (l : L) (h : ℕ) → seen (o.tracer.register_ftrace_function l h).0 ≡ seen l)
      (untrace : (l : L) (h : ℕ) → seen (o.tracer.unregister_ftrace_function l h).0 ≡ seen l) where
    try_hook-seen :
        (kzalloc : Option ℕ) (l : L) (hooks : List Hook) (name : ℕ)
        → seen (try_hook o.tracer kzalloc l hooks name).0 ≡ seen l
    unfolding try_hook
    try_hook-seen none l hooks name = refl
    try_hook-seen (some a) l hooks name =
        let f = filter l a name in
        let t = trace (o.tracer.ftrace_set_filter l a name).0 a in ground arith

    pub try_hooks-seen :
        (kzalloc : ℕ → Option ℕ) (l : L) (hooks : List Hook) (names : List ℕ)
        → seen (try_hooks o kzalloc l hooks names).0 ≡ seen l
    unfolding try_hooks
    try_hooks-seen kzalloc l hooks [] = refl
    try_hooks-seen kzalloc l hooks (name ∷ names) =
        let r = try_hook o.tracer (kzalloc name) l hooks name in
        let first = try_hook-seen (kzalloc name) l hooks name in
        let rest = try_hooks-seen kzalloc r.0 r.1 names in ground arith

    pub unhook_all-seen :
        (l : L) (hooks : List Hook) → seen (unhook_all o.tracer l hooks).0 ≡ seen l
    unfolding unhook_all
    unhook_all-seen l [] = refl
    unhook_all-seen l (h ∷ hooks) =
        unhook_all-seen (o.tracer.unregister_ftrace_function l h.address).0 hooks
        ∙ untrace l h.address
