-- ===== src/Tests/Module.antt =====
-- A kernel in which everything can be had: the module is loaded and unloaded.
use afl_snapshot_lkm.Base.{
  ℕ, ◌+◌, ◌≡◌, refl, ◌==◌, ◌||◌, Bool, true, false, if◌then◌else◌, Option, none, some, List, [],
}
use afl_snapshot_lkm.Hook.{Hook, try_hook, unhook_all}
use afl_snapshot_lkm.Hook.Tracked.{FtraceLaws, listed}
use afl_snapshot_lkm.Module.{
  ModuleOps, resolve_non_exported_symbols, try_hooks, init_hooks, mod_init, mod_exit,
}
use afl_snapshot_lkm.Module.Seen.{ModuleLaws}
use afl_snapshot_lkm.Module.Loaded.{
  HooksTracked, Loaded, NotLoaded, mod_init-Loaded, mod_exit-mod_init,
}

record Seen : Type 0 where
  known : ℕ → Bool
  device : Bool
  syscalls : Bool

abbrev module_ops : ModuleOps Seen
module_ops = record {
  tracer = record {
    ftrace_set_filter = λ l h f. (l, 0);
    register_ftrace_function = λ l h. (record l { known = λ n. h == n || l.known n }, 0);
    unregister_ftrace_function =
        λ l h. (record l { known = λ n. if h == n then false else l.known n }, 0);
  };
  misc_register = λ l. (record l { device = true }, 0);
  misc_deregister = λ l. record l { device = false };
  fh_install_hooks = λ l. (record l { syscalls = true }, 0);
  fh_remove_hooks = λ l. record l { syscalls = false };
  kallsyms_lookup_name = λ l name. name + 100;
}

abbrev known_hook : Seen → ℕ → Bool
known_hook l n = l.known n

abbrev has_device : Seen → Bool
has_device l = l.device

abbrev has_syscalls : Seen → Bool
has_syscalls l = l.syscalls

ftrace_laws : FtraceLaws module_ops.tracer known_hook
ftrace_laws = record {
  set_filter-same = λ l h f n. refl;
  register-done = λ l h n e. refl;
  register-failed = λ l h n e. absurd (cc);
  unregister-done = λ l h n. refl;
}

module_laws : ModuleLaws module_ops known_hook has_device has_syscalls
module_laws = record {
  tracer_laws = ftrace_laws;
  registered-register = λ l n. refl;
  registered-deregister = λ l n. refl;
  registered-install = λ l n. refl;
  registered-remove = λ l n. refl;
  device-register = λ l. refl;
  device-deregister = λ l. refl;
  device-install = λ l. refl;
  device-remove = λ l. refl;
  device-filter = λ l h f. refl;
  device-trace = λ l h. refl;
  device-untrace = λ l h. refl;
  syscalls-register = λ l. refl;
  syscalls-deregister = λ l. refl;
  syscalls-install = λ l. refl;
  syscalls-remove = λ l. refl;
  syscalls-filter = λ l h f. refl;
  syscalls-trace = λ l h. refl;
  syscalls-untrace = λ l h. refl;
}

abbrev unloaded : Seen
unloaded = record { known = λ n. false; device = false; syscalls = false }

-- The address of the hook of each name.
abbrev hook_address : ℕ → Option ℕ
hook_address name = some (name + 20)

none_known : HooksTracked module_ops known_hook has_device has_syscalls module_laws unloaded []
unfolding listed
none_known n = refl

abbrev loaded : Seen × List Hook × ℕ
loaded = mod_init module_ops hook_address unloaded []

mod_init-Loaded_example :
    (loaded.2 ≡ 0 → Loaded module_ops known_hook has_device has_syscalls module_laws loaded)
    × ((loaded.2 == 0) ≡ false
        → NotLoaded module_ops known_hook has_device has_syscalls module_laws loaded true)
mod_init-Loaded_example =
    mod_init-Loaded module_ops known_hook has_device has_syscalls module_laws hook_address unloaded
      none_known refl refl

loads : loaded.2 ≡ 0
unfolding mod_init init_hooks try_hooks try_hook resolve_non_exported_symbols
loads = refl

mod_exit-mod_init_example :
    let x = mod_exit module_ops loaded.0 loaded.1 in
    (x.1 ≡ [])
    × ((n : ℕ) → known_hook x.0 n ≡ false)
    × (has_device x.0 ≡ false)
    × (has_syscalls x.0 ≡ false)
mod_exit-mod_init_example =
    mod_exit-mod_init module_ops known_hook has_device has_syscalls module_laws hook_address
      unloaded none_known refl refl loads

-- Without memory for the hooks `mod_init` fails, and leaves the hooks of system calls.
syscalls_stay :
    let r = mod_init module_ops (λ name. none) unloaded [] in (r.2 ≡ 2) × (has_syscalls r.0 ≡ true)
unfolding mod_init init_hooks try_hooks try_hook resolve_non_exported_symbols unhook_all
syscalls_stay = (refl, refl)
