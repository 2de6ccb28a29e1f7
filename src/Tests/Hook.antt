-- ===== src/Tests/Hook.antt =====
-- A tracer that knows which hooks are registered and refuses nothing.
use afl_snapshot_lkm.Base.{
  ℕ, ◌≡◌, refl, ◌==◌, Bool, true, false, some, List, [], ◌∷◌, update, arith,
}
use afl_snapshot_lkm.Hook.{Hook, FtraceOps, try_hook, unhook_all}
use afl_snapshot_lkm.Hook.Tracked.{
  FtraceLaws, Tracked, listed, try_hook-Tracked, unhook_all-Tracked,
}

abbrev Tracer : Type 0
Tracer = ℕ → Bool

abbrev tracer : FtraceOps Tracer
tracer = record {
  ftrace_set_filter = λ k h f. (k, 0);
  register_ftrace_function = λ k h. (update k h true, 0);
  unregister_ftrace_function = λ k h. (update k h false, 0);
}

abbrev registered : Tracer → ℕ → Bool
registered k n = k n

tracer_laws : FtraceLaws tracer registered
tracer_laws = record {
  set_filter-same = λ k h f n. refl;
  register-done = λ k h n e. ground arith;
  register-failed = λ k h n e. absurd (cc);
  unregister-done = λ k h n. refl;
}

abbrev one_hook : List Hook
one_hook = record { address = 9; symbol_name = 1 } ∷ []

abbrev one_registered : Tracer
one_registered n = 9 == n

one-Tracked : Tracked tracer registered tracer_laws one_registered one_hook
unfolding listed
one-Tracked n = ground arith

try_hook-Tracked_example :
    let r = try_hook tracer (some 11) one_registered one_hook 2 in
    Tracked tracer registered tracer_laws r.0 r.1
    × (r.2 ≡ 0
        → (a : ℕ) × (some 11 ≡ some a) × (r.1 ≡ record { address = a; symbol_name = 2 } ∷ one_hook))
try_hook-Tracked_example =
    try_hook-Tracked tracer registered tracer_laws (some 11) one_registered one_hook 2 one-Tracked

unhook_all-Tracked_example :
    ((unhook_all tracer one_registered one_hook).1 ≡ [])
    × ((n : ℕ) → registered (unhook_all tracer one_registered one_hook).0 n ≡ false)
unhook_all-Tracked_example =
    unhook_all-Tracked tracer registered tracer_laws one_registered one_hook one-Tracked
