-- ===== src/Hook.antt =====
-- The list of function hooks, src/hook.c. A hook is named by its address, which also stands for the
-- `ftrace_ops` in it; a function name is a number, and an error a number other than 0. `K` is the state
-- of the kernel's tracer. The fields that only the tracer reads, and messages, are left out.
pub mod Tracked
use afl_snapshot_lkm.Base.{
  ℕ, ◌==◌, if◌then◌else◌, Bool, true, false, Option, none, some, List, [], ◌∷◌,
}

pub record Hook : Type 0 where
  pub address : ℕ
  pub symbol_name : ℕ

pub record FtraceOps (K : Type 0) : Type 0 where
  -- of a hook and a function name
  pub ftrace_set_filter : K → ℕ → ℕ → K × ℕ
  pub register_ftrace_function : K → ℕ → K × ℕ
  pub unregister_ftrace_function : K → ℕ → K × ℕ

module _ {K : Type 0} (o : FtraceOps K) where
  -- `kzalloc` is the address of the new hook or null. The last part of the result is what the function
  -- returns.
  unfoldable pub try_hook : Option ℕ → K → List Hook → ℕ → K × List Hook × ℕ
  try_hook none k hooks func_name = (k, hooks, 12)
  try_hook (some hook) k hooks func_name =
      let (k', ret) = o.ftrace_set_filter k hook func_name in
      let (k'', ret') = o.register_ftrace_function k' hook in
      if ret == 0
      then if ret' == 0
        then (k'', record { address = hook; symbol_name = func_name } ∷ hooks, 0)
        else (k'', hooks, ret')
      else (k', hooks, ret)

  -- The first hook of the name goes, whatever `unregister_ftrace_function` returns.
  unfoldable pub unhook : K → List Hook → ℕ → K × List Hook
  unhook k [] func_name = (k, [])
  unhook k (h ∷ hooks) func_name =
      let (k', rest) = unhook k hooks func_name in
      if h.symbol_name == func_name
      then ((o.unregister_ftrace_function k h.address).0, hooks)
      else (k', h ∷ rest)

  unfoldable pub unhook_all : K → List Hook → K × List Hook
  unhook_all k [] = (k, [])
  unhook_all k (h ∷ hooks) = unhook_all (o.unregister_ftrace_function k h.address).0 hooks
