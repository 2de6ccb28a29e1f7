-- ===== src/Module.antt =====
-- Loading and unloading the module: `mod_init`, `mod_exit` and `resolve_non_exported_symbols`, src/module.c.
-- `L` is the state of the kernel: its devices, its tracer, and the hooks of src/ftrace_helper.h, which is
-- a helper library and a parameter. An error is a number other than 0. The name of a function is a number.
-- Messages are left out, and the variables that keep the addresses of functions are `Symbols`.
pub mod Seen
pub mod Loaded
use afl_snapshot_lkm.Base.{
  ℕ, ◌==◌, ◌||◌, Bool, true, false, if◌then◌else◌, Option, none, some, List, [], ◌∷◌,
}
use afl_snapshot_lkm.Hook.{Hook, FtraceOps, try_hook, unhook_all}

pub record ModuleOps (L : Type 0) : Type 0 where
  pub tracer : FtraceOps L
  -- with what they return
  pub misc_register : L → L × ℕ
  pub misc_deregister : L → L
  pub fh_install_hooks : L → L × ℕ
  pub fh_remove_hooks : L → L
  -- 0 if the name is not known
  pub kallsyms_lookup_name : L → ℕ → ℕ

-- The names, as numbers.
abbrev pub do_wp_page : ℕ
do_wp_page = 0

abbrev pub page_add_new_anon_rmap : ℕ
page_add_new_anon_rmap = 1

abbrev pub do_munmap : ℕ
do_munmap = 2

abbrev pub flush_tlb_mm_range : ℕ
flush_tlb_mm_range = 3

abbrev pub zap_page_range : ℕ
zap_page_range = 4

abbrev pub dup_fd : ℕ
dup_fd = 5

abbrev pub put_files_struct : ℕ
put_files_struct = 6

abbrev pub walk_page_vma : ℕ
walk_page_vma = 7

abbrev pub walk_page_range : ℕ
walk_page_range = 8

pub record Symbols : Type 0 where
  pub k_flush_tlb_mm_range : ℕ
  pub k_zap_page_range : ℕ
  pub dup_fd_ptr : ℕ
  pub put_files_struct_ptr : ℕ
  pub walk_page_vma_ptr : ℕ
  pub walk_page_range_ptr : ℕ

-- With what the function returns: -ENOENT is 2.
unfoldable pub resolve_non_exported_symbols : (ℕ → ℕ) → Symbols × ℕ
resolve_non_exported_symbols lookup =
    let s : Symbols = record {
      k_flush_tlb_mm_range = lookup flush_tlb_mm_range;
      k_zap_page_range = lookup zap_page_range;
      dup_fd_ptr = lookup dup_fd;
      put_files_struct_ptr = lookup put_files_struct;
      walk_page_vma_ptr = lookup walk_page_vma;
      walk_page_range_ptr = lookup walk_page_range;
    } in
    (
      s,
      if s.k_flush_tlb_mm_range == 0
            || s.k_zap_page_range == 0
            || s.dup_fd_ptr == 0
            || s.put_files_struct_ptr == 0
            || s.walk_page_vma_ptr == 0
            || s.walk_page_range_ptr == 0
          then 2
          else 0,
    )

module _ {L : Type 0} (o : ModuleOps L) where
  -- The hooks in turn, up to the first that fails, and whether none does. `kzalloc` says what the
  -- allocation for each name returns.
  unfoldable pub try_hooks : (ℕ → Option ℕ) → L → List Hook → List ℕ → L × List Hook × Bool
  try_hooks kzalloc l hooks [] = (l, hooks, true)
  try_hooks kzalloc l hooks (name ∷ names) =
      let (l', hooks', error) = try_hook o.tracer (kzalloc name) l hooks name in
      let rest = try_hooks kzalloc l' hooks' names in
      if error == 0 then rest else (l', hooks', false)

  abbrev pub hooked_names : List ℕ
  hooked_names = do_wp_page ∷ page_add_new_anon_rmap ∷ do_munmap ∷ []

  -- From `err_hooks` on.
  abbrev pub give_up : L → List Hook → ℕ → L × List Hook × ℕ
  give_up l hooks res =
      let (l', hooks') = unhook_all o.tracer l hooks in (o.misc_deregister l', hooks', res)

  -- The rest of `mod_init` once the hooks of system calls are installed.
  unfoldable pub init_hooks : (ℕ → Option ℕ) → L → List Hook → L × List Hook × ℕ
  unfolding try_hooks
  init_hooks kzalloc l hooks =
      let (l', hooks', ok) = try_hooks kzalloc l hooks hooked_names in
      let (symbols, res) = resolve_non_exported_symbols (o.kallsyms_lookup_name l') in
      if ok
      then if res == 0 then (l', hooks', 0) else give_up l' hooks' res
      else give_up l' hooks' 2

  -- The last part of the result is what the function returns.
  unfoldable pub mod_init : (ℕ → Option ℕ) → L → List Hook → L × List Hook × ℕ
  unfolding init_hooks
  mod_init kzalloc l hooks =
      let (l₁, res) = o.misc_register l in
      let (l₂, res') = o.fh_install_hooks l₁ in
      if res == 0
      then if res' == 0 then init_hooks kzalloc l₂ hooks else (o.misc_deregister l₂, hooks, res')
      else (l₁, hooks, res)

  unfoldable pub mod_exit : L → List Hook → L × List Hook
  mod_exit l hooks =
      let (l', hooks') = unhook_all o.tracer l hooks in
      (o.misc_deregister (o.fh_remove_hooks l'), hooks')
