-- ===== src/Hook/Tracked.antt =====
-- The hooks that the tracer knows are those on the list of src/hook.c.
use afl_snapshot_lkm.Base.{
  ℕ, ◌≡◌, refl, ◌==◌, ◌||◌, if◌then◌else◌, Bool, true, false, Option, none, some, List, [], ◌∷◌,
  Bool-cases, inl, inr, ◌∙◌, sym, ap, arith,
}
use afl_snapshot_lkm.Hook.{Hook, FtraceOps, try_hook, unhook_all}

unfoldable pub listed : ℕ → List Hook → Bool
listed n [] = false
listed n (h ∷ hooks) = h.address == n || listed n hooks

-- The documented effects on which hooks are registered: registering a hook registers it if the result is
-- 0, and nothing changes otherwise; unregistering, which succeeds for a registered hook, drops it.
pub record FtraceLaws {K : Type 0} (o : FtraceOps K) (registered : K → ℕ → Bool) : Type 0 where
  pub set_filter-same :
      (k : K) (h f n : ℕ) → registered (o.ftrace_set_filter k h f).0 n ≡ registered k n
  pub register-done :
      (k : K) (h n : ℕ)
      → ((o.register_ftrace_function k h).1 == 0) ≡ true
      → registered (o.register_ftrace_function k h).0 n ≡ (h == n || registered k n)
  pub register-failed :
      (k : K) (h n : ℕ)
      → ((o.register_ftrace_function k h).1 == 0) ≡ false
      → registered (o.register_ftrace_function k h).0 n ≡ registered k n
  pub unregister-done :
      (k : K) (h n : ℕ)
      → registered (o.unregister_ftrace_function k h).0 n
        ≡ (if h == n then false else registered k n)

module _ {K : Type 0} (o : FtraceOps K) (registered : K → ℕ → Bool)
    (laws : FtraceLaws o registered) where
  abbrev pub Tracked : K → List Hook → Type 0
  Tracked k hooks = (n : ℕ) → registered k n ≡ listed n hooks

  -- Whatever fails in `try_hook`, the registered hooks are those of the list afterwards if they were
  -- before; and if it returns 0, the list has the new hook in front. The tracer is as documented.
  pub try_hook-Tracked :
      (kzalloc : Option ℕ) (k : K) (hooks : List Hook) (func_name : ℕ)
      → Tracked k hooks
      → let r = try_hook o kzalloc k hooks func_name in
        Tracked r.0 r.1
        × (r.2 ≡ 0
            → (a : ℕ) × (kzalloc ≡ some a)
              × (r.1 ≡ record { address = a; symbol_name = func_name } ∷ hooks))
  unfolding try_hook listed
  try_hook-Tracked none k hooks f t = (t, λ z. absurd (omega (arith, z)))
  try_hook-Tracked (some a) k hooks f t =
      let k' = (o.ftrace_set_filter k a f).0 in
      elim (Bool-cases ((o.ftrace_set_filter k a f).1 == 0)) [
        | inr e ↦ rw e ((λ n. laws.set_filter-same k a f n ∙ t n), λ z. absurd (ground arith))
        | inl e ↦ elim (Bool-cases ((o.register_ftrace_function k' a).1 == 0)) [
          | inl g ↦
              rw (e, g)
                (
                  (λ n.
                      laws.register-done k' a n g
                      ∙ ap (λ x. a == n || x) (laws.set_filter-same k a f n ∙ t n)),
                  λ z. (a, refl, refl),
                )
          | inr g ↦
              rw (e, g)
                (
                  (λ n. laws.register-failed k' a n g ∙ laws.set_filter-same k a f n ∙ t n),
                  λ z. absurd (ground arith),
                )
        ]
      ]

  unregistered :
      (k : K) (hooks : List Hook) (n : ℕ)
      → (registered k n ≡ true → listed n hooks ≡ true)
      → registered (unhook_all o k hooks).0 n ≡ false
  unfolding unhook_all listed
  unregistered k [] n e = ground (arith, e)
  unregistered k (h ∷ hooks) n e =
      unregistered (o.unregister_ftrace_function k h.address).0 hooks n
        (λ r. let u = laws.unregister-done k h.address n in ground (arith, e))

  emptied : (k : K) (hooks : List Hook) → (unhook_all o k hooks).1 ≡ []
  unfolding unhook_all
  emptied k [] = refl
  emptied k (h ∷ hooks) = emptied (o.unregister_ftrace_function k h.address).0 hooks

  -- After `unhook_all` the list is empty and no hook is registered, if the registered ones were those
  -- of the list and unregistering succeeds, as documented for them.
  pub unhook_all-Tracked :
      (k : K) (hooks : List Hook)
      → Tracked k hooks
      → ((unhook_all o k hooks).1 ≡ []) × ((n : ℕ) → registered (unhook_all o k hooks).0 n ≡ false)
  unhook_all-Tracked k hooks t = (emptied k hooks, λ n. unregistered k hooks n (λ r. sym (t n) ∙ r))
