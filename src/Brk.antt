-- ===== src/Brk.antt =====
-- `restore_brk`, src/memory.c: the program break is put back, and the heap with it.
-- The memory map of the process is a parameter `M`, with the kernel's operations on it; an operation
-- that may fail returns whether it has succeeded. Messages and locks are left out.
use afl_snapshot_lkm.Base.{
  ℕ, ◌+◌, ◌-◌, ◌%◌, ◌^◌, ◌≡◌, Bool, true, false, ltb, leb, ◌==◌, if◌then◌else◌, Option, none, some,
  arith, ◌⊎◌,
}
use afl_snapshot_lkm.Page.{page_size}

pub record MmOps (M : Type 0) : Type 0 where
  -- `mm->brk`
  pub brk : M → ℕ
  pub set_brk : M → ℕ → M
  -- `vm_munmap` and `vm_brk`, from an address and for a length
  pub vm_munmap : M → ℕ → ℕ → M × Bool
  pub vm_brk : M → ℕ → ℕ → M × Bool
  -- `vm_start` of the first region that ends above the address
  pub find_vma : M → ℕ → Option ℕ

-- `PAGE_ALIGN`, on 64-bit words.
abbrev pub page_align : ℕ → ℕ
page_align a = let b = (a + (page_size - 1)) % 2 ^ 64 in b - b % page_size

abbrev pub is_below : ℕ → Option ℕ → Bool
is_below a none = false
is_below a (some vm_start) = ltb vm_start a

module _ {M : Type 0} (o : MmOps M) where
  -- The return after a kernel function: `goto success`, or -1.
  abbrev pub end_brk : M × Bool → ℕ → M × Bool
  end_brk r a = if r.1 then (o.set_brk r.0 a, true) else (r.0, false)

  -- The second part of the result is whether the function returns 0 (and not -1).
  unfoldable pub restore_brk : M → ℕ → M × Bool
  restore_brk m snapshotted_brk =
      let current_brk = o.brk m in
      if page_align current_brk == page_align snapshotted_brk
      then (o.set_brk m snapshotted_brk, true)
      else if leb snapshotted_brk current_brk
      then end_brk (o.vm_munmap m snapshotted_brk (current_brk - snapshotted_brk)) snapshotted_brk
      else if is_below ((snapshotted_brk + page_size) % 2 ^ 64) (o.find_vma m current_brk)
      then (m, false)
      else end_brk (o.vm_brk m current_brk (snapshotted_brk - current_brk)) snapshotted_brk

  -- The documented effects: the operations on the map leave the break alone, and refuse an address
  -- that is not at the start of a page.
  pub record MmLaws : Type 0 where
    pub brk-set_brk : (m : M) (a : ℕ) → o.brk (o.set_brk m a) ≡ a
    pub brk-vm_munmap : (m : M) (a n : ℕ) → o.brk (o.vm_munmap m a n).0 ≡ o.brk m
    pub brk-vm_brk : (m : M) (a n : ℕ) → o.brk (o.vm_brk m a n).0 ≡ o.brk m
    pub vm_munmap-aligned : (m : M) (a n : ℕ) → (o.vm_munmap m a n).1 ≡ true → a % page_size ≡ 0
    pub vm_brk-aligned : (m : M) (a n : ℕ) → (o.vm_brk m a n).1 ≡ true → a % page_size ≡ 0

  module _ (laws : MmLaws) where
    -- The break is the snapshotted one if the function returns 0, and the old one otherwise, if mapping
    -- and unmapping leave the break alone.
    pub restore_brk-brk :
        (m : M) (a : ℕ) → o.brk (restore_brk m a).0 ≡ (if (restore_brk m a).1 then a else o.brk m)
    unfolding restore_brk
    restore_brk-brk m a = ground (
      arith,
      laws.brk-set_brk m a,
      laws.brk-vm_munmap m a (o.brk m - a),
      laws.brk-vm_brk m (o.brk m) (a - o.brk m),
      laws.brk-set_brk (o.vm_munmap m a (o.brk m - a)).0 a,
      laws.brk-set_brk (o.vm_brk m (o.brk m) (a - o.brk m)).0 a,
    )

    -- The function returns 0 only where both breaks end on the same page, or where the lower of the two
    -- is at the start of a page, if the kernel refuses to map or unmap from any other address.
    pub restore_brk-aligned :
        (m : M) (a : ℕ)
        → (restore_brk m a).1 ≡ true
        → (page_align (o.brk m) ≡ page_align a)
          ⊎ ((leb a (o.brk m) ≡ true) × (a % page_size ≡ 0))
          ⊎ ((leb a (o.brk m) ≡ false) × (o.brk m % page_size ≡ 0))
    unfolding restore_brk
    restore_brk-aligned m a h = ground (
      arith,
      laws.vm_munmap-aligned m a (o.brk m - a),
      laws.vm_brk-aligned m (o.brk m) (a - o.brk m),
    )
