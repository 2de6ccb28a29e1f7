-- ===== src/Mmu.antt =====
-- The kernel's page tables and user copies, which src/memory.c calls: an interface, since the kernel
-- is not part of the repository. `S` is the state of an address space and `P` a page-table entry. A
-- page is named by its first address.
use afl_snapshot_lkm.Base.{ℕ, ◌≡◌, Bool, true, false, if◌then◌else◌, ◌==◌, List, elem}

-- The levels of the page table above the entries.
pub data Level : Type 0 where
  pgd p4d pud pmd : Level

pub record Mmu (S P : Type 0) : Type 0 where
  pub pte_at : S → ℕ → P
  pub pte_none : P → Bool
  pub pte_write : P → Bool
  pub pte_mkwrite : P → P
  -- `PageAnon` of the page of an entry
  pub page_anon : P → Bool
  -- `pgd_none(*pgd) || pgd_bad(*pgd)`, and so on for the other levels, on the way to an address.
  pub entry_bad : S → Level → ℕ → Bool
  -- whether `pte_offset_map` returns an entry
  pub pte_offset_map : S → ℕ → Bool
  -- the bytes of the page frame of an entry, as `kmap_local_page` and `memcpy` read them
  pub read_frame : S → P → ℕ
  pub set_pte_at : S → ℕ → P → S
  pub ptep_set_wrprotect : S → ℕ → S
  pub flush_tlb_page : S → ℕ → S
  -- the new state, and how much was not copied
  pub copy_to_user : S → ℕ → ℕ → S × ℕ
  pub zap_page : S → ℕ → S
  -- the entries that `walk_page_range` presents between two addresses
  pub walk_page_range : S → ℕ → ℕ → List ℕ
  -- what the process reads from a page, and whether it may be written from the kernel
  pub content : S → ℕ → ℕ
  pub can_write : S → ℕ → Bool

-- What can be observed of a page.
pub record PageView : Type 0 where
  pub absent : Bool
  pub writable : Bool
  pub anon : Bool
  pub bytes : ℕ
  pub mapped : Bool

module _ {S P : Type 0} (k : Mmu S P) where
  abbrev pub view : S → ℕ → PageView
  view s p = record {
    absent = k.pte_none (k.pte_at s p);
    writable = k.pte_write (k.pte_at s p);
    anon = k.page_anon (k.pte_at s p);
    bytes = k.content s p;
    mapped = k.can_write s p;
  }

  -- Every page on a list may be written.
  abbrev pub AllMapped : S → List ℕ → Type 0
  AllMapped s ps = (p : ℕ) → elem p ps ≡ true → (view s p).mapped ≡ true

  -- The documented effect of each operation on what can be observed. `backing p` is what page `p`
  -- holds when it is first touched: zeros, or the bytes of a file.
  pub record MmuLaws (backing : ℕ → ℕ) : Type 0 where
    pub read_frame-content :
        (s : S) (p : ℕ) → (view s p).absent ≡ false → k.read_frame s (k.pte_at s p) ≡ k.content s p
    pub view-wrprotect :
        (s : S) (p q : ℕ)
        → view (k.ptep_set_wrprotect s p) q
          ≡ (if p == q then record (view s q) { writable = false } else view s q)
    pub view-mkwrite :
        (s : S) (p q : ℕ)
        → (view s p).absent ≡ false
        → view (k.set_pte_at s p (k.pte_mkwrite (k.pte_at s p))) q
          ≡ (if p == q then record (view s q) { writable = true } else view s q)
    pub view-flush : (s : S) (p q : ℕ) → view (k.flush_tlb_page s p) q ≡ view s q
    pub view-copy :
        (s : S) (p v q : ℕ)
        → (view s p).mapped ≡ true
        → view (k.copy_to_user s p v).0 q ≡ (
            if p == q
            then record { absent = false; writable = true; anon = true; bytes = v; mapped = true }
            else view s q)
    pub view-zap :
        (s : S) (p q : ℕ)
        → view (k.zap_page s p) q ≡ (
            if p == q
            then record (view s q) {
              absent = true;
              writable = false;
              anon = false;
              bytes = backing q;
            }
            else view s q)
    -- an entry that is none has no page and grants nothing
    pub absent_plain :
        (s : S) (p : ℕ)
        → (view s p).absent ≡ true
        → ((view s p).writable ≡ false) × ((view s p).anon ≡ false)
    -- an entry is reached through good levels
    pub levels_good :
        (s : S) (p : ℕ) (l : Level) → (view s p).absent ≡ false → k.entry_bad s l p ≡ false
    pub entry_mapped : (s : S) (p : ℕ) → (view s p).absent ≡ false → k.pte_offset_map s p ≡ true
