-- ===== src/Memory/Session/Noted.antt =====
-- The list of dirty pages in the course of a run: src/memory.c.
use afl_snapshot_lkm.Base.{ℕ, ◌≡◌, Bool, true, ◌⊎◌}
use afl_snapshot_lkm.Mmu.{Mmu, PageView}

-- What the list knows of a page: it is there if the page may be written or has other bytes.
abbrev pub Noted : ℕ → PageView → Bool → Type 0
Noted c v listed = ((v.bytes ≡ c) ⊎ (listed ≡ true)) × (v.writable ≡ true → listed ≡ true)
