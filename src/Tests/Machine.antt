-- ===== src/Tests/Machine.antt =====
-- A machine that keeps the laws of `MmuLaws`: a state is what can be observed of each page, and an entry
-- is what can be observed of its page. Pages are backed by zeros.
use afl_snapshot_lkm.Base.{
  ℕ, ◌≡◌, refl, true, false, not, ◌&&◌, [], ◌∷◌, ◌==◌, if◌then◌else◌, update, arith,
}
use afl_snapshot_lkm.Mmu.{Mmu, MmuLaws, PageView, view}

abbrev pub Space : Type 0
Space = ℕ → PageView

abbrev pub machine : Mmu Space PageView
machine = record {
  pte_at = λ s p. s p;
  pte_none = λ v. v.absent;
  pte_write = λ v. v.writable && not v.absent;
  pte_mkwrite = λ v. record v { writable = true };
  page_anon = λ v. v.anon && not v.absent;
  entry_bad = λ s l p. false;
  pte_offset_map = λ s p. true;
  read_frame = λ s v. v.bytes;
  set_pte_at = λ s p v. update s p v;
  ptep_set_wrprotect = λ s p. update s p (record (s p) { writable = false });
  flush_tlb_page = λ s p. s;
  copy_to_user = λ s p v. (
    update s p (record { absent = false; writable = true; anon = true; bytes = v; mapped = true }),
    0,
  );
  zap_page =
      λ s p. update s p (record (s p) { absent = true; writable = false; anon = false; bytes = 0 });
  walk_page_range = λ s a b. if (s a).absent then [] else a ∷ [];
  content = λ s p. (s p).bytes;
  can_write = λ s p. (s p).mapped;
}

abbrev pub zeros : ℕ → ℕ
zeros p = 0

machine-wrprotect :
    (s : Space) (p q : ℕ)
    → view machine (machine.ptep_set_wrprotect s p) q
      ≡ (if p == q then record (view machine s q) { writable = false } else view machine s q)
machine-wrprotect s p q = ground arith

machine-mkwrite :
    (s : Space) (p q : ℕ)
    → (view machine s p).absent ≡ false
    → view machine (machine.set_pte_at s p (machine.pte_mkwrite (machine.pte_at s p))) q
      ≡ (if p == q then record (view machine s q) { writable = true } else view machine s q)
machine-mkwrite s p q h = ground arith

machine-copy :
    (s : Space) (p v q : ℕ)
    → (view machine s p).mapped ≡ true
    → view machine (machine.copy_to_user s p v).0 q ≡ (
        if p == q
        then record { absent = false; writable = true; anon = true; bytes = v; mapped = true }
        else view machine s q)
machine-copy s p v q h = ground arith

machine-zap :
    (s : Space) (p q : ℕ)
    → view machine (machine.zap_page s p) q ≡ (
        if p == q
        then record (view machine s q) { absent = true; writable = false; anon = false; bytes = 0 }
        else view machine s q)
machine-zap s p q = ground arith

machine-absent :
    (s : Space) (p : ℕ)
    → (view machine s p).absent ≡ true
    → ((view machine s p).writable ≡ false) × ((view machine s p).anon ≡ false)
machine-absent s p h = ground arith

pub machine_laws : MmuLaws machine zeros
machine_laws = record {
  read_frame-content = λ s p h. refl;
  view-wrprotect = machine-wrprotect;
  view-mkwrite = machine-mkwrite;
  view-flush = λ s p q. refl;
  view-copy = machine-copy;
  view-zap = machine-zap;
  absent_plain = machine-absent;
  levels_good = λ s p l h. refl;
  entry_mapped = λ s p h. refl;
}
