-- ===== src/Memory/Session/Pages.antt =====
-- What the events of a run may do to a page without losing what the snapshot of src/memory.c needs.
use afl_snapshot_lkm.Base.{◌&&◌, arith, none, some, refl, ℕ, ◌≡◌, Bool, true, false, Option, ◌∙◌}
use afl_snapshot_lkm.Page.{SnapshotPage}
use afl_snapshot_lkm.Mmu.{PageView}
use afl_snapshot_lkm.Memory.Invariant.{
  PageOk, untouched, lazy, saved, LazyPage-view, SavedPage-view,
}
use afl_snapshot_lkm.Memory.Session.{is_lazy, is_saved}
use afl_snapshot_lkm.Memory.Session.Hooked.{Recorded, IsFree-PageOk}

-- A page that may be written is not one whose bytes are still to be saved.
pub store-PageOk :
    (b c x : ℕ) (e : Option SnapshotPage) (v : PageView)
    → v.writable ≡ true
    → PageOk b c e v
    → PageOk b c e (record v { bytes = x })
store-PageOk b c x e v w (untouched z q a u y) = absurd (cc)
store-PageOk b c x e v w (lazy sp z q r) =
    lazy sp z q (LazyPage-view c sp v _ (λ h i. absurd (let u = i.1 in cc)) r)
store-PageOk b c x e v w (saved sp z r) =
    saved sp z (SavedPage-view c sp v _ (λ h i. absurd (let u = i.1 in cc)) r)

-- Nor is an absent one.
pub read-PageOk :
    (b c : ℕ) (e : Option SnapshotPage) (v : PageView)
    → v.absent ≡ true
    → PageOk b c e v
    → PageOk b c e (record v { absent = false })
read-PageOk b c e v w (untouched z q a u y) = untouched z q a u y
read-PageOk b c e v w (lazy sp z q r) = lazy sp z q (LazyPage-view c sp v _ (λ h i. i) r)
read-PageOk b c e v w (saved sp z r) =
    saved sp z (SavedPage-view c sp v _ (λ h i. absurd (let u = i.0 in cc)) r)

-- Nor is an anonymous one that is recorded if it had an entry.
pub reuse-PageOk :
    (b c : ℕ) (e : Option SnapshotPage) (v v' : PageView)
    → v.anon ≡ true
    → Recorded e
    → PageOk b c e v
    → PageOk b c e v'
reuse-PageOk b c e v v' w t (untouched z q a u y) = absurd (cc)
reuse-PageOk b c e v v' w t (lazy sp z q r) =
    lazy sp z q (LazyPage-view c sp v v' (λ h i. absurd (let u = i.0 in cc)) r)
reuse-PageOk b c e v v' w t (saved sp z r) =
    saved sp z (SavedPage-view c sp v v' (λ h i. absurd (let u = t sp z r.plain in cc)) r)

-- An unmapped page is recorded if it had an entry, and else untouched or to be dropped.
pub unmap-PageOk :
    (b c : ℕ) (e : Option SnapshotPage) (v v' : PageView)
    → v'.writable ≡ false
    → v'.anon ≡ false
    → (is_lazy e ≡ true → v.anon ≡ false → v'.bytes ≡ v.bytes)
    → Recorded e
    → PageOk b c e v
    → PageOk b c e v'
unmap-PageOk b c e v v' w a k t (untouched z q n u y) = untouched z q a w (k (rw z) n ∙ y)
unmap-PageOk b c e v v' w a k t (lazy sp z q r) =
    lazy sp z q (LazyPage-view c sp v v' (λ h i. (a, w, k (rw z r.flagged) i.0 ∙ i.2)) r)
unmap-PageOk b c e v v' w a k t (saved sp z r) =
    saved sp z (SavedPage-view c sp v v' (λ h i. absurd (let u = t sp z r.plain in cc)) r)

pub remap-PageOk :
    (b c : ℕ) (e : Option SnapshotPage) (v : PageView) (m w : Bool)
    → PageOk b c e v
    → PageOk b c e (record v { mapped = m; writable = v.writable && w })
remap-PageOk b c e v m w (untouched z q a u y) = untouched z q a (ground arith) y
remap-PageOk b c e v m w (lazy sp z q r) =
    lazy sp z q (LazyPage-view c sp v _ (λ h i. (i.0, let u = i.1 in ground arith, i.2)) r)
remap-PageOk b c e v m w (saved sp z r) =
    saved sp z (SavedPage-view c sp v _ (λ h i. (i.0, let u = i.1 in ground arith, i.2)) r)

-- A page whose bytes are saved may change.
pub saved-PageOk :
    (b c : ℕ) (e : Option SnapshotPage) (v v' : PageView)
    → is_saved e ≡ true
    → PageOk b c e v
    → PageOk b c e v'
saved-PageOk b c none v v' t o = absurd (cc)
saved-PageOk b c (some sp) v v' t o =
    IsFree-PageOk b c (some sp) v v' (sp, refl, (λ z. absurd (ground arith)), (λ z. ground arith)) o
