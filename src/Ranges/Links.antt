-- ===== src/Ranges/Links.antt =====
-- The nodes and links behind the blocklist and the allowlist: the calls of `list_add` in
-- `exclude_vmrange` and `include_vmrange` of src/memory.c. The kernel's list functions are
-- parameters; a `list_head` is named by its address.
use afl_snapshot_lkm.Base.{
  ℕ, ◌≡◌, ◌≢◌, List, [], ◌∷◌, map, if◌then◌else◌, ◌==◌, update, eq_refl, eq_false, sym, ◌∙◌,
}
use afl_snapshot_lkm.Task.{Vmrange, TaskData}
use afl_snapshot_lkm.Ranges.{exclude_range, include_range}

-- `include/linux/list.h`, as far as the module uses it here: `next` reads a link.
pub record ListOps (L : Type 0) : Type 0 where
  pub next : L → ℕ → ℕ
  pub init_list_head : L → ℕ → L
  pub list_add : L → ℕ → ℕ → L
  pub list_del : L → ℕ → L

-- Its documentation: INIT_LIST_HEAD makes a node point to itself, `list_add(new, head)` inserts the
-- entry `new` after `head`, and `list_del` changes no links but that of the entry and the one to it.
pub record ListLaws {L : Type 0} (k : ListOps L) : Type 0 where
  pub next-init_list_head :
      (l : L) (n q : ℕ) → k.next (k.init_list_head l n) q ≡ (if n == q then n else k.next l q)
  pub next-list_add :
      (l : L) (new head q : ℕ)
      → new ≢ head
      → k.next (k.list_add l new head) q
        ≡ (if head == q then new else if new == q then k.next l head else k.next l q)
  pub next-list_del :
      (l : L) (n q : ℕ) → q ≢ n → k.next l q ≢ n → k.next (k.list_del l n) q ≡ k.next l q

-- The links and the ranges that the nodes hold.
pub record Nodes (L : Type 0) : Type 0 where
  pub links : L
  pub range : ℕ → Vmrange

-- The nodes that `list_for_each_entry` visits from `cur` on, in order, in a list at `head`.
pub data Entries (next : ℕ → ℕ) (head : ℕ) : ℕ → List ℕ → Type 0 where
  stop : Entries next head head []
  visit :
      {cur : ℕ} {ns : List ℕ}
      → cur ≢ head
      → Entries next head (next cur) ns
      → Entries next head cur (cur ∷ ns)

module _ {L : Type 0} (k : ListOps L) where
  -- From `n->start = start` on, in `exclude_vmrange` with the blocklist's address for `list` and in
  -- `include_vmrange` with the allowlist's; `n` is the address of the new node.
  pub list_with : Nodes L → ℕ → ℕ → ℕ → ℕ → Nodes L
  list_with h list n start end = record {
    links = k.list_add (k.init_list_head h.links n) list n;
    range = update h.range n (record { start = start; end = end });
  }

  -- `list_for_each_entry` over the list at `list` visits the ranges `rs`.
  pub Holds : Nodes L → ℕ → List Vmrange → Type 0
  Holds h list rs =
      (ns : List ℕ) × Entries (k.next h.links) list (k.next h.links list) ns × (map h.range ns ≡ rs)

  module _ (laws : ListLaws k) where
    -- Whatever the list held before, after `exclude_vmrange` or `include_vmrange`, which pass the list
    -- as the new entry, it holds the new range alone, as `exclude_range` and `include_range` have it,
    -- if the new node is not the head of the list.
    pub list_with-Holds :
        (h : Nodes L) (list n start end : ℕ) (d : TaskData)
        → n ≢ list
        → Holds (list_with h list n start end) list (exclude_range d start end).blocklist
          × Holds (list_with h list n start end) list (include_range d start end).allowlist
    unfolding list_with Holds
    list_with-Holds h list n start end d ne = (holds, holds)
      where
        l : L
        l = k.list_add (k.init_list_head h.links n) list n

        to_node : k.next l list ≡ n
        to_node =
            laws.next-list_add (k.init_list_head h.links n) list n list (λ e. ne (sym e))
            ∙ rw (eq_false n list ne, eq_refl list)
                (laws.next-init_list_head h.links n n ∙ rw (eq_refl n))

        to_list : k.next l n ≡ list
        to_list =
            laws.next-list_add (k.init_list_head h.links n) list n n (λ e. ne (sym e))
            ∙ rw (eq_refl n)

        holds :
            (ns : List ℕ) × Entries (k.next l) list (k.next l list) ns
            × (map (update h.range n (record { start = start; end = end })) ns
                ≡ record { start = start; end = end } ∷ [])
        holds = (n ∷ [], rw to_node (visit ne (rw to_list stop)), rw (eq_refl n))
