-- ===== src/SlabList/Kmalloc.antt =====
-- src/kmalloc.c, kmalloc_init: the first slab of the kernel's allocator.
use smor.Prelude.{
  ℕ, ◌+◌, ◌*◌, ◌/◌, ◌^◌, ◌≤◌, ◌<◌, ◌≡◌, ◌≢◌, refl, sym, subst, fun_ext, Bool-cases, inl, inr, true,
  ◌==◌, ==_refl, ne→==, [], ◌∷◌, has, update, done, arith, range_from,
}
use smor.Kernel.{BootInfo, kernel_base, kernel_slack_alloc}
use smor.Kernel.Slack.{IsReady, slack_alloc-Block}
use smor.Slab.{Slab, slab_layout, slab_is_reserved}
use smor.Slab.Shift.{ceil_pow2-pow}
use smor.Slab.Init.{slab_init-layout, layout-IsFree, layout_fields}
use smor.Dlist.{nowhere, slab_list_insert}
use smor.Dlist.Insert.{insert-Inserted}
use smor.SlabList.{
  SlabList, Heap, free_slabs, used_slabs, slab_list_init, slab_init_at, slab_list_reserve_on_slack,
  kmalloc_init, kmalloc_chunk_size,
}
use smor.SlabList.Valid.{IsSlab, IsSlabList}

-- the list of `kmalloc_init`, before it has a slab
abbrev pub root_list : SlabList
root_list = record { sl_owner = 0; size_shift = 21; chunk_shift = 14; flags = 0; lock = 0 }

abbrev pub with_root : (sl : ℕ) → Heap → Heap
with_root sl m = record m {
  links = record m.links {
    heads = update (update m.links.heads (free_slabs sl) 0) (used_slabs sl) 0;
  };
  lists = update m.lists sl root_list;
}

slab_list_init-root :
    (sl : ℕ) (m : Heap)
    → slab_list_init sl 0 (2 ^ 21) kmalloc_chunk_size m ≡ done (true, with_root sl m)
unfolding slab_list_init
slab_list_init-root sl m =
    rw (ceil_pow2-pow 21 (omega arith) (omega arith), ceil_pow2-pow 14 (omega arith) (omega arith))
      refl

-- the slab of 2M at `p`, of which 127 of the 128 chunks are free
abbrev pub root_slab : (ℕ → ℕ) → Slab
root_slab list = record (slab_layout 14 128 1 list) { flags = 1 }

root_slab-IsSlab :
    (at : ℕ) (list : ℕ → ℕ)
    → at + 2 ^ 21 ≤ 2 ^ 64
    → at / 2 ^ 21 * 2 ^ 21 ≡ at
    → IsSlab 21 (root_slab list) at (range_from 1 127)
root_slab-IsSlab at list low aligned =
    let w =
      layout-IsFree 14 128 1 list (omega arith) (omega arith) (omega arith) at low (omega arith)
        (omega arith) in
    let f = layout_fields 14 128 1 list (omega arith) (omega arith) in
    record {
      free = record {
        chain = w.chain;
        distinct = w.distinct;
        count = w.count;
        inside = w.inside;
        reserved = w.reserved;
        narrow = w.narrow;
        fits = w.fits;
        low = w.low;
      };
      aligned = aligned;
      room = rw (f.0, f.1) (omega arith);
    }

-- the heap with that slab at `at`, and `b` of the kernel's memory left
abbrev pub with_slab : (sl at : ℕ) → BootInfo → Heap → Heap
with_slab sl at b m =
    let l = m.links in
    let cleared = record l { next = update l.next at 0; prev = update l.prev at nowhere } in
    record m {
      links = slab_list_insert cleared (free_slabs sl) at;
      slabs = update m.slabs at (root_slab (m.slabs at).chunk_list);
      boot = b;
    }

set_twice {ℓ} :
    {A : Type ℓ} (f : ℕ → A) (a : ℕ) (x y : A) → update (update f a x) a y ≡ update f a y
set_twice f a x y =
    fun_ext (λ i. elim (Bool-cases (i == a)) [ inl e ↦ rw e refl | inr e ↦ rw e refl ])

reserve-slab :
    (fuel sl at : ℕ) (b : BootInfo) (m : Heap)
    → kernel_slack_alloc (2 ^ 21) (2 ^ 21) m.boot ≡ done (at, b)
    → at ≢ 0
    → slab_list_reserve_on_slack fuel sl (with_root sl m)
      ≡ done (true, with_slab sl at b (with_root sl m))
unfolding slab_list_reserve_on_slack slab_init_at slab_is_reserved
reserve-slab fuel sl at b m e ne =
    let list = (m.slabs at).chunk_list in
    let f = layout_fields 14 128 1 list (omega arith) (omega arith) in
    rw
      (
        ==_refl sl,
        e,
        ne→== at 0 ne,
        ==_refl sl,
        slab_init-layout (2 ^ 21) 14 list (omega arith) (omega arith) (omega arith),
        ==_refl at,
        f.2,
        set_twice m.slabs at (record (slab_layout 14 128 1 list) { flags = 0 }) (root_slab list),
      )
      refl

pub with_slab-IsSlabList :
    (sl at : ℕ) (b : BootInfo) (m : Heap)
    → at ≢ 0
    → at + 2 ^ 21 ≤ 2 ^ 64
    → at / 2 ^ 21 * 2 ^ 21 ≡ at
    → IsSlabList (with_slab sl at b (with_root sl m)) sl (at ∷ []) [] (λ _. range_from 1 127)
with_slab-IsSlabList sl at b m ne low aligned =
    let list = (m.slabs at).chunk_list in
    let l = (with_root sl m).links in
    let cleared = record l { next = update l.next at 0; prev = update l.prev at nowhere } in
    let i = insert-Inserted cleared (free_slabs sl) at [] ne (refl, tt) (ground arith) in
    let v = root_slab-IsSlab at list low aligned in
    let only : (s : ℕ) → has s (at ∷ []) ≡ true → s ≡ at = λ s h. ground (arith, h) in
    record {
      lists = record {
        first = i.0;
        second = i.1 (used_slabs sl) [] (omega arith) (λ a h. absurd (ground arith)) (ground arith);
        first_distinct = (refl, tt);
        second_distinct = tt;
        apart = λ a h. refl;
      };
      slab = λ s h.
          subst
            (λ x.
              IsSlab (update m.lists sl root_list sl).size_shift
                (update m.slabs at (root_slab list) x) x (range_from 1 127))
            (sym (only s (ground (arith, h)))) (rw (==_refl sl, ==_refl at) v);
      some_free = λ s h.
          subst (λ x. 0 < (update m.slabs at (root_slab list) x).num_free) (sym (only s h))
            (rw (==_refl at) (omega (arith, v.free.count)));
      none_free = λ s h. absurd (ground arith);
      unlocked = ground arith;
    }

-- what `kmalloc_init` makes of the list at `sl`: one reserved slab, at `at`, with 127 free chunks
abbrev pub Starts : (m m' : Heap) → (sl at : ℕ) → Type 0
Starts m m' sl at =
    IsSlabList m' sl (at ∷ []) [] (λ _. range_from 1 127)
    × ((m'.lists sl).sl_owner ≡ 0)
    × (kernel_base + m.boot.kernel_slack ≤ at)
    × IsReady m'.boot

-- While the kernel's memory has room for three more pages of 2M, `kmalloc_init` gives the allocator
-- one slab behind the kernel image, of whose 128 chunks all but the first are free, and its list is
-- well formed.
pub kmalloc_init-Starts :
    (fuel sl : ℕ) (m : Heap)
    → IsReady m.boot
    → m.boot.kernel_top + 2 ^ 21 + 2 ^ 21 + 2 ^ 21 ≤ 2 ^ 31
    → (m' : Heap) × (at : ℕ) × (kmalloc_init fuel sl m ≡ done m') × Starts m m' sl at
unfolding kmalloc_init
kmalloc_init-Starts fuel sl m v room =
    let (p, b, e, blk) = slack_alloc-Block (2 ^ 21) 21 v (omega arith) room in
    let at = kernel_base + p in
    (
      with_slab sl at b (with_root sl m),
      at,
      rw (slab_list_init-root sl m, reserve-slab fuel sl at b m e (omega arith)) refl,
      (
        with_slab-IsSlabList sl at b m (omega arith) (omega (arith, blk.near, v.inside))
            (omega (arith, blk.multiple)),
        rw (==_refl sl) refl,
        omega (arith, blk.above),
        blk.ready,
      ),
    )
