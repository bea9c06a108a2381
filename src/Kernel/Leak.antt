-- ===== src/Kernel/Leak.antt =====
-- `ipc_channel_create` and `ipc_channel_destroy` of kernel/ipc/message.c over kernel/memory/slab.c.
use mathlib.Core.Path.{subst}
use cellkernelqwen.Prelude.{
  ℕ, zero, suc, ◌+◌, ◌-◌, ◌^◌, ◌<◌, ◌≡◌, ◌≢◌, ◌⊎◌, inl, inr, refl, sym, ap, ◌∙◌, false, arith,
  Bool-cases, Option, none, some, List, [], ◌∷◌, ltb, u32, ◌==◌, if◌then◌else◌,
}
use cellkernelqwen.Prelude.Status.{pos}
use cellkernelqwen.Frames.Alloc.{alloc_pages}
use cellkernelqwen.Slab.Cache.{Cache, Heap, Slabs}
use cellkernelqwen.Slab.General.{kmalloc, kfree, order_for, order_from, take_pages}
use cellkernelqwen.Slab.Classes.{sizes, start_sizes}
use cellkernelqwen.Slab.Pages.{IsUnlisted, kfree-unlisted, kmalloc-take_pages}
use cellkernelqwen.Ipc.Channel.{Node, Channel, queue_size}
use cellkernelqwen.Ipc.Create.{
  Registry, channel_size, node_size, alloc_nodes, free_nodes, destroy, ipc_channel_create,
}
use cellkernelqwen.Ipc.Spec.{Op}
use cellkernelqwen.Ipc.Kept.{held, after, after-Kept}
use cellkernelqwen.Ipc.Lifetime.{create-some}
use cellkernelqwen.Kernel.NoMemory.{answer, slab_allocator}

-- Blocks of four pages.
order_for-channel_size : order_for channel_size ≡ some 2
unfolding order_for order_from
order_for-channel_size = refl

order_for-node_size : order_for node_size ≡ some 2
unfolding order_for order_from
order_for-node_size = refl

-- The state after a request for a block of four pages.
abbrev with_block : Slabs → Slabs
with_block s = record {
  caches = s.caches;
  heap = s.heap;
  frames = (alloc_pages 2 (pos 0) s.frames).1;
}

abbrev block : Slabs → Option ℕ
block s = let page = (alloc_pages 2 (pos 0) s.frames).0 in if page == 0 then none else some page

large :
    (size : ℕ) (s : Slabs)
    → sizes s.caches ≡ start_sizes
    → 2048 < size
    → order_for size ≡ some 2
    → answer (kmalloc size s) s ≡ (block s, with_block s)
unfolding take_pages
large size s e big found = ap (λ q. answer q s) (kmalloc-take_pages size 2 s e big found)

abbrev IsSame : Slabs → Slabs → Type 0
IsSame s s' = (s'.caches ≡ s.caches) × (s'.heap ≡ s.heap)

alloc_nodes-IsSame :
    (n : ℕ) (s : Slabs) → sizes s.caches ≡ start_sizes → IsSame s (alloc_nodes slab_allocator n s).1
unfolding alloc_nodes
alloc_nodes-IsSame zero s e = (refl, refl)
alloc_nodes-IsSame (suc n) s e =
    subst (λ (q : Option ℕ × Slabs). IsSame s (alloc_nodes slab_allocator n q.1).1)
      (sym (large node_size s e (omega arith) order_for-node_size))
      (alloc_nodes-IsSame n (with_block s) e)

free_nodes-unlisted :
    (nodes : List (Option Node)) (s : Slabs)
    → ((p : ℕ) → held nodes p ≢ 0 → IsUnlisted s.heap p s.caches)
    → free_nodes slab_allocator nodes s ≡ s
unfolding free_nodes
free_nodes-unlisted [] s h = refl
free_nodes-unlisted (none ∷ rest) s h = free_nodes-unlisted rest s h
free_nodes-unlisted (some n ∷ rest) s h =
    ap (free_nodes slab_allocator rest) (kfree-unlisted n.at s (h n.at (λ z. ground (arith, z))))
    ∙ free_nodes-unlisted rest s (λ p some_held. h p (λ z. some_held (omega (arith, z))))

destroy-unlisted :
    (c : Channel) (s : Slabs)
    → c.refcount ≡ 1
    → ((p : ℕ) → (p ≡ c.at) ⊎ (held c.nodes p ≢ 0) → IsUnlisted s.heap p s.caches)
    → destroy slab_allocator c s ≡ (none, s)
unfolding destroy
destroy-unlisted c s last h =
    let gone : ltb 0 (u32 (c.refcount + 2 ^ 32 - 1)) ≡ false = ground arith in
    rw gone (
      ap (λ (t : Slabs). (none, kfree c.at t))
        (free_nodes-unlisted c.nodes s (λ p some_held. h p (inr some_held)))
      ∙ ap (λ (t : Slabs). (none, t)) (kfree-unlisted c.at s (h c.at (inl refl))))

block-page : (s : Slabs) (q : ℕ) → block s ≡ some q → (alloc_pages 2 (pos 0) s.frames).0 ≡ q
block-page s q e = elim (Bool-cases ((alloc_pages 2 (pos 0) s.frames).0 == 0)) [
  | inl null ↦ cc (rw null at e)
  | inr real ↦ cc (rw real at e)
]

-- With the caches of slab_init_subsystem, when ipc_channel_create returns a channel, none of whose
-- blocks lies in a partial slab: the channel is a block of four pages from alloc_pages, the caches and
-- slabs are as before, and after any calls ipc_channel_destroy of its last reference changes nothing in
-- the allocators. The pages of the channel and its nodes stay taken.
pub destroy-after-create :
    (g : Registry) (sender receiver now : ℕ) (s : Slabs) (ops : List Op) (c : Channel)
    → sizes s.caches ≡ start_sizes
    → let made = ipc_channel_create slab_allocator g sender receiver now s in
      made.0 ≡ some c
      → ((p : ℕ) → (p ≡ c.at) ⊎ (held c.nodes p ≢ 0) → IsUnlisted s.heap p s.caches)
      → (c.at ≡ (alloc_pages 2 (pos 0) s.frames).0)
        × (made.2.caches ≡ s.caches)
        × (made.2.heap ≡ s.heap)
        × (destroy slab_allocator (after c ops) made.2 ≡ (none, made.2))
destroy-after-create g sender receiver now s ops c start e outside =
    let made = ipc_channel_create slab_allocator g sender receiver now s in
    let (q, s', got, is, heap) = create-some slab_allocator g sender receiver now s e in
    let request = sym got ∙ large channel_size s start (omega arith) order_for-channel_size in
    let next : s' ≡ with_block s = ap (λ (q : Option ℕ × Slabs). q.1) request in
    let same : IsSame s made.2 =
      subst (λ (t : Slabs). IsSame s t) (sym heap)
        (subst (λ (t : Slabs). IsSame s (alloc_nodes slab_allocator queue_size t).1) (sym next)
          (alloc_nodes-IsSame queue_size (with_block s) start)) in
    let k = after-Kept ops c in
    let at_page =
      ap (λ (d : Channel). d.at) is
      ∙ sym (block-page s q (sym (ap (λ (q : Option ℕ × Slabs). q.0) request))) in
    (
      at_page,
      same.0,
      same.1,
      destroy-unlisted (after c ops) made.2 (k.same_refcount ∙ ap (λ (d : Channel). d.refcount) is)
          (λ p within.
            subst (λ (t : Heap). IsUnlisted t p made.2.caches) (sym same.1)
              (subst (λ (t : List Cache). IsUnlisted s.heap p t) (sym same.0)
                (outside p (elim within [
                  | inl e ↦ inl (e ∙ k.same_at)
                  | inr some_held ↦ inr (λ z. some_held (k.same_held p ∙ z))
                ])))),
    )
