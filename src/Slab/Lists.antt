-- ===== src/Slab/Lists.antt =====
-- The lists of slabs of kernel/memory/slab.c: their links, and the search for an object.
use cellkernelqwen.Prelude.{
  ℕ, zero, suc, ◌+◌, ◌*◌, ◌^◌, Bool, true, false, ◌==◌, ◌&&◌, leb, ltb, if◌then◌else◌,
}
use cellkernelqwen.Slab.Cache.{Slab, Heap}

abbrev pub put_slab : ℕ → Slab → Heap → Heap
put_slab at slab heap a = if a == at then slab else heap a

abbrev pub with_links : ℕ → ℕ → Slab → Slab
with_links next prev b = record {
  cache = b.cache;
  magic = b.magic;
  inuse = b.inuse;
  total = b.total;
  freelist = b.freelist;
  objects = b.objects;
  next = next;
  prev = prev;
}

abbrev pub with_next : ℕ → Slab → Slab
with_next next b = with_links next b.prev b

abbrev pub with_prev : ℕ → Slab → Slab
with_prev prev b = with_links b.next prev b

abbrev pub with_objects : ℕ → ℕ → Slab → Slab
with_objects freelist inuse b = record {
  cache = b.cache;
  magic = b.magic;
  inuse = inuse;
  total = b.total;
  freelist = freelist;
  objects = b.objects;
  next = b.next;
  prev = b.prev;
}

-- Put a slab in front of a list; the new head is the slab.
unfoldable pub push : ℕ → ℕ → Heap → Heap
push slab head heap =
    let linked = put_slab slab (with_links head 0 (heap slab)) heap in
    if head == 0 then linked else put_slab head (with_prev slab (linked head)) linked

-- Take the first slab off a list whose next is known.
unfoldable pub drop_head : ℕ → Heap → Heap
drop_head next heap = if next == 0 then heap else put_slab next (with_prev 0 (heap next)) heap

-- Take a slab out of the partial list, with the new head of that list.
unfoldable pub unlink : ℕ → ℕ → Heap → ℕ × Heap
unlink slab head heap =
    let b = heap slab in
    let (front, passed) =
      if b.prev == 0
      then (b.next, heap)
      else (head, put_slab b.prev (with_next b.next (heap b.prev)) heap) in
    (
      front,
      if b.next == 0 then passed else put_slab b.next (with_prev b.prev (passed b.next)) passed,
    )

unfoldable pub contains : ℕ → ℕ → Slab → Bool
contains size obj b = leb b.objects obj && ltb obj (b.objects + b.total * size)

-- The first slab of a list that holds an object, 0 when none does.
unfoldable pub find_slab : ℕ → ℕ → ℕ → ℕ → Heap → ℕ
find_slab zero slab size obj heap = 0
find_slab (suc rounds) slab size obj heap = elim (slab == 0) [
  | true ↦ 0
  | false ↦ elim (contains size obj (heap slab)) [
    | true ↦ slab
    | false ↦ find_slab rounds (heap slab).next size obj heap
  ]
]

-- A list holds at most as many slabs as there are pages below 2^48.
abbrev pub max_slabs : ℕ
max_slabs = 2 ^ 36
