-- ===== src/Sched/Moves.antt =====
-- `sched_enqueue` and `sched_dequeue` of kernel/core/scheduling.c.
use mathlib.Core.Bool.{true≢false}
use cellkernelqwen.Prelude.{
  ℕ, ◌<◌, ◌≡◌, ◌≢◌, refl, sym, ap, ◌∙◌, inl, inr, Bool, true, false, ◌||◌, List, [], ◌∷◌, ◌++◌,
  Bool-cases, ◌==◌, eq→==, ne→==, ==→eq, ==→ne, if◌then◌else◌, add64, sub64,
}
use cellkernelqwen.Sched.Links.{Links, elem, remove, is_empty}
use cellkernelqwen.Sched.Queue.{
  Sched, State, is_ready, add_to_queue, sched_enqueue, take_from_queue, sched_dequeue,
}
use cellkernelqwen.Sched.Bitmap.{set_bit_lem, clear_bit_lem}
use cellkernelqwen.Sched.Pick.{filled, IsIndexed}

filled_append : (xs : List ℕ) (x : ℕ) → filled (xs ++ (x ∷ [])) ≡ 1
unfolding filled
filled_append [] x = refl
filled_append (y ∷ ys) x = refl

filled_elem : (xs : List ℕ) (x : ℕ) → elem x xs ≡ true → filled xs ≡ 1
unfolding filled elem
filled_elem [] x h = absurd (true≢false (sym h))
filled_elem (y ∷ ys) x h = refl

filled_empty : (xs : List ℕ) → filled xs ≡ (if is_empty xs then 0 else 1)
unfolding filled is_empty
filled_empty [] = refl
filled_empty (y ∷ ys) = refl

or-false : (a b : Bool) → (a || b) ≡ false → (a ≡ false) × (b ≡ false)
or-false true b h = absurd (true≢false h)
or-false false b h = (refl, h)

remove_absent : (n : ℕ) (xs : List ℕ) → elem n xs ≡ false → remove n xs ≡ xs
unfolding elem remove
remove_absent n [] h = refl
remove_absent n (x ∷ xs) h =
    let (other, rest) = or-false (n == x) (elem n xs) h in
    rw other (ap (λ t. x ∷ t) (remove_absent n xs rest))

pub elem-remove : (n : ℕ) (xs : List ℕ) → elem n (remove n xs) ≡ false
unfolding elem remove
elem-remove n [] = refl
elem-remove n (x ∷ xs) = elim (Bool-cases (n == x)) [
  | inl e ↦ rw e (elem-remove n xs)
  | inr e ↦ rw (e, e) (elem-remove n xs)
]

pub elem_append : (n : ℕ) (xs : List ℕ) → elem n (xs ++ (n ∷ [])) ≡ true
unfolding elem
elem_append n [] = rw (eq→== n n refl) refl
elem_append n (x ∷ xs) = elim (Bool-cases (n == x)) [
  | inl e ↦ rw e refl
  | inr e ↦ rw e (elem_append n xs)
]

module _ (L : Links) where
  abbrev priority_of : ℕ → Sched L → ℕ
  priority_of t s = (s.threads t).priority

  -- In the queue of its priority and in no other.
  abbrev pub IsQueued : ℕ → Sched L → Type 0
  IsQueued t s =
      (elem t (L.members (s.threads t).priority s.links) ≡ true)
      × ((q : ℕ) → q ≢ (s.threads t).priority → elem t (L.members q s.links) ≡ false)

  -- In no queue.
  abbrev pub IsLoose : ℕ → Sched L → Type 0
  IsLoose t s = (q : ℕ) → elem t (L.members q s.links) ≡ false

  add_to_queue-IsIndexed :
      (t : ℕ) (s : Sched L)
      → IsIndexed L s
      → (s.threads t).priority < 5
      → IsLoose t s
      → IsIndexed L (add_to_queue L t s)
  unfolding add_to_queue
  add_to_queue-IsIndexed t s (low, bits) h loose =
      let p = (s.threads t).priority in
      let (low', bits') = set_bit_lem p s.bitmap h low in
      (
        low',
        λ j short. bits' j short ∙ elim (Bool-cases (j == p)) [
          | inl e ↦
              rw (e, ==→eq j p e)
                (sym (
                  ap filled (L.add_members t p s.links loose)
                  ∙ filled_append (L.members p s.links) t))
          | inr e ↦
              rw e (bits j short ∙ sym (ap filled (L.add_other t p j s.links loose (==→ne j p e))))
        ],
      )

  take_from_queue-IsIndexed :
      (t : ℕ) (s : Sched L)
      → IsIndexed L s
      → (s.threads t).priority < 5
      → IsQueued t s
      → IsIndexed L (take_from_queue L t s)
  unfolding take_from_queue
  take_from_queue-IsIndexed t s (low, bits) h (here, elsewhere) =
      let p = (s.threads t).priority in
      let left = L.list_del t s.links in
      let (low', bits') = clear_bit_lem p s.bitmap h low in
      let other : (j : ℕ) → j ≢ p → L.members j left ≡ L.members j s.links =
        λ j ne. L.del_members t p j s.links here ∙ remove_absent t _ (elsewhere j ne) in
      let at_priority : (b : Bool)
          → L.list_empty p left ≡ b
          → filled (L.members p left) ≡ (if b then 0 else 1) =
        λ b e.
          filled_empty (L.members p left)
          ∙ ap (λ (t : Bool). if t then 0 else 1) (sym (L.empty_members p left) ∙ e) in
      elim (Bool-cases (L.list_empty p left)) [
        | inl e ↦ rw e (
          low',
          λ j short. bits' j short ∙ elim (Bool-cases (j == p)) [
            | inl same ↦ rw (same, ==→eq j p same) (sym (at_priority true e))
            | inr ne ↦ rw ne (bits j short ∙ sym (ap filled (other j (==→ne j p ne))))
          ],
        )
        | inr e ↦ rw e (
          low,
          λ j short. bits j short ∙ elim (Bool-cases (j == p)) [
            | inl same ↦ rw (==→eq j p same) (filled_elem _ t here ∙ sym (at_priority false e))
            | inr ne ↦ sym (ap filled (other j (==→ne j p ne)))
          ],
        )
      ]

  -- A ready thread that hangs in no queue is put at the end of the queue of its priority by
  -- sched_enqueue, nr_running grows by one, and the bitmap still has exactly the bits of the
  -- queues that are not empty. The priority is below 5.
  pub sched_enqueue_lem :
      (t : ℕ) (s : Sched L)
      → IsIndexed L s
      → t ≢ 0
      → (s.threads t).state ≡ State.ready
      → (s.threads t).priority < 5
      → IsLoose t s
      → let after = sched_enqueue L t s in
        IsIndexed L after
        × (L.members (s.threads t).priority after.links
            ≡ L.members (s.threads t).priority s.links ++ (t ∷ []))
        × ((q : ℕ) → q ≢ (s.threads t).priority → L.members q after.links ≡ L.members q s.links)
        × (after.nr_running ≡ add64 s.nr_running 1)
  unfolding sched_enqueue is_ready add_to_queue
  sched_enqueue_lem t s indexed real ready h loose =
      rw (ne→== t 0 real, ready)
        (
          add_to_queue-IsIndexed t s indexed h loose,
          L.add_members t (s.threads t).priority s.links loose,
          λ q ne. L.add_other t (s.threads t).priority q s.links loose ne,
          refl,
        )

  -- A thread that hangs in the queue of its priority and in no other is in none after
  -- sched_dequeue, the queues lose nothing else, nr_running falls by one, and the bitmap still has
  -- exactly the bits of the queues that are not empty. The priority is below 5.
  pub sched_dequeue_lem :
      (t : ℕ) (s : Sched L)
      → IsIndexed L s
      → t ≢ 0
      → (s.threads t).priority < 5
      → IsQueued t s
      → let after = sched_dequeue L t s in
        IsIndexed L after
        × IsLoose t after
        × ((q : ℕ) → L.members q after.links ≡ remove t (L.members q s.links))
        × (after.nr_running ≡ sub64 s.nr_running 1)
  unfolding sched_dequeue take_from_queue
  sched_dequeue_lem t s indexed real h (here, elsewhere) = rw (ne→== t 0 real) (
    take_from_queue-IsIndexed t s indexed h (here, elsewhere),
    λ q.
        ap (elem t) (L.del_members t (s.threads t).priority q s.links here)
        ∙ elem-remove t (L.members q s.links),
    λ q. L.del_members t (s.threads t).priority q s.links here,
    refl,
  )
