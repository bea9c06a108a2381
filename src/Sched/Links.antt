-- ===== src/Sched/Links.antt =====
-- The intrusive lists that kernel/core/scheduling.c calls: `list_init`, `list_add_tail`,
-- `list_del`, `list_empty` and `list_first_entry`. They are not defined in the repository.
use cellkernelqwen.Prelude.{
  ℕ, ◌≡◌, ◌≢◌, Bool, true, false, List, [], ◌∷◌, ◌++◌, ◌==◌, ◌||◌, if◌then◌else◌,
}

unfoldable pub elem : ℕ → List ℕ → Bool
elem n [] = false
elem n (x ∷ xs) = (n == x) || elem n xs

unfoldable pub remove : ℕ → List ℕ → List ℕ
remove n [] = []
remove n (x ∷ xs) = let rest = remove n xs in if n == x then rest else x ∷ rest

unfoldable pub is_empty : List ℕ → Bool
is_empty [] = true
is_empty (x ∷ xs) = false

-- The links of all queues and nodes, with the queues by number and the nodes by address, and the
-- nodes of a queue in order. A node that is added hangs in no queue, one that is deleted does.
pub record Links : Type 1 where
  pub Store : Type 0
  pub members : ℕ → Store → List ℕ
  pub list_init : ℕ → Store → Store
  pub list_add_tail : ℕ → ℕ → Store → Store
  pub list_del : ℕ → Store → Store
  pub list_empty : ℕ → Store → Bool
  pub list_first_entry : ℕ → Store → ℕ
  pub init_members : (q : ℕ) (s : Store) → members q (list_init q s) ≡ []
  pub init_other : (q p : ℕ) (s : Store) → p ≢ q → members p (list_init q s) ≡ members p s
  pub add_members :
      (n q : ℕ) (s : Store)
      → ((p : ℕ) → elem n (members p s) ≡ false)
      → members q (list_add_tail n q s) ≡ members q s ++ (n ∷ [])
  pub add_other :
      (n q p : ℕ) (s : Store)
      → ((p : ℕ) → elem n (members p s) ≡ false)
      → p ≢ q
      → members p (list_add_tail n q s) ≡ members p s
  pub del_members :
      (n q p : ℕ) (s : Store)
      → elem n (members q s) ≡ true
      → members p (list_del n s) ≡ remove n (members p s)
  pub empty_members : (q : ℕ) (s : Store) → list_empty q s ≡ is_empty (members q s)
  pub first_members :
      (q n : ℕ) (ns : List ℕ) (s : Store) → members q s ≡ n ∷ ns → list_first_entry q s ≡ n
