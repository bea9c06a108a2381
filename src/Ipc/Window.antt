-- ===== src/Ipc/Window.antt =====
-- The slots between head and tail of a channel's ring, read as a list of messages.
use cellkernelqwen.Prelude.{
  ℕ, zero, suc, ◌+◌, ◌-◌, ◌%◌, ◌<◌, ◌≡◌, refl, ap, ap₂, Option, none, some, List, [], ◌∷◌, ◌++◌,
  ◌∙◌, arith, length, get_or, set, get_or-set_self, get_or-set_ne,
}
use cellkernelqwen.Ipc.Channel.{Message, Node, queue_size}
use cellkernelqwen.Ipc.Create.{zero_message}

abbrev pub message_of : Option Node → Message
message_of none = zero_message
message_of (some n) = n.message

-- How many slots are in use.
abbrev pub used : ℕ → ℕ → ℕ
used head tail = (tail + queue_size - head) % queue_size

module _ (nodes : List (Option Node)) where
  -- The `n` messages from slot `h` on.
  abbrev pub window : ℕ → ℕ → List Message
  window h zero = []
  window h (suc n) = message_of (get_or nodes h none) ∷ window ((h + 1) % queue_size) n

  pub length-window : (h n : ℕ) → length (window h n) ≡ n
  length-window h zero = refl
  length-window h (suc n) = ap suc (length-window ((h + 1) % queue_size) n)

  pub window_of_pos :
      (h n : ℕ)
      → 0 < n
      → window h n ≡ message_of (get_or nodes h none) ∷ window ((h + 1) % queue_size) (n - 1)
  window_of_pos h zero p = absurd (omega arith)
  window_of_pos h (suc n) p = ap (λ k. window h (suc k)) (omega arith)

-- A write to the slot just past a window makes it one message longer.
pub window-set :
    (nodes : List (Option Node)) (v : Option Node) (n h i : ℕ)
    → length nodes ≡ queue_size
    → h < queue_size
    → n < queue_size - 1
    → i ≡ (h + n) % queue_size
    → window (set nodes i v) h (suc n) ≡ window nodes h n ++ (message_of v ∷ [])
window-set nodes v zero h i hl hh hn e =
    let same : i ≡ h = omega arith in rw (same, get_or-set_self nodes h v none (omega arith))
window-set nodes v (suc n) h i hl hh hn e =
    ap₂ ◌∷◌ (ap message_of (get_or-set_ne nodes i h v none (omega arith)))
      (window-set nodes v n ((h + 1) % queue_size) i hl (omega arith) (omega arith) (omega arith))

-- A window grows at its end.
pub window_snoc :
    (nodes : List (Option Node)) (h n : ℕ)
    → h < queue_size
    → window nodes h (suc n)
      ≡ window nodes h n ++ (message_of (get_or nodes ((h + n) % queue_size) none) ∷ [])
window_snoc nodes h zero p = ap (λ i. message_of (get_or nodes i none) ∷ []) (omega arith)
window_snoc nodes h (suc n) p =
    ap (λ rest. message_of (get_or nodes h none) ∷ rest)
      (window_snoc nodes ((h + 1) % queue_size) n (omega arith)
        ∙ ap (λ i. window nodes ((h + 1) % queue_size) n ++ (message_of (get_or nodes i none) ∷ []))
            (omega arith))

-- A write to the slot just past a window leaves its messages.
pub window-set_past :
    (nodes : List (Option Node)) (v : Option Node) (n h i : ℕ)
    → h < queue_size
    → n < queue_size
    → i ≡ (h + n) % queue_size
    → window (set nodes i v) h n ≡ window nodes h n
window-set_past nodes v zero h i hh hn e = refl
window-set_past nodes v (suc n) h i hh hn e =
    ap₂ ◌∷◌ (ap message_of (get_or-set_ne nodes i h v none (omega arith)))
      (window-set_past nodes v n ((h + 1) % queue_size) i (omega arith) (omega arith) (omega arith))
