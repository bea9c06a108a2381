-- ===== src/Ipc/Kept.antt =====
-- What no send or receive changes: the addresses of a channel and its nodes, and its references.
use cellkernelqwen.Prelude.{
  ℕ, zero, suc, ◌+◌, ◌-◌, ◌≡◌, refl, inl, inr, none, some, Option, List, [], ◌∷◌, arith, ◌==◌,
  if◌then◌else◌, ◌∙◌, get_or, set, u32, leb, Bool-cases,
}
use cellkernelqwen.Ipc.Channel.{
  Message, Node, Channel, magic, next_index, node_at, refresh_quota, store_message, enqueue,
  spend_quota, send, load_message, receive,
}
use cellkernelqwen.Ipc.Spec.{Op, sends, receives, limits}

-- How many of the nodes lie at the address `p`.
abbrev pub held : List (Option Node) → ℕ → ℕ
held [] p = 0
held (none ∷ rest) p = held rest p
held (some n ∷ rest) p = held rest p + (if n.at == p then 1 else 0)

pub record Kept (c d : Channel) : Type 0 where
  pub same_at : d.at ≡ c.at
  pub same_refcount : d.refcount ≡ c.refcount
  pub same_held : (p : ℕ) → held d.nodes p ≡ held c.nodes p

Kept-refl :
    {c d : Channel} → (d.at ≡ c.at) × (d.refcount ≡ c.refcount) × (d.nodes ≡ c.nodes) → Kept c d
Kept-refl (ea, er, en) = record { same_at = ea; same_refcount = er; same_held = λ p. rw en }

Kept-trans : {c d e : Channel} → Kept c d → Kept d e → Kept c e
Kept-trans h k = record {
  same_at = k.same_at ∙ h.same_at;
  same_refcount = k.same_refcount ∙ h.same_refcount;
  same_held = λ p. k.same_held p ∙ h.same_held p;
}

held-set :
    (nodes : List (Option Node)) (i p : ℕ) (n n' : Node)
    → get_or nodes i none ≡ some n
    → n'.at ≡ n.at
    → held (set nodes i (some n')) p ≡ held nodes p
held-set [] i p n n' e same = cc
held-set (none ∷ rest) zero p n n' e same = cc
held-set (some o ∷ rest) zero p n n' e same = ground arith
held-set (none ∷ rest) (suc i) p n n' e same = held-set rest i p n n' e same
held-set (some o ∷ rest) (suc i) p n n' e same = omega (arith, held-set rest i p n n' e same)

module _ (now : ℕ) (m : Message) where
  store_message-Kept :
      {c : Channel} (o : Option Node)
      → node_at c.nodes c.tail ≡ o
      → Kept c (store_message now c m o).1
  unfolding store_message
  store_message-Kept none e = Kept-refl (refl, refl, refl)
  store_message-Kept {c} (some n) e = elim (Bool-cases (n.mark == magic)) [
    | inl hit ↦ rw hit (record {
      same_at = refl;
      same_refcount = refl;
      same_held =
          λ p. held-set c.nodes (u32 c.tail) p n (record n { message = m; timestamp = now }) e refl;
    })
    | inr miss ↦ rw miss (Kept-refl (refl, refl, refl))
  ]

  enqueue-Kept : (c : Channel) → Kept c (enqueue now c m).1
  unfolding enqueue
  enqueue-Kept c = elim (Bool-cases (next_index c.tail == c.head)) [
    | inl full ↦ rw full (Kept-refl (refl, refl, refl))
    | inr room ↦ rw room (store_message-Kept (node_at c.nodes c.tail) refl)
  ]

  spend_quota-Kept : (c : Channel) → Kept c (spend_quota now c m).1
  unfolding spend_quota
  spend_quota-Kept c = elim (Bool-cases (c.quota_remaining == 0)) [
    | inl spent ↦ rw spent (Kept-refl (refl, refl, refl))
    | inr left ↦ rw left (
        Kept-trans (Kept-refl (refl, refl, refl))
          (enqueue-Kept (record c { quota_remaining = c.quota_remaining - 1 })))
  ]

  refresh_quota-Kept : (c : Channel) → Kept c (refresh_quota now c)
  unfolding refresh_quota
  refresh_quota-Kept c = elim (Bool-cases (leb c.quota_reset_time now)) [
    | inl over ↦ rw over (Kept-refl (refl, refl, refl))
    | inr within ↦ rw within (Kept-refl (refl, refl, refl))
  ]

  pub send-Kept : (c : Channel) → Kept c (send now c m).1
  unfolding send
  send-Kept c = Kept-trans (refresh_quota-Kept c) (spend_quota-Kept (refresh_quota now c))

load_message-Kept : (c : Channel) (o : Option Node) → Kept c (load_message c o).2
unfolding load_message
load_message-Kept c none = Kept-refl (refl, refl, refl)
load_message-Kept c (some n) = elim (Bool-cases (n.mark == magic)) [
  | inl hit ↦ rw hit (Kept-refl (refl, refl, refl))
  | inr miss ↦ rw miss (Kept-refl (refl, refl, refl))
]

pub receive-Kept : (c : Channel) → Kept c (receive c).2
unfolding receive
receive-Kept c = elim (Bool-cases (u32 c.head == u32 c.tail)) [
  | inl empty ↦ rw empty (Kept-refl (refl, refl, refl))
  | inr more ↦ rw more (load_message-Kept c (node_at c.nodes c.head))
]

-- The channel after a client's calls.
unfoldable pub after : Channel → List Op → Channel
after c [] = c
after c (sends now m ∷ ops) = after (send now c m).1 ops
after c (receives ∷ ops) = after (receive c).2 ops
after c (limits n ∷ ops) = after (record c { rate_limit = n }) ops

pub after-Kept : (ops : List Op) (c : Channel) → Kept c (after c ops)
unfolding after
after-Kept [] c = Kept-refl (refl, refl, refl)
after-Kept (sends now m ∷ ops) c = Kept-trans (send-Kept now m c) (after-Kept ops (send now c m).1)
after-Kept (receives ∷ ops) c = Kept-trans (receive-Kept c) (after-Kept ops (receive c).2)
after-Kept (limits n ∷ ops) c =
    Kept-trans (Kept-refl (refl, refl, refl)) (after-Kept ops (record c { rate_limit = n }))
