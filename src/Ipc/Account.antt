-- ===== src/Ipc/Account.antt =====
-- The statistics and the rate limit of a channel, first for its mailbox, then for the code.
use cellkernelqwen.Prelude.{
  ℕ, suc, ◌+◌, ◌^◌, ◌≤◌, ◌<◌, ◌≡◌, refl, ap, List, [], ◌∷◌, arith, length, length-append,
  if◌then◌else◌, add64,
}
use cellkernelqwen.Prelude.Status.{is_success}
use cellkernelqwen.Ipc.Channel.{Message, Channel, send, receive}
use cellkernelqwen.Ipc.Inv.{IsValid, IsReady}
use cellkernelqwen.Ipc.Spec
use cellkernelqwen.Ipc.Spec.{Mailbox, Op, sends, receives, limits, Reply}
use cellkernelqwen.Ipc.Refine.{view, run, send_refines, receive_refines, run_refines}

-- What was sent is what was received and what still waits, counted modulo 2^64.
pub record IsBalanced (b : Mailbox) : Type 0 where
  pub small : b.received < 2 ^ 64
  pub sum : b.sent ≡ add64 b.received (length b.queue)

post-IsBalanced :
    (now : ℕ) (b : Mailbox) (m : Message) → IsBalanced b → IsBalanced (Spec.post now b m).1
unfolding Spec.post Spec.renew Spec.put Spec.deliver
post-IsBalanced now b m h = ground (arith, length-append b.queue (m ∷ []))

take_from-IsBalanced :
    (b : Mailbox) (q : List Message)
    → q ≡ b.queue
    → IsBalanced b
    → IsBalanced (Spec.take_from b q).2
unfolding Spec.take_from
take_from-IsBalanced b [] e h = h
take_from-IsBalanced b (m ∷ rest) e h = ground arith

-- After every send and every receive of a well-formed channel, all of whose nodes were allocated,
-- the number of messages sent is the number received plus the number of slots in use, modulo 2^64,
-- if it was so before.
pub balance_kept :
    (now : ℕ) (m : Message) {c : Channel}
    → IsValid c
    → IsReady c
    → IsBalanced (view c)
    → IsBalanced (view (send now c m).1) × IsBalanced (view (receive c).2)
unfolding Spec.fetch
balance_kept now m {c} v r h = (
  rw (ap (λ p. p.1) (send_refines now m v r)) (post-IsBalanced now (view c) m h),
  rw (ap (λ p. p.2) (receive_refines v)) (take_from-IsBalanced (view c) (view c).queue refl h),
)

-- The sends among the calls that were answered with CK_SUCCESS.
abbrev pub accepted : List Op → List Reply → ℕ
accepted (sends now m ∷ ops) ((s, out) ∷ rs) =
    let rest = accepted ops rs in if is_success s then suc rest else rest
accepted (receives ∷ ops) (r ∷ rs) = accepted ops rs
accepted (limits n ∷ ops) rs = accepted ops rs
accepted _ _ = 0

-- Every send of the calls comes before the time `t`.
abbrev pub AllBefore : ℕ → List Op → Type 0
AllBefore t [] = Unit
AllBefore t (sends now m ∷ ops) = (now < t) × AllBefore t ops
AllBefore t (receives ∷ ops) = AllBefore t ops
AllBefore t (limits n ∷ ops) = AllBefore t ops

post_quota :
    (now : ℕ) (b : Mailbox) (m : Message)
    → now < b.reset_time
    → ((Spec.post now b m).1.reset_time ≡ b.reset_time)
      × ((Spec.post now b m).1.quota + (if is_success (Spec.post now b m).0 then 1 else 0)
          ≤ b.quota)
unfolding Spec.post Spec.renew Spec.put Spec.deliver
post_quota now b m h = ground arith

take_from_quota :
    (b : Mailbox) (q : List Message)
    → ((Spec.take_from b q).2.reset_time ≡ b.reset_time) × ((Spec.take_from b q).2.quota ≡ b.quota)
unfolding Spec.take_from
take_from_quota b [] = (refl, refl)
take_from_quota b (m ∷ rest) = (refl, refl)

accepted-le-quota :
    (ops : List Op) (b : Mailbox)
    → AllBefore b.reset_time ops
    → accepted ops (Spec.run b ops) ≤ b.quota
unfolding Spec.run Spec.fetch
accepted-le-quota [] b h = omega arith
accepted-le-quota (sends now m ∷ ops) b h =
    let (same, spent) = post_quota now b m h.0 in
    ground (arith, spent, accepted-le-quota ops (Spec.post now b m).1 (rw same h.1))
accepted-le-quota (receives ∷ ops) b h =
    let (same, kept) = take_from_quota b b.queue in
    omega (arith, kept, accepted-le-quota ops (Spec.take_from b b.queue).2 (rw same h))
accepted-le-quota (limits n ∷ ops) b h = accepted-le-quota ops (record b { limit = n }) h

-- The rate limit holds: however calls are ordered, while the time stays before the reset of the
-- quota no more sends succeed than the quota that remains. A change of the limit among the calls
-- does not raise it. The channel is well formed and all its nodes were allocated.
pub accepted-run-le :
    (ops : List Op) {c : Channel}
    → IsValid c
    → IsReady c
    → AllBefore c.quota_reset_time ops
    → accepted ops (run c ops) ≤ c.quota_remaining
accepted-run-le ops {c} v r h = rw (run_refines ops v r) (accepted-le-quota ops (view c) h)
