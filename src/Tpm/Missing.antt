-- ===== src/Tpm/Missing.antt =====
-- What boot/secure/tpm_measure.c does without a TPM, and how it waits for one.
use cellkernelqwen.Prelude.{
  ℕ, zero, suc, ◌+◌, ◌<◌, ◌≡◌, ◌≢◌, refl, ap, ◌∙◌, arith, List, Bool, true, false, bit_and, eq→==,
  ne→==, u32,
}
use mathlib.Core.Bool.{true≢false}
use cellkernelqwen.Prelude.Status.{pos}
use cellkernelqwen.Tpm.Device.{
  Device, Bus, Write, poll_access, tpm_init, poll_status, tpm_wait_ready, tpm_read_register,
  tpm_access, tpm_sts, timeout,
}
use cellkernelqwen.Tpm.Commands.{measure_if, tpm_measure_image, image_digest}

poll_access_never :
    (device : Device) (n access : ℕ) (bus : Bus)
    → ((i : ℕ) → bit_and (device i tpm_access) 0x10 ≡ 0)
    → bit_and access 0x10 ≡ 0
    → ((poll_access device n (access, bus)).0 ≡ false)
      × ((poll_access device n (access, bus)).1.writes ≡ bus.writes)
unfolding poll_access tpm_read_register
poll_access_never device zero access bus h e = (refl, refl)
poll_access_never device (suc n) access bus h e = rw (eq→== (bit_and access 0x10) 0 e) (
    poll_access_never device n (device bus.reads tpm_access)
      (record { reads = suc bus.reads; writes = bus.writes }) h (h bus.reads))

measure_if-false :
    (device : Device) (pad1 pad2 : ℕ) (buffer : List ℕ) (pcr_index : ℕ) (digest : List ℕ)
    (r : Bool × Bus)
    → r.0 ≡ false
    → measure_if device pad1 pad2 buffer pcr_index digest r ≡ (pos 0, r.1)
unfolding measure_if
measure_if-false device pad1 pad2 buffer pcr_index digest (false, bus) e = refl
measure_if-false device pad1 pad2 buffer pcr_index digest (true, bus) e = absurd (true≢false e)

-- When the active-locality bit of the ACCESS register never reads as 1, tpm_measure_image returns
-- 0, as after a measurement, and writes no register.
pub tpm_measure_image_missing :
    (device : Device) (pad1 pad2 : ℕ) (buffer image : List ℕ) (pcr_index : ℕ) (bus : Bus)
    → ((i : ℕ) → bit_and (device i tpm_access) 0x10 ≡ 0)
    → let r = tpm_measure_image device pad1 pad2 buffer image pcr_index bus in
      (r.0 ≡ pos 0) × (r.1.writes ≡ bus.writes)
unfolding tpm_measure_image tpm_init tpm_read_register
tpm_measure_image_missing device pad1 pad2 buffer image pcr_index bus h =
    let (failed, quiet) =
      poll_access_never device timeout (device bus.reads tpm_access)
        (record { reads = suc bus.reads; writes = bus.writes }) h (h bus.reads) in
    let result =
      measure_if-false device pad1 pad2 buffer (u32 pcr_index) (image_digest image)
        (poll_access device timeout
          (device bus.reads tpm_access, record { reads = suc bus.reads; writes = bus.writes }))
        failed in
    (ap (λ r. r.0) result, ap (λ r. r.1.writes) result ∙ quiet)

abbrev valid_bit : Device → ℕ → ℕ
valid_bit device n = bit_and (device n tpm_sts) 0x80

abbrev ready_after : List Write → ℕ → Bool × Bus
ready_after writes reads = (true, record { reads = reads; writes = writes })

poll_status_first :
    (device : Device) (n i : ℕ) (bus : Bus)
    → i < n
    → ((j : ℕ) → j < i → bit_and (device (bus.reads + j) tpm_sts) 0x80 ≡ 0)
    → bit_and (device (bus.reads + i) tpm_sts) 0x80 ≢ 0
    → poll_status device n bus ≡ (true, record { reads = bus.reads + suc i; writes = bus.writes })
unfolding poll_status tpm_read_register
poll_status_first device zero i bus h before ready = absurd (omega arith)
poll_status_first device (suc n) zero bus h before ready =
    rw
      (ne→== (valid_bit device bus.reads) 0
        (λ e. ready (ap (valid_bit device) {x = bus.reads + 0} {y = bus.reads} (omega arith) ∙ e)))
      (ap (ready_after bus.writes) (omega arith))
poll_status_first device (suc n) (suc i) bus h before ready =
    rw
      (eq→== (valid_bit device bus.reads) 0 (
        ap (valid_bit device) {x = bus.reads} {y = bus.reads + 0} (omega arith)
        ∙ before 0 (omega arith)))
      (poll_status_first device n i (record { reads = suc bus.reads; writes = bus.writes })
          (omega arith)
          (λ j k.
            ap (valid_bit device) {x = suc bus.reads + j} {y = bus.reads + suc j} (omega arith)
            ∙ before (suc j) (omega arith))
          (λ e. ready (
            ap (valid_bit device) {x = bus.reads + suc i} {y = suc bus.reads + i} (omega arith)
            ∙ e))
        ∙ ap (ready_after bus.writes) (omega arith))

-- tpm_wait_ready succeeds with the first of a million reads of the status register that has the
-- valid bit, after exactly that many reads and no write.
pub tpm_wait_ready_first :
    (device : Device) (i : ℕ) (bus : Bus)
    → i < timeout
    → ((j : ℕ) → j < i → bit_and (device (bus.reads + j) tpm_sts) 0x80 ≡ 0)
    → bit_and (device (bus.reads + i) tpm_sts) 0x80 ≢ 0
    → tpm_wait_ready device bus ≡ (true, record { reads = bus.reads + suc i; writes = bus.writes })
unfolding tpm_wait_ready
tpm_wait_ready_first device i bus h before ready =
    poll_status_first device timeout i bus h before ready
