-- ===== src/Tpm/Tests.antt =====
-- The TPM code of boot/secure/tpm_measure.c on two devices.
use cellkernelqwen.Prelude.{
  ℕ, zero, suc, ◌+◌, ◌<◌, ◌≡◌, refl, arith, [], ◌∷◌, replicate, bit_and, ◌==◌, if◌then◌else◌,
}
use cellkernelqwen.Prelude.Status.{pos}
use cellkernelqwen.Tpm.Device.{Device, Bus, tpm_sts}
use cellkernelqwen.Tpm.Commands.{tpm_measure_image, read_command, word_bytes}
use cellkernelqwen.Tpm.Missing.{tpm_measure_image_missing}

abbrev start : Bus
start = record { reads = 0; writes = [] }

abbrev absent : Device
absent n address = 0

tpm_measure_image_missing_example :
    ((tpm_measure_image absent 0 0 (replicate 128 0) (1 ∷ 2 ∷ []) 11 start).0 ≡ pos 0)
    × ((tpm_measure_image absent 0 0 (replicate 128 0) (1 ∷ 2 ∷ []) 11 start).1.writes ≡ [])
tpm_measure_image_missing_example =
    tpm_measure_image_missing absent 0 0 (replicate 128 0) (1 ∷ 2 ∷ []) 11 start (λ i. refl)

-- Ready at the second read.
abbrev late : Device
late n address = if n == 0 then 0 else 0x80

late-busy : (j : ℕ) → j < 1 → bit_and (late (0 + j) tpm_sts) 0x80 ≡ 0
late-busy zero h = refl
late-busy (suc j) h = absurd (omega arith)

reads_register_11 :
    read_command 11
    ≡ 0x0F ∷ 0 ∷ 0x02 ∷ 0x80 ∷ 0x7E ∷ 0x01 ∷ 0 ∷ 0 ∷ 1 ∷ 0 ∷ 0 ∷ 0 ∷ 11 ∷ 0 ∷ 0 ∷ 0 ∷ []
unfolding read_command word_bytes
reads_register_11 = refl
