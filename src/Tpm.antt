-- ===== src/Tpm.antt =====
-- The TPM measurement of boot/secure/tpm_measure.c, in child modules.
mod Device
mod Commands
mod Missing
mod Tests
