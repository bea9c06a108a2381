-- ===== src/Tpm/Device.antt =====
-- The register accesses of boot/secure/tpm_measure.c: polling, sending a command, reading a response.
use cellkernelqwen.Prelude.{
  ℕ, zero, suc, List, [], ◌∷◌, ◌++◌, Option, none, some, bit_and, ◌==◌, ltb, u8, length, drop,
  if◌then◌else◌, Bool, true, false,
}

abbrev pub tpm_access : ℕ
tpm_access = 0x00

abbrev pub tpm_sts : ℕ
tpm_sts = 0x18

abbrev pub tpm_fifo : ℕ
tpm_fifo = 0x24

abbrev pub timeout : ℕ
timeout = 1000000

-- A write to a register, the address relative to TPM_BASE_ADDR.
pub record Write : Type 0 where
  pub address : ℕ
  pub value : ℕ

-- How many registers were read, and the writes, the latest first.
pub record Bus : Type 0 where
  pub reads : ℕ
  pub writes : List Write

unfoldable pub tpm_write_register : ℕ → ℕ → Bus → Bus
tpm_write_register address value bus = record {
  reads = bus.reads;
  writes = record { address = address; value = value } ∷ bus.writes;
}

-- The device answers the read number `n` of a register with `device n address`.
abbrev pub Device : Type 0
Device = ℕ → ℕ → ℕ

unfoldable pub tpm_read_register : Device → ℕ → Bus → ℕ × Bus
tpm_read_register device address bus =
    (device bus.reads address, record { reads = suc bus.reads; writes = bus.writes })

-- The loop of `tpm_init`: `access` was read last.
unfoldable pub poll_access : Device → ℕ → ℕ × Bus → Bool × Bus
poll_access device zero (access, bus) = (false, bus)
poll_access device (suc n) (access, bus) =
    let rest = poll_access device n (tpm_read_register device tpm_access bus) in
    if bit_and access 0x10 == 0 then rest else (true, bus)

-- `true` for the result 0 and `false` for -1, here and below.
unfoldable pub tpm_init : Device → Bus → Bool × Bus
tpm_init device bus = poll_access device timeout (tpm_read_register device tpm_access bus)

unfoldable pub poll_status : Device → ℕ → Bus → Bool × Bus
poll_status device zero bus = (false, bus)
poll_status device (suc n) bus =
    let (status, after) = tpm_read_register device tpm_sts bus in
    let rest = poll_status device n after in
    if bit_and status 0x80 == 0 then rest else (true, after)

unfoldable pub tpm_wait_ready : Device → Bus → Bool × Bus
tpm_wait_ready device bus = poll_status device timeout bus

unfoldable pub write_bytes : List ℕ → Bus → Bus
write_bytes [] bus = bus
write_bytes (b ∷ bs) bus = write_bytes bs (tpm_write_register tpm_fifo b bus)

unfoldable pub read_bytes : Device → ℕ → Bus → List ℕ × Bus
read_bytes device zero bus = ([], bus)
read_bytes device (suc n) bus =
    let (b, after) = tpm_read_register device tpm_fifo bus in
    let (bs, last) = read_bytes device n after in (u8 b ∷ bs, last)

-- The response buffer keeps its old bytes beyond those that were read.
unfoldable pub read_response : Device → List ℕ → Bus → List ℕ × Bus
read_response device buffer bus =
    let (status, after) = tpm_read_register device tpm_sts bus in
    let available = bit_and status 0xFFFF in
    let count = if ltb (length buffer) available then length buffer else available in
    let (bytes, last) = read_bytes device count after in (bytes ++ drop count buffer, last)

unfoldable pub response_if : Device → List ℕ → Bool × Bus → Option (List ℕ) × Bus
response_if device buffer (false, bus) = (none, bus)
response_if device buffer (true, bus) =
    let (response, last) = read_response device buffer bus in (some response, last)

-- The response buffer after the call, or `none` for the result -1.
unfoldable pub tpm_send_command : Device → List ℕ → List ℕ → Bus → Option (List ℕ) × Bus
tpm_send_command device command buffer bus =
    response_if device buffer
      (tpm_wait_ready device (tpm_write_register tpm_sts 0x20 (write_bytes command bus)))
