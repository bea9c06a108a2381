-- ===== src/Tpm/Commands.antt =====
-- The commands of boot/secure/tpm_measure.c.
use cellkernelqwen.Prelude.{
  ℕ, ◌+◌, ◌*◌, ◌/◌, ◌^◌, List, [], ◌∷◌, ◌++◌, Option, none, some, ◌==◌, ltb, u8, u32, get_or, take,
  drop, replicate, if◌then◌else◌, Bool, true, false,
}
use cellkernelqwen.Prelude.Status.{ℤ, pos, negsuc}
use cellkernelqwen.Tpm.Device.{Device, Bus, tpm_init, tpm_wait_ready, tpm_send_command}

abbrev pub digest_size : ℕ
digest_size = 32

-- A 32-bit word in memory, the lowest byte first.
unfoldable pub word_bytes : ℕ → List ℕ
word_bytes w = u8 w ∷ u8 (w / 2 ^ 8) ∷ u8 (w / 2 ^ 16) ∷ u8 (w / 2 ^ 24) ∷ []

unfoldable pub word_from : List ℕ → ℕ → ℕ
word_from buffer i =
    get_or buffer i 0
    + get_or buffer (i + 1) 0 * 2 ^ 8
    + get_or buffer (i + 2) 0 * 2 ^ 16
    + get_or buffer (i + 3) 0 * 2 ^ 24

-- A placeholder in the source too.
unfoldable pub sha256_compute : List ℕ → List ℕ
sha256_compute image = replicate digest_size 0

-- `tpm_pcr_extend_cmd_t`, with the two bytes of padding after the tag as the stack holds them.
unfoldable pub extend_command : ℕ → ℕ → ℕ → List ℕ → List ℕ
extend_command pad1 pad2 pcr_index digest =
    0x02
    ∷ 0x80
    ∷ pad1
    ∷ pad2
    ∷ (word_bytes 48 ++ (word_bytes 0x182 ++ (word_bytes pcr_index ++ digest)))

-- 0 when the response begins with TPM_RC_SUCCESS, otherwise -1.
unfoldable pub result_of : Option (List ℕ) × Bus → ℤ × Bus
result_of (none, bus) = (negsuc 0, bus)
result_of (some response, bus) = if word_from response 0 == 0 then (pos 0, bus) else (negsuc 0, bus)

unfoldable pub extend_if : Device → List ℕ → List ℕ → Bool × Bus → ℤ × Bus
extend_if device command buffer (false, bus) = (negsuc 0, bus)
extend_if device command buffer (true, bus) = result_of (tpm_send_command device command buffer bus)

-- `buffer` is what the stack holds in the response buffer of 128 bytes.
unfoldable pub tpm_pcr_extend_internal : Device → ℕ → ℕ → List ℕ → ℕ → List ℕ → Bus → ℤ × Bus
tpm_pcr_extend_internal device pad1 pad2 buffer pcr_index digest bus =
    extend_if device (extend_command pad1 pad2 pcr_index digest) buffer (tpm_wait_ready device bus)

-- An image is its bytes, none for NULL or for the size 0.
unfoldable pub image_digest : List ℕ → List ℕ
image_digest [] = replicate digest_size 0
image_digest (b ∷ bs) = sha256_compute (b ∷ bs)

unfoldable pub measure_if : Device → ℕ → ℕ → List ℕ → ℕ → List ℕ → Bool × Bus → ℤ × Bus
measure_if device pad1 pad2 buffer pcr_index digest (false, bus) = (pos 0, bus)
measure_if device pad1 pad2 buffer pcr_index digest (true, bus) =
    tpm_pcr_extend_internal device pad1 pad2 buffer pcr_index digest bus

unfoldable pub tpm_measure_image : Device → ℕ → ℕ → List ℕ → List ℕ → ℕ → Bus → ℤ × Bus
tpm_measure_image device pad1 pad2 buffer image pcr_index bus =
    measure_if device pad1 pad2 buffer (u32 pcr_index) (image_digest image) (tpm_init device bus)

-- A digest that was read, with the 32 bytes from byte 16 of the response on.
unfoldable pub digest_of : Option (List ℕ) × Bus → Option (List ℕ) × Bus
digest_of (none, bus) = (none, bus)
digest_of (some response, bus) =
    if word_from response 0 == 0
    then (some (take digest_size (drop 16 response)), bus)
    else (none, bus)

unfoldable pub read_command : ℕ → List ℕ
read_command pcr_index =
    word_bytes 0x8002000F ++ (word_bytes 0x17E ++ (word_bytes 1 ++ word_bytes (u32 pcr_index)))

unfoldable pub pcr_read_if : Device → List ℕ → List ℕ → Bool × Bus → Option (List ℕ) × Bus
pcr_read_if device command buffer (false, bus) = (none, bus)
pcr_read_if device command buffer (true, bus) =
    digest_of (tpm_send_command device command buffer bus)

-- The digest, or `none` for the result -1; the caller's pointers are not NULL.
unfoldable pub tpm_pcr_read : Device → List ℕ → ℕ → Bus → Option (List ℕ) × Bus
tpm_pcr_read device buffer pcr_index bus =
    pcr_read_if device (read_command pcr_index) buffer (tpm_wait_ready device bus)

unfoldable pub random_of : ℕ → Option (List ℕ) × Bus → Option (List ℕ) × Bus
random_of size (none, bus) = (none, bus)
random_of size (some response, bus) =
    let actual = word_from response 8 in
    let count = if ltb size actual then size else actual in
    if word_from response 0 == 0 then (some (take count (drop 12 response)), bus) else (none, bus)

unfoldable pub random_command : ℕ → List ℕ
random_command size = word_bytes 0x8002000A ++ (word_bytes 0x17B ++ word_bytes size)

unfoldable pub random_if : Device → ℕ → List ℕ → Bool × Bus → Option (List ℕ) × Bus
random_if device size buffer (false, bus) = (none, bus)
random_if device size buffer (true, bus) =
    random_of size (tpm_send_command device (random_command size) buffer bus)

-- The bytes, as many as the result says, or `none` for -1, for sizes that stay inside the response
-- buffer of 256 bytes.
unfoldable pub tpm_get_random : Device → List ℕ → ℕ → Bus → Option (List ℕ) × Bus
tpm_get_random device buffer size bus = random_if device size buffer (tpm_wait_ready device bus)
