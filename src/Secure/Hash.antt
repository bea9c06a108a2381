-- ===== src/Secure/Hash.antt =====
-- `compute_hash` of boot/secure/verify_signature.c: the message it compresses, block by block.
use cellkernelqwen.Prelude.{
  ℕ, ◌+◌, ◌-◌, ◌*◌, ◌%◌, ◌≤◌, ◌<◌, ◌≡◌, refl, sym, ap, ap₂, ◌∙◌, inl, inr, List, [], ◌∷◌, ◌++◌,
  arith, length, length-append, length-take, replicate, add64, Bool-cases, leb,
}
use cellkernelqwen.Secure.Sha512.{
  Context, index_of, sha512_init, sha512_update, update_full, padding, pad_len, word_bytes,
  hash_bytes, trailer, finish, sha512_final, compute_hash,
}
use cellkernelqwen.Secure.Stream.{Stream, feed_all, feed_all-append, view, IsValid}
use cellkernelqwen.Secure.Update.{update_refines, update-IsValid}

-- A stream at its start.
abbrev pub start : Stream
start = record {
  state =
      (sha512_init (record {
        state = record { a = 0; b = 0; c = 0; d = 0; e = 0; f = 0; g = 0; h = 0 };
        count = 0;
        buffer = [];
      })).state;
  count = 0;
  pending = [];
}

-- The number of bits counted when the padding was written.
abbrev pub counted_bits : List ℕ → ℕ
counted_bits bytes = add64 (add64 0 (length bytes * 8)) (pad_len (length bytes % 128) * 8)

-- What the code appends to a message.
abbrev pub tail_of : List ℕ → List ℕ
tail_of bytes =
    padding (pad_len (length bytes % 128)) ++ (word_bytes (counted_bits bytes) ++ replicate 8 0)

pub pad_len_bounds :
    (i : ℕ) → i < 128 → (0 < pad_len i) × (pad_len i ≤ 128) × ((i + pad_len i) % 128 ≡ 112)
pad_len_bounds i h = ground arith

pub length-padding : (n : ℕ) → n ≤ 128 → length (padding n) ≡ n
length-padding n h = omega (arith, length-take {A = ℕ} n (0x80 ∷ replicate 127 0))

count-update :
    (ctx : Context) (bytes : List ℕ)
    → (sha512_update ctx bytes).count ≡ add64 ctx.count (length bytes * 8)
unfolding sha512_update update_full
count-update ctx bytes = elim (Bool-cases (leb (128 - index_of ctx) (length bytes))) [
  | inl long ↦ rw long
  | inr short ↦ rw short
]

length-tail_of : (bytes : List ℕ) → (length bytes + length (tail_of bytes)) % 128 ≡ 0
unfolding word_bytes
length-tail_of bytes =
    let n = pad_len (length bytes % 128) in
    omega (
      arith,
      pad_len_bounds (length bytes % 128) (omega arith),
      length-padding n,
      length-append (padding n) (word_bytes (counted_bits bytes) ++ replicate 8 0),
    )

-- The padded message is made of whole blocks.
pub tail_of-whole : (bytes : List ℕ) → length (bytes ++ tail_of bytes) % 128 ≡ 0
tail_of-whole bytes = omega (arith, length-append bytes (tail_of bytes), length-tail_of bytes)

module _ (ctx : Context) (len : length ctx.buffer ≡ 128) (bytes : List ℕ) where
  init-IsValid : IsValid (sha512_init ctx)
  unfolding sha512_init
  init-IsValid = record { buffer_len = len; whole_bytes = refl; small = omega arith }

  view-init : view (sha512_init ctx) ≡ start
  unfolding sha512_init
  view-init = refl

  abbrev pub hashed : Context
  hashed = sha512_update (sha512_init ctx) bytes

  hashed-IsValid : IsValid hashed
  hashed-IsValid = update-IsValid (sha512_init ctx) init-IsValid bytes

  index_of-hashed : index_of hashed ≡ length bytes % 128
  unfolding sha512_init
  index_of-hashed = omega (arith, count-update (sha512_init ctx) bytes)

  abbrev padded : Context
  padded = sha512_update hashed (padding (pad_len (index_of hashed)))

  count-padded : padded.count ≡ counted_bits bytes
  unfolding sha512_init
  count-padded = ground (
    arith,
    count-update (sha512_init ctx) bytes,
    count-update hashed (padding (pad_len (index_of hashed))),
    index_of-hashed,
    pad_len_bounds (length bytes % 128) (omega arith),
    length-padding (pad_len (length bytes % 128)),
  )

  pub trailer-tail_of : (trailer hashed).0 ++ (trailer hashed).1 ≡ tail_of bytes
  unfolding trailer
  trailer-tail_of =
      ap₂ (λ (p q : List ℕ). p ++ q) (ap (λ i. padding (pad_len i)) index_of-hashed)
        (ap (λ c. word_bytes c ++ replicate 8 0) count-padded)

  pub view-finish : view (finish hashed) ≡ feed_all start (bytes ++ tail_of bytes)
  unfolding finish trailer
  view-finish =
      let pad = padding (pad_len (length bytes % 128)) in
      let last = word_bytes (counted_bits bytes) ++ replicate 8 0 in
      update_refines padded (update-IsValid hashed hashed-IsValid _) _
      ∙ ap₂ feed_all
          (update_refines hashed hashed-IsValid _
            ∙ ap₂ feed_all
                (update_refines (sha512_init ctx) init-IsValid bytes
                  ∙ ap (λ s. feed_all s bytes) view-init)
                (ap (λ i. padding (pad_len i)) index_of-hashed))
          (ap (λ c. word_bytes c ++ replicate 8 0) count-padded)
      ∙ sym (feed_all-append (feed_all start bytes) pad last)
      ∙ sym (feed_all-append start bytes (tail_of bytes))

  -- `compute_hash`, on any context whose buffer has 128 bytes, is the compression of the message
  -- and its tail from the initial state, in whole blocks: nothing is left over.
  pub compute_hash_lem :
      (compute_hash ctx bytes ≡ hash_bytes (feed_all start (bytes ++ tail_of bytes)).state)
      × (length (bytes ++ tail_of bytes) % 128 ≡ 0)
  unfolding compute_hash sha512_final
  compute_hash_lem = (ap (λ s. hash_bytes s.state) view-finish, tail_of-whole bytes)
