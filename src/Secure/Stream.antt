-- ===== src/Secure/Stream.antt =====
-- The streaming interface of boot/secure/verify_signature.c against one byte at a time: the buffer
-- holds the bytes since the last whole block, and a block is compressed when it is complete.
use cellkernelqwen.Prelude.{
  ℕ, zero, suc, ◌+◌, ◌*◌, ◌%◌, ◌^◌, ◌≤◌, ◌<◌, ◌≡◌, true, false, refl, sym, ap, ap₂, ◌∙◌, List, [],
  ◌∷◌, ◌++◌, append-nil, append_assoc, arith, length, length-append, length-set, set, take, add64,
  ◌==◌, if◌then◌else◌,
}
use cellkernelqwen.Secure.Sha512.{Hash, Context, index_of, transform, store_bytes}

pub record Stream : Type 0 where
  pub state : Hash
  pub count : ℕ
  pub pending : List ℕ

abbrev pub settle : Stream → Stream
settle s =
    if length s.pending == 128
    then record s { state = transform s.state s.pending; pending = [] }
    else s

unfoldable pub feed : Stream → ℕ → Stream
feed s x = settle (record s { count = add64 s.count 8; pending = s.pending ++ (x ∷ []) })

unfoldable pub feed_all : Stream → List ℕ → Stream
feed_all s [] = s
feed_all s (x ∷ xs) = feed_all (feed s x) xs

pub feed_all-append :
    (s : Stream) (xs ys : List ℕ) → feed_all s (xs ++ ys) ≡ feed_all (feed_all s xs) ys
unfolding feed_all
feed_all-append s [] ys = refl
feed_all-append s (x ∷ xs) ys = feed_all-append (feed s x) xs ys

-- What a context stands for: of the buffer, the bytes below the index.
abbrev pub view : Context → Stream
view ctx = record { state = ctx.state; count = ctx.count; pending = take (index_of ctx) ctx.buffer }

pub record IsValid (ctx : Context) : Type 0 where
  pub buffer_len : length ctx.buffer ≡ 128
  pub whole_bytes : ctx.count % 8 ≡ 0
  pub small : ctx.count < 2 ^ 64

count_step : (c n : ℕ) → add64 (add64 c 8) (n * 8) ≡ add64 c (suc n * 8)
count_step c n = omega arith

feed_waits :
    (s : Stream) (x : ℕ)
    → length s.pending + 1 < 128
    → feed s x ≡ record s { count = add64 s.count 8; pending = s.pending ++ (x ∷ []) }
unfolding feed
feed_waits s x h =
    let open_block : (length (s.pending ++ (x ∷ [])) == 128) ≡ false =
      ground (arith, length-append s.pending (x ∷ [])) in
    rw open_block

feed_settles :
    (s : Stream) (x : ℕ)
    → length s.pending + 1 ≡ 128
    → feed s x ≡ record s {
      state = transform s.state (s.pending ++ (x ∷ []));
      count = add64 s.count 8;
      pending = [];
    }
unfolding feed
feed_settles s x h =
    let complete : (length (s.pending ++ (x ∷ [])) == 128) ≡ true =
      ground (arith, length-append s.pending (x ∷ [])) in
    rw complete

-- Bytes that do not complete the block only wait.
pub feed_all_short :
    (xs : List ℕ) (s : Stream)
    → s.count < 2 ^ 64
    → length s.pending + length xs < 128
    → feed_all s xs ≡ record s { count = add64 s.count (length xs * 8); pending = s.pending ++ xs }
unfolding feed_all
feed_all_short [] s small h =
    ap₂ (λ c p. record s { count = c; pending = p }) (omega arith) (sym (append-nil s.pending))
feed_all_short (x ∷ xs) s small h =
    let s' : Stream = record s { count = add64 s.count 8; pending = s.pending ++ (x ∷ []) } in
    ap (λ t. feed_all t xs) (feed_waits s x (omega arith))
    ∙ feed_all_short xs s' (omega arith) (omega (arith, length-append s.pending (x ∷ [])))
    ∙ ap₂ (λ c p. record s { count = c; pending = p }) (count_step s.count (length xs))
        (append_assoc s.pending (x ∷ []) xs)

-- Bytes that just complete the block compress it.
pub feed_all_full :
    (xs : List ℕ) (s : Stream)
    → 0 < length xs
    → length s.pending + length xs ≡ 128
    → feed_all s xs ≡ record s {
      state = transform s.state (s.pending ++ xs);
      count = add64 s.count (length xs * 8);
      pending = [];
    }
unfolding feed_all
feed_all_full [] s pos h = absurd (omega arith)
feed_all_full (x ∷ []) s pos h = feed_settles s x h
feed_all_full (x ∷ y ∷ xs) s pos h =
    let s' : Stream = record s { count = add64 s.count 8; pending = s.pending ++ (x ∷ []) } in
    ap (λ t. feed_all t (y ∷ xs)) (feed_waits s x (omega arith))
    ∙ feed_all_full (y ∷ xs) s' (omega arith) (omega (arith, length-append s.pending (x ∷ [])))
    ∙ ap₂ (λ c p. record s { state = transform s.state p; count = c; pending = [] })
        (count_step s.count (length (y ∷ xs))) (append_assoc s.pending (x ∷ []) (y ∷ xs))

take-set :
    (buffer : List ℕ) (i x : ℕ)
    → i < length buffer
    → take (suc i) (set buffer i x) ≡ take i buffer ++ (x ∷ [])
take-set [] i x h = absurd (omega arith)
take-set (y ∷ ys) zero x h = refl
take-set (y ∷ ys) (suc i) x h = ap (λ r. y ∷ r) (take-set ys i x (omega arith))

pub length-store_bytes :
    (xs buffer : List ℕ) (i : ℕ) → length (store_bytes buffer i xs) ≡ length buffer
unfolding store_bytes
length-store_bytes [] buffer i = refl
length-store_bytes (x ∷ xs) buffer i =
    length-store_bytes xs (set buffer i x) (i + 1) ∙ length-set buffer i x

-- The first `i` bytes of a buffer into which bytes were copied.
pub take-store_bytes :
    (xs buffer : List ℕ) (i : ℕ)
    → i + length xs ≤ length buffer
    → take (i + length xs) (store_bytes buffer i xs) ≡ take i buffer ++ xs
unfolding store_bytes
take-store_bytes [] buffer i h =
    ap (λ j. take j buffer) (omega arith) ∙ sym (append-nil (take i buffer))
take-store_bytes (x ∷ xs) buffer i h =
    ap (λ n. take n (store_bytes (set buffer i x) (i + 1) xs)) (omega arith)
    ∙ take-store_bytes xs (set buffer i x) (i + 1) (omega (arith, length-set buffer i x))
    ∙ ap (λ p. p ++ xs)
        (ap (λ n. take n (set buffer i x)) {y = suc i} (omega arith)
          ∙ take-set buffer i x (omega arith))
    ∙ append_assoc (take i buffer) (x ∷ []) xs
