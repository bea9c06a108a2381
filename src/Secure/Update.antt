-- ===== src/Secure/Update.antt =====
-- `sha512_update` is one byte at a time, and so does not depend on how its input is cut.
use cellkernelqwen.Prelude.{
  ℕ, zero, suc, ◌+◌, ◌-◌, ◌*◌, ◌/◌, ◌%◌, ◌^◌, ◌≤◌, ◌<◌, ◌≡◌, sym, ap, ap₂, ◌∙◌, inl, inr, List, [],
  ◌++◌, arith, length, length-take, length-drop, take, drop, take-append-drop, take_past, add64,
  leb, Bool-cases, leb→le,
}
use cellkernelqwen.Secure.Sha512.{
  Hash, Context, index_of, transform, store_bytes, absorb_blocks, update_full, sha512_update,
}
use cellkernelqwen.Secure.Stream.{
  Stream, feed_all, feed_all-append, view, IsValid, feed_all_short, feed_all_full,
  length-store_bytes, take-store_bytes,
}

abbrev stream : Hash → ℕ → List ℕ → Stream
stream s c p = record { state = s; count = c; pending = p }

-- What the loop over whole blocks has done: the rest is shorter than a block.
record Absorbed (s : Hash) (c : ℕ) (bytes : List ℕ) (out : Hash × List ℕ) : Type 0 where
  rest_len : length out.1 ≡ length bytes % 128
  fed : feed_all (stream s c []) bytes ≡ stream out.0 (add64 c (length bytes * 8)) out.1

Absorbed-short :
    (s : Hash) (c : ℕ) (bytes : List ℕ)
    → c < 2 ^ 64
    → length bytes < 128
    → Absorbed s c bytes (s, bytes)
Absorbed-short s c bytes small h = record {
  rest_len = omega arith;
  fed = feed_all_short bytes (stream s c []) small (omega arith);
}

Absorbed-block :
    (s : Hash) (c : ℕ) (bytes : List ℕ) (out : Hash × List ℕ)
    → 128 ≤ length bytes
    → Absorbed (transform s (take 128 bytes)) (add64 c 1024) (drop 128 bytes) out
    → Absorbed s c bytes out
Absorbed-block s c bytes out h rest = record {
  rest_len = omega (arith, rest.rest_len, length-drop 128 bytes);
  fed =
      ap (feed_all (stream s c [])) (sym (take-append-drop 128 bytes))
      ∙ feed_all-append (stream s c []) (take 128 bytes) (drop 128 bytes)
      ∙ ap (λ t. feed_all t (drop 128 bytes))
          (feed_all_full (take 128 bytes) (stream s c []) (omega (arith, len)) (omega (arith, len))
            ∙ ap (λ n. stream (transform s (take 128 bytes)) (add64 c (n * 8)) []) len)
      ∙ rest.fed
      ∙ ap (λ n. stream out.0 n out.1) (omega (arith, length-drop 128 bytes));
}
  where
    len : length (take 128 bytes) ≡ 128
    len = omega (arith, length-take 128 bytes)

absorb_blocks-Absorbed :
    (fuel : ℕ) (s : Hash) (c : ℕ) (bytes : List ℕ)
    → c < 2 ^ 64
    → length bytes ≤ fuel
    → Absorbed s c bytes (absorb_blocks fuel s bytes)
unfolding absorb_blocks
absorb_blocks-Absorbed zero s c bytes small h = Absorbed-short s c bytes small (omega arith)
absorb_blocks-Absorbed (suc fuel) s c bytes small h = elim (Bool-cases (leb 128 (length bytes))) [
  | inl more ↦
      let long = leb→le 128 (length bytes) more in
      rw more (
        Absorbed-block s c bytes _ long (
          absorb_blocks-Absorbed fuel (transform s (take 128 bytes)) (add64 c 1024) (drop 128 bytes)
            (omega arith) (omega (arith, length-drop 128 bytes))))
  | inr done ↦ rw done (Absorbed-short s c bytes small (ground arith))
]

module _ (ctx : Context) (v : IsValid ctx) (bytes : List ℕ) where
  pending_len : length (take (index_of ctx) ctx.buffer) ≡ index_of ctx
  pending_len = omega (arith, length-take (index_of ctx) ctx.buffer, v.buffer_len)

  short_view :
      length bytes < 128 - index_of ctx
      → view (record ctx {
        count = add64 ctx.count (length bytes * 8);
        buffer = store_bytes ctx.buffer (index_of ctx) bytes;
      })
        ≡ feed_all (view ctx) bytes
  short_view h =
      let i : add64 ctx.count (length bytes * 8) / 8 % 128 ≡ index_of ctx + length bytes =
        omega (arith, v.whole_bytes, v.small) in
      ap
        (λ n.
          stream ctx.state (add64 ctx.count (length bytes * 8))
            (take n (store_bytes ctx.buffer (index_of ctx) bytes)))
        i
      ∙ ap (stream ctx.state (add64 ctx.count (length bytes * 8)))
          (take-store_bytes bytes ctx.buffer (index_of ctx) (omega (arith, v.buffer_len)))
      ∙ sym (feed_all_short bytes (view ctx) v.small (omega (arith, pending_len)))

  module _ (long : 128 - index_of ctx ≤ length bytes) where
    abbrev part : ℕ
    part = 128 - index_of ctx

    abbrev filled : List ℕ
    filled = store_bytes ctx.buffer (128 - part) (take part bytes)

    part_len : length (take part bytes) ≡ part
    part_len = omega (arith, length-take part bytes)

    filled_lem : filled ≡ take (index_of ctx) ctx.buffer ++ take part bytes
    filled_lem =
        let at : 128 - part ≡ index_of ctx = omega arith in
        sym (
          take_past 128 filled (
            omega
              (arith, length-store_bytes (take part bytes) ctx.buffer (128 - part), v.buffer_len)))
        ∙ ap (λ n. take n filled) {x = 128} (omega (arith, part_len))
        ∙ take-store_bytes (take part bytes) ctx.buffer (128 - part)
            (omega (arith, part_len, v.buffer_len))
        ∙ ap (λ n. take n ctx.buffer ++ take part bytes) at

    first_block :
        feed_all (view ctx) (take part bytes)
        ≡ stream (transform ctx.state filled) (add64 ctx.count (part * 8)) []
    first_block =
        feed_all_full (take part bytes) (view ctx) (omega (arith, part_len))
          (omega (arith, part_len, pending_len))
        ∙ ap₂ (λ b n. stream (transform ctx.state b) (add64 ctx.count (n * 8)) []) (sym filled_lem)
            part_len

    rest_of :
        (out : Hash × List ℕ)
        → Absorbed (transform ctx.state filled) (add64 ctx.count (part * 8)) (drop part bytes) out
        → view (record ctx {
          state = out.0;
          count = add64 ctx.count (length bytes * 8);
          buffer = store_bytes filled 0 out.1;
        })
          ≡ feed_all (view ctx) bytes
    rest_of (t, rest) absorbed =
        let c = add64 ctx.count (length bytes * 8) in
        let total : add64 (add64 ctx.count (part * 8)) (length (drop part bytes) * 8) ≡ c =
          omega (arith, length-drop part bytes) in
        let i : c / 8 % 128 ≡ 0 + length rest =
          omega (arith, absorbed.rest_len, length-drop part bytes, v.whole_bytes, v.small) in
        let fits : 0 + length rest ≤ length filled = omega (
          arith,
          absorbed.rest_len,
          length-store_bytes (take part bytes) ctx.buffer (128 - part),
          v.buffer_len,
        ) in
        ap (λ n. stream t c (take n (store_bytes filled 0 rest))) i
        ∙ ap (stream t c) (take-store_bytes rest filled 0 fits)
        ∙ ap (λ n. stream t n rest) (sym total)
        ∙ sym absorbed.fed
        ∙ ap (λ s. feed_all s (drop part bytes)) (sym first_block)
        ∙ sym (feed_all-append (view ctx) (take part bytes) (drop part bytes))
        ∙ ap (feed_all (view ctx)) (take-append-drop part bytes)

    full_view :
        view (update_full (record ctx { count = add64 ctx.count (length bytes * 8) }) part bytes)
        ≡ feed_all (view ctx) bytes
    unfolding update_full
    full_view =
        rest_of (absorb_blocks (length bytes) (transform ctx.state filled) (drop part bytes)) (
          absorb_blocks-Absorbed (length bytes) (transform ctx.state filled)
            (add64 ctx.count (part * 8)) (drop part bytes) (omega arith)
            (omega (arith, length-drop part bytes)))

  -- `sha512_update` leaves the context that stands for the bytes fed one at a time: block by block
  -- and with leftovers in the buffer it compresses the same blocks in the same order.
  pub update_refines : view (sha512_update ctx bytes) ≡ feed_all (view ctx) bytes
  unfolding sha512_update
  update_refines = elim (Bool-cases (leb (128 - index_of ctx) (length bytes))) [
    | inl long ↦ rw long (full_view (leb→le (128 - index_of ctx) (length bytes) long))
    | inr short ↦ rw short (short_view (ground arith))
  ]

  length-update_full :
      (c : Context) (n : ℕ) → length (update_full c n bytes).buffer ≡ length c.buffer
  unfolding update_full
  length-update_full c n =
      length-store_bytes _ _ 0 ∙ length-store_bytes (take n bytes) c.buffer (128 - n)

  -- `sha512_update` keeps the context well formed.
  pub update-IsValid : IsValid (sha512_update ctx bytes)
  unfolding sha512_update update_full
  update-IsValid = elim (Bool-cases (leb (128 - index_of ctx) (length bytes))) [
    | inl long ↦ rw long (record {
      buffer_len = omega (
        arith,
        v.buffer_len,
        length-update_full (record ctx { count = add64 ctx.count (length bytes * 8) })
            (128 - index_of ctx),
      );
      whole_bytes = omega (arith, v.whole_bytes);
      small = omega arith;
    })
    | inr short ↦ rw short (record {
      buffer_len = omega (arith, v.buffer_len, length-store_bytes bytes ctx.buffer (index_of ctx));
      whole_bytes = omega (arith, v.whole_bytes);
      small = omega arith;
    })
  ]
