-- ===== src/Transaction/Extra/Defects.antt =====
-- Where decoding extra tags does not give back what was encoded.
use p2pool_observer.Prelude.{
  ℕ, zero, suc, ◌+◌, ◌-◌, ◌≤◌, ◌<◌, ◌≡◌, refl, ap, ◌∙◌, arith, true, false, List, [], ◌∷◌, ◌++◌,
  length, replicate, leb, ltb,
}
use p2pool_observer.Codec.{ok, panic, read_byte, read_full, uvarint}
use p2pool_observer.Codec.Reads.{Reads-read_full, bind-ok}
use p2pool_observer.Transaction.Extra.{
  ExtraTag, zero_tag, padding_loop, make_padding, read_padding, read_pub_key, extra_tag_from_reader,
  tag_switch, append_tag,
}

padding_loop-zeros :
    (n k size : ℕ) → n < k → padding_loop k size (replicate n 0) ≡ ok (size + n, [])
unfolding padding_loop
padding_loop-zeros zero zero size h = absurd (omega arith)
padding_loop-zeros zero (suc k) size h = ap (λ m. ok (m, [])) (omega arith)
padding_loop-zeros (suc n) zero size h = absurd (omega arith)
padding_loop-zeros (suc n) (suc k) size h =
    padding_loop-zeros n k (size + 1) (omega arith) ∙ ap (λ m. ok (m, [])) (omega arith)

read_padding-zeros :
    (t : ExtraTag) (n : ℕ)
    → 1 ≤ n
    → n ≤ 254
    → read_padding t (replicate n 0) ≡ ok (record t { content = replicate (n - 1) 0 }, [])
unfolding read_padding make_padding
read_padding-zeros t n h k =
    bind-ok (padding_loop 255 1) _ _ (padding_loop-zeros n 255 1 (omega arith))
    ∙ (let e : 1 + n - 2 ≡ n - 1 = omega arith in
        let small : leb (1 + n) 255 ≡ true = ground arith in
        let large : ltb (1 + n) 2 ≡ false = ground arith in rw (small, large, e))

-- Padding of n zero bytes, n from 1 to 254, at the end of the stream is decoded to a tag that is
-- encoded one byte shorter: to n bytes, for the tag and n - 1 zero bytes.
padding_loses_byte :
    (n : ℕ)
    → 1 ≤ n
    → n ≤ 254
    → (t : ExtraTag) × (extra_tag_from_reader zero_tag (0 ∷ replicate n 0) ≡ ok (t, []))
      × (append_tag [] t ≡ 0 ∷ replicate (n - 1) 0)
unfolding extra_tag_from_reader read_byte tag_switch append_tag
padding_loses_byte n h k =
    (record zero_tag { tag = 0; content = replicate (n - 1) 0 }, read_padding-zeros _ n h k, refl)

-- A padding tag that is the last byte of the stream makes the decoder panic.
padding_alone_panics : (prev : ExtraTag) → extra_tag_from_reader prev (0 ∷ []) ≡ panic
unfolding extra_tag_from_reader read_byte tag_switch read_padding make_padding padding_loop
padding_alone_panics prev = refl

-- A public key that is decoded after a tag with a varint keeps that varint: the tag that comes out
-- has HasVarInt set, and is encoded with the stale varint in front of the key.
pub_key_keeps_varint :
    (prev : ExtraTag) (key rest : List ℕ)
    → prev.has_var_int ≡ true
    → length key ≡ 32
    → (t : ExtraTag) × (extra_tag_from_reader prev (1 ∷ (key ++ rest)) ≡ ok (t, rest))
      × (append_tag [] t ≡ 1 ∷ (uvarint prev.var_int ++ key))
unfolding extra_tag_from_reader read_byte tag_switch read_pub_key append_tag
pub_key_keeps_varint prev key rest h l = (
  record prev { tag = 1; content = key },
  bind-ok (read_full 32) _ _ ((Reads-read_full 32 key l).run rest),
  rw h,
)
