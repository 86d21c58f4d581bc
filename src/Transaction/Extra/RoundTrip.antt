-- ===== src/Transaction/Extra/RoundTrip.antt =====
-- What ExtraTags.AppendBinary writes, ExtraTags.FromReader reads back, where no public key follows a
-- tag with a varint.
use p2pool_observer.Prelude.{
  ℕ, zero, suc, ◌*◌, ◌≤◌, ◌<◌, ◌≡◌, ◌≢◌, refl, sym, Bool-cases, ap, ◌∙◌, arith, Bool, true, false,
  ◌⊎◌, inl, inr, none, List, [], ◌∷◌, ◌++◌, if◌then◌else◌, length, length-append, append_assoc,
  append-nil, All,
}
use p2pool_observer.Codec.{ok, err, eof, read_byte, uvarint, IsU64}
use p2pool_observer.Codec.Reads.{
  Reads, Reads-cast, Reads-bind, Reads-map, Reads-then, Reads-read_byte, Reads-read_full,
}
use p2pool_observer.Codec.Uvarint.{Reads-uvarint}
use p2pool_observer.Utils.Number.Size.{length-uvarint}
use p2pool_observer.Transaction.Extra.{
  ExtraTag, zero_tag, read_pub_key, read_nonce, read_merge_mining, read_additional_pub_keys,
  tag_switch, extra_tag_from_reader, get_tag, end_of_tags, extra_loop, extra_tags_from_reader,
  append_tag, append_tags, tag_buffer_length, tags_buffer_length,
}

-- The tags that the decoder can return, but for padding.
pub data IsTag (t : ExtraTag) : Type 0 where
  pub_key : t.tag ≡ 1 → t.has_var_int ≡ false → t.var_int ≡ 0 → length t.content ≡ 32 → IsTag t
  nonce :
      (t.tag ≡ 2) ⊎ (t.tag ≡ 0xde)
      → t.has_var_int ≡ true
      → length t.content ≡ t.var_int
      → t.var_int ≤ 255
      → IsTag t
  merge_mining :
      t.tag ≡ 3 → t.has_var_int ≡ true → IsU64 t.var_int → length t.content ≡ 32 → IsTag t
  additional_pub_keys :
      t.tag ≡ 4
      → t.has_var_int ≡ true
      → length t.content ≡ 32 * t.var_int
      → t.var_int ≤ 4096
      → IsTag t

-- No tag number occurs twice, in `us` or in the tags `ts` before it.
abbrev pub Fresh : List ExtraTag → List ExtraTag → Type 0
Fresh ts [] = Unit {0}
Fresh ts (u ∷ us) = (get_tag u.tag ts ≡ none) × Fresh (ts ++ (u ∷ [])) us

-- A public key stands first or not at all.
abbrev pub KeyFirst : List ExtraTag → Type 0
KeyFirst [] = Unit {0}
KeyFirst (t ∷ ts) = All (λ u. u.tag ≢ 1) ts

varint_bytes : ExtraTag → List ℕ
varint_bytes t = if t.has_var_int then uvarint t.var_int else []

pub tag_bytes : ExtraTag → List ℕ
tag_bytes t = (t.tag ∷ []) ++ (varint_bytes t ++ t.content)

pub tags_bytes : List ExtraTag → List ℕ
tags_bytes [] = []
tags_bytes (t ∷ ts) = tag_bytes t ++ tags_bytes ts

pub append_tags-bytes :
    (buf : List ℕ) (ts : List ExtraTag) → append_tags buf ts ≡ buf ++ tags_bytes ts
unfolding append_tags append_tag tags_bytes tag_bytes varint_bytes
append_tags-bytes buf [] = sym (append-nil buf)
append_tags-bytes buf (t ∷ ts) = rw (append_tags-bytes (append_tag buf t) ts) (simp append_assoc)

module _ (prev t : ExtraTag) (same_tag : t.tag ≡ prev.tag) where
  Reads-pub_key :
      t.has_var_int ≡ prev.has_var_int
      → t.var_int ≡ prev.var_int
      → length t.content ≡ 32
      → Reads (read_pub_key prev) t.content t
  unfolding read_pub_key
  Reads-pub_key h v l =
      Reads-map _ (λ c. record prev { content = c }) _ (Reads-read_full 32 t.content l)
        (ground arith)

  Reads-nonce :
      t.has_var_int ≡ true
      → length t.content ≡ t.var_int
      → t.var_int ≤ 255
      → Reads (read_nonce prev) (uvarint t.var_int ++ t.content) t
  unfolding read_nonce
  Reads-nonce h l b = Reads-bind _ _ _ _ (Reads-uvarint t.var_int (omega arith)) (
      Reads-then _ _ _ _ (ground arith) (
        Reads-map _ (λ c. record prev { has_var_int = true; var_int = t.var_int; content = c }) _
          (Reads-read_full t.var_int t.content l) (ground arith)))

  Reads-merge_mining :
      t.has_var_int ≡ true
      → IsU64 t.var_int
      → length t.content ≡ 32
      → Reads (read_merge_mining prev) (uvarint t.var_int ++ t.content) t
  unfolding read_merge_mining
  Reads-merge_mining h b l = Reads-bind _ _ _ _ (Reads-uvarint t.var_int b) (
      Reads-map _ (λ c. record prev { has_var_int = true; var_int = t.var_int; content = c }) _
        (Reads-read_full 32 t.content l) (ground arith))

  Reads-additional_pub_keys :
      t.has_var_int ≡ true
      → length t.content ≡ 32 * t.var_int
      → t.var_int ≤ 4096
      → Reads (read_additional_pub_keys prev) (uvarint t.var_int ++ t.content) t
  unfolding read_additional_pub_keys
  Reads-additional_pub_keys h l b = Reads-bind _ _ _ _ (Reads-uvarint t.var_int (omega arith)) (
      Reads-then _ _ _ _ (ground arith) (
        Reads-map _ (λ c. record prev { has_var_int = true; var_int = t.var_int; content = c }) _
          (Reads-read_full (32 * t.var_int) t.content l) (ground arith)))

varint_present :
    (t : ExtraTag)
    → t.has_var_int ≡ true
    → varint_bytes t ++ t.content ≡ uvarint t.var_int ++ t.content
unfolding varint_bytes
varint_present t h = ap (λ (b : Bool). (if b then uvarint t.var_int else []) ++ t.content) h

varint_absent : (t : ExtraTag) → t.has_var_int ≡ false → varint_bytes t ++ t.content ≡ t.content
unfolding varint_bytes
varint_absent t h = ap (λ (b : Bool). (if b then uvarint t.var_int else []) ++ t.content) h

-- The receiver `prev` does not show in what is read, but for a public key.
Reads-switch :
    (prev t : ExtraTag)
    → IsTag t
    → t.tag ≡ prev.tag
    → (t.tag ≡ 1 → (t.has_var_int ≡ prev.has_var_int) × (t.var_int ≡ prev.var_int))
    → Reads (tag_switch t.tag prev) (varint_bytes t ++ t.content) t
unfolding tag_switch
Reads-switch prev t (pub_key k h v l) e kept =
    Reads-cast (ap (λ n. tag_switch n prev) k) (varint_absent t h)
      (Reads-pub_key prev t e (kept k).0 (kept k).1 l)
Reads-switch prev t (nonce (inl k) h l b) e kept =
    Reads-cast (ap (λ n. tag_switch n prev) k) (varint_present t h) (Reads-nonce prev t e h l b)
Reads-switch prev t (nonce (inr k) h l b) e kept =
    Reads-cast (ap (λ n. tag_switch n prev) k) (varint_present t h) (Reads-nonce prev t e h l b)
Reads-switch prev t (merge_mining k h b l) e kept =
    Reads-cast (ap (λ n. tag_switch n prev) k) (varint_present t h)
      (Reads-merge_mining prev t e h b l)
Reads-switch prev t (additional_pub_keys k h l b) e kept =
    Reads-cast (ap (λ n. tag_switch n prev) k) (varint_present t h)
      (Reads-additional_pub_keys prev t e h l b)

Reads-tag :
    (prev t : ExtraTag)
    → IsTag t
    → (t.tag ≡ 1 → (t.has_var_int ≡ prev.has_var_int) × (t.var_int ≡ prev.var_int))
    → Reads (extra_tag_from_reader prev) (tag_bytes t) t
unfolding extra_tag_from_reader tag_bytes
Reads-tag prev t v kept =
    Reads-bind _ _ _ _ (Reads-read_byte t.tag)
      (Reads-switch (record prev { tag = t.tag }) t v refl kept)

end_of_stream : (prev : ExtraTag) → extra_tag_from_reader prev [] ≡ err eof
unfolding extra_tag_from_reader read_byte
end_of_stream prev = refl

-- The loop on encoded tags, with fuel for one round more than there are tags.
extra_loop-tags :
    (fuel : ℕ) (prev : ExtraTag) (ts us : List ExtraTag)
    → length us < fuel
    → All IsTag us
    → All (λ u. u.tag ≢ 1) us
    → Fresh ts us
    → extra_loop fuel prev ts (tags_bytes us) ≡ ok (ts ++ us, [])
unfolding extra_loop tags_bytes end_of_tags
extra_loop-tags zero prev ts us h v k f = absurd (omega arith)
extra_loop-tags (suc fuel) prev ts [] h v k f =
    rw (end_of_stream prev, extra_loop) (ap (λ l. ok (l, [])) (sym (append-nil ts)))
extra_loop-tags (suc fuel) prev ts (u ∷ us) h (v, vs) (k, ks) (f, fs) =
    rw ((Reads-tag prev u v (λ e. absurd (k e))).run (tags_bytes us), extra_loop, f)
      (extra_loop-tags fuel u (ts ++ (u ∷ [])) us (omega arith) vs ks fs
        ∙ ap (λ l. ok (l, [])) (append_assoc ts (u ∷ []) us))

length-tag_bytes : (t : ExtraTag) → IsU64 t.var_int → length (tag_bytes t) ≡ tag_buffer_length t
unfolding tag_bytes tag_buffer_length varint_bytes
length-tag_bytes t b = elim (Bool-cases t.has_var_int) [
  | inl h ↦ rw h (simp length-append (omega (arith, length-uvarint t.var_int b)))
  | inr h ↦ rw h (omega arith)
]

IsTag-IsU64 : (t : ExtraTag) → IsTag t → IsU64 t.var_int
IsTag-IsU64 t (pub_key k h v l) = omega arith
IsTag-IsU64 t (nonce k h l b) = omega arith
IsTag-IsU64 t (merge_mining k h b l) = b
IsTag-IsU64 t (additional_pub_keys k h l b) = omega arith

pub length-tags_bytes :
    (ts : List ExtraTag) → All IsTag ts → length (tags_bytes ts) ≡ tags_buffer_length ts
unfolding tags_bytes tags_buffer_length
length-tags_bytes [] v = refl
length-tags_bytes (t ∷ ts) (v, vs) = omega (
  arith,
  length-append (tag_bytes t) (tags_bytes ts),
  length-tag_bytes t (IsTag-IsU64 t v),
  length-tags_bytes ts vs,
)

length-le-tags_bytes : (ts : List ExtraTag) → length ts ≤ length (tags_bytes ts)
unfolding tags_bytes tag_bytes
length-le-tags_bytes [] = omega arith
length-le-tags_bytes (t ∷ ts) =
    omega
      (arith, length-append (varint_bytes t ++ t.content) (tags_bytes ts), length-le-tags_bytes ts)

-- The first round starts with a receiver that has no varint, so it may read a public key.
first_round :
    (fuel : ℕ) (t : ExtraTag) (ts : List ExtraTag)
    → length ts < fuel
    → All IsTag (t ∷ ts)
    → KeyFirst (t ∷ ts)
    → Fresh [] (t ∷ ts)
    → extra_loop (suc fuel) zero_tag [] (tags_bytes (t ∷ ts)) ≡ ok (t ∷ ts, [])
unfolding extra_loop tags_bytes get_tag
first_round fuel t ts h (v, vs) k (f, fs) =
    rw ((Reads-tag zero_tag t v (λ e. key_fields t v e)).run (tags_bytes ts), extra_loop)
      (extra_loop-tags fuel t (t ∷ []) ts h vs k fs)
  where
    key_fields : (t : ExtraTag) → IsTag t → t.tag ≡ 1 → (t.has_var_int ≡ false) × (t.var_int ≡ 0)
    key_fields t (pub_key k h v l) e = (h, v)
    key_fields t (nonce (inl k) h l b) e = absurd (omega arith)
    key_fields t (nonce (inr k) h l b) e = absurd (omega arith)
    key_fields t (merge_mining k h b l) e = absurd (omega arith)
    key_fields t (additional_pub_keys k h l b) e = absurd (omega arith)

pub extra_tags_from_reader-bytes :
    (ts : List ExtraTag)
    → All IsTag ts
    → KeyFirst ts
    → Fresh [] ts
    → extra_tags_from_reader [] (tags_bytes ts) ≡ ok (ts, [])
unfolding extra_tags_from_reader tags_bytes
extra_tags_from_reader-bytes [] v k f = extra_loop-tags 1 zero_tag [] [] (omega arith) tt tt tt
extra_tags_from_reader-bytes (t ∷ ts) v k f =
    first_round (length (tags_bytes (t ∷ ts))) t ts (omega (arith, length-le-tags_bytes (t ∷ ts))) v
      k f

-- Extra tags without padding, each number at most once and a public key only in front, are decoded
-- to themselves from their encoding, which is as long as BufferLength says.
pub extra_tags-round_trip :
    (ts : List ExtraTag)
    → All IsTag ts
    → KeyFirst ts
    → Fresh [] ts
    → (extra_tags_from_reader [] (append_tags [] ts) ≡ ok (ts, []))
      × (length (append_tags [] ts) ≡ tags_buffer_length ts)
extra_tags-round_trip ts v k f =
    rw (append_tags-bytes [] ts) (extra_tags_from_reader-bytes ts v k f, length-tags_bytes ts v)
