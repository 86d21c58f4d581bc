-- ===== src/Transaction/Extra.antt =====
-- monero/transaction/extra.go: the tags in the extra field of a coinbase transaction.
pub mod RoundTrip
pub mod Defects
use p2pool_observer.Prelude.{
  ℕ, zero, suc, ◌+◌, ◌-◌, ◌*◌, Bool, true, false, ◌&&◌, ◌||◌, Option, none, some, List, [], ◌∷◌,
  ◌++◌, ltb, leb, ◌==◌, if◌then◌else◌, length, replicate, drop,
}
use p2pool_observer.Codec.{
  Reader, Result, ok, err, panic, stuck, Error, eof, ◌>>=◌, ◌>>◌, pure, fail, require, read_byte,
  read_full, uvarint, read_uvarint, unknown_tag, padding_not_zero, padding_too_big, nonce_too_big,
  too_many_public_keys, tag_already_exists,
}
use p2pool_observer.Utils.Number.{uvarint64_size}

abbrev pub tx_extra_tag_padding : ℕ
tx_extra_tag_padding = 0x00

abbrev pub tx_extra_tag_pub_key : ℕ
tx_extra_tag_pub_key = 0x01

abbrev pub tx_extra_tag_nonce : ℕ
tx_extra_tag_nonce = 0x02

abbrev pub tx_extra_tag_merge_mining : ℕ
tx_extra_tag_merge_mining = 0x03

abbrev pub tx_extra_tag_additional_pub_keys : ℕ
tx_extra_tag_additional_pub_keys = 0x04

abbrev pub tx_extra_tag_mysterious_minergate : ℕ
tx_extra_tag_mysterious_minergate = 0xde

abbrev pub tx_extra_padding_max_count : ℕ
tx_extra_padding_max_count = 255

abbrev pub tx_extra_nonce_max_count : ℕ
tx_extra_nonce_max_count = 255

abbrev pub tx_extra_additional_pub_keys_max_count : ℕ
tx_extra_additional_pub_keys_max_count = 4096

abbrev pub tx_extra_template_nonce_size : ℕ
tx_extra_template_nonce_size = 4

-- The field Data of the source is `content`.
pub record ExtraTag : Type 0 where
  pub var_int : ℕ
  pub tag : ℕ
  pub has_var_int : Bool
  pub content : List ℕ

-- `var tag ExtraTag`
abbrev pub zero_tag : ExtraTag
zero_tag = record { var_int = 0; tag = 0; has_var_int = false; content = [] }

-- The loop over padding, with the rounds left and `size`: it breaks at the end of the stream.
unfoldable pub padding_loop : ℕ → ℕ → Reader ℕ
padding_loop zero size bs = ok (size, bs)
padding_loop (suc n) size [] = ok (size, [])
padding_loop (suc n) size (b ∷ bs) =
    let next = padding_loop n (size + 1) bs in if b == 0 then next else err padding_not_zero

-- `make([]byte, size-2)`: size-2 wraps around below 2, and the length is then out of range.
unfoldable pub make_padding : ExtraTag → ℕ → Reader ExtraTag
make_padding t size bs =
    if ltb size 2 then panic else ok (record t { content = replicate (size - 2) 0 }, bs)

unfoldable pub read_padding : ExtraTag → Reader ExtraTag
read_padding t = do
  size ← padding_loop tx_extra_padding_max_count 1
  require (leb size tx_extra_padding_max_count) padding_too_big
  make_padding t size

unfoldable pub read_pub_key : ExtraTag → Reader ExtraTag
read_pub_key t = do content ← read_full 32; pure (record t { content = content })

-- The nonce and the minergate tag: a length of at most 255, and as many bytes.
unfoldable pub read_nonce : ExtraTag → Reader ExtraTag
read_nonce t = do
  var_int ← read_uvarint
  require (leb var_int tx_extra_nonce_max_count) nonce_too_big
  content ← read_full var_int
  pure (record t { has_var_int = true; var_int = var_int; content = content })

unfoldable pub read_merge_mining : ExtraTag → Reader ExtraTag
read_merge_mining t = do
  var_int ← read_uvarint
  content ← read_full 32
  pure (record t { has_var_int = true; var_int = var_int; content = content })

unfoldable pub read_additional_pub_keys : ExtraTag → Reader ExtraTag
read_additional_pub_keys t = do
  var_int ← read_uvarint
  require (leb var_int tx_extra_additional_pub_keys_max_count) too_many_public_keys
  content ← read_full (32 * var_int)
  pure (record t { has_var_int = true; var_int = var_int; content = content })

-- The switch of ExtraTag.FromReader, on the tag that was read.
unfoldable pub tag_switch : ℕ → ExtraTag → Reader ExtraTag
tag_switch tag t =
    if tag == tx_extra_tag_padding
    then read_padding t
    else if tag == tx_extra_tag_pub_key
    then read_pub_key t
    else if tag == tx_extra_tag_nonce
    then read_nonce t
    else if tag == tx_extra_tag_merge_mining
    then read_merge_mining t
    else if tag == tx_extra_tag_additional_pub_keys
    then read_additional_pub_keys t
    else if tag == tx_extra_tag_mysterious_minergate
    then read_nonce t
    else fail unknown_tag

-- ExtraTag.FromReader on the receiver `t`: a field that no branch sets keeps its value.
unfoldable pub extra_tag_from_reader : ExtraTag → Reader ExtraTag
extra_tag_from_reader t = do tag ← read_byte; tag_switch tag (record t { tag = tag })

-- ExtraTags.GetTag
unfoldable pub get_tag : ℕ → List ExtraTag → Option ExtraTag
get_tag tag [] = none
get_tag tag (t ∷ ts) = if t.tag == tag then some t else get_tag tag ts

abbrev pub is_some : Option ExtraTag → Bool
is_some none = false
is_some (some t) = true

-- io.EOF ends the tags, wherever in a tag it comes from.
unfoldable pub end_of_tags : List ExtraTag → Error → Result (List ExtraTag × List ℕ)
end_of_tags ts eof = ok (ts, [])
end_of_tags ts e = err e

-- The loop of ExtraTags.FromReader: every round decodes into the same `tag`.
unfoldable pub extra_loop : ℕ → ExtraTag → List ExtraTag → Reader (List ExtraTag)
extra_loop zero tag ts bs = stuck
extra_loop (suc fuel) tag ts bs = elim (extra_tag_from_reader tag bs) [
  | ok (tag', rest) ↦ elim (is_some (get_tag tag'.tag ts)) [
    | true ↦ err tag_already_exists
    | false ↦ extra_loop fuel tag' (ts ++ (tag' ∷ [])) rest
  ]
  | err e ↦ end_of_tags ts e
  | panic ↦ panic
  | stuck ↦ stuck
]

-- ExtraTags.FromReader: every round takes a byte at least.
unfoldable pub extra_tags_from_reader : List ExtraTag → Reader (List ExtraTag)
extra_tags_from_reader ts bs = extra_loop (suc (length bs)) zero_tag ts bs

-- ExtraTag.AppendBinary
unfoldable pub append_tag : List ℕ → ExtraTag → List ℕ
append_tag buf t =
    ((buf ++ (t.tag ∷ [])) ++ (if t.has_var_int then uvarint t.var_int else [])) ++ t.content

-- ExtraTags.AppendBinary
unfoldable pub append_tags : List ℕ → List ExtraTag → List ℕ
append_tags buf [] = buf
append_tags buf (t ∷ ts) = append_tags (append_tag buf t) ts

-- ExtraTag.BufferLength
unfoldable pub tag_buffer_length : ExtraTag → ℕ
tag_buffer_length t =
    if t.has_var_int then 1 + uvarint64_size t.var_int + length t.content else 1 + length t.content

-- ExtraTags.BufferLength
unfoldable pub tags_buffer_length : List ExtraTag → ℕ
tags_buffer_length [] = 0
tags_buffer_length (t ∷ ts) = tag_buffer_length t + tags_buffer_length ts

-- The data that ExtraTag.SideChainHashingBlob writes: the template id and the first four bytes of
-- the nonce are blanked.
unfoldable pub hashed_content : Bool → ExtraTag → List ℕ
hashed_content zero_template_id t =
    if zero_template_id && t.tag == tx_extra_tag_merge_mining
    then replicate (length t.content) 0
    else if t.tag == tx_extra_tag_nonce
    then (if ltb tx_extra_template_nonce_size (length t.content)
        then replicate tx_extra_template_nonce_size 0 ++ drop tx_extra_template_nonce_size t.content
        else replicate (length t.content) 0)
    else t.content

-- ExtraTag.SideChainHashingBlob
unfoldable pub tag_hashing_blob : List ℕ → Bool → ExtraTag → List ℕ
tag_hashing_blob buf zero_template_id t =
    ((buf ++ (t.tag ∷ [])) ++ (if t.has_var_int then uvarint t.var_int else []))
    ++ hashed_content zero_template_id t

-- ExtraTags.SideChainHashingBlob
unfoldable pub tags_hashing_blob : List ℕ → Bool → List ExtraTag → List ℕ
tags_hashing_blob buf zero_template_id [] = buf
tags_hashing_blob buf zero_template_id (t ∷ ts) =
    tags_hashing_blob (tag_hashing_blob buf zero_template_id t) zero_template_id ts
