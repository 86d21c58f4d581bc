-- ===== src/Codec/Hashes.antt =====
-- Lists of 32-byte hashes, appended and read one after the other.
use p2pool_observer.Prelude.{
  ℕ, zero, suc, ◌*◌, ◌≡◌, refl, sym, ◌∙◌, arith, List, [], ◌∷◌, ◌++◌, length, length-append,
  append_assoc, append-nil, All,
}
use p2pool_observer.Codec.{Reader, ◌>>=◌, pure, read_full}
use p2pool_observer.Codec.Reads.{Reads, Reads-bind, Reads-pure, Reads-read_full}

unfoldable pub append_hashes : List ℕ → List (List ℕ) → List ℕ
append_hashes buf [] = buf
append_hashes buf (h ∷ hs) = append_hashes (buf ++ h) hs

-- The loop over the uncles, with the rounds left and the hashes so far.
unfoldable pub read_hashes : ℕ → List (List ℕ) → Reader (List (List ℕ))
read_hashes zero hs = pure hs
read_hashes (suc n) hs = do h ← read_full 32; read_hashes n (hs ++ (h ∷ []))

abbrev pub IsHash : List ℕ → Type 0
IsHash h = length h ≡ 32

pub hashes_bytes : List (List ℕ) → List ℕ
hashes_bytes [] = []
hashes_bytes (h ∷ hs) = h ++ hashes_bytes hs

pub append_hashes-bytes :
    (buf : List ℕ) (hs : List (List ℕ)) → append_hashes buf hs ≡ buf ++ hashes_bytes hs
unfolding append_hashes hashes_bytes
append_hashes-bytes buf [] = sym (append-nil buf)
append_hashes-bytes buf (h ∷ hs) =
    append_hashes-bytes (buf ++ h) hs ∙ append_assoc buf h (hashes_bytes hs)

pub Reads-hashes :
    (hs us : List (List ℕ))
    → All IsHash us
    → Reads (read_hashes (length us) hs) (hashes_bytes us) (hs ++ us)
unfolding read_hashes hashes_bytes
Reads-hashes hs [] v = rw append-nil (Reads-pure hs)
Reads-hashes hs (u ∷ us) (v, vs) =
    Reads-bind _ _ _ _ (Reads-read_full 32 u v)
      (rw append_assoc at (Reads-hashes (hs ++ (u ∷ [])) us vs))

pub length-hashes_bytes :
    (hs : List (List ℕ)) → All IsHash hs → length (hashes_bytes hs) ≡ length hs * 32
unfolding hashes_bytes
length-hashes_bytes [] v = refl
length-hashes_bytes (h ∷ hs) (v, vs) =
    omega (arith, length-append h (hashes_bytes hs), length-hashes_bytes hs vs)
