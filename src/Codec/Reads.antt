-- ===== src/Codec/Reads.antt =====
-- A decoder reads back what an encoder wrote, whatever follows, and the rules that build such facts
-- along a `do` block.
use p2pool_observer.Prelude.{
  sym, subst₂, ℕ, zero, suc, ◌/◌, ◌^◌, ◌<◌, ◌≡◌, refl, sym, ap, ◌∙◌, arith, true, List, [], ◌∷◌,
  ◌++◌, length, append_assoc, Bool,
}
use p2pool_observer.Codec.{
  Reader, ok, pure, ◌>>=◌, ◌>>◌, require, read_byte, read_more, read_full, le_bytes, le_value,
  read_le, Error,
}

pub record Reads {A : Type 0} (m : Reader A) (bytes : List ℕ) (a : A) : Type 0 where
  pub run : (rest : List ℕ) → m (bytes ++ rest) ≡ ok (a, rest)

pub bind-ok :
    {A B : Type 0} (m : Reader A) (f : A → Reader B) (bs : List ℕ) {a : A} {rest : List ℕ}
    → m bs ≡ ok (a, rest)
    → (m >>= f) bs ≡ f a rest
bind-ok m f bs e = rw (e, ◌>>=◌)

pub Reads-bind :
    {A B : Type 0} (m : Reader A) (f : A → Reader B) (xs ys : List ℕ) {a : A} {b : B}
    → Reads m xs a
    → Reads (f a) ys b
    → Reads (m >>= f) (xs ++ ys) b
Reads-bind m f xs ys {a} {b} h k = record {
  run = λ rest. rw (append_assoc xs ys rest) (bind-ok m f _ (h.run (ys ++ rest)) ∙ k.run rest);
}

pub Reads-pure : {A : Type 0} (a : A) → Reads (pure a) [] a
Reads-pure a = record { run = λ rest. refl }

pub Reads-read_byte : (b : ℕ) → Reads read_byte (b ∷ []) b
unfolding read_byte
Reads-read_byte b = record { run = λ rest. refl }

read_more-append : (xs rest : List ℕ) → read_more (length xs) (xs ++ rest) ≡ ok (xs, rest)
unfolding read_more
read_more-append [] rest = refl
read_more-append (x ∷ xs) rest = rw (read_more-append xs rest)

pub Reads-read_full : (n : ℕ) (xs : List ℕ) → length xs ≡ n → Reads (read_full n) xs xs
unfolding read_full
Reads-read_full n xs h = record { run = λ rest. rw (← h) (go xs rest) }
  where
    go : (ys rest : List ℕ) → read_full (length ys) (ys ++ rest) ≡ ok (ys, rest)
    go [] rest = refl
    go (y ∷ ys) rest = read_more-append (y ∷ ys) rest

pub length-le_bytes : (n v : ℕ) → length (le_bytes n v) ≡ n
unfolding le_bytes
length-le_bytes zero v = refl
length-le_bytes (suc n) v = ap suc (length-le_bytes n (v / 256))

pub le_value-le_bytes : (n v : ℕ) → v < 256 ^ n → le_value (le_bytes n v) ≡ v
unfolding le_bytes le_value
le_value-le_bytes zero v h = omega arith
le_value-le_bytes (suc n) v h = omega (arith, le_value-le_bytes n (v / 256) (omega arith))

pub Reads-read_le : (n v : ℕ) → v < 256 ^ n → Reads (read_le n) (le_bytes n v) v
unfolding read_le
Reads-read_le n v h = record {
  run = λ rest.
      bind-ok (read_full n) _ _ ((Reads-read_full n (le_bytes n v) (length-le_bytes n v)).run rest)
      ∙ ap (λ w. ok (w, rest)) (le_value-le_bytes n v h);
}

-- A guard that holds reads nothing.
pub Reads-then :
    {B : Type 0} (b : Bool) (e : Error) (k : Reader B) (xs : List ℕ) {r : B}
    → b ≡ true
    → Reads k xs r
    → Reads (require b e >> k) xs r
Reads-then b e k xs h r = record { run = λ rest. rw h (r.run rest) }

-- The last step of a decoder: build the value.
pub Reads-map :
    {A B : Type 0} (m : Reader A) (g : A → B) (xs : List ℕ) {a : A} {b : B}
    → Reads m xs a
    → g a ≡ b
    → Reads (m >>= λ x. pure (g x)) xs b
Reads-map m g xs h e = record {
  run = λ rest. bind-ok m _ _ (h.run rest) ∙ ap (λ y. ok (y, rest)) e;
}

-- Along equations of the decoder and the bytes.
pub Reads-cast :
    {A : Type 0} {m n : Reader A} {xs ys : List ℕ} {a : A}
    → m ≡ n
    → xs ≡ ys
    → Reads n ys a
    → Reads m xs a
Reads-cast {a = a} p q h = subst₂ (λ m xs. Reads m xs a) (sym p) (sym q) h
