-- ===== src/SideChain/PoolBlock/Filling.antt =====
-- A compact block is filled from the parent that its indices were taken from.
use p2pool_observer.Prelude.{
  ℕ, zero, suc, ◌+◌, ◌<◌, ◌≡◌, refl, ap, ◌∙◌, arith, true, false, ◌&&◌, ◌⊎◌, inl, inr, some, List,
  [], ◌∷◌, ◌++◌, ltb, ◌==◌, if◌then◌else◌, length, length-append, append_assoc, get_elem?, set,
  Bool-cases,
}
use p2pool_observer.Codec.{ok}
use p2pool_observer.Types.Hash.{bytes_eq, zero_hash}
use p2pool_observer.Types.Hash.Order.{bytes_eq→eq, bytes_eq_refl}
use p2pool_observer.Block.RoundTrip.{kept_hashes}
use p2pool_observer.SideChain.PoolBlock.{
  PoolBlock, contains_hash, needs_compact_transaction_filling, is_parent_of, fill_loop,
  fill_transactions, index_plus_one, parent_indices,
}

get_elem?-index_plus_one :
    (from : List (List ℕ)) (h : List ℕ) (k : ℕ)
    → index_plus_one from h ≡ suc k
    → get_elem? from k ≡ some h
unfolding index_plus_one
get_elem?-index_plus_one [] h k e = absurd (omega arith)
get_elem?-index_plus_one (x ∷ xs) h zero e = elim (Bool-cases (bytes_eq x h)) [
  | inl y ↦ ap some (bytes_eq→eq x h y)
  | inr n ↦ absurd (ground arith)
]
get_elem?-index_plus_one (x ∷ xs) h (suc k) e = elim (Bool-cases (bytes_eq x h)) [
  | inl y ↦ absurd (ground arith)
  | inr n ↦ get_elem?-index_plus_one xs h k (ground arith)
]

get_elem?-lt : {A : Type 0} (xs : List A) (k : ℕ) (a : A) → get_elem? xs k ≡ some a → k < length xs
get_elem?-lt [] k a e = absurd (ground arith)
get_elem?-lt (x ∷ xs) zero a e = omega arith
get_elem?-lt (x ∷ xs) (suc k) a e = omega (arith, get_elem?-lt xs k a e)

set-append :
    {A : Type 0} (pre : List A) (x y : A) (xs : List A)
    → set (pre ++ (x ∷ xs)) (length pre) y ≡ (pre ++ (y ∷ [])) ++ xs
set-append [] x y xs = refl
set-append (p ∷ pre) x y xs = ap (◌∷◌ p) (set-append pre x y xs)

zero_or_suc : (n : ℕ) → (n ≡ 0) ⊎ ((k : ℕ) × (n ≡ suc k))
zero_or_suc zero = inl refl
zero_or_suc (suc k) = inr (k, refl)

length-snoc : {A : Type 0} (xs : List A) (x : A) → length (xs ++ (x ∷ [])) ≡ length xs + 1
length-snoc xs x = length-append xs (x ∷ [])

-- One round: the head is put back, whether it was kept or left out.
fill_loop-step :
    (from pre : List (List ℕ)) (h : List ℕ) (kept : List (List ℕ)) (n : ℕ) (ps : List ℕ)
    (r : List (List ℕ))
    → index_plus_one from h ≡ n
    → fill_loop from (length pre + 1) ps ((pre ++ (h ∷ [])) ++ kept) ≡ ok r
    → fill_loop from (length pre) (n ∷ ps) (pre ++ ((if n == 0 then h else zero_hash) ∷ kept))
      ≡ ok r
unfolding fill_loop
fill_loop-step from pre h kept zero ps r e ih = rw (append_assoc pre (h ∷ []) kept) at ih
fill_loop-step from pre h kept (suc k) ps r e ih =
    let found : get_elem? from k ≡ some h = get_elem?-index_plus_one from h k e in
    let inside : ltb (length from) k ≡ false = ground (arith, get_elem?-lt from k h found) in
    rw (inside, found, fill_loop, set-append pre (if suc k == 0 then h else zero_hash) h kept) ih

fill_loop-kept :
    (from pre hs : List (List ℕ))
    → fill_loop from
        (length pre)
        (parent_indices from hs)
        (pre ++ kept_hashes hs (parent_indices from hs))
      ≡ ok (pre ++ hs)
unfolding fill_loop parent_indices kept_hashes
fill_loop-kept from pre [] = refl
fill_loop-kept from pre (h ∷ hs) = fill_loop-step from pre h _ (index_plus_one from h) _ _ refl (
    rw (← length-snoc pre h)
      (fill_loop-kept from (pre ++ (h ∷ [])) hs ∙ ap ok (append_assoc pre (h ∷ []) hs)))

kept_hashes-id :
    (from hs : List (List ℕ))
    → contains_hash (kept_hashes hs (parent_indices from hs)) zero_hash ≡ false
    → kept_hashes hs (parent_indices from hs) ≡ hs
unfolding contains_hash kept_hashes parent_indices
kept_hashes-id from [] e = refl
kept_hashes-id from (h ∷ hs) e = elim (Bool-cases (index_plus_one from h == 0)) [
  | inl z ↦ rw z (ap (◌∷◌ h) (kept_hashes-id from hs (ground arith)))
  | inr n ↦ absurd (ground (arith, bytes_eq_refl zero_hash))
]

length-parent_indices : (from hs : List (List ℕ)) → length (parent_indices from hs) ≡ length hs
unfolding parent_indices
length-parent_indices from [] = refl
length-parent_indices from (h ∷ hs) = ap suc (length-parent_indices from hs)

length-kept_hashes : (hs : List (List ℕ)) (ps : List ℕ) → length (kept_hashes hs ps) ≡ length hs
unfolding kept_hashes
length-kept_hashes [] ps = refl
length-kept_hashes (h ∷ hs) [] = ap suc (length-kept_hashes hs [])
length-kept_hashes (h ∷ hs) (p ∷ ps) = ap suc (length-kept_hashes hs ps)

unfilled :
    (from hs : List (List ℕ))
    → (ltb 0 (length (parent_indices from hs))
        && length (parent_indices from hs) == length (kept_hashes hs (parent_indices from hs))
        && contains_hash (kept_hashes hs (parent_indices from hs)) zero_hash)
      ≡ false
    → kept_hashes hs (parent_indices from hs) ≡ hs
unfilled from [] e = unfold kept_hashes in refl
unfilled from (h ∷ hs) e = kept_hashes-id from (h ∷ hs) (
    ground (
      arith,
      length-parent_indices from (h ∷ hs),
      length-kept_hashes (h ∷ hs) (parent_indices from (h ∷ hs)),
    ))

-- The block as a compact encoding leaves it: its hashes are kept or zero, and its indices are those
-- that FillTransactionParentIndices finds in `from`.
abbrev pub compacted : PoolBlock → List (List ℕ) → PoolBlock
compacted b from = record b {
  main = record b.main {
    transactions = kept_hashes b.main.transactions (parent_indices from b.main.transactions);
    transaction_parent_indices = parent_indices from b.main.transactions;
  };
}

-- A block that was made compact against its parent gets all of its transactions back when it is filled
-- from that parent.
pub fill_transactions-compacted :
    (b parent : PoolBlock)
    → is_parent_of parent b ≡ true
    → fill_transactions (compacted b parent.main.transactions) (some parent)
      ≡ ok b.main.transactions
unfolding fill_transactions is_parent_of needs_compact_transaction_filling
fill_transactions-compacted b parent e =
    split (Bool-cases (needs_compact_transaction_filling (compacted b parent.main.transactions)))
  where
    filled :
        fill_loop parent.main.transactions 0
          (parent_indices parent.main.transactions b.main.transactions)
          (kept_hashes b.main.transactions
            (parent_indices parent.main.transactions b.main.transactions))
        ≡ ok b.main.transactions
    filled = fill_loop-kept parent.main.transactions [] b.main.transactions

    split :
        (needs_compact_transaction_filling (compacted b parent.main.transactions) ≡ true)
          ⊎ (needs_compact_transaction_filling (compacted b parent.main.transactions) ≡ false)
        → fill_transactions (compacted b parent.main.transactions) (some parent)
          ≡ ok b.main.transactions
    split (inl y) = rw (y, e, filled, fill_transactions) refl
    split (inr n) =
        rw (n, fill_transactions) (ap ok (unfilled parent.main.transactions b.main.transactions n))
