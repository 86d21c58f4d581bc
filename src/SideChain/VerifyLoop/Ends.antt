-- ===== src/SideChain/VerifyLoop/Ends.antt =====
-- verifyLoop ends: a block gets its verdict at most once, and only then blocks are pushed.
use mathlib.Core.List.{Memᴰ}
use p2pool_observer.Prelude.{
  ℕ, zero, suc, ◌+◌, ◌*◌, ◌≤◌, ◌<◌, ◌≡◌, ◌≢◌, refl, sym, ap, ◌∙◌, arith, inl, inr, Bool, true,
  false, Option, List, [], ◌∷◌, length, All, Bool-cases,
}
use p2pool_observer.Codec.{Result, ok}
use p2pool_observer.Utils.NthElement.{then_result}
use p2pool_observer.SideChain.PoolBlock.{PoolBlock}
use p2pool_observer.SideChain.Verdict.{Verdict, verified, fails, looping, unverifiable, invalid}
use p2pool_observer.SideChain.State.{ChainState, Rules, write_block, broadcast_once}
use p2pool_observer.SideChain.State.Health.{IsLawful, Advance-trans}
use p2pool_observer.SideChain.State.Writes.{write-same, write-rule, if_rule}
use p2pool_observer.SideChain.VerifyLoop.{
  mark, fill_cache, fill_transaction_parent_indices, settle, announce, push_above, LoopState,
  higher_of, accept, judge, verify_one, verify_stack, entries, verify_fuel, start,
}
use p2pool_observer.SideChain.VerifyLoop.Pending.{
  pendings, pendings-le, pendings-lt, pendings-length, push_above-All, length-push_above,
}
use p2pool_observer.SideChain.State.Falls.{Falls}
use p2pool_observer.SideChain.VerifyLoop.Falling.{mark-Falls, settle-Falls, announce-Falls}
use p2pool_observer.SideChain.VerifyLoop.Healthy.{settled-Advance, announce-Advance}

-- What the rules need for an end: verifyBlock and isLongerChain end themselves, in the states in which
-- parents are below their children.
pub record IsAnswering (rules : Rules) : Type 0 where
  pub verifies : (s : ChainState) (a : ℕ) → Falls s → rules.verify_block s a ≢ fails looping
  pub compares :
      (s : ChainState) (o : Option ℕ) (a : ℕ)
      → Falls s
      → (r : Bool × Bool) × (rules.is_longer_chain s o a ≡ ok r)

product_le : (a b k : ℕ) → a ≤ b → a * k ≤ b * k
product_le a b k h = grind arith

product_lt : (a b k : ℕ) → a < b → a * k + k ≤ b * k
product_lt a b k h = omega (arith, product_le (suc a) b k h)

module _ (rules : Rules) (lawful : IsLawful rules) (answering : IsAnswering rules) where
  same_heights : (a : ℕ) (s : ChainState) → (announce a s).blocks_by_height ≡ s.blocks_by_height
  unfolding announce broadcast_once write_block
  same_heights a s =
      if_rule (λ (t : ChainState). t.blocks_by_height ≡ s.blocks_by_height)
        (s.heap a).want_broadcast
        (if_rule (λ (t : ChainState). t.blocks_by_height ≡ s.blocks_by_height)
          (s.heap a).broadcasted refl refl)
        refl

  settled_heights : (a : ℕ) (s : ChainState) → (settle a s).blocks_by_height ≡ s.blocks_by_height
  unfolding settle fill_transaction_parent_indices fill_cache mark write_block
  settled_heights a s = refl

  marked_verified : (a : ℕ) (s : ChainState) → ((mark true false a s).heap a).verified ≡ true
  unfolding mark write_block
  marked_verified a s =
      ap (λ b. b.verified)
        (write-same s.heap a (record (s.heap a) { verified = true; invalid = false }))

  marked_stays :
      (a : ℕ) (s : ChainState) (x : ℕ)
      → (s.heap x).verified ≡ true
      → ((mark true false a s).heap x).verified ≡ true
  unfolding mark write_block
  marked_stays a s =
      write-rule (λ x (b : PoolBlock). (s.heap x).verified ≡ true → b.verified ≡ true) s.heap a
        (record (s.heap a) { verified = true; invalid = false }) (λ v. refl) (λ x v. v)

  module _ (xs : List ℕ) where
    -- All blocks of the stack and of the heights are among `xs`, and parents are below their children.
    record Covers (stack : List ℕ) (s : ChainState) : Type 0 where
      of_stack : All (λ a. Memᴰ a xs) stack
      of_heights : All (λ a. Memᴰ a xs) (entries s.blocks_by_height)
      falls : Falls s

    -- The rounds that may still come, where `n` bounds the number of the heights' blocks.
    abbrev rounds : ℕ → List ℕ → ChainState → ℕ
    rounds n stack s = length stack + pendings s.heap xs * (3 * n)

    -- A round that ends has brought the end nearer.
    record Nearer (n : ℕ) (stack : List ℕ) (s : ChainState) (r : List ℕ × LoopState) : Type 0 where
      covers : Covers r.0 r.1.state
      small : length (entries r.1.state.blocks_by_height) ≤ n
      fewer : rounds n r.0 r.1.state ≤ rounds n stack s

    same_stack :
        (n : ℕ) (stack : List ℕ) (s : ChainState) (l : LoopState)
        → Covers stack s
        → length (entries s.blocks_by_height) ≤ n
        → l.state.blocks_by_height ≡ s.blocks_by_height
        → pendings l.state.heap xs ≤ pendings s.heap xs
        → Falls l.state
        → Nearer n stack s (stack, l)
    same_stack n stack s l c b same fewer falls = record {
      covers = record { of_stack = c.of_stack; of_heights = rw same c.of_heights; falls = falls };
      small = rw same b;
      fewer = omega (arith, product_le _ _ (3 * n) fewer);
    }

    accept-Nearer :
        (n a : ℕ) (stack : List ℕ) (l : LoopState)
        → Memᴰ a xs
        → Covers stack l.state
        → length (entries l.state.blocks_by_height) ≤ n
        → (l.state.heap a).verified ≡ false
        → (r : List ℕ × LoopState) × (accept rules a stack l ≡ ok r) × Nearer n stack l.state r
    unfolding accept then_result
    accept-Nearer n a stack l m c b before =
        let settled = settle a l.state in
        let falls = settle-Falls a l.state c.falls in
        let (r, answered) = answering.compares settled l.highest a falls in
        let announced = announce a settled in
        let marked = mark true false a l.state in
        let same : announced.blocks_by_height ≡ l.state.blocks_by_height =
          same_heights a settled ∙ settled_heights a l.state in
        let later =
          Advance-trans rules (settled-Advance rules lawful a l.state)
            (announce-Advance rules lawful a settled) in
        let fewer =
          pendings-lt l.state.heap announced.heap
            (λ x v. (later.grown x).still_verified (marked_stays a l.state x v)) xs a m before
            ((later.grown a).still_verified (marked_verified a l.state)) in
        let height = (announced.heap a).side.height in
        let heights : All (λ x. Memᴰ x xs) (entries announced.blocks_by_height) =
          rw same c.of_heights in
        let small : length (entries announced.blocks_by_height) ≤ n = rw same b in
        (
          (
            push_above announced height stack,
            record l { highest = higher_of l.highest a r.0; state = announced },
          ),
          rw (answered, accept, then_result) refl,
          record {
            covers = record {
              of_stack = push_above-All (λ x. Memᴰ x xs) announced height stack heights c.of_stack;
              of_heights = heights;
              falls = announce-Falls a settled falls;
            };
            small = small;
            fewer =
                omega
                  (arith, length-push_above announced height stack, product_lt _ _ (3 * n) fewer);
          },
        )

    mark-pendings :
        (v i : Bool) (a : ℕ) (s : ChainState)
        → (s.heap a).verified ≡ false
        → pendings (mark v i a s).heap xs ≤ pendings s.heap xs
    unfolding mark write_block
    mark-pendings v i a s before =
        pendings-le s.heap (mark v i a s).heap
          (write-rule (λ x (b : PoolBlock). (s.heap x).verified ≡ true → b.verified ≡ true) s.heap a
            (record (s.heap a) { verified = v; invalid = i })
            (λ e. absurd (let no_yes : false ≡ true = sym before ∙ e in cc)) (λ x e. e))
          xs

    -- A round of the loop ends, whatever the verdict.
    abbrev Goes : (n a : ℕ) (stack : List ℕ) (l : LoopState) → Result (List ℕ × LoopState) → Type 0
    Goes n a stack l result = (r : List ℕ × LoopState) × (result ≡ ok r) × Nearer n stack l.state r

    judge-Nearer :
        (n target a : ℕ) (v : Verdict) (stack : List ℕ) (l : LoopState)
        → Memᴰ a xs
        → Covers stack l.state
        → length (entries l.state.blocks_by_height) ≤ n
        → (l.state.heap a).verified ≡ false
        → rules.verify_block l.state a ≡ v
        → Goes n a stack l (judge rules target a v stack l)
    unfolding judge mark write_block
    judge-Nearer n target a verified stack l m c b before e = accept-Nearer n a stack l m c b before
    judge-Nearer n target a (fails looping) stack l m c b before e =
        absurd (answering.verifies l.state a c.falls e)
    judge-Nearer n target a (fails (invalid r)) stack l m c b before e = (
      _,
      refl,
      same_stack n stack l.state _ c b refl (mark-pendings true true a l.state before)
          (mark-Falls true true a l.state c.falls),
    )
    judge-Nearer n target a (fails (unverifiable r)) stack l m c b before e = (
      _,
      refl,
      same_stack n stack l.state _ c b refl (mark-pendings false false a l.state before)
          (mark-Falls false false a l.state c.falls),
    )

    verify_one-Nearer :
        (n target a : ℕ) (stack : List ℕ) (l : LoopState)
        → Memᴰ a xs
        → Covers stack l.state
        → length (entries l.state.blocks_by_height) ≤ n
        → Goes n a stack l (verify_one rules target a stack l)
    unfolding verify_one
    verify_one-Nearer n target a stack l m c b = elim (Bool-cases (l.state.heap a).verified) [
      | inl done ↦
          rw done ((stack, l), refl, same_stack n stack l.state l c b refl (omega arith) c.falls)
      | inr before ↦
          rw before
            (judge-Nearer n target a (rules.verify_block l.state a) stack l m c b before refl)
    ]

    verify_stack-ends :
        (n fuel target : ℕ) (stack : List ℕ) (l : LoopState)
        → Covers stack l.state
        → length (entries l.state.blocks_by_height) ≤ n
        → rounds n stack l.state ≤ fuel
        → (m : LoopState) × (verify_stack rules fuel target stack l ≡ ok m)
    unfolding verify_stack then_result
    verify_stack-ends n fuel target [] l c b enough = (l, refl)
    verify_stack-ends n zero target (a ∷ stack) l c b enough = absurd (omega (arith, enough))
    verify_stack-ends n (suc fuel) target (a ∷ stack) l c b enough =
        let rest : Covers stack l.state = record {
          of_stack = c.of_stack.1;
          of_heights = c.of_heights;
          falls = c.falls;
        } in
        let (r, goes, nearer) = verify_one-Nearer n target a stack l c.of_stack.0 rest b in
        let (m, end) =
          verify_stack-ends n fuel target r.0 r.1 nearer.covers nearer.small
            (omega (arith, enough, nearer.fewer)) in
        (m, rw goes end)

  Memᴰ-All : (xs ys : List ℕ) → ((a : ℕ) → Memᴰ a ys → Memᴰ a xs) → All (λ a. Memᴰ a xs) ys
  Memᴰ-All xs [] f = tt
  Memᴰ-All xs (y ∷ ys) f = (f y (Memᴰ.head refl), Memᴰ-All xs ys (λ a m. f a (Memᴰ.tail m)))

  -- The rounds that verifyLoop is given are enough: from every state in which parents are below their
  -- children, and for every block, its loop over the stack ends, where verifyBlock and isLongerChain end in
  -- such states.
  pub verify_stack-end :
      (a : ℕ) (s : ChainState)
      → Falls s
      → (l : LoopState) × (verify_stack rules (verify_fuel s) a (a ∷ []) (start s) ≡ ok l)
  unfolding verify_fuel start
  verify_stack-end a s falls =
      let xs = a ∷ entries s.blocks_by_height in
      verify_stack-ends xs (length xs) (verify_fuel s) a (a ∷ []) (start s)
        (record {
          of_stack = (Memᴰ.head refl, tt);
          of_heights = Memᴰ-All xs (entries s.blocks_by_height) (λ x m. Memᴰ.tail m);
          falls = falls;
        })
        (omega arith) (omega (arith, product_le _ _ (3 * length xs) (pendings-length s.heap xs)))
