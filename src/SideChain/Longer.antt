-- ===== src/SideChain/Longer.antt =====
-- IsLongerChain of p2pool/sidechain/utils.go: whether the chain moves from a block to a candidate.
pub mod Chosen
pub mod Ends
use Prim.Native.Nat.{Ordering}
use p2pool_observer.Prelude.{
  ℕ, zero, suc, ◌+◌, ◌-◌, ◌*◌, ◌/◌, ◌%◌, ◌^◌, min, max, Bool, true, false, not, ◌&&◌, ◌||◌, Option,
  none, some, List, [], ◌∷◌, ◌++◌, ltb, leb, ◌==◌, if◌then◌else◌, length,
}
use p2pool_observer.Codec.{Result, ok, stuck}
use p2pool_observer.Types.Uint128.{Difficulty}
use p2pool_observer.Types.Difficulty.{zero_difficulty, cmp, add}
use p2pool_observer.Types.Hash.{bytes_eq, zero_hash}
use p2pool_observer.SideChain.PoolBlock.{PoolBlock, contains_hash}
use p2pool_observer.SideChain.Consensus.{Consensus, block_time}
use p2pool_observer.SideChain.Verdict.{is_lt}
use p2pool_observer.SideChain.Window.{iterator_get_parent, cached_uncles}

-- The variables of the loop over both chains.
pub record Tally : Type 0 where
  pub block_total : Difficulty
  pub candidate_total : Difficulty
  pub mainchain_height : ℕ
  pub mainchain_min_height : ℕ
  pub block_seen : List (List ℕ)
  pub candidate_seen : List (List ℕ)

-- The block behind a pointer that may be nil.
unfoldable pub block_of : (ℕ → PoolBlock) → Option ℕ → Option PoolBlock
block_of heap none = none
block_of heap (some a) = some (heap a)

-- `heap` and `find` are those of the window; `main_height` is the height of the main chain's block with a
-- hash, and of its tip for the zero hash.
module _ (heap : ℕ → PoolBlock) (find : List ℕ → Option PoolBlock)
    (main_height : List ℕ → Option ℕ) where
  -- A block on the way back at a height or below it, or nil; the outer `none` is out of fuel.
  unfoldable pub descend : ℕ → ℕ → Option PoolBlock → Option (Option PoolBlock)
  descend zero height b = none
  descend (suc fuel) height none = some none
  descend (suc fuel) height (some b) = elim (ltb height b.side.height) [
    | true ↦ descend fuel height (iterator_get_parent heap find b)
    | false ↦ some (some b)
  ]

  -- Whether two blocks have one parent on the way back; `none` is out of fuel.
  unfoldable pub common_parent : ℕ → Option PoolBlock → Option PoolBlock → Option Bool
  common_parent zero p q = none
  common_parent (suc fuel) none q = some false
  common_parent (suc fuel) (some p) none = some false
  common_parent (suc fuel) (some p) (some q) = elim (bytes_eq p.side.parent q.side.parent) [
    | true ↦ some true
    | false ↦ common_parent fuel (iterator_get_parent heap find p) (iterator_get_parent heap find q)
  ]

  -- The search for a common ancestor.
  unfoldable pub on_one_chain : PoolBlock → PoolBlock → Option Bool
  on_one_chain block candidate =
      elim (descend (suc block.side.height) candidate.side.height (some block)) [
        | none ↦ none
        | some none ↦ some false
        | some (some p) ↦
            elim (descend (suc candidate.side.height) p.side.height (some candidate)) [
              | none ↦ none
              | some q ↦ common_parent (suc (suc p.side.height)) (some p) q
            ]
      ]

  -- The uncles' difficulties up to the first one that is not found, whose error is not looked at.
  unfoldable pub add_uncles : List (List ℕ) → Difficulty → Difficulty
  add_uncles [] total = total
  add_uncles (id ∷ ids) total = elim (find id) [
    | none ↦ total
    | some uncle ↦ add_uncles ids (add total uncle.side.difficulty)
  ]

  -- The difficulty of a block and its uncles on top of a total.
  unfoldable pub add_block : PoolBlock → Difficulty → Difficulty
  add_block b total =
      let own = add total b.side.difficulty in
      if length b.side.uncles == 0 then own else elim b.iteration_cache [
        | none ↦ add_uncles b.side.uncles own
        | some c ↦ cached_uncles heap find (λ uncle t. add t uncle.side.difficulty) c.uncles own
      ]

  unfoldable pub tally_block : Option PoolBlock → Tally → Tally
  tally_block none t = t
  tally_block (some b) t =
      let seen : List (List ℕ) = elim (main_height b.main.previous_id) [
        | none ↦ t.block_seen
        | some h ↦
            if contains_hash t.block_seen b.main.previous_id
            then t.block_seen
            else t.block_seen ++ (b.main.previous_id ∷ [])
      ] in
      record t { block_total = add_block b t.block_total; block_seen = seen }

  unfoldable pub tally_candidate : Option PoolBlock → Tally → Tally
  tally_candidate none t = t
  tally_candidate (some b) t =
      let gen_height = b.main.coinbase.gen_height in
      let counted = record t {
        mainchain_min_height =
            (if t.mainchain_min_height == 0
              then gen_height
              else min t.mainchain_min_height gen_height);
        candidate_total = add_block b t.candidate_total;
      } in
      if contains_hash t.candidate_seen b.main.previous_id
      then counted
      else elim (main_height b.main.previous_id) [
        | none ↦ counted
        | some h ↦ record counted {
          candidate_seen = t.candidate_seen ++ (b.main.previous_id ∷ []);
          mainchain_height = max t.mainchain_height h;
        }
      ]

  unfoldable pub parent_of : Option PoolBlock → Option PoolBlock
  parent_of none = none
  parent_of (some b) = iterator_get_parent heap find b

  -- The loop over both chains, with the rounds that are left; rounds without a block change nothing.
  unfoldable pub tally_loop : ℕ → Option PoolBlock → Option PoolBlock → Tally → Tally
  tally_loop zero old new t = t
  tally_loop (suc rounds) old new t =
      tally_loop rounds (parent_of old) (parent_of new) (tally_candidate new (tally_block old t))

  unfoldable pub no_tally : Tally
  no_tally = record {
    block_total = zero_difficulty;
    candidate_total = zero_difficulty;
    mainchain_height = 0;
    mainchain_min_height = 0;
    block_seen = [];
    candidate_seen = [];
  }

  -- The tests on the tally of two different chains.
  unfoldable pub overtakes : Consensus → Tally → Bool
  overtakes c t =
      let limit = c.chain_window_size * 4 % 2 ^ 64 * c.target_block_time % 2 ^ 64 / block_time in
      if not (is_lt (cmp t.block_total t.candidate_total))
      then false
      else elim (main_height zero_hash) [
        | none ↦ false
        | some tip ↦
            not (ltb ((t.mainchain_height + 10) % 2 ^ 64) tip)
            && not (ltb ((t.mainchain_min_height + limit) % 2 ^ 64) tip)
            && not (ltb (length t.candidate_seen * 2) (length t.block_seen))
      ]

  -- IsLongerChain: `isLonger` and `isAlternative`; nil blocks are `none`.
  unfoldable pub is_longer_chain :
      Consensus → Option PoolBlock → Option PoolBlock → Result (Bool × Bool)
  is_longer_chain c block none = ok (false, false)
  is_longer_chain c block (some candidate) =
      if not candidate.verified || candidate.invalid then ok (false, false) else elim block [
        | none ↦ ok (true, true)
        | some b ↦ elim (on_one_chain b candidate) [
          | none ↦ stuck
          | some true ↦
              ok (
                is_lt (cmp b.side.cumulative_difficulty candidate.side.cumulative_difficulty),
                false,
              )
          | some false ↦ ok (
            overtakes c (tally_loop c.chain_window_size (some b) (some candidate) no_tally),
            true,
          )
        ]
      ]
