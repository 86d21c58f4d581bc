-- ===== src/Lib.antt =====
-- Verification of p2pool-observer, a Go library that reads, checks and stores the shares of the
-- P2Pool side chain of Monero.
--
-- A share is a Monero block whose miner transaction pays the miners of a window of earlier shares.
-- The decoders turn the bytes of a block into its miner transaction (outputs, extra tags) and its side
-- data; the side chain weighs the shares by difficulty, splits the block reward by weight, and orders
-- hashes and difficulties by consensus rules; the mempool package picks the transactions of a block.
--
-- Files, by part of the program:
-- - Prelude and its children: the Boolean tests, list functions and lemmas that all files share.
-- - Codec: byte streams as lists, decoders as functions to a result and the bytes that are left, and
--   what the program calls of Go's io and encoding/binary (ReadFull, ReadByte, ReadUvarint,
--   AppendUvarint, the little-endian forms). A result is a value, an error, a panic, or `stuck`, which
--   is a loop of the model that ran out of fuel.
-- - Utils.Number: UVarInt64Size of utils/number.go.
-- - Utils.SeedHeight: SeedHeight and SeedHeights of monero/randomx/randomx.go.
-- - Utils.CircularBuffer: utils/circular_buffer.go, its operations as functions on the buffer.
-- - Types.Uint128: the interface to the package lukechampine.com/uint128 that the repository does not
--   hold, with its documented behaviour as laws; `exact` is an instance.
-- - Types.Difficulty: types/difficulty.go (Cmp, Add, Mul64, DifficultyFrom64, Target).
-- - Types.ProofOfWork: DifficultyFromPoW and CheckPoW of types/difficulty.go; the division of
--   github.com/holiman/uint256 is a parameter.
-- - Types.Hash: Compare of types/types.go, CompareConsensusPublicKeyBytes of monero/crypto/crypto.go.
-- - Types.Protocol: the feature tests of p2pool/types/protocol.go and version words of version.go.
-- - Transaction.Output, Transaction.Extra, Transaction.Coinbase: output.go, extra.go and coinbase.go of
--   monero/transaction, and utils/limitreader.go. FromReader is a decoder on the receiver's old value,
--   AppendBinary a function on the buffer so far.
-- - Block: monero/block/block.go, and monero/block/reward.go in Block.Emission. FromReaderFlags is a
--   decoder on the receiver's old value.
-- - Block.Merkle: RootHash of monero/crypto/merkle.go, PreviousPowerOfTwo of utils/number.go, and the
--   hashing blob, the identifier and the hash of the proof of work of monero/block/block.go.
-- - Arrays: the exchange of two elements of a slice.
-- - Utils.Shuffle: utils/xorshift64star.go, and ShuffleShares and ShuffleSequence of
--   p2pool/sidechain/utils.go, over a parameter for Keccak-256.
-- - SideChain.SideData: p2pool/sidechain/sidedata.go.
-- - SideChain.PoolBlock: p2pool/sidechain/poolblock.go. FromReader and FromCompactReader are one decoder
--   with a flag; the derivation of keys is a parameter, and the cache of hashes is left out.
-- - SideChain.Consensus: the parameters of p2pool/sidechain/consensus.go, their check and the
--   identifiers; the hashes are parameters.
-- - SideChain.Verdict, SideChain.Uncles, SideChain.Verify: verifyBlock of p2pool/sidechain/sidechain.go.
--   Blocks live on a heap behind addresses, blocksByTemplateId is a lookup function, and the chain's
--   getDifficulty and getShares, which SideChain.Chain fills in, and the derivation of output keys are
--   parameters. The outputs are
--   checked in parallel in the source and one after another here, since the checks only read.
-- - SideChain.Share, SideChain.Reward: Share of p2pool/sidechain/share.go and SplitReward of
--   p2pool/sidechain/utils.go.
-- - SideChain.Shares: the order and the compaction of p2pool/sidechain/share.go, ComparePacked of
--   monero/address/packed.go, GetSharesOrdered and GetShares of p2pool/sidechain/utils.go; Go's sort is
--   a parameter. Compact works in place in the source: the index never passes the share at hand.
-- - SideChain.Longer: IsLongerChain of p2pool/sidechain/utils.go; the main chain's blocks are a function
--   from their hashes to their heights.
-- - SideChain.NextDifficulty: GetDifficultyForNextBlock and NextDifficulty of p2pool/sidechain/utils.go. The
--   panics that the last section of NextDifficulty recovers from are its error.
-- - Utils.NthElement: utils/nthelement.go, over a comparison, for both of its variants.
-- - SideChain.State: the state of SideChain in p2pool/sidechain/sidechain.go and its lookups. Blocks are
--   on a heap, swiss maps are association lists, and the calls of the server that have an effect are a
--   list, newest first. What the operations call is the record Rules; Chain fills it.
-- - SideChain.Prune, SideChain.Tip, SideChain.VerifyLoop, SideChain.Depths, SideChain.AddBlock:
--   pruneOldBlocks, updateChainTip, verifyLoop, updateDepths and AddPoolBlock as functions from a state
--   to a result with a state. A stack is a list with its top first.
-- - SideChain.Missing: GetMissingBlocks, BlockSeen, BlockUnsee and the smaller methods.
-- - SideChain.Possible: GetPossibleUncles. Its walk down from the tip has a round for every height.
-- - SideChain.Chain: getDifficulty, getShares, isLongerChain and verifyBlock on the state, and the Rules
--   that they make.
-- - SideChain.External: AddPoolBlockExternal of p2pool/sidechain/sidechain.go. What it calls outside of
--   the side chain is the record Outside, and PreprocessBlock is an argument.
-- - SideChain.Outputs: CalculateOutputs of p2pool/sidechain/utils.go; the work that the source does in
--   parallel is done in order.
-- - SideChain.HardFork: p2pool/sidechain/hardfork.go.
-- - SideChain.Window: BlocksInPPLNSWindow of p2pool/sidechain/utils.go, with the pointers between blocks
--   as addresses and the block store as a lookup function.
-- - SideChain.Penalty: ApplyUnclePenalty of p2pool/sidechain/consensus.go.
-- - Mempool and its children: p2pool/mempool/mempool.go (Fees, Weight, Compare, GetBlockReward, Pick).
-- - Examples: concrete values at which the theorems apply.
--
-- Numbers are natural numbers; where Go's unsigned integers wrap, the definitions say % 2 ^ 64 (or
-- the width at hand). Bytes are numbers below 256. A loop over a list is structural recursion. The
-- loop over extra tags, which ends with the stream, runs on fuel: one round more than there are
-- bytes, which is enough since each round takes a byte. Reverse of the circular buffer swaps at most
-- half as often as there are elements, and has as many rounds. The walk down the PPLNS window has
-- one round more than the window is long, which is enough since the depth grows by one each time.
-- The walks of verifyBlock and IsLongerChain have a round for every height, and the search for a common
-- parent one more, which is enough where each block is higher than its parent.
-- verifyLoop has a round for the block and, for each block that is known, three heights' blocks. The
-- second loop of updateDepths takes its rounds as an argument.
-- The selection has a round for every element, which is enough since each round narrows the range.
--
-- Not modelled: storage, network clients, servers, the API and the logging, which are input and
-- output; the cryptography and the addresses, which stand on external libraries; the JSON and
-- database forms of the types; and, of the shares, the preprocessing of compact blocks from peers.
-- The locks of the side chain are left out: its methods run one after another. A panic or an
-- endless loop inside an operation on its state loses the state.
pub mod Prelude
pub mod Codec
pub mod Arrays
pub mod Utils
pub mod Types
pub mod Transaction
pub mod Block
pub mod Mempool
pub mod SideChain
pub mod Examples
