-- ===== src/Lib.antt =====
-- Verification of the Hinkal Go SDK: the Merkle tree of commitments, the event emitter that keeps a
-- client in step with the chain, and the snapshot services that turn events into commitments,
-- encrypted outputs and spent nullifiers; the unspent outputs of a user (UTXOs), the reading of their
-- balance, and the amounts and fees of a transaction; the keys of a user.
--
-- How the parts interact. The emitter (internal/data-structures/eventservice/emitter.go) reads the
-- logs of the contract page by page and hands the events to its processors. Each snapshot service
-- (eventservice/snapshot.go) is such a processor: it marks the transactions that created blocked
-- UTXOs and gives every event of its name to its delegate. The delegate of
-- internal/data-structures/snapshot/commitments.go writes the commitment into the Merkle tree
-- (data-structures/merkletree/impl.go) and keeps the encrypted outputs; that of nullifiers.go keeps
-- the set of spent nullifiers. internal/functions/balance decodes the outputs that are the user's,
-- and leaves out those with a spent nullifier; what is left is sorted and padded to the sizes of the
-- circuits. The outputs of a transaction (internal/functions/pre-transaction) are made from those
-- inputs and the changes of the amounts, which the fees lower; the public values of the proof
-- (internal/functions/snarkjs) are computed from both. What an external action is to do is packed as
-- operations of the Emporium contract (internal/functions/private-wallet). The Hinkal object
-- (data-structures/hinkal) holds the adapters of the wallets and asks the parts above for balances.
-- Which outputs are the user's, and what is signed, is computed from the user's keys (cryptokeys,
-- internal/crypto).
--
-- Files.
--   Common      lists, `big.Int`, maps as association lists, error results, bit lengths, uint64, and
--               methods that change a state (Stateful).
--   Merkle      data-structures/merkletree/impl.go. A node's number is its index in the heap order,
--               the root is 1. Children: Levels (bit lengths of the nodes), Consistent (each stored
--               inner node is the hash of its children), Membership (a sibling path folds to the
--               root), Append and Grown (trees that grow leaf by leaf), Root (the root that the
--               scan finds and the path of a leaf), Json (the stored form; Json/Reverse is about the
--               reverse tree that is built for it), Tests.
--   Emitter     eventservice/emitter.go and the listener of client.go. The node is a record of
--               functions. Children: Pages (the pages of a range), Fetch (one contract, halved on
--               errors), Retrieve (the whole retrieval), Tests.
--   SolanaEmitter  eventservice/solana_emitter.go, over slots; Outcome is about its retrieval. The
--               batches of signatures are read on fuel, which the caller gives: nothing bounds how
--               many the chain has.
--   Decimal     the decimal text of math/big, which the stored forms and the amounts use.
--   Units       internal/functions/utils/decimals.go; RoundTrip is about both directions.
--   Emporium    internal/functions/private-wallet/emporium_ops.go. Bytes and Convert are about one
--               operation, Plan and Bridge about lists of them.
--   Inputs      internal/functions/balance: GetInputUtxoAndBalancePerToken, AddPaddingToUtxos and the
--               choice of stuck UTXOs. PerToken and Rows are about single rows, Grouped about
--               the UTXOs of a row, Rectangular about all of them.
--   Shielded    internal/functions/balance/get_shielded_balance.go, and the balances of hinkal.go.
--   Eddsa       internal/crypto: eddsa.go and poseidon.go, over a record of the curve and the hashes.
--               Scalar is about the pruned buffer, Laws about the signature, where the laws of the
--               curve that it relies on are a record.
--   Keys        cryptokeys/keys.go and keyutils.go; a method returns its answer and the keys it
--               leaves. Derived and Verify have the other methods; Steady, Methods and Calls are
--               about the kept key between two calls of SetSignature, Signed about signatures. Keys/Stealth has the stealth addresses,
--               with Pairs and Randomization about them. The loop of FindCorrectRandomization runs on
--               fuel that the caller gives: nothing in the code bounds it.
--   Sealed      cryptokeys/ecdh.go; RoundTrip is about all recipients of a message.
--   Stuck       internal/functions/transactions/withdraw_stuck_utxos.go. Withdraw is one withdrawal,
--               Loop the loop over them, on fuel: Finished shows how much is enough. Amounts is about
--               the changes, OnChain about the filter, Loop/Rounds about what a round
--               does and Loop/Ends about what it spends.
--   Deposit     internal/functions/transactions: deposit_and_withdraw.go and deposit_on_chain_utxos.go.
--               Flow is the deposit and the wait for the tree, Batch the withdrawals and the whole
--               flow. Matched is about the matching, Leaves about the wait, Batch/Scheduled about
--               the flow.
--   Chains      constants/chains.go: the lists of chains; Lists is about the tests on them.
--   Hinkal      data-structures/hinkal/hinkal_providers.go, and GetSupportedChains of hinkal.go.
--               Adapters is about the adapters held and released over any calls, as a data type of
--               what can be reached; Supported about the chains that have one.
--   Proof       internal/functions/snarkjs/common.go and EnsureAmountChanges. Amounts is about the
--               outputs of Funds, Balanced about what is accepted.
--   Snapshot    Snapshot/Service is eventservice/snapshot.go, Snapshot/Commitments and
--               Snapshot/Nullifiers are the delegates of internal/data-structures/snapshot, and
--               Commitments/Serialize the stored form. Their children hold the proofs,
--               Snapshot/Tests the runs.
--   Utxo        internal/utxo/utxo.go, over a record of primitives. Caching is about the values that a
--               UTXO keeps.
--   Balance     internal/functions/balance/input_utxos.go and balance.go. Incremental is about the
--               parts in which outputs are read, Unspent about the filters; Sorted has
--               sortAndPadUtxos of input_utxos_per_token.go and the choice of stuck UTXOs of
--               internal/functions/transactions/withdraw_stuck_utxos.go.
--   Funds       internal/functions/fees/fees.go and the output and fee code of
--               internal/functions/pre-transaction. Withdrawal, Outputs and Merge are about amounts;
--               Approvals has the helpers of internal/functions/transactions/proofless_deposit.go.
--
-- Conventions. A Go error is a value of `Result`, or `none` where nothing reads it; a panic is `none`,
-- or an error value of its own. uint64 arithmetic wraps, as written out in Common/Words. Text that the
-- program looks into is a list of bytes. A map is an association list; no definition depends on the
-- order of iteration but where a comment says so. Loops over a counter run on fuel: buildPages gets one more
-- round than the range has blocks, which is enough unless the counter wraps; the climb over parents
-- gets the index itself, which is more than its halvings; the padding of UTXOs gets seven rounds,
-- enough for the six inputs that it pads to.
--
-- Not modelled: the other flows of internal/functions/transactions, HTTP, RPC and wallets, the prover,
-- the arithmetic of elliptic curves and hashes
-- (Poseidon is a parameter of the tree), texts as numbers (ParseBigInt is a parameter of the keys), timers and mutexes, and
-- the registries of tokens, networks and deployed contracts.
pub mod Common
pub mod Merkle
pub mod Emitter
pub mod Snapshot
pub mod Utxo
pub mod Balance
pub mod Funds
pub mod SolanaEmitter
pub mod Decimal
pub mod Units
pub mod Deposit
pub mod Emporium
pub mod Chains
pub mod Hinkal
pub mod Proof
pub mod Inputs
pub mod Eddsa
pub mod Keys
pub mod Sealed
pub mod Shielded
pub mod Stuck
