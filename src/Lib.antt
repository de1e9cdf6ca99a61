-- ===== src/Lib.antt =====
-- A verification of the NFT auction chain: the pallet that trades the items, the address format
-- and the constants of its runtime, and the parts of the node that decide something. Items are
-- created, transferred and removed by their owners; an owner lists an item for a time and a
-- price range; others bid, which locks the price, or vote, which locks any amount; a bid at the
-- end price or a settlement after the time sells the item, and the seller pays the voters a
-- share of the price.
--
-- - Prelude and its children: tests on numbers, maps as functions, lists, sums and products of
--   bounds, and `do` for computations that may panic.
-- - Frame: what the code takes from FRAME, from the balances pallet and from substrate-fixed,
--   none of which is in the repository, as records of operations with their documented
--   behaviour as laws (Currency, Fixed, Host), and the laws of a build with overflow checks
--   (Checked).
-- - Nft.Types, Nft.Effects: the storage, structs, events and errors of pallets/nft/src/lib.rs,
--   and how a dispatchable runs: it is done, has failed, or has panicked.
-- - Nft.Payout: `Module::algorithm`, one function per stage (terms, weigh_votes, pay_votes);
--   its children are about what a payout has computed (Rounds), the payments (Profit), the
--   exchange rate (Rate), the panics (Panics), the runs without one (Within, Returns,
--   Complete), and all of it on natural numbers (Reference, with Votes for the loop, Shares for
--   the payments and Payments for the rest).
-- - Nft.Parts, Nft.Calls, Nft.Dispatch: the helpers of `impl Module`, the dispatchables under
--   their own names, and `Call` with its dispatch, the steps of a chain and the states that it
--   reaches.
-- - Nft.Steps, Nft.States, Nft.Guards, Nft.Cases: the final states of the calls, written out,
--   and for each call the guards that it passes and the state in which it ends; Nft.Reasons:
--   what is wrong for each error that a call can return.
-- - Nft.Acceptance: the conditions under which each call is accepted and the state that it then
--   leaves, as a relation that runs nothing, and those under which it panics; Exact, Errors and
--   Outcomes compare them with the calls.
-- - Nft.Market: the abstract view of the items (absent, held, or on sale in an auction); the
--   ways in which an item can change; and the calls as such changes.
-- - Nft.WellFormed, Nft.Backing, Nft.Trading: the invariant of the storage, the backing of bids
--   and votes by reserved balances, and what calls do to items, funds and orders.
--   Nft.Trading.Listing, Bidding and Voting are about what a sale, a bid and a vote achieve,
--   Nft.Trading.Moving about whose money a call moves (with Nft.Trading.Funds for what an
--   account has in all), Nft.Trading.Paying about the transfers of a payout, whose results the
--   code drops, Nft.Trading.Earnings about what each vote is paid, and Nft.Trading.LateVotes
--   and LateOrders about orders with a vote after their end. Nft.WellFormed.Ranges is about the
--   greatest values of the types, Nft.Backing.Pledges about the votes of an order as a quotient
--   that forgets their order.
-- - Nft.Mock: pallets/nft/src/mock.rs, and as tests pallets/nft/src/tests.rs.
-- - Address: runtime/src/multiaddress.rs. Runtime: the constants of runtime/src/lib.rs and the
--   configuration of the pallet with them; Runtime.BlockWeights: its limits on blocks and
--   transactions, and the weights that the pallet declares; Runtime.Fees: the settings of the
--   fees, over the module that computes them; Runtime.Apis: `impl_runtime_apis!`, as one
--   function `answer` over the modules of FRAME, with the benchmarks in
--   Runtime.Apis.Benchmarks. Of Runtime, the children Numbers, Prices, Fits, Weights, Sales and
--   Settlement are about the sizes of the numbers in a sale with these constants.
-- - Node.ChainSpec: node/src/chain_spec.rs, over the derivation of keys from seeds. Node.Cli:
--   node/src/cli.rs. Node.Command: `load_spec` and `run` of node/src/command.rs; Node.About:
--   the rest of its `impl SubstrateCli`. Node.Rpc: node/src/rpc.rs, over the handler of
--   jsonrpc-core. Node.Calls: the calls of Substrate, each with what it is given and what it
--   makes, and Node.Running: how they are made in turn, up to one that fails. Node.Service:
--   node/src/service.rs as such calls, with Full for `new_partial` and `new_full` and Light for
--   `new_light`; `run_node` is the choice of node/src/command.rs. Node.Service.Roles and
--   Starting are about what the settings allow, and Node.Command.Runs about when a subcommand
--   is run.
-- - The modules named Tests: a host that runs, concrete states and the theorems at them.
--
-- Numbers are the native ones. Identifiers, balances and blocks are unsigned in the source;
-- where it uses checked operations, these are written out with the greatest value of the type
-- as a field of the configuration. All loops of the pallet run over lists and are structural,
-- so that no fuel is needed; `run_to_block` of the mock runs on fuel, which is the greatest
-- number of rounds, and one round for each block to go is enough. A missing entry of a map
-- reads as the source's default. Account keys are numbers, since they are only compared.
--
-- A panic is an outcome of its own, and voids the block. An error keeps what the call wrote
-- before it, since this version of FRAME runs dispatchables without a storage layer. The
-- operations of U64F64 panic on a division by zero always. On an overflow they panic in a build
-- with overflow checks, and wrap around in one without, as the release profile of Cargo.toml
-- is. The laws of Fixed hold in both: a result that fits is rounded down, and another is never
-- more than the exact one. What rests on the panic has Checked as a hypothesis. The reference
-- of the payout takes what a build does with a result as a parameter: nothing, or a remainder.
-- For sales under the constants of the runtime three bounds are chosen, from the size of the
-- stock, which is up to 1,752 times the price for an auction of an hour and 36.5 times for one
-- of two days, beside the votes and below 2^64: a price of at most 50 dollars, votes of at most
-- 9 * 10^18 in all, and a price of at least 5,100 dollars. Between calls, other pallets may
-- change the ledger, but not the reserved balances.
--
-- Not modelled: log messages, the types that the runtime and the mock assign in the traits of
-- the other pallets, the generated parts of the runtime, and what FRAME's modules do behind its
-- APIs, the arguments of the subcommands, and what the node's components, commands and RPC
-- handlers do, all of which is Substrate's. The fields of a chain specification that are empty
-- are left out.
pub mod Prelude
pub mod Frame
pub mod Nft
pub mod Address
pub mod Runtime
pub mod Node
