-- ===== src/Lib.antt =====
-- The daemon of lndmobile (lnd/*.go), as state machines and stores over parameters for the other
-- packages.
--
-- Parts.
-- - Prelude: tests and lists over the native numbers; `int64` arithmetic with its wrap-around
--   (Prelude/Int); Go's maps as association lists (Prelude/Assoc); methods that change an object
--   and may fail or panic (Prelude/Exec).
-- - ChanCloser: lnd/chancloser.go. Fee is the fee arithmetic, State the types, Machine the methods
--   of `channelCloser`, and External what they call of other packages: the channel, the
--   broadcaster, the close context. The modules below and beside them hold the proofs.
-- - Wire: the types of btcd that several parts share. Codec: what the encodings share, over the
--   codecs of btcd and lnwallet as a record (`WireCodec`), of which Codec/Plain is an instance.
--   Bolt: what the stores use of bbolt, as a record of operations and laws, of which association
--   lists are an instance (Bolt/Lists).
-- - Nursery: Output has the types of the outputs (lnd/utxonursery.go, lnd/breacharbiter.go), and
--   Output/Codec their codecs. Store is lnd/nursery_store.go: its tables in Store, its helpers in
--   Buckets, the methods that change it in Transitions, the others and `RemoveChannel` in Queries.
--   Views says what a store holds by two functions, the output under a key of a channel
--   (`get_output`) and whether a key is filed at a height (`get_height_key`); Removal and Laws
--   relate the helpers to them, and the theorems on the methods are stated with them (Moves, Entry,
--   Incubation, Registration, Graduation, Maturity, Consistency, Reachable); Frame has what the moves
--   leave as it is. A transaction of bbolt that fails leaves the store as it was. Resolution has the constructors of the outputs and those that `IncubateOutputs`
--   builds, Sweep the sweep transactions, over the wallet of Breach/Wallet, and Report the nursery
--   reports. Incubator is `utxoNursery` (lnd/utxonursery.go), over the store, and over the chain and the
--   notifier as a record: Classes has the outputs that mature at a height, Requests what comes from
--   other parts and the start, and Confirmations the goroutines that wait, as entries of a list that
--   take their steps in any order. An output that a goroutine points to is a numbered variable of the
--   state, so that two goroutines may share one. The state lists the calls of `PublishTransaction`,
--   each with the store at that time and its success.
-- - Invoices: lnd/invoiceregistry.go, over the invoice database. Beacon: lnd/witness_beacon.go, over
--   the registry and the witness cache. Goroutines that were started are entries of a list.
-- - Breach: lnd/breacharbiter.go. Info and Codec are `retributionInfo` and its encoding; Store is
--   `retributionStore`, over byte keys, and Store/Reference the functions of channel points that it
--   implements. Justice builds the justice transaction, over the wallet (Wallet). Spends is the check
--   for outputs that were taken to the second level, and Retribution `exactRetribution` around it:
--   its steps call the store and the wallet, and the notifier and the chain as a record (Chain), and
--   list the calls that matter to other parts in their order. Its `goto` is counted by fuel;
--   Retribution/Rounds relates the fuel to the outputs, and Retribution/Ledger the calls to the writes
--   to the store, of which `Finalize` may fail. Observers has the goroutines that watch the
--   channels, as steps in any order; the steps of a shutdown, which ends them all, are left out. Start
--   is `breachArbiter.Start` over the answers of the rest of the daemon (`Daemon`).
-- - Server: lnd/server.go. Backoff has the backoff of a persistent peer. Peers is the bookkeeping of
--   peers: its state in Peers, what the handlers do under the lock in Handlers, and their calls in any
--   order in Actions.
--
-- Integers of fixed width wrap around as in Go: `int64` in Prelude/Int, and `uint32` and `uint64`
-- counters and heights by `% 2 ^ w`. All loops are structural recursion, but for the retries of
-- `exactRetribution`, which may have no end and are on fuel; the fuel that is enough is stated in terms of the outputs and
-- of the attempts that make no progress.
--
-- Not modelled: log lines, and the packages under vendor/, whose operations are fields of a record
-- that the methods take. They may change a `World`, about which nothing is assumed. Of lnd/*.go,
-- the funding manager, the message loops of the peers, the server's start, bootstrapping and
-- broadcasts, the shutdown of all parts, the RPC server and the configuration are not modelled.
pub mod Prelude
pub mod Wire
pub mod Bolt
pub mod Codec
pub mod Nursery
pub mod Server
pub mod Invoices
pub mod Breach
pub mod Beacon
pub mod ChanCloser
