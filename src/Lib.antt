-- ===== src/Lib.antt =====
-- The pure core of the Silvana book agent: the state that an agent keeps while it quotes, reserves and
-- settles, and the decisions it takes on it.
--
-- The program. The cloud agent (crates/cloud-agent) answers requests for quotes, reserves holdings and
-- settlement tickets for them, and settles; its library (crates/agent-logic) tracks the orders that it
-- signed and stops quoting while the ledger cannot be reached. The parts that are modelled:
--
-- Holdings (crates/cloud-agent/src/holdings_cache.rs), the cache of holdings with its pools available,
-- consumed and reserved. Holdings has the data and the expiry of reservations; Holdings.Pools the
-- snapshots (refresh_from_acs_snapshot, add_created) and the tests of what may be used
-- (get_selectable, splitter_reserve, the totals); Holdings.Reserve the reservations
-- (reserve_with_kind, mark_consumed, release_reservations, cleanup_expired_reservations);
-- Holdings.Pick the greedy selection select_from; Holdings.Choose select_for_disclosure_with; and
-- Holdings.Ladder the counts for the ladder of denominations. Proofs: Reservations, Held, Refresh,
-- Selectable, Picked, Sums, Covering, Complete, Ids, Disclosure, Funding and Rungs.
--
-- OrderTracker (crates/agent-logic/src/order_tracker.rs), the orders and what of them is settled or
-- pending. OrderTracker has the data and the placement guards, OrderTracker.Verify the checks of a
-- proposal, OrderTracker.Settle the account of quantities, OrderTracker.Submits the failed submits and
-- OrderTracker.Saved the state file. Proofs:
-- Admission, Placements, Capacity, Outcome, Adoption and Restart.
--
-- TicketPool (crates/cloud-agent/src/ticket_pool.rs), the tickets that settlements consume. Proofs:
-- Assign, Reconcile, Lifecycle, Invariant and Persist.
--
-- PaymentQueue (crates/cloud-agent/src/payment_queue.rs), the limits of its workers, the order of its
-- heap and its shared channel, and in PaymentQueue.Select the selection of amulets. Proofs: Limits,
-- Order, Streak and Cover.
--
-- LedgerHealth (crates/agent-logic/src/ledger_health.rs), the circuit breaker. Proofs: Breaker and
-- Messages.
--
-- TxVerifier (crates/tx-verifier/src/hasher.rs and lib.rs), the hash of a prepared transaction, which
-- the agent recomputes before it signs. TxVerifier.Acc has the accumulator of bytes, TxVerifier.Value
-- the encoding of values, TxVerifier.Node that of nodes, TxVerifier.Walk the walk over the nodes of a
-- transaction, TxVerifier.Metadata the hash of the metadata and TxVerifier.Verify the final hash and
-- its comparison with the server's. Proofs: Reader, ValueReader, ValueLengths, ValueParts and
-- ValueRoundTrip (values are read back), CreateRoundTrip and SeedLength (created contracts),
-- MetadataReader, MetadataRoundTrip, Binding and FinalHash (what one hash means), Visits, Merkle and
-- Coverage (the walk), PartySets and Signed.
--
-- SplitWorker (crates/cloud-agent/src/split_worker.rs, and plan_merge of merge_worker.rs), how
-- holdings are split off the reserve. SplitWorker has the plans, SplitWorker.Gate the budget and
-- cooldown, SplitWorker.Fund what the reserve can pay, SplitWorker.Chunks what a chunk leaves of a
-- request, SplitWorker.Decide the whole decision up to the submission, and SplitWorker.Attempts the
-- operations of one instrument one after the other, through the holdings cache. Proofs: Plan, Budget,
-- GateAnswers, Justified, Answers, Outstanding and HourlyBudget. What the package promises of prices
-- is the record SplitWorker.Budget.Payments, which holds for SplitWorker.Sample.
--
-- Common has what they share: lists and tests on the native numbers, a hash map as an association list
-- (Common.Dict), strings as code points (Common.Text), integers (Common.Int) and decimal numbers
-- (Common.Decimal). The parts meet in the agent's handlers, which are not modelled: a quote selects
-- and reserves holdings and takes a ticket, a settlement is verified by the tracker and reserved there
-- once the counterparty has committed, and the breaker stops both.
--
-- State and time. A lock that is held to the end of a method makes the method one step on a record.
-- Clocks are arguments: `Instant` is a number of nanoseconds, wall clocks are in milliseconds. The
-- order in which a hash map is walked is that of the list, which the theorems leave open. Machine
-- integers saturate where the source says so.
--
-- Outside. Decimal numbers come from the package rust_decimal, so Common.Decimal.Decimal is a
-- parameter, with what the package documents as the records Amounts, Margins and Saturates: sums of
-- amounts with at most ten decimal places are exact while they stay in range. Common.Decimal.Sample is
-- one arithmetic for which these hold. Signatures, base64 and the reading of decimals are the record
-- OrderTracker.Outside.
--
-- SHA-256, hexadecimal and base64 text and the decoding of protobuf are parameters of TxVerifier, which asks
-- of SHA-256 only that its hashes have 32 bytes. A string is a list of bytes there, and an integer
-- its bit pattern: the program's strings are those lists that are UTF-8, and the theorems hold of all.
--
-- Fuel. TxVerifier.Walk.hash_node counts the levels that it may still go down, from 256, the limit of the
-- source: TxVerifier.Coverage proves that they never run out. Every other loop is a recursion on a list or
-- on the number of inputs that are still allowed.
--
-- Not modelled: network and ledger calls, the workers' asynchronous code, logging and error reports;
-- the parsing of split settings, canonical messages, and the inspection of a transaction's content, whose
-- answer is an argument of TxVerifier.Verify.verify_and_hash.
pub mod Common
pub mod Holdings
pub mod LedgerHealth
pub mod OrderTracker
pub mod PaymentQueue
pub mod SplitWorker
pub mod TicketPool
pub mod TxVerifier
