-- ===== src/Lib.antt =====
-- A verification library for the rules of Monopoly Bank, a banking companion for a Monopoly game at
-- the table: players' wallets, the property registry of a board game, the log of transactions,
-- loans, auctions, reversals and bankruptcies. The rules are the pure functions under
-- shared/domain; the Worker (worker/services/banking-service.ts) reads the state of a game, calls
-- one of them, and writes the pending transaction that comes back as one batch of guarded SQL
-- statements (worker/repositories).
--
-- Parts:
--   Types      shared/types/monopoly.ts and shared/board/types.ts: the records, with the fields
--              that the rules read.
--   Outcome    shared/domain/banking-errors.ts, property-errors.ts and the errors of auction.ts: one
--              constructor per error. A function that may throw returns a `Result`; the checks run
--              in the source's order, as a do block.
--   Money      mortgage.ts (redemptionCost, normalizePropertyName), bank-loan.ts
--              (bankLoanInterest), game-rules.ts (deriveMoneyUnit, buildGameSettings).
--   Property   property.ts: Lookup (requireTile, stateOf, holdsFullGroup, canMortgage), Changes
--              (ownerChange, invertChanges, applyChanges), Levels and Blockers (the rules of one
--              step), Plan (planBuildings, prices), Build (what a plan promises), Undo (taking changes back),
--              Rent (rentFor).
--   Reversal   participants.ts and reversal.ts: what can be reversed, by whom, and what blocks it.
--   Banking    banking.ts: Command (the commands), Pending (the results), Guards (validateGame and
--              the ensure functions), Deltas (transferDeltas to createResult), Transfers (the eight
--              payments), Loans, Holdings (auctionPayment is `pay_auction`, propertyPurchase is
--              `purchase_property`, payRent is `rent_payment`), Trade (buildings and
--              transferProperties), Undo (reverseTransaction), Bankruptcy, Preview (previewDeltas,
--              and player-control.ts), Dispatch (the switch of the Worker, as one data type of
--              operations). Effects holds the theorems on what an operation that returns has done.
--   Auction    auction.ts and auction-rules.ts.
--   Rounds     round-tracking.ts and winner-calculation.ts.
--   Store      the tables of the database and what worker/repositories writes to them: Tables, Writes
--              (balance-statements.ts and the statements on the ledger, the registry and the pot),
--              Records (mortgages and loans), Closing (auctions and trades), Insolvency (bankruptcy),
--              Persist (banking-operation-repository.ts), Pending (payment-request-repository.ts and
--              trade-request-repository.ts). Wallets, Written, Deeds, Settled, Once
--              and Closed hold their laws.
--   Service    worker/services/banking-service.ts with bank-loan-view.ts and rule-guard.ts: Reads (the
--              reads of the repositories), LoanView, Requests (contracts/api.ts), Checks, Lookups and
--              Run (what each request reads and checks, and the rule it calls), Offers (confirmation
--              requests), Commit (the commands), Failures (why a write failed, and bankruptcy),
--              Answers (payment requests), Trades. Asked, Runs, Commands, Repeats, Settling,
--              Replay, Conservation, Reserves and Finality hold their laws.
--   Tests      a sample game and a sample database, at which the theorems are applied.
--   Prelude    integers over the native numbers, list and Boolean helpers.
--
-- Modelling. A banking rule takes a command that carries the game, its players and the registry,
-- and returns the balance changes and the pending transaction; it mutates nothing. The database is
-- a record of tables. A statement is a function of its table, a batch is the chain of its
-- statements, and a statement that breaks a CHECK or a key fails with `database_error` and leaves
-- the store as it was, as D1 documents a batch. An operation of the service takes the store, the
-- time and the fresh id, and returns the store after it. One that fails returns no store: what it
-- wrote before the failure (expired requests, or the first of several confirmation requests) is
-- not in the model; only `resolve_trade_request`, which answers an error after its writes, returns
-- the store with its result. The statements that settle a payment request read the clock one by
-- one, so that `settle` takes a time for the guard of the balances and one for the update of the
-- request. A command runs to its end before the next: what another command writes between the
-- reads and the batch is the freedom of the store at which `write_operation` is stated. An id of a
-- request made from a command is the command's id with the last hexadecimal digit replaced by a
-- position, here the last digit of the number to the base 16; a game has at most six players, so
-- that one digit is enough. Ids are strings that the code only compares; here they are numbers. A
-- JavaScript number is an integer without bounds: every amount passes `Number.isSafeInteger`,
-- which is kept, and sums of safe amounts that round above 2^53 stay unsafe. Amounts that are no
-- whole number are refused by that same test and have no model here. A refund rate such as 0.5 is
-- a fraction; the distances of deriveMoneyUnit are scaled by 150, so that they are whole, and
-- compared exactly, where the code compares them as doubles. Times are milliseconds as numbers.
-- The text functions of the runtime (normalize, trim, the lower case, the length and the test for
-- forbidden characters) are the fields of `TextHost`, a parameter. A field that is absent or null
-- is `none`; an empty list of registry changes stands for an absent one where the code leaves the
-- field out. A street level below zero, which the registry does not hold, has the rent zero and is
-- refused like a missing rent. All loops are structural recursion over a list; the search of
-- deriveMoneyUnit has twelve rounds, as in the code, and no function needs other fuel.
--
-- Not modelled: the services and repositories of auctions, lobbies, access, sign-in, dice and the
-- ledger of commands, the routes, the validation of requests, the sessions, the client, the board
-- presets and the statistics at the end of a game. Of the banking service, the recent amounts and
-- the lists of mortgages, loans and properties that a response carries for the client are left
-- out; of the database, foreign keys, and the unique indexes on rows that are updated. Fields that
-- only the display reads (names, colours, time stamps) are left out of the records.
pub mod Prelude
pub mod Types
pub mod Outcome
pub mod Money
pub mod Property
pub mod Reversal
pub mod Banking
pub mod Auction
pub mod Rounds
pub mod Store
pub mod Service
pub mod Tests
