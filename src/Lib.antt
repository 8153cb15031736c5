-- ===== src/Lib.antt =====
-- RosaPay: payment requests that a merchant signs, that one customer claims and pays on Stellar, and
-- that an API and a worker follow from request to confirmation.
--
-- Parts, and the files that model them:
-- - Domain/Payment: packages/domain/src/payment.ts. The statuses of a payment and the transition guard
--   `transitionPayment`, which the API and the worker both run. Lifecycle draws the diagram again,
--   independently of the table.
-- - Protocol/Schema, Protocol/Validation: packages/protocol/src/schema.ts and validation.ts. A request
--   as the schema leaves it, the rules of its asset, the checks of its fields, and the policy of a
--   reader. What zod calls a UUID and a date is the record `Formats`.
-- - Protocol/Amounts: packages/protocol/src/intentFactory.ts. Amounts as they are typed, and the making of
--   a request.
-- - Api/Intents: apps/api/src/application/IntentService.ts over
--   apps/api/src/infrastructure/InMemoryIntentRepository.ts. Records and Store are the data and the
--   repository; Service and Claims are the methods, in the monad of Interleave: every awaited call of
--   the repository may come after writes of other requests, which a `World` lists. Rely and Hoare
--   reason about methods under what the others are known to keep to; Transitions and Conflicts are about
--   methods with nobody beside them. Listing is a merchant's list.
-- - Api/RateLimiter: apps/api/src/application/RateLimiter.ts, with the time as an argument.
-- - Api/DeviceAuth: apps/api/src/application/DeviceAuthService.ts. Challenges and session tokens; what
--   Buffer, node:crypto, JSON and the curve do is the record `Runtime`.
-- - Api/Profiles: apps/api/src/application/MerchantProfileService.ts and the writes of its two
--   repositories in apps/api/src/infrastructure, with the writes of other requests as an argument.
-- - Api/Access: apps/api/src/application/AuthContext.ts. Who calls, and the guards on what they may do.
-- - Api/Admission: apps/api/src/app.ts. The way of a payment request into the service, the route with the
--   service and the audit log behind it, and the statuses of the error handler.
-- - Api/Relayer: apps/api/src/application/RelayerService.ts, on transactions that the SDK has parsed.
-- - Api/Prices: apps/api/src/application/PriceService.ts. The cache of rates and the reads under way.
-- - Api/Wallets: apps/api/src/application/WalletProvisioningService.ts over WalletRepository.ts beside it.
--   What is asked of the ledger is kept in a log; the writes of other requests are an argument.
-- - Signer: packages/secure-signer/src/secp256r1.ts, on lists of bytes.
-- - Worker/Confirmation: apps/worker/src/confirmationWorker.ts. The loops over the ports of the state
--   and the RPC, which are a record of functions on any state.
-- - Worker/Page, Worker/Loop: the same file's event page, whose cursor moves last, and its timer loop.
-- - Worker/Cycle: apps/worker/src/runtime.ts, the cycle that runs them.
-- - Worker/Settlements: apps/worker/src/PostgresSettlementState.ts. The table of settlements, with what
--   other writers do between the read and the conditional UPDATE as an argument.
-- - Stellar/SwapFunding: packages/stellar/src/swapFunding.ts, with the router as an argument.
-- - Stellar/Amounts: packages/stellar/src/balances.ts and settlementEnvelope.ts. Amounts in stroops, as
--   texts and as units of the contract.
-- - Stellar/Envelope, Stellar/Signature: packages/stellar/src/settlementEnvelope.ts and
--   merchantSignature.ts. The typed argument of the contract, and a merchant's signature; the SDK and
--   the curve are the records `Sdk` and `Ed25519`.
-- - Stellar/Pipeline: packages/stellar/src/settlementPipeline.ts. A settlement from the simulated call to
--   the confirmation, as a result and a log of what is done to the outside.
-- - Stellar/Service: packages/stellar/src/settlementService.ts. The guards in front of the pipeline.
-- - Mobile/Session: apps/mobile/src/state/appStore.ts. The state of the app, its actions, and what of a
--   stored session is restored.
-- - Mobile/Merchant: apps/mobile/src/features/merchant/paymentOutcome.ts and paymentOrder.ts beside it,
--   and apps/mobile/src/state/autoLock.ts.
-- - Mobile/Funding: apps/mobile/src/features/payments/fundingChoice.ts. What a customer can pay with.
-- - Mobile/Retry: apps/mobile/src/api/retry.ts.
-- - Base: the helpers that the others share: Boolean tests on numbers, lists, results, maps, texts.
--
-- How they interact: the API's methods and the worker's commands both move a settlement with the guard
-- of Domain/Payment; the worker's loops run over ports that Worker/Settlements implements, as the tests
-- of the loops do; a device's key and signature reach the sessions through Signer. A request that Protocol/Amounts makes is
-- parsed by Protocol/Schema, judged by Protocol/Validation, verified by Stellar/Signature and turned by
-- Stellar/Envelope into what Stellar/Service hands to Stellar/Pipeline.
--
-- Bounds: the loop of `transitionSettlement` makes three attempts, as in the source, and is recursion on
-- that number; every other loop is recursion on a list. A number that JavaScript keeps as a float is a
-- natural number where the code asks for a safe integer, with the bound 2^53 - 1 in the test. Amounts of
-- a swap are integers without bound, as `bigint` is, and units of the contract are checked against the
-- range of its i128. One definition takes fuel, the printing of a number in Base/Decimal: one more than
-- the number itself, which has not more digits than that.
--
-- Not modelled: HTTP, SQL beyond what the texts of the queries say, hashing
-- and curves, React screens, native modules, the anchor client, generated bindings and the Rust
-- contracts. Texts are compared character by character; `toLowerCase` is a parameter.
pub mod Api
pub mod Base
pub mod Domain
pub mod Mobile
pub mod Protocol
pub mod Signer
pub mod Stellar
pub mod Worker
