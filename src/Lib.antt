-- ===== src/Lib.antt =====
-- The money flows of the c-zdan API (apps/api/src), a wallet whose members pay at commerce merchants and
-- are paid in and out by finance merchants.
--
-- The state is one database (Store/Monad, `Db`): accounts, merchants, sessions, codes, transactions
-- and the merchants' logs, with the rows of apps/api/src/db/schema in Schema. A service call is a
-- transaction (`Trx`): a function of the state that returns an error, or a value and the new state;
-- an error has no new state, as `tx` of apps/api/src/db/client.ts rolls back. Store/Tables has the
-- single statements, with the CHECK constraints and unique indexes that Postgres applies to them.
--
-- Parts, by file:
--   Fees              apps/api/src/lib/fees.ts: computeFeeMinor and its rounding
--   CashPool          apps/api/src/services/cash-pool.ts: writeCashPoolDelta
--   ProviderLedger    apps/api/src/services/provider-ledger.service.ts
--   Loyalty           loyalty-scoring.service.ts, loyalty-tier.service.ts and the withdraw penalty of
--                     member.service.ts, under apps/api/src/services; Manual is setMemberTier
--   Withdraw          withdraw.service.ts: Routing (pickFinanceMerchantForWithdraw), Request
--                     (requestWithdrawV3), Finalize (finalizeWithdrawCallback), Timeout
--                     (scanWithdrawTimeouts); proofs in Books, Closing, Settled, Swept, Order,
--                     Routed, Outcome, Total
--   PaymentCode       payment-code.service.ts: Create (createPaymentCode, cancelPaymentCode), Consume,
--                     Expire; proofs in Opening, Closing, Cancelled, Consumed, Expired, Cleared,
--                     Outcome, Total
--   MerchantCredit    merchant-credit.service.ts: creditMember; proofs in Books
--   Topup             topup.service.ts: Session (routing, creation, member actions, expiry), Finalize
--                     (finalizeTopupCallback); proofs in Quiet and Books
--   Cashout           merchant-cashout.service.ts: Request (requestMerchantCashout), Callback
--                     (finalizeMerchantCashoutCallback, by public number); proofs in Outcome
--   Admin             services/admin: Idempotency (withAdminIdempotency), Members (adjustBalance,
--                     awardPoints), Merchants (recordManualSettlement, adjustCashPool, setCashPool,
--                     setMerchantCommission, setCreditLimit); proofs in Once, Submitted, MemberBooks,
--                     MerchantBooks, Terms, Races
--   Hmac              lib/merchant-hmac.ts: Inputs and Guard (the middleware merchantHmac up to the
--                     idempotency slot), Cache (claimIdempotencySlot and the table's part of
--                     persistCall), Protocol (any number of requests at once); proofs in Admitted,
--                     AtMostOnce, Replay, Answered
--   ProfitShare       services/admin/profit-share.service.ts: Allocate (the arithmetic), Campaigns
--                     (computePreview, createCampaign, publishCampaign, closeCampaign,
--                     cancelCampaign), and Claims (claimProfitShareReward of member.service.ts);
--                     proofs in Exact, Previewed, Claimed, Overhead, Books
--   Sessions          auth/sessions.ts, auth/mfa.ts and services/auth.service.ts: Tokens (refresh),
--                     Passwords (logout, confirmPasswordReset, changePassword), Login (login), Mfa
--                     (mfaChallenge, consumeMfaBackupCode), Removal (mfaUnenroll); proofs in
--                     Rotation, Ended, Lockout, Codes, StepUp
--   Ledger            what the columns stand for: the member's ledger of ledger-integrity.service.ts,
--                     and the sums of sessions, codes and log rows
--   System            one step for each committed transaction on money, and what sequences of them keep
--   Examples          a concrete state, runs of the flows on it, and the theorems applied to it
--
-- Conventions. Amounts are whole kuruş (numeric(14,2) times 100), percentages are hundredths of a
-- percent, times are milliseconds, uuids are numbers. The sums and differences that the source
-- takes on JavaScript numbers with two decimals are exact here. New ids are arguments and are
-- refused when they are taken. A query on another connection than the transaction's (the routing
-- queries), or one without a lock whose result is written back or decides whether to write, reads a
-- state of its own, `snapshot`, or `counted` where there are two; `looked` is the state that the
-- lookup of an operator's idempotency key reads.
--
-- Parameters stand for what is not in the repository: `Score` for the floating-point product of
-- computeSpendPoints, `draws` and `draw` for random numbers, `Locale` for trimming and lower-casing
-- text, `Driver` and `EconomicsRows` for what JavaScript reads as property `0` of a row object,
-- `Join` for the row that an UPDATE ... FROM uses where several match (`IsJoin` is what Postgres
-- says of it), `AuthRuntime`, `Hasher` and `MfaRuntime` for the hashes of tokens and passwords and
-- the codes of a TOTP secret, `Runtime` for hashes, decryption, the signature's regular expression,
-- JSON and Number(), `share` for the floating-point share of a pool (`IsNear`: its relative error
-- is bounded, as IEEE arithmetic's is), `PeriodSums` and the ranking for the results of the queries
-- over a campaign's period.
--
-- Loops are structural recursion over the rows; the retry loop for a code has the ten draws of the
-- source; the round of a pool's remainder recurs on what remains.
--
-- A service outside `tx` that can fail after a write (login, mfaChallenge) is an `Auto`, which
-- keeps the state beside the error.
--
-- `refresh` puts the row that issueTokens inserts on another connection into its own transaction,
-- which is what is there once both have committed.
--
-- The steps of Hmac/Protocol are statements on the idempotency table; a request that lost its claim
-- may have read any earlier row. A failing insert into the log of calls, after which a placeholder
-- stays until it is swept, is not among them. The header of the address (clientIp) is an argument.
--
-- Not modelled: the overflow of numeric columns; updated_at, notes, callback payloads and other
-- metadata text; the URL check of a topup's return address; read-only queries; the cashout's lookup
-- by provider reference; the rest of administration (profiles, KYC, secrets, users of merchants,
-- cancelUserWindowPoints, the totals of closeCampaign, notifications, expiry of operators'
-- idempotency rows); signup, MFA enrolment, e-mail verification; chat, HTTP and the web
-- application. Rows that tie in an ORDER BY are taken in table order.
pub mod Common
pub mod Schema
pub mod Store
pub mod Fees
pub mod CashPool
pub mod ProviderLedger
pub mod Loyalty
pub mod Ledger
pub mod Withdraw
pub mod PaymentCode
pub mod MerchantCredit
pub mod Topup
pub mod Cashout
pub mod Admin
pub mod Hmac
pub mod ProfitShare
pub mod Sessions
pub mod System
mod Examples
