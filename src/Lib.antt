-- ===== src/Lib.antt =====
-- The core logic of MadinatyAI CoreMesh: the Souk ElKanto marketplace, the token wallet that it draws
-- on, the trust score that it reports to, the Express deliveries of the kitchens, the gateway and the
-- authentication in front of them, the accounts with their identity documents, the Life directory, the
-- businesses of the kitchens and tutors, and the trust meter.
--
-- Base holds what the parts share. A database table is a list of rows in creation order
-- (Base/Table: findUnique, update and updateMany by key or test); a service method is an action
-- on a state that returns or throws, and keeps what it wrote before a throw (Base/Action). A map in
-- memory is a function from keys (Base/Dict), a string a list of UTF-16 code units (Base/Text).
--
-- Core: the rows of users, identity documents and reports (prisma/schema.prisma).
--
-- Trust: libs/trust-score/src/trust-score.calculator.ts (calculateTrustScore) and
-- trust-score.service.ts (compute, recalculate). Trust/Score has its theorems.
--
-- Tokens: libs/tokens/src/tokens.service.ts, all methods, under the names of the source in snake case.
-- spend is spend_check followed by spend_commit, which is where two calls can interleave.
-- Tokens/Spending is about one call; Tokens/History has histories of calls, with whole amounts
-- that are not negative; Tokens/Ledger and Tokens/Overdraft are about those.
--
-- Souk: apps/core-hub/src/modules/soukelkanto/soukelkanto.service.ts. Souk.antt has the tables, and a
-- child module has each group of handlers: Gates (assertProfileComplete, assertAmountInBand,
-- assertCounterDepthAllowed, the token hold), Offers (createOffer to updateOffer, acceptOffer as
-- accept_check and accept_commit), Counters (the buyer's answers to a counter-offer, getOfferChain),
-- Listings (with Listings/Query for listListings and the numbers that
-- apps/core-hub/src/modules/soukelkanto/listings/listings.controller.ts reads, and Listings/Search
-- about its pages), Handovers (confirmHandover, cancelOffer, revealContact), Reports (with `file` of
-- apps/core-hub/src/modules/reports/reports.service.ts), Favorites, Ratings and Disputes. The state
-- contains the token store and the users, on which the wallet's and the trust score's own
-- definitions run. Events and notices are recorded in the order in which they are handed over.
--
-- Souk/Cases says what each handler leaves in the tables of listings and offers. Souk/Sale has the
-- invariant of those two tables: Single, Answered, Settled, Chains and Sound are its parts, Safety,
-- Deals and Rows the changes that keep it, History the calls, Steps the induction over them, Reachable
-- what follows, and Race the interleaving that the induction leaves out. Souk/Atomic is about the
-- handlers that throw.
--
-- Express: apps/core-hub/src/modules/express/express.service.ts, with approveCourier and rejectCourier
-- of apps/core-hub/src/modules/admin/admin.service.ts. Express.antt has the tables and the couriers, and
-- Express/Deliveries the deliveries; acceptDelivery is accept_delivery_check and
-- accept_delivery_commit. Express/Assignment is about calls one after the other, Express/Race about two
-- that overlap. The flag auth.devBypass is an argument.
--
-- Gateway: libs/gateway/src. Gateway/RateLimit has the in-memory strategy, the tiers and the guard,
-- with RateLimit/Quota about the requests of one window; Gateway/Idempotency has the in-memory strategy
-- and the interceptor, with Idempotency/Replay about repeated requests. The handler behind the
-- interceptor is an argument. Gateway/Pages has the page parameters, Gateway/Codes the error codes.
--
-- Auth: apps/core-hub/src/modules/auth. DenyList (jti-deny-list.service.ts, with its Refinement of a record
-- of revocations), Otp (otp.service.ts; Throttle, Guesses and Codes are about histories of issues, about
-- guesses, and about the code that was sent), Sessions (auth.service.ts), Guard (guards/jwt-auth.guard.ts
-- and the logout of auth.controller.ts; Access, SignIn and Logout are about the requests that it lets
-- pass; whether a route is public is an argument), Devices
-- (device-token.service.ts). The guard runs on the deny list's own definitions, and Sessions on those
-- of Otp. Auth/Samples has a signer that satisfies what is asked of one.
--
-- Users: apps/core-hub/src/modules/users/users.controller.ts; Users/Kyc: libs/kyc/src (kyc.service.ts,
-- crypto/aes.ts, storage/local-storage.provider.ts), with Kyc/Frame about the encrypted buffer and
-- Kyc/Stored about the document in the storage.
--
-- Life: apps/core-hub/src/modules/life/life.service.ts. Life.antt has the writes to the tree of places,
-- Life/Breadcrumbs the look-ups, Life/Cycles two moves that make the parents go round, and
-- Life/Subtree the tree below a place, and Life/Storefront with Storefront/Desk the items, bookings,
-- posts and photos.
--
-- Business: libs/business/src/business.service.ts, with Business/Menu for the menus of the kitchens,
-- Business/Routing for business.middleware.ts and business.guard.ts, Business/Approval for what
-- apps/core-hub/src/modules/admin/admin.service.ts does to kitchens, and Business/Slugs about
-- histories of calls of the service.
--
-- TrustMeter: apps/core-hub/src/modules/trust-meter/trust-meter.service.ts, on the marketplace's tables.
--
-- Ids are numbers, since they are only compared. A new row's id and the clock are arguments.
-- Numbers are whole and unbounded: the prices and balances of the schema are 32-bit integers, whose
-- overflow the database refuses. The spelling of ids, JavaScript's dates, the configuration
-- (Souk.Env, Auth.Otp.Settings, Auth.Sessions.AuthConfig), SHA-256, AES-GCM, the signer of tokens, the
-- resolution of file paths, and the order and text search of the database, and what it makes of a NaN
-- in a query, are parameters.
--
-- Loops on fuel: getOfferChain (Souk/Counters), for which one more than the number of offers is enough
-- (Counters/Chain), and the ancestors of getLocation (Life/Breadcrumbs), for which one more than the
-- rank of the place is enough where the parents do not go round. There, and in getSubtreeHierarchy
-- (Life/Subtree), running out of fuel is a result of its own.
--
-- Not modelled: logging, response headers, the HTTP controllers but what is named above and their DTO
-- checks, the exception filters and envelopes of the gateway, the Redis strategies, the
-- safe-meet-spot queries, the lists and counts of the administration, and the astro module, which
-- calls external services. Calls are taken one after the other, except where a module says that two
-- overlap.
pub mod Base
pub mod Tokens
pub mod Core
pub mod Trust
pub mod Souk
pub mod Express
pub mod Gateway
pub mod Auth
pub mod Users
pub mod Life
pub mod Business
pub mod TrustMeter
