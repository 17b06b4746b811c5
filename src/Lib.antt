-- ===== src/Lib.antt =====
-- MasterDNS: multi-user DNS management with health checks, failover and cloud address rotation.
--
-- The program keeps zones and records at DNS providers, watches the endpoints of address pools,
-- and moves DNS bindings from one endpoint to another when an endpoint fails, recovers or is
-- rotated. Its parts, and how they work on each other:
--
--   * checkers connect to an address, if the network policy allows it, and say whether it answers;
--   * the health state of an address counts those results, and probe consensus does the same for
--     rounds of votes from several remote probes;
--   * the pool strategy reads the health of a pool's endpoints and decides for each binding which
--     endpoints its records should point at; the worker turns decisions into DNS operations;
--   * a DDNS agent reports the address of its endpoint, by tokens that can be rotated and revoked;
--   * the worker that carries out an operation works through its steps: under a lease on the
--     operation and one on the DNS zone it checks that the operation is still wanted, changes a
--     record at the provider, reads it back, and records what came of it;
--   * a lease is a key of a Redis server with an expiry, which its holder renews;
--   * the limits on rotations admit a write to a cloud service if the vendor's limits leave room,
--     and hold all writes back after the vendor refused one;
--   * a rotation schedule says when the address of a slot is to be rotated next, and is paused when
--     the rotation's incident fails;
--   * the rotation machine gives a cloud endpoint another address: it looks at one snapshot of the
--     database and says what the worker must do next: run a cloud step, check the candidate
--     address, publish it, clean up, wait or stop.
--
-- The files:
--
--   Common        shared names, the Boolean tests on numbers, `Result` for code that throws,
--                 lists, texts (Text) and JavaScript numbers (Number);
--   Health        packages/automation/src/health-state.ts (applyHealthResult, validateThresholds);
--                 Health/Streaks and Health/Invariant are on sequences of results;
--   Consensus     packages/automation/src/probe-consensus.ts (evaluateProbeRound,
--                 advanceRoundHealth, validateConsensusInput, requiredFailureVotes);
--                 Consensus/Votes describes a quorum apart from the code, Stability is on late
--                 votes, Rounds on the recorded rounds;
--   Rotation      packages/automation/src/rotation-machine.ts: Rotation/Snapshot holds its types,
--                 Rotation/Gates writeGate, attemptGate, candidateAction and the checks of a step,
--                 Rotation/Machine nextRotationAction and cleanupAction; Writes, Steps, Attempts,
--                 Publishing and Cleaning are each on one kind of action;
--   Strategy      packages/automation/src/strategy.ts (evaluateStrategy) and the types of
--                 packages/contracts/src/pools.ts (Strategy/Types): Candidates is
--                 healthyForBinding, Order the sort, Select is selectEndpoint, Copies the working
--                 copies and cursors, Evaluate the loop over bindings, HealthySet is
--                 evaluateHealthySet; Sorting, Selection, Usable, Unusable, Keeping,
--                 Decisions and Sets are proofs;
--   Network       packages/checkers/src/network-policy.ts (assertAllowedNetworkTarget); Parser
--                 is normalizeIpv6 and the reading of a text; Ranges and Embedding compare the
--                 checks with address ranges, Relaxing is on the switches; Numerals, Splitting
--                 and Spelling are proofs on texts;
--   Ddns          apps/api/src/modules/ddns: Tokens and Reports are ddns-policy.ts, Agent and
--                 Requests are the requests of ddns.service.ts on an agent's row; Writes, Grace,
--                 Expulsion, Installation and Resolving are proofs; Addresses is the
--                 heartbeat's part on the rows of endpoint_addresses, Table, Publishing and
--                 Beating are proofs on it;
--   Schedules     packages/db/src/rotation-schedules.ts: Types holds the rows and the queries on
--                 incidents, Operations the update, the resumption and the reconciliation of a
--                 slot's schedule, History sequences of them; Revisions, Pausing, Resuming and
--                 Idle are proofs;
--   Lock          packages/automation/src/dns-zone-lock.ts (withRedisLease): Options is its
--                 options, Redis its three commands, Client one call as a state machine, World
--                 all calls and the time; Exclusion and Defaults are proofs;
--   Limits        packages/contracts/src/cloud-rotation-limits.ts (Rules) and
--                 packages/db/src/cloud-rotation-limits.ts: Buckets is liveState and retryTime,
--                 Admission the loop of reserveCloudRotationWrite over the rules, Reserve the
--                 whole of it, Throttle recordCloudRotationThrottle, Settings the context and
--                 what setCloudRotationLimitPolicy writes, Status getCloudRotationLimitStatus, the
--                 policy's change as a whole and wakeCloudRotationLimitWaits; Keys, Rate, Cooldown,
--                 Shown and Repricing are proofs;
--   Records       packages/providers/src/record-match.ts (dnsRecordMatches, with deepEqual in
--                 Values) and normalizeProviderMetadata of record-hash.ts; Cloudflare is
--                 toCloudflareInput and normalizeCloudflareRecord of
--                 packages/providers/src/cloudflare.ts; Self and Sent are proofs;
--   Operations    apps/worker/src/operations/operation.processor.ts: Types holds the rows, Errors
--                 packages/contracts/src/errors.ts and calls that may fail, Tables the updates and
--                 the short transactions, Remote the calls of the provider, Execute and
--                 Transaction executeStep, Process the loop of processLocked and a failure,
--                 Finalize finalizeOperation and processLocked, Cancel what
--                 packages/db/src/rotation-termination.ts does to an operation; Search, Writing, Finishing,
--                 Outcome, Execution, Pass, Conclusion and Lifecycle are proofs.
--   Pools         packages/db/src/pool-health.ts: Projection is projectPoolHealth with
--                 summarizeHealth, Rows withPoolAddressAvailability, getPoolHealthSummaries and
--                 refreshPoolHealth on the rows of the queries; Healthy and Confirmed are proofs;
--   Cloud         packages/cloud-providers/src/rotation-step.ts (Steps: rotationArguments and
--                 makeRotationStep), aws-capabilities.ts (Capabilities) and aws-rotation-plan.ts
--                 (Plan); Starting and Order are proofs;
--   Incidents     packages/db/src/rotation-incidents.ts (Opening, Resuming, and Evidence, which is
--                 lockRotationHealth), rotation-termination.ts (Terminating) and the checks of
--                 rotation-context.ts and packages/contracts/src/cloud-rotation-policy.ts (Policy),
--                 on the rows in Types; Additions, Changes, Single, Cancelling,
--                 Stopping and Ending are proofs;
--
-- How code is read:
--
--   * Identifiers, hashes and cursors are texts, compared as `===` compares them; the default
--     `sort` compares UTF-16 units. `localeCompare` depends on the locale, so it is a parameter of
--     the strategy.
--   * Counts, priorities, thresholds and times in milliseconds are natural numbers. Where the
--     code tests for NaN, infinity or safe integers, they are the type `Number` of
--     Common/Number, which has these values.
--   * An optional property is an `Option`. A throw is `err` of `Result`.
--   * The working copies that evaluateStrategy mutates carry a `slot`, the identity of the
--     object, so that two copies with one id stay apart.
--   * `Math.imul` and `>>> 0` wrap at 2 ^ 32, which the hash writes out.
--   * An IPv6 address is the number that its text denotes, an IPv4 address its octets.
--   * A request of the DDNS service is a function from the row that it locks to the row that it
--     commits, or to a throw, which rolls back. What it read before it took the lock is an
--     argument of its own, since other requests may run in between. The clock, the text of a
--     token's hash and the endpoint's rows are arguments too. The operations on schedules are
--     read in the same way, with the table of incidents as an argument; a time is a number of
--     milliseconds there, and the order of UUIDs that of their texts.
--
--   * A lock's time is in milliseconds, and no timer that is due is passed over: the timeout of a
--     command and the sleep before a renewal. A command may take effect at the server at any time
--     before its answer arrives, and after its caller gave up.
--   * The limits' debts are in units of 1 / 100,000 of a write, in which all refills are whole. The
--     capacity that a policy leaves is Math.floor of a floating-point product, a parameter.
--   * A DNS provider is an adapter on a type of remote states, an argument; a call that fails may
--     have taken effect. A transaction of the operations' worker is a function on the tables; one
--     that throws leaves them as they were, and the remote state as the call left it.
--   * The checks on a cloud publication, and what other tables say of an address or a binding, are
--     outcomes that the operations' transaction reads. toLowerCase, the removal of a final dot and
--     the key of an array's index are parameters of record matching.
--   * The arguments of a cloud step are a record, without the receipts and the options that other
--     providers read; its id is kept in its parts. isIP is a parameter of the capabilities, whose
--     octets are read for an address that it accepts. The type error of a value that is not there,
--     where the code says that it is, is an error of the plans.
--   * A transaction on an incident gets its context, its time and its new ids as arguments; the
--     audit log and the locks are left out. isIP and the text of a scheduled event, which holds a
--     date, are parameters.
--   * The health of a pool is computed on the rows that its queries return; the summaries of cloud
--     targets are a parameter, a function of the slot.
--
-- All loops are structural recursion but one: the search through the pages of a provider's listing
-- has fuel, a number of pages. A listing that ends within the fuel is searched whole; the source
-- would read on where the model stops.
--
-- Not modelled: the user interface, the HTTP controllers, the database schema and its migrations,
-- queues and schedulers, the calls of the DNS and cloud services, cryptography, the parsing of
-- IP addresses by `isIP`, the waiting time of the lock's acquisition, the hash of a record, the
-- retry of an operation by a user, and the other processors of the worker.
pub mod Cloud
pub mod Common
pub mod Consensus
pub mod Ddns
pub mod Health
pub mod Incidents
pub mod Limits
pub mod Lock
pub mod Network
pub mod Operations
pub mod Pools
pub mod Records
pub mod Rotation
pub mod Schedules
pub mod Strategy
