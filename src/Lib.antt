-- ===== src/Lib.antt =====
-- Kiteframe: the provider's core, which decides what an agent may do for a person and keeps track
-- of what was done. A request names a capability and a resource. A verifier of the deployment
-- authenticates a human and a workload, and their correlation yields the one context that speaks
-- for both. Authority terms (policy, package, user, and so on) are intersected with the locked
-- requirement into one effective grant, which is checked again, at the backend's current
-- revisions, when the capability is invoked. The invocation is reserved under an idempotency key
-- and then moves through a state machine in the invocation store.
--
-- Files, and the code they are about (paths from the repository's root):
-- - Base and its children: lists, results, equality, texts, ordered sets and inclusion, with the
--   lemmas the components share. Rust's `Result` is `Result E A` with `?` as bind, `==` is an
--   instance, a `BTreeSet` or a sorted vector without repetitions is an ascending list.
-- - Contract: crates/kiteframe-contract/src (diagnostic.rs, service.rs, capability.rs, catalog.rs,
--   digest.rs, lock.rs, ir.rs): the data that the components exchange. A newtype over `String` is
--   its text, a digest its bytes, a timestamp a number of seconds.
-- - Authority.Selector: crates/kiteframe-provider/src/resource.rs. `parse`, `render`,
--   `resource_selector_is_subset` and `intersect_resource_selectors` work on the characters of a
--   text; a loop that pushes onto vectors is a recursion that puts its first result in front.
--   Its children: Text (reading and writing), Order, Parsed and Meet (intersection), Preorder.
-- - Authority.Bounds, Authority.Resources, Authority.Intersect:
--   crates/kiteframe-provider/src/authority.rs. `intersect_authority` keeps the order of the
--   source's guards and of its fallible steps; each fold over the grants is one definition.
--   Resources.Reach and Resources.Narrow are about the resources, Intersect.Bounded and
--   Intersect.Preconditions about the other bounds, Intersect.Granted about the parts of a grant,
--   and Intersect.Shared and Intersect.Monotone about the whole.
-- - Feature: crates/kiteframe-contract/src/feature.rs and crates/kiteframe-resolver/src/feature.rs,
--   `FeatureId` and `negotiate_features`.
-- - Principal: crates/kiteframe-provider/src/principal.rs, `correlate_principals`.
-- - Authorization: crates/kiteframe-provider/src/authorization.rs,
--   `require_current_authorization`. The backend is a record of its answers.
-- - Invocation.State, Parts, Stored, Store: crates/kiteframe-provider/src/status.rs. A store is
--   its list of records with their keys, the `BTreeMap` of `InMemoryInvocationStore`; each method
--   takes the store and gives the store and its result, the mutex making a call one step.
--   Store.Steps has the runs of calls, in any order and at any reading of the clock; Idempotency
--   and Retries are about repeated requests, Lifecycle about what becomes of a record.
-- - Contract.Trace: `TraceContext::try_new` of crates/kiteframe-contract/src/service.rs and the tests
--   of its headers; Split and Members are its lemmas. Audit.Correlation is `trace_ids` of
--   crates/kiteframe-provider/src/invocation.rs.
-- - Audit: crates/kiteframe-provider/src/audit.rs, the records and receipts, and
--   crates/kiteframe-audit/src/chain.rs, the ledger. Audit.Codec is what the ledger calls of its
--   libraries (JSON values and encodings, SHA-256), a parameter, with its documented behaviour as
--   named predicates. Audit.Partition has files, lines and how the calls of the operating system
--   go, Audit.Linkage `validate_record_linkage`, Audit.Ledger `verify_partition` and
--   `append_sync`. Below it: Lines and Runs (the loop over lines), Sealed and Prepared (the line an
--   append writes), Accepting, Reading, Durable and Appended (appends, and verification after
--   one), Chain and Tampering (what is verified), Growing and Log (runs of appends).
--   Audit.Decimal is about the decimal text in a receipt's identifier. Audit.Sample and
--   Audit.SampleRun are a codec and a run for the examples.
-- - Operation: crates/kiteframe-provider/src/operation.rs, the invocation context and the current
--   authorization; Operation.Registry is `OperationRegistry`. The type of JSON values is a
--   parameter, operations and the schema validator are records of their answers. Covered,
--   Permitted and Granted are about `execute`, Registered about registrations.
--
-- Every loop of these parts is a structural recursion, so there is no fuel; only the decimal
-- digits of a `u64` are written in twenty rounds, one for each digit it can have. A `u64` that is added
-- to is bounded by `u64_max` where the source saturates or checks; the others are only compared.
--
-- Not modelled: serialization (the derives of a library), JSON Schema validation, and
-- the deployment's services (verifier, authorization backend, clock), whose answers are
-- arguments. The invocation (but for `trace_ids`) and admission services,
-- the rest of the resolver and the YAML scanner have no model yet; HTTP, SQL, the command line and the Python
-- bindings are input and output around these parts.
pub mod Audit
pub mod Authority
pub mod Authorization
pub mod Base
pub mod Contract
pub mod Feature
pub mod Invocation
pub mod Operation
pub mod Principal
