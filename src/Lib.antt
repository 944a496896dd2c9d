-- ===== src/Lib.antt =====
-- MnemoCA: a certificate authority with a REST API and an ACME server, over a document store
-- and with a tamper-evident audit log.
--
-- The parts. The handlers of the REST API (internal/api) authenticate a key and call the CA
-- engine (internal/ca), which issues and revokes certificates for its tenants. Both keep their
-- state in documents of a store (internal/store), shared by any number of replicas, and write
-- an audit record (internal/audit) for what they do. The X.509 layer (internal/pkix) has the
-- registry of algorithms that the engine and the log consult.
--
-- Store: internal/store/store.go. Store/Bucket has the documents of one bucket path as a map
-- from keys to values; every call is atomic and ends in one of three ways (Store/Fault): done,
-- refused, or done and yet reported as failed, as when a reply is lost. JSON is left out: a
-- document is the value that it stands for. Store/Mongo has the operations of
-- internal/store/mongo.go over the object mapper and the driver, which are the record Driver
-- (Store/Driver) with its laws; the loop of Update has as many attempts as the source.
-- Store/Retried says what an Update is to a caller whose callback captures variables: it may
-- have run in vain before.
-- Audit: internal/audit/audit.go and storelog.go. Audit/Chain has canonical, chainHash,
-- sealRecord, verifyRecord and the loop of Verify; Audit/File has Log with Open, Log and
-- lastRecord over a file of lines, and the four ways in which a write can end. SHA-256, hex,
-- json.Marshal and the signature are the record Primitives, with the laws Lawful; a record is
-- taken to be read back as it was written. Audit/Stored has StoreLog and VerifyStore over two
-- buckets, with Audit/Keys for the keys in whose order the records are listed; a call's
-- argument names the values on which its callback ran in vain, the random bytes of each run,
-- and the ends of its two writes. A line of the file is a record or does not decode; a stray
-- closing bracket between records is left out.
-- Pkix: internal/pkix/algs.go. Pkix/Algs has the two tables and their lookups; a Go map is a
-- list in any order.
-- Ca: internal/ca/ca.go, profiles.go and issue.go. Ca/Profile has what a profile grants;
-- Ca/Issue the checks of Issue and Revoke; Ca/Issuing the issuance from one chain and the loop
-- over the chains; Ca/Request the whole of Issue with abandonIssued; Ca/Crl has BuildCRL, and
-- Ca/Profiles SetProfile and DeleteProfile. Parsing a PEM, opening a key and signing a
-- certificate are the record Pki. What the calls of a request meet (random serials, clocks,
-- outcomes) is an argument. A duration is an integer of nanoseconds.
-- Api: internal/api/auth.go and handlers.go. Api/Tokens has mintKey, parseKey, authenticate and
-- the wrappers authed, operatorOnly and tenantScoped; SHA-256 and the decoding of hex are the
-- record Hashing. Api/Operators has the document that counts the operator keys and the
-- callbacks that update it; Api/Revocation has handleRevokeAPIKey, and createKey with the audit
-- record of handleCreateAPIKey, as processes: a phase is the point between two calls, so that
-- the steps of many handlers on many replicas interleave, fail, and stop at any point
-- (Api/Revocation/System). The restart of a replica (reconcileOperators) is not a step. Times
-- there are in seconds.
-- Acme: internal/acme. Acme/Nonces has issueNonce and consumeNonce; Acme/Keys the parsing and
-- thumbprint of a JWK and the signatures of a JWS, over the record Codec of the libraries;
-- Acme/Requests verifyRequest; Acme/Accounts handleNewAccount with verifyEAB, and in
-- Acme/Accounts/Contacts handleAccount; Acme/Revoke handleRevoke; Acme/Opening handleNewOrder,
-- with the random values of each authorization by its place; Acme/Challenges handleChallenge
-- and validateChallenge over the record Network; Acme/Dialling the filter of addresses and
-- redirects of ssrf.go, with an address as its bytes; Acme/Orders updateOrderStatus over the
-- stored orders and authorizations; Acme/Names checkCSRIdentifiers, with the names of a CSR as
-- lists; Acme/Finalize loadOrder, handleFinalize, which calls the engine's issue of Ca/Request,
-- and handleCert. The buckets are those of one tenant. Error texts are left out: an error is
-- its status and its code.
-- Prelude: lists, maps, results, integers and pools of processes. Tests: the theorems at
-- concrete states.
--
-- Bounds. Sequence numbers and CRL numbers wrap at 2^64 as uint64 does. All other recursion is
-- on lists and texts. An update of the replicated store makes 128 attempts at most, as in the
-- source; Store/Mongo/Progress says when they are enough.
--
-- Not modelled: the router of the ACME server, the embedded store's transactions, the signers,
-- the DER encodings, the bootstrap key, the command line and the client.
pub mod Prelude
pub mod Store
pub mod Audit
pub mod Pkix
pub mod Ca
pub mod Acme
pub mod Api
pub mod Tests
