-- ===== src/Lib.antt =====
-- The Node.js part of fabric-common: a library around Hyperledger Fabric. This development models the
-- code that decides something by itself: the parser of signature policies, the edits of a channel's
-- configuration, the checks of what endorsing peers answer, the event streams, the operations on
-- chaincodes, the files and requests that make key material, the rules for names, the requests about a
-- channel, and the environment of the containers. Paths are from the repository's root.
--
-- How the parts work together. A client builds a chaincode definition with a signature policy
-- (Policy), sends it to peers through the lifecycle proposals (Endorsement), which check the answers,
-- commits the transaction and waits for it on a peer's event stream (Events); Operation is that
-- sequence. The identities come from a CA (Ca), and their keys and certificates lie in a tree of files
-- (Crypto). An operator gets the configuration of a channel (Channel), edits it as a JSON tree (Config)
-- and starts peers and orderers with an environment (Environment).
--
-- Base: lists measured by native numbers, texts as lists of UTF-16 code units, decimal numerals,
-- thrown errors as values, and calls on a state that may throw.
--
-- Policy models
--   nodejs/formatter/gatePolicy.js           Policy/Gate: FromString is `from_string`
--   nodejs/formatter/policy.js               Policy/Spec: parsePolicy is `parse_policy`
--   nodejs/formatter/policyProtoTranslator.js  Policy/Decode
--   nodejs/formatter/SideDB.js               Policy/Collection
-- The messages that the code builds are the records of Policy/Proto; a protobuf encoder or decoder is
-- a parameter. The parser of gates recurs on fuel, one more than the length of the text: the body of a
-- gate is shorter than the gate, and what is split off at commas is no longer than the body.
--
-- Config models nodejs/formatter/configFactory.js. Config/Json has the JSON values with property
-- access, assignment and `delete` as strict JavaScript has them; Config/Orgs the edits of an
-- organisation, Config/Orderer those of the ordering service. An edit is a function from the tree to
-- the new tree or to what the code throws; reading a file is a parameter. Objects have no inherited
-- properties here.
--
-- Endorsement models
--   nodejs/admin/resultInterceptors.js       Endorsement/Check: SanCheck, EndorseALL, CommitSuccess
--   nodejs/admin/proposal.js                 Endorsement/Manager: send, commit, resultHandler
--   nodejs/admin/lifecycleProposal.js        Endorsement/Lifecycle, Endorsement/Queries
--   nodejs/query.js                          Endorsement/Queries, Endorsement/Ledger
--   nodejs/admin/QSCCProposal.js, nodejs/admin/CSCCProposal.js   Endorsement/Ledger
-- The SDK (fabric-common on npm) builds, signs and sends: the fields of the record `Sdk`. A proposal
-- object is the record `Manager`, passed from call to call. An `await` is the point where the outcome
-- of the SDK's call is known; two calls on one object do not overlap here.
--
-- Events models
--   nodejs/eventHub.js                       Events/Query: the callbacks of the waits
--   nodejs/admin/eventHub.js                 Events/Query: the seek positions, Events/Hub: the rest
--   nodejs/admin/orderer.js                  Events/Deliver: sendDeliver, connect, join
-- A stream is the list of what it brings, and a callback a step on its state; Events/Settling has the
-- promises, which settle once.
--
-- Operation models
--   nodejs/chaincodeOperation.js             Operation/Assign, Operation/Commit, Operation/Lifecycle
--   nodejs/chaincodeAction.js                Operation/Action
--   nodejs/transaction.js                    Operation/Transaction
-- Each composes a proposal of Endorsement, a commit and the wait of Events/Query. What an orderer
-- answers changes with time, so the SDK of the n-th commit is a value of a function of n. The repeated
-- commit recurs on fuel: with more fuel than commits that find no Raft leader, it comes to an end.
--
-- Environment models envBuilder of nodejs/peer.js and nodejs/orderer.js, with the tables of
-- nodejs/formatter/remote.js and nodejs/formatter/constants.js, and nodejs/fabric-dockerode.js: the
-- containers (Environment/Docker) and the clearing of chaincodes (Environment/Clearing).
--
-- Crypto models
--   nodejs/path.js                           Crypto/Location (names of files), Crypto/Material
--   nodejs/formatter/path.js, nodejs/formatter/key.js, nodejs/user.js   Crypto/Material
-- over the file system of Crypto/Files, an interface with its laws; Crypto/Files/Memory fills it. A
-- path function makes a directory or throws, so it is a call on the state of the files.
--
-- Ca models
--   nodejs/ca/identityService.js             Ca/Identity
--   nodejs/ca/affiliationService.js          Ca/Affiliation
--   nodejs/ca/certificateService.js          Ca/World: enroll
--   nodejs/ca/ca-crypto-gen.js               Ca/World, Ca/Generation
-- The CA is the SDK's services, which are parameters, and a state that their calls change. The
-- enrolment of an administrator recurs on fuel: the code tries for as long as the CA does not answer.
--
-- Names models nodejs/formatter/channel.js and nodejs/formatter/chaincode.js. Names/Regex has the
-- regular expressions as data and a matcher by derivatives; Names/Rules the rules.
--
-- Channel models
--   nodejs/formatter/protoTranslator.js      Channel/Message
--   nodejs/admin/signingIdentity.js          Channel/Update, Channel/Fetch: getSpecificBlock
--   nodejs/admin/channelUpdate.js            Channel/Update
--   nodejs/channel.js                        Channel/Fetch
--   nodejs/channelConfig.js                  Channel/Anchor
-- over the deliveries of Events/Deliver. The repeated request recurs on fuel; without
-- `waitIfUNAVAILABLE`, as for the configuration, there is one request and fuel 1 is enough.
--
-- Client models
--   nodejs/formatter/remote.js               Client/Remote: RemoteOptsTransform
--   nodejs/admin/peer.js                     Client/Endpoint: the constructor, Client/Peer: the rest
--   nodejs/admin/discovery.js, nodejs/serviceDiscovery.js   Client/Discovery
--   nodejs/admin/user.js                     Client/User
-- The constructor of nodejs/admin/orderer.js makes its options as that of a peer does, and its ping is
-- that of a peer. Options are lists of entries in order. The SDK opens connections.
--
-- Tool models nodejs/binManager: Tool/Command the command lines, Tool/Translator configtxlator.js on
-- temporary files, Tool/Peer the environment and the directory around a run of peer.js. Tool/Disk has
-- the files by path; what a binary does is a parameter. Tool/Package models
-- nodejs/chaincodePackage.js.
--
-- View models nodejs/formatter/blockDecoder.js (View/Block) and nodejs/formatter/discovery.js
-- (View/Discovery), on messages that the SDK has decoded, with the digests of
-- nodejs/formatter/helper.js.
--
-- Store models nodejs/couchdb.js (Store/Couch), the filter of nodejs/leveldb.js (Store/Level), and
-- nodejs/operations.js and nodejs/fabric-gateway/contract.js (Store/Remote).
--
-- Not modelled: the code in golang, java and bash; the calls that only reach a database, an HTTP
-- service or the runtime of a container; crypto suites and the compression of chaincode packages,
-- which other libraries do; the tables of types; the SDK and the protobuf library; loggers; the
-- rounding of numbers above 2^53.
pub mod Base
pub mod Policy
pub mod Config
pub mod Endorsement
pub mod Events
pub mod Environment
pub mod Operation
pub mod Crypto
pub mod Ca
pub mod Names
pub mod Channel
pub mod Client
pub mod Tool
pub mod View
pub mod Store
