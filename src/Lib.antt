-- ===== src/Lib.antt =====
-- xetcas is a self-hosted content-addressed store for Xet clients, with a Git and LFS bridge. A client
-- uploads xorbs (packs of compressed chunks) and shards (which chunks make up which file), and downloads
-- a file by asking how to reconstruct it: the server answers with terms (chunk ranges of xorbs) and with
-- the byte ranges of the stored xorbs that hold them. This library models the parts of the server that
-- decide these answers, and proves what they are worth to a client.
--
-- Parts, and the code they model (all paths from the root of the repository):
--
-- Sample: a codec for the tests.
--
-- Prelude: names and lemmas that all parts share. `Prelude.Words` has the machine arithmetic: sums and
-- differences of u32 and u64 wrap, as in the release build that docker/Dockerfile.server makes.
--
-- Contracts: the crate crates/xetcas-contracts. Transfer, Storage and Bridge are the messages of
-- crates/xetcas-contracts/src/generated/candace.xetcas.v1.rs as records, Constants is
-- crates/xetcas-contracts/src/constants.rs, and Validate holds every validator of
-- crates/xetcas-contracts/src/v1/validate.rs, with `Fields` for the checks on one field. A map is the
-- list of its entries. `Accepts`, `TransferLaws`, `StorageLaws` and `BridgeLaws` compare the validators
-- with predicates.
--
-- HttpRange: crates/xetcasd/src/http_range.rs, from the header's bytes to a half-open range.
--
-- Reconstruction: crates/xetcasd/src/reconstruction.rs. `Meta` is `XorbMeta`, `Plan` is
-- `plan_reconstruction` with one definition for each of its loops. A loop with an index recurs on the
-- number of rounds that its test leaves it, so no fuel is involved and every run ends. Content, Trim,
-- Segment, Walk and Refines lead to the bytes that a plan stands for, Fetch to the byte ranges that it
-- advertises, Extent to the requests without a plan.
--
-- Index: crates/xetcasd/src/index.rs, the SQLite tables as lists of rows and each transaction as one
-- function. The protobuf codec of the records is a parameter; a theorem that needs it to decode what it
-- encodes says so.
--
-- Errors: crates/xetcasd/src/error.rs.
--
-- Shards: crates/xetcasd/src/routes/shards.rs, and `chunk_hash_at` of crates/xetcasd/src/dedup_shard.rs.
-- The hashes and the shard parser of the crate xet_core_structures are parameters. `Chunks` is the list of
-- a file's chunks as the stored xorbs have them, and `Served` joins the upload to the planner. `Upload` is the handler; `Verified`, `Registered`, `Found` and `Handler` below it follow the SHA-256
-- of a file from its check to the index, while other uploads go on.
--
-- Filestream: crates/xetcasd/src/filestream.rs, a file's bytes out of the stored xorbs, with the chunk
-- decoder and SHA-256 as parameters. `Lookup` and `Stable` are about a store that grows.
--
-- Route: the handler of crates/xetcasd/src/routes/reconstructions.rs: the path and the `Range` header to
-- the response or the error. Headers is what the handlers read of a request's header.
--
-- State: `authorize` of crates/xetcasd/src/state.rs, and `public_base` and `advertised_token` of
-- crates/xetcasd/src/config.rs. Decimal prints numbers, as the handlers do in headers.
--
-- Locks: `KeyedLocks` and `KeyedGuard` of crates/xetcasd/src/state.rs as steps on the table of mutexes and
-- the calls in progress. `Agreement`, `Steps` and `Exclusion` keep the table and the calls together,
-- `Leak` is about cancelled calls.
--
-- Xorbs: crates/xetcasd/src/routes/xorbs.rs. The objects of crates/xetcasd/src/xorbstore.rs are a list from
-- a hash to bytes, and the xorb format of the crate xet_core_structures is a parameter. `Frames` is the walk
-- over the frames of a body, and `Admitted` what the checks before the lock make sure of. `Uploads` has the steps of
-- uploads that interleave, with the tasks that `spawn_blocking` starts, which run on when their upload is dropped;
-- `Handler` makes the handler of them, `Stored` is about runs in which no upload is dropped while its task runs, `Late`
-- about all runs, and `Overwritten` is a run of the other kind. `Data` is the route that serves bytes. The walk over frames has
-- the number of frames still allowed as its fuel, which is the source's own limit.
--
-- Git: crates/xetcasd/src/routes/git.rs. `Paths`, `Repo`, `Below` and `Safe` are about where a path leads,
-- `Cgi` about the output of `git http-backend`. The outcomes of the calls that create a repository are an
-- argument, and so are the repositories that other requests have made by the time the lock is taken.
--
-- Lfs: crates/xetcasd/src/routes/lfs.rs. The JSON parser, the clock and the session ids are arguments.
-- `Objects` and `Batch` are about a batch, `Download` about the routes together, `Served` about what a
-- download streams.
--
-- The parts interact as in the server: a shard's terms are checked against the xorb records of the index
-- by the geometry of `Reconstruction.Meta`, its file records must pass `Contracts.Validate`, the index
-- stores what passed, and the planner reads the stored records back.
--
-- Bounds: lengths of files are below 2^64 where a theorem says so, chunk counts and sizes of one xorb
-- below 2^32 (`Reconstruction.Content.Describes`), the size of one object below 2^63.
--
-- Not modelled: file and network I/O, the scheduling of asynchronous tasks and the semaphores, the git
-- process itself, and, as parts of the crate xet_core_structures, decompression and the parsing of shards
-- and xorbs; the chunk route, whose shard that crate makes.
pub mod Prelude
pub mod HttpRange
pub mod Contracts
pub mod Reconstruction
pub mod Decimal
pub mod Errors
pub mod Filestream
pub mod Git
pub mod Headers
pub mod Index
pub mod Lfs
pub mod Locks
pub mod Route
pub mod Sample
pub mod Shards
pub mod State
pub mod Xorbs
