-- ===== src/Lib.antt =====
-- AperipNomos keeps license texts: an administrator uploads and deletes them over one HTTP listener,
-- and anybody lists and reads them over another. One thread, the store's actor, owns the database
-- RNMDB and a copy of its table in memory; the handlers send it commands.
--
-- Domain.antt models src/domain.rs: the checks of an upload, and the derivation of its title and
-- slug. Sql.antt models the statements that src/store.rs builds, and Sql/Reading.antt describes how
-- a database reads them. Store/State.antt, Store/Load.antt and Store/Core.antt model the data, the
-- opening of the database and the operations of `StoreCore` in src/store.rs; Storage.antt models the
-- session of src/storage.rs, with the path and the lock of its database in Storage/Owner.antt, and
-- Store/Spawn.antt models `spawn_store`. Store/Coherent.antt states the invariant between memory and
-- table, and Store/Transaction.antt, Store/Reopen.antt, Store/Create.antt and Store/Delete.antt
-- prove what the operations do with it, whichever statement fails.
--
-- Actor.antt models the loop of the actor's thread, its handles and the flags it leaves;
-- Actor/Spec.antt says what its clients are promised, a map of documents, and Actor/Stepped.antt and
-- Actor/Refinement.antt relate the two, for one command and for a run. Actor/System.antt puts clients
-- on any number of handles, the thread and `StoreTask` together as a step relation over one channel
-- and one set of flags: a reached state is the end of a schedule of their steps, and its modules prove
-- what holds in each. The commands that were sent have numbers, in their order, which stand for the
-- `oneshot` channel that each has (Actor/System/Numbers.antt). A `send` reads the flags in one step
-- and uses the channel in another; the execution of one command, which no client sees in between but
-- for the flag `ready`, is one step.
--
-- Markdown.antt models the cache of src/markdown.rs with the loop that makes room in it,
-- Markdown/Flights.antt `render_cached` as the steps of any number of requests and their blocking
-- tasks, Markdown/Events.antt its filter of events, and Markdown/Page.antt the rendering of a page
-- with the policy of its sanitizer. Http.antt and Http/Admin.antt model the errors of src/http and
-- the reading of an upload, Http/Handlers.antt the handlers over the store and the cache, where one
-- request runs undisturbed, Http/Response.antt and Http/Assets.antt the answers and the pages with
-- their headers, and Http/Router.antt the routes of both listeners. Config.antt models the settings
-- of src/config.rs, with their debug output in Config/Redacted.antt; Service/Startup.antt models
-- `main` of src/main.rs up to the start of its listeners and Service/Main.antt what it returns,
-- Service/Listeners.antt the two servers of src/server.rs with their coordinator as a step relation,
-- and Service.antt its watchdog and the end of the listeners in src/server.rs.
--
-- Texts are lists of Unicode code points (Text.antt), byte strings lists of numbers, and a
-- `BTreeMap` the list of its entries in the order of the keys (Map.antt). An `i64` is an integer
-- with its overflow check written out (Prelude/Int.antt). A function that fails returns a `Result`
-- (Prelude/Result.antt); one that also changes state returns the state with it (Prelude/Exec.antt).
--
-- Parameters of the model are the crates: SHA-256 and hex (`Digests` in Domain.antt), base64 and the
-- database session (`Base64`, `Rnmdb` and `RnmdbLaws` in Database.antt). The laws say what RNMDB
-- documents: statements that are not in a transaction keep the table, a transaction changes it at
-- its COMMIT only, and a COMMIT that reports an error may have been carried out. Tests/Crate.antt
-- has an instance of each of these, whose faults follow a script. Markdown/Page.antt takes the
-- parser, the writer of HTML and the sanitizer (`HtmlCrates`, `HtmlLaws`), Config.antt the files,
-- the addresses and the hexadecimal decoder (`Platform`), and Http/Admin.antt what the multipart
-- reader yields. Http/Web.antt has the map of headers, the writer of JSON and the router of axum
-- (`WebCrates`, `WebLaws`), with an instance in Tests/Web.antt. Actor/Channel.antt has the channel
-- of tokio (`Mpsc`, `MpscLaws`): it keeps the order of what it accepts, within its capacity.
-- Files.antt has the file system, its locks and the start of a thread (`FileSystem`, `FileLaws`).
-- Tests/Queue.antt and Tests/Spawn.antt have instances of both.
--
-- Fuel: `digits` of Sql.antt takes one more than the number it prints, which has fewer digits, and
-- `decode_from` of Text/Utf8.antt takes the length of its input and reads a byte at least per round.
-- `make_room` of Markdown.antt takes one more than the length of the queue, which each round
-- shortens.
--
-- Not modelled: the pages, scripts and style sheets of the browser, a panic of the actor's thread,
-- the signals of the operating system, the layers of axum that trace requests and limit a body, and
-- logging.
pub mod Prelude
pub mod Text
pub mod Domain
pub mod Sql
pub mod Map
pub mod Database
pub mod Files
pub mod Storage
pub mod Store
pub mod Actor
pub mod Markdown
pub mod Http
pub mod Config
pub mod Service
pub mod Tests
