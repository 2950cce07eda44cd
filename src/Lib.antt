-- ===== src/Lib.antt =====
-- Salve DB, the native core of the React Native package (cpp/): a verification library.
--
-- The program keeps an SQLite database on a device and synchronises it with a REST service. The
-- parts modelled here reach from the schema's declarations and the connection to the network:
--   Prelude      shared names: tests, lists and bytes, signed integers and their decimal text, results
--   Exec         code with a world that it changes and an exception that it may throw
--   OrderedMap   cpp/database/OrderedMap.hpp
--   Json         cpp/database/json_parser.hpp: value tree (Json), scanners (Json/Cursor), parser
--                (Json/Parser), printer (Json/Printer), `double` as an interface (Json/Double)
--   JsonPath     cpp/expression/JsonPathExtractor.cpp
--   Http         cpp/http: UrlBuilder for HttpUrlBuilder, UrlTemplate, Types for HttpTypes and
--                NetworkConfig, SyncHttpCaller, BatchSend for its send, CredentialHttpCaller,
--                Requester for SyncHttpRequester
--   Credentials  cpp/credentials/CredentialProvider.cpp
--   Sql          the values, results and the interface of a database, cpp/database/SQLiteConnection.hpp
--   Connection   cpp/database/SQLiteConnection.cpp: statement cache (Connection/Prepare), cells and
--                cpp/database/SchemaRegistry.cpp (Connection/Rows), Execute, Lifetime, Notifications
--   ConfigStore  cpp/database/NativeConfigStore.cpp
--   Schema       cpp/database/MigrationEngine.cpp: the parser of schemas (Schema), the statements for
--                their tables (Schema/Ddl), the tables of the library (Schema/SystemTables) and
--                registerSchema (Schema/Register)
--   Reset        cpp/database/DatabaseResetter.cpp
--   Sync         cpp/sync: Contract for SyncContract, Pull for SyncPullPhase,
--                Guard for SyncApplyGuard, Push for SyncPushPhase, Orchestrator for
--                SyncOrchestrator, Stores for SyncCursorStore and SyncDefinitionStore,
--                Relations for RelationStore, Queue for SyncQueueStore, Applier for
--                SyncOperationApplier and RelationCascadeRewriter (Applier/Rewrite), and Metadata
--                for cpp/database/SalveMetadataManager.cpp
--   Tests        concrete inputs
-- Functions keep the source's names in snake case: `SyncContract::fromDefinition` is
-- from_definition, `withRetryAnd401` is with_retry_and_401. A part of a long function is a
-- definition of its own, with a comment that says which.
--
-- How the parts meet: a schema's `sync` block is a JSON value, from which Sync/Contract makes a
-- contract with two URL templates. Http/SyncHttpCaller renders them into requests and reads the
-- answers with the JSON parser. Http/Requester puts the header of Credentials on each call, repeats
-- it on network failures, and has Credentials refresh the tokens on a 401 by
-- Http/CredentialHttpCaller.
--
-- Sync/Pull asks for pages from the stored cursor on; the cursor store, the guard, the applier and
-- the requester are its interface PullServices.
--
-- Sync/Push reads the pending items and their rows, sends each, and applies the answer inside
-- Sync/Guard's transaction; the tables, the applier and the requester are its interfaces.
--
-- Sync/Applier writes a pulled page and the answer of a push: its SQL goes to the interface
-- Database, its metadata to ApplierStore. Connection is the code under such a database: it prepares,
-- binds, steps and notifies by the interfaces Statements, Sqlite, Handles and Callbacks. Schema
-- reads a declaration with the JSON parser, checks its `sync` block by Sync/Contract, makes the
-- texts of the statements and runs them in a transaction of the interface MigrationStores. Reset
-- wipes the tables inside Sync/Guard's transaction and ends the session by the interface
-- ResetServices.
--
-- Sync/Orchestrator runs a push and a pull for one schema, and sessions for all of them, under the
-- sync lock.
--
-- State and errors: the secure store, the HTTP client and the clock are operations on a world
-- `W`, parameters of the model. The reading, storing and deleting of a secure value may throw,
-- and what is documented of such calls that return are named laws (Credentials/Store), as is what
-- the file system keeps (ConfigStore/Laws) and what a service counts as a request
-- (Sync/Pull/Requests). An exception is a value of Result, a network failure a value of the
-- source's variant. A `std::string` is a list of bytes, its literals ASCII; the em dash of the
-- messages is written out in UTF-8.
--
-- Numbers: `double` is a type with the operations that the source calls (Json/Double); what
-- std::stod throws is one exception, whether the text is no number or out of range. An `int`, an
-- int64_t and a status code are integers without bounds. The source converts a page size and a
-- timestamp from `double`, undefined outside the range of the type, passes the ids of the queue
-- and the timestamps of the metadata through `double` on their way to SQLite and back, multiplies
-- a limit by eight and takes one from a timestamp; these are exact here. Map parameters of
-- `render` are association lists, since the source looks keys up and nothing else; subscribers
-- are called in the order of their subscription, where the source iterates over an unordered map.
--
-- Loops: those over a text or a list are structural. Four run on fuel: the JSON parser on twice the
-- length of the text and one, since each call reads a byte or descends; the template parser on the
-- length and one, since each round reads a byte; the retry loop on four rounds, three failures and
-- one refresh; the loop over the rows of a statement on a bound of the caller's for the calls of
-- sqlite3_step, of which only SQLite knows the number. Where fuel runs out the outcome is the
-- exception no_fuel, which no code throws.
--
-- Tables: a table of Sync/Stores, Sync/Relations, Sync/Metadata and Sync/Queue is the list of its
-- rows, with a statement as the operation on rows that its text states. What SQLite throws where
-- a key of Sync/Metadata or Sync/Relations would break is a parameter; its other refusals are not
-- modelled there.
--
-- Not modelled: SQLite itself; cpp/query, which forwards a text to the connection; the database
-- manager, the facade and the entry points; the bindings of the platforms and of the bridge, and the
-- TypeScript side.
pub mod Prelude
pub mod OrderedMap
pub mod Json
pub mod JsonPath
pub mod Exec
pub mod Sql
pub mod Connection
pub mod ConfigStore
pub mod Credentials
pub mod Http
pub mod Sync
pub mod Schema
pub mod Reset
mod Tests
