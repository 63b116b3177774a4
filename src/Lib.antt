-- ===== src/Lib.antt =====
-- recipe-reader imports the recipes of an Instagram account's saved posts into a database and
-- serves them to a web page. An import run (internal/pipeline) takes an advisory lock, fetches the
-- saved posts that are not stored yet (internal/instagram), turns each caption into a recipe
-- (internal/extraction), converts it to the shapes of the domain (internal/domain) and stores it
-- (internal/repository, internal/db); a background worker starts the runs one at a time, on a timer
-- and on request, and waits after Instagram has throttled it. internal/api answers the page behind
-- a chain of middleware.
--
-- Files and code:
-- - Common, Text, Float, Errors, World: what the parts share. Text is Go's strings as lists of
--   runes, with the functions of the packages strings, strconv, unicode and regexp that are used;
--   Float is float64, a parameter with the laws of IEEE 754 that the proofs use; Errors is Go's
--   error values as far as errors.Is and errors.As look into them; World is the context of a run.
-- - Domain: internal/domain/models.go.
-- - Extraction: internal/extraction. Rules with its children is rules.go: Line is the search for
--   the expression of an ingredient line, Ingredient parses a line, Title picks the name, Score
--   rates the result. Units is units.go, Categories is categories.go, Caption is caption.go, Wrap
--   is the delimiting of a caption and Llm is the reading of the model's answer, both llm.go,
--   Transports is llm_provider.go, Hybrid is hybrid.go.
-- - Instagram: internal/instagram. Saved is the walk over the saved feed and Collections the list
--   of collections, both saved.go; Client is the session of client.go; Fetcher is
--   fetcher_adapter.go.
-- - Pipeline: internal/pipeline. Run is the import run and Convert the conversion of an extraction,
--   both pipeline.go, Run/Stored a run over the repository of this development, with Sanitize and Vocabulary for its helpers; Failure is failure.go and
--   Worker is worker.go: Interleaving has the sections of RunOnce as steps, and Goroutines those
--   of Start, Trigger and Wait, which Shutdown relates to the first and Drain follows to the end.
-- - Db: internal/db. Store is the tables of migrations and a session of calls, Statements the
--   statements of sqlc that write by their SQL, Reads those that read, Lists those of the lookup
--   tables; Seed is seed.go, Connect is connect.go and Lock is lock.go.
-- - Repository: internal/repository. Recipes is the writes and Reads the reads of
--   recipe_repository.go, Lookups is lookup_repository.go; Interfaces are the records of operations
--   that the other parts take, which Postgres fills with these.
-- - Api: internal/api. Middleware is middleware.go and the chain of router.go, Routes its table of
--   routes, Dto is dto.go, and Handlers is handlers_recipes.go, with Import for handlers_import.go
--   and Lookups for handlers_lookups.go.
-- - Config: internal/config/config.go, with Addresses for the loopback test.
-- - Server: internal/server. Extractors is extractor.go, Fetchers is fetcher.go and Imports is
--   import.go.
-- - Tests: the code at concrete inputs.
--
-- How the code is modelled. A call to a collaborator, the lock, the database, Instagram, the model
-- or the clock, is a function that takes the state of the world and gives an answer and the next
-- state; the theorems hold for all of them, but for the hypotheses that they name. So are pgx,
-- goose, the vendors' clients, the mux, the reading and writing of JSON, the format of a time and
-- net.ParseIP parameters. Results are values: an error or a value, and where Go returns both, both.
-- Ids and times are natural numbers, which neither wrap nor run out: no row has an id below 1, and
-- a request for a negative one asks for the id 0. The conversions to int32
-- wrap as Go's do, to signed numbers. A reply is the value that is encoded. The database is a record of tables
-- and a list of the outcomes of the calls to come, so a statement may fail wherever Postgres or the
-- connection may; no other transaction commits inside a transaction, and a commit that reports an
-- error has changed nothing. Sequences are not rolled back. The expressions of package regexp are
-- written out: as searches with backtracking, longest run first, where a run can give runes back,
-- and without where it cannot. All recursion is on lists but that of the feed walk, which is
-- bounded by the option MaxPages that the code itself counts down, and that of the digits of a
-- number, which is bounded by the number itself.
--
-- Not modelled: the text of the prompt and of the schema that the model is sent; the filter of
-- goose's log in internal/db/connect.go; Run of internal/server with the order of its shutdown, and
-- the timeouts of http.go; the filling of the configuration from flags and environment;
-- internal/cli, internal/logging, internal/healthcheck and internal/webui, which are input and
-- output or calls of libraries for the most part; and the page itself, which is TypeScript.
pub mod Common
pub mod Text
pub mod Errors
pub mod Float
pub mod Domain
pub mod World
pub mod Db
pub mod Extraction
pub mod Instagram
pub mod Pipeline
pub mod Repository
pub mod Api
pub mod Config
pub mod Server
mod Tests
