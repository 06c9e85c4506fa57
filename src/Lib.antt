-- ===== src/Lib.antt =====
-- Wise Way: the backend (backend/wiseway) sorts incoming files of a company by masks into target
-- directories. A worker's request selects files of the queue, plans them by the company's rules and
-- accepts the plan as a batch of attempts; the durable executor carries each attempt out; what it
-- cannot place goes to manual review or to quarantine, from where an operator may return it.
--
-- `Prelude` and `Common` hold shared names, text and errors; `Records` the documents; `Storage` and
-- `Database` the tables of storage.py; `Audit` the journal of audit.py; `Paths` the logical places of
-- services.py. `Host` is the interface of the clock and of filesystem.py, whose calls of the operating
-- system are not modelled: a method is given any host, and a host may answer two equal questions
-- differently. `Exec` is the type of methods over durable rows and a host: a transaction commits as a
-- whole or raises and changes nothing, and every move asked of the filesystem is recorded with the
-- rows that were durable at that time. Digests, fresh identifiers, password hashes and `str.casefold`
-- are parameters; moments are microseconds, and a file's `modified_at` is the nanoseconds that it is
-- written from.
--
-- `Rules` models rules.py: the glob loop with fuel (the mask's length plus one times the value's
-- length plus one rounds), the choice of a rule, the two passes over collisions and the counts.
-- `Worker` models worker.py method by method, its transactions in `Worker.Transactions`. `_run` and
-- `_recover` call each other; `run` bounds that by a depth of two, since `_recover` runs an attempt
-- only after it has queued it. `Worker.Writes` carries what the transactions keep through all its
-- methods; `Worker.Passes` is about whole passes of `run_once`.
-- `Quarantine` models the return of files of quarantine.py, `Dictionaries` the rules, drafts,
-- simulations and publications of dictionaries.py, `Services` the plans, batches and idempotent
-- requests of services.py, `Sorting` the selections, previews and acceptance of sorting.py, and `Auth`
-- the sessions, accounts and cleanup of auth.py, accounts.py and maintenance.py. `Samples` holds rows
-- for tests.
--
-- `Pages` models the pages of services.py: a long list is saved as a snapshot, and a cursor of a
-- request stands for an offset in it. `Search` models search.py and search_cache.py: `Search.Words` its
-- words and natural keys, `Search.Query` its parser (a loop with one round more than the query has
-- characters), `Search.Match` matching and scores, `Search.Order` the orders, `Search.Facets` chains of
-- markers and facets, `Search.Results` the answers, `Search.Index` the index of
-- search_index.py, `Search.Schemas` and `Search.Items` how an index
-- item is built from a path, and `Search.Cache` the cache of answers with its threads. What Unicode
-- knows of a code point is a parameter.
--
-- Not modelled: the queries of the journal, the branch of search() that reads the ranks of a
-- prepared index, the requests to SQLite and OpenSearch, indexing, archive
-- import, HTTP routing and the command line, migrations, and the system calls of the filesystem adapter.
pub mod Prelude
pub mod Common
pub mod Records
pub mod Storage
pub mod Audit
pub mod Database
pub mod Paths
pub mod Host
pub mod Exec
pub mod Worker
pub mod Rules
pub mod Auth
pub mod Dictionaries
pub mod Pages
pub mod Quarantine
pub mod Samples
pub mod Search
pub mod Services
pub mod Sorting
