-- ===== src/Lib.antt =====
-- Verification of nomai, a local knowledge store: a daemon that keeps entries, blocks and messages in
-- SQLite and in `.nomai` text files, and serves them to agents.
--
-- The parts that are modelled:
--
-- * crates/core/src/nomai_format.rs, the text format of a document. The service writes every
--   document with `render` and reads it with `parse`. Files: NomaiFormat/Model (the document types),
--   NomaiFormat/Values (header values, tags and attributes, with `escape_header_value`,
--   `unescape_value`, `render_tags`, `parse_tags`, `split_attr_tokens` and `parse_block_attrs`),
--   NomaiFormat/Parse (one header line, one block), NomaiFormat/Document (`parse` and `render`). The
--   other files under NomaiFormat are proofs.
-- * crates/core/src/chunking.rs, which cuts the text of a block into chunks for the search index.
--   File: Chunking; the files under it are proofs.
-- * crates/core/src/channel_service.rs and channel_model.rs, with the two tables of
--   crates/core/migrations/V13__channels.sql: a log of messages, and one read cursor for each
--   channel and subscriber. Files: Channel/Model (the types and the checks of a request),
--   Channel/Service (`send`, `recv`, `purge`, `unsubscribe` and their queries); the other files under
--   Channel are proofs.
-- * crates/daemon/src/search_cache.rs, the cache of search results, whose keys hold the generation of
--   the data. File: SearchCache; the files under it are proofs.
-- * crates/core/src/event_model.rs and event_service.rs, the log of the changes: `list`, `get` and
--   `purge`. File: Events; Events/Paging holds proofs.
-- * crates/core/src/link_model.rs and link_service.rs, directed edges between entries, with the table of
--   crates/core/migrations/V2__links.sql, and what the delete and the start of the reindexing of an entry
--   in crates/core/src/service.rs do to the links. Files: Links (the types, `create`, `get`, `delete`,
--   `delete_entry`, `replace_entry`), Links/Queries (`list`, `neighbors`); the others are proofs.
-- * crates/core/src/conversation_model.rs and conversation_service.rs, with the tables and the counting
--   trigger of crates/core/migrations/V11__conversations.sql. Files: Conversations (the types and the
--   statements), Conversations/Service (`create`, `get`, `append_turns`, `update`, `delete`); the
--   others are proofs.
-- * crates/daemon/src/handlers/batch.rs, several operations in one transaction, which refer to each
--   other's results. File: Batch; Batch/Refs and Batch/Atomic hold proofs.
-- * crates/providers/src/cached.rs, the cache of embeddings: `embed` and `stats`. File:
--   EmbeddingCache; EmbeddingCache/Transparent holds proofs.
-- * crates/protocol/src/rpc.rs and error.rs, crates/daemon/src/rpc.rs, and `run_stdio` and `dispatch` of
--   crates/daemon/src/daemon.rs: requests, responses and the codes of errors. File: Rpc; Rpc/Codes
--   holds proofs.
-- * crates/core/src/snippet.rs, the excerpt of a text around the first match of a search. File: Snippet;
--   Snippet/Window holds proofs.
-- * crates/core/src/fts_query.rs, the words of a query for the full-text index, each in quotation marks.
--   Which characters are alphanumeric is a parameter. File: FtsQuery; FtsQuery/Terms holds proofs.
-- * crates/core/src/block_service.rs, block_model.rs, chunk_service.rs and chunk_model.rs, with the tables,
--   triggers and cascades of the migrations V6, V8, V9 and V10: the blocks of the entries, and the chunks
--   and full-text rows that are derived from them. Files: Blocks (the tables, their statements and
--   `create`), Blocks/Service (`append`, `update`, `delete`, the readers, and the vectors of the chunks);
--   the others are proofs.
-- * crates/daemon/src/adaptive_search.rs, `rank_candidates`, which adds supplements to the results of a
--   search and orders them by what was learned of their entries. File: Ranking; Ranking/Items and
--   Ranking/Order hold proofs.
-- * crates/core/src/service.rs, `reindex_one`, `sync_from_fs`, `verify_fs` and `rebuild_index`, with
--   `read_entry` of content_store.rs: the index is brought up to date with the `.nomai` files, by their
--   times, or made from them. Files: Sync, Sync/Rebuild; the others are proofs.
-- * crates/core/src/service.rs, `dedupe_hits`: the rows of a full-text search, as hits of entries. File:
--   Search; Search/Hits holds proofs.
--
-- The services write their changes and an event for each in one transaction, Core/Transaction. Core has
-- the errors of crates/core/src/error.rs and what the libraries give (`Deps`), Core/Json the values of
-- serde_json, and Core/Model the entry and the block of crates/core/src/model.rs and block_model.rs.
--
-- Base holds shared names and lemmas, and Text the operations of Rust's `str`. A text is the list of
-- its code points; `len` counts its bytes in UTF-8. A `Result` is a data type of this library, with
-- `?` as its bind.
--
-- How the code corresponds to the model:
--
-- * The two loops of `parse` over the lines of the blocks, one inside the other, are one structural
--   recursion over the lines, `read_blocks`, whose state is the block in progress, if there is one.
--   The variables of the first loop are the record `Header`. A loop over the characters of a text is
--   a step function on a record of its variables.
-- * The only fuel is that of `decimal`, the digits of a `u32`: it is 10, and no `u32` has more.
-- * A query is a function on the list of the rows in the order of their primary key. `last_given` is
--   the largest key that AUTOINCREMENT has given out. Keys are natural numbers: that an `i64` ends at
--   2 ^ 63 is not modelled. A call is one transaction, and takes what the clock and the id generator
--   give as arguments.
-- * A table of the services of entries, links, conversations and events is the list of its rows, the
--   newest first; a query filters it, sorts it by the columns of its ORDER BY (`sort_by`, which keeps
--   the order of equal rows) and cuts it. The constraints are checked where a row is inserted. A call
--   takes the ids and times that the generators give as the record `Call`. A column of JSON holds the
--   value that was written to it.
-- * `limit + 1` rows of the log are fetched and counted in a `u32`, so the page is as described for a
--   limit below 2 ^ 32 - 1. The ordinal of a turn wraps around at 2 ^ 32.
-- * A batch takes what a method does to the tables, the clean-up of the memories of deleted entries and
--   the embedding of an entry as the parameters `Services`. Its loop has the record `Progress` as its
--   state. `transact` is `call` up to its COMMIT or ROLLBACK, and `after_commit` is the rest. An index
--   of a result that is out of bounds would panic and is an error here.
-- * `run_stdio` takes the lines of the input up to its end, and gives what it writes. `from_str` of
--   serde_json is a parameter, and the daemon is not restarted meanwhile.
-- * The list of the misses of `embed` holds the texts, not their indices. A failure of the cache's
--   table, which counts as a miss, is not modelled, nor are `clear` and the wait for the provider.
-- * ULIDs, times, JSON values that are no strings and the conversions that the libraries do are the
--   parameters `Externals` and `Deps`. What the round trip relies on is `Laws`: a printed ULID or time
--   is parsed to itself, and has no white space.
-- * The ids that the chunks of a call get are a function of their positions, in the record `Call` of Blocks.
--   The virtual tables fts_blocks and vec_chunk_embeddings are lists of rows; a vector is its bytes. The
--   text of an SQL constraint's message is the same for every constraint.
-- * The order in which the hash map of `rank_candidates` gives its values is the parameter `shuffle`, any
--   rearrangement. An `f64` is a value of the parameter `Floats`, whose `position` numbers the floats in
--   the order of `total_cmp`.
-- * A pass over the files takes what the file system holds as the record `Files`, which stays the same
--   during the pass. The column `fs_mtime` of the entries is a function of their ids, in the record
--   `Index`. `sync_from_fs` that fails leaves the entries before the failure as it has indexed them, so
--   its error comes with the index. The ids of its calls are a function of the entry and the block. A
--   rebuild wipes the links too; their table is not in an `Index`.
-- * The rank of a row of a search and its absolute value as an `f32` are parameters, and so is the parser
--   of ids. `order` and `map` of `dedupe_hits` are one list of hits; the count of a hit wraps around at
--   2 ^ 32.
-- * A lookup of the cache takes the outcome of the computation that it would run. Its last step,
--   `store`, is a definition of its own, so that other calls can run between the computation and it.
--   Counters wrap around at 2 ^ 64. A hash is the list of its bytes, and blake3 a parameter.
--
-- Not modelled: the reason texts of parse errors, failures of SQLite other than of its constraints (so
-- also of a COMMIT), the decoding of rows, `list` of the channels and of the conversations, the search
-- of conversations, the statistics that the search cache reports and the hash of the weights (on
-- floating-point numbers), the lock and the benchmark record of a dispatch, the connections of the
-- resident daemon, the search by vectors and the fusion of its results with those of the full text,
-- `create`, `update` and `list` of the entries with their files, and `export_to_fs`; and the other parts
-- of the repository: the memories of crates/core, the other handlers of crates/daemon, and the HTTP
-- clients of crates/providers.
pub mod Base
pub mod Text
pub mod Core
pub mod Events
pub mod Links
pub mod Conversations
pub mod Batch
pub mod EmbeddingCache
pub mod Rpc
pub mod Snippet
pub mod FtsQuery
pub mod NomaiFormat
pub mod Chunking
pub mod Channel
pub mod SearchCache
pub mod Blocks
pub mod Ranking
pub mod Sync
pub mod Search
