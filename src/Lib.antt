-- ===== src/Lib.antt =====
-- RPostgres, the compiled part of the R package (src/ of the repository): it sends queries to
-- PostgreSQL through libpq, turns the rows of a result into R vectors, and writes data frames as the
-- text of COPY.
--
-- The parts, and the files that model them:
--
--   src/encode.cpp               Encode: `encode_vector`, `encode_data_frame` and what they call, under
--                                the names of the source; Encode/Copy is the server's reader
--   src/PqUtils.cpp              Civil: `days_from_civil`, `tm_to_time_t`; Civil/Machine: the same in the
--                                machine's integers; Civil/DayCount is the calendar
--   src/PqColumnDataSource.cpp   DataSource: the `fetch_` functions on the text of a cell
--   src/DbColumnDataType.h       DataType: the enumeration, R's types and attributes
--   src/DbColumnStorage.cpp      Storage: a chunk of a column
--   src/DbColumn.cpp             Column: the chain of chunks and the R vector made of it
--   src/PqResultImpl.cpp         Cache: `_cache`; Result and Result/Run: the binding of parameters, the
--                                wait for data and the loop over results; Result/Fetch: the rows;
--                                Result/Waits, Reads, Sends and Delivery: what libpq does for a
--                                query, as relations, for the proofs in Arrivals, Fetching, Tables,
--                                Pieces and Progress; Start, Bound, Begun and Query: a query from its
--                                constructor or its parameters on; Failing and Thrown: errors and
--                                interrupts; Opening, Immediate and Rowless: an immediate query;
--                                Batch and Groups: a query without columns that is run for several
--                                rows of parameters; Uses: which methods pass the PGconn to libpq
--   src/DbDataFrame.cpp          Frame: the columns of a result, filled row by row
--   src/DbResult.cpp             Result: `validate_params`; Session: the rest
--   src/DbConnection.cpp         Connection: the current result, cancellation and clean-up;
--                                Connection/Calls: COPY, notifications, large objects, quoting;
--                                Connection/Sending, Copying and Unended: a whole COPY;
--                                Connection/Opening: the constructor, `info`; Connection/Frames:
--                                what the calls leave as it was
--   src/result.cpp, src/PqResult.cpp, src/RPostgres_types.h
--                                Session: a connection and the results on it, under their addresses;
--                                Session/Results: the calls on a result; Session/Sound: the pointers;
--                                Keeps, Shared, Create and Methods: the calls keep them in order;
--                                Reach: sequences of calls; Rows, Queries: what is fetched;
--                                Errors: a query that fails, and the end of one
--   src/connection.cpp           Session/Calls; Session/Hidden and Session/Closed: where pointers dangle
--
-- A row goes from libpq through PqColumnDataSource into the chunks of DbColumnStorage, which DbColumn
-- chains and copies into one R vector at the end. R, the C library, Boost and libpq are not part of
-- the repository: Runtime has what the code uses of them as fields, and Sample is one that meets the
-- hypotheses of the theorems. Libpq has the calls of libpq as fields of a record, Libpq/Link and
-- Libpq/Stream are two such records, and Libpq/Traced makes of one another that keeps whether a
-- PGconn was passed to it. A method that changes an object is a Step of Prelude/Step: what it changed
-- before it failed stays. A text is the list of its bytes before the NUL.
--
-- An error raised by `cpp11::stop` is the outcome `stop`, and undefined behaviour, such as a read
-- past the end of a vector, the outcome `undefined`. C's `int` is an integer without wrap-around
-- where no sum leaves its range; Civil/Machine checks each sum of the calendar. The counts `nrows_`
-- and `rows_affected_` and the size of a COPY buffer, which are cast or added as `int`, have no bound
-- in the model, and a `char` is its byte, from 0 to 255. `append_data` and `append_data_to_new` call
-- one another: their depth is fuel, four at most, and a call that runs out of it is a stack that
-- overflows; the theorems about them show that this does not happen for a source of known type.
--
-- A loop over results or the wait for data has fuel, a round of it for each unit; a connection's
-- pending results, or the rounds until it is no longer busy, are fewer where a theorem says so. The
-- relation Coming of Result/Delivery bounds the results that come between two rows, and Waits the
-- rounds of a wait; their proofs are the runs of libpq that the theorems are about.
--
-- A result's PGconn is the connection's, so Session gives it to the result for each call and takes it
-- back. Where it was finished, a method of the result is run on Libpq/Traced, and is undefined if it
-- passed the PGconn to libpq. What cpp11 makes of `*con` for NULL is an argument of `result_create`,
-- and the allocator's choice of an address another.
--
-- Not modelled: the notices of the server, the row names that `get_column_info` sets, the check for
-- an interrupt in every 1024th row of a data frame, the R code, the generated src/cpp11.cpp, what
-- src/encrypt.cpp passes to libpq, constructors that only pass their arguments on, and the vendored
-- Boost headers.
pub mod Prelude
pub mod Runtime
pub mod Sample
pub mod Encode
pub mod Civil
pub mod DataSource
pub mod DataType
pub mod Storage
pub mod Column
pub mod Frame
pub mod Libpq
pub mod Cache
pub mod Connection
pub mod Result
pub mod Session
