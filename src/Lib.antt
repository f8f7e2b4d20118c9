-- ===== src/Lib.antt =====
-- The cuboid engine of husky-kylin, in the repository's own terms. A cube has row key columns; a
-- cuboid is a set of them, a `uint64_t` with one bit for each column. Aggregation groups say which
-- cuboids are worth computing, the scheduler arranges those in a tree in which each is computed
-- from a parent with more columns, and a request for some columns is answered by the best cuboid
-- of the tree.
--
-- Files and the code that they model:
-- - Prelude, Word: no code of the repository. Tests, conditionals, results that may be missing,
--   lists and strings; words as numbers, and their binary digits.
-- - Utils/Bytes (children Long, Conversions): src/utils/utils.cpp, int_to_bytes to read_long.
-- - Utils/Bits (children Count, Highest, Leading): src/utils/utils.cpp, bit_count to
--   number_of_leading_zeros.
-- - Collections (Sets, Maps, Dict, Sorted, All): std::set and std::map, as lists in ascending order.
-- - Cube/RowKey (children Build, Lookup): src/core-cube/model/row_key_desc and row_key_col_desc,
--   and parse_encoding_conf of src/core-metadata/dimension/dimension_encoding.hpp.
-- - Cube/AggregationGroup (children Tree, Dims, Init): src/core-cube/model/aggregation_group.
-- - Cube/Desc: the fields of CubeDesc (src/core-cube/model/cube_desc) that cuboids depend on.
-- - Cube/Cuboid (child Columns): src/core-cube/cuboid/cuboid.
-- - Cube/Scheduler (children Parents, Family, Exists, ByLayer, Layers, Padding, Build, Match,
--   Miss): src/core-cube/cuboid/cuboid_scheduler, one record for its state and one function for
--   each of its members; a loop is a function of its own, named for what it does.
-- - Cube/TreeScheduler (children Nodes, Growth, Sorting, Index, Built, Match):
--   src/core-cube/cuboid/tree_cuboid_scheduler; a pointer to a node is its way from the root.
-- - Cube/Kv (child Splitting): src/core-cube/kv, the encoder and the splitter of row keys.
-- - Algorithm/NdCuboidBuilder (child Picked): src/algorithm/nd_cuboid_builder.
-- - Algorithm/BaseCuboidEncoder (child Inputs): src/algorithm/base_cuboid_encoder.
-- - Metadata/FunctionDesc: src/core-metadata/metadata/model/function_desc and parameter_desc.
-- - Metadata/DataModel (child Finding): data_model_desc and table_ref of the same directory.
-- - Metadata/DataType (child Decimal): src/core-metadata/metadata/datatype/data_type.
-- - Metadata/Measures: src/core-metadata/measure.
-- - Dimension/Date (child DateTrip): src/core-metadata/dimension/date_dim_enc.
-- - Dimension/Integer (children RoundTrip, Null): src/core-metadata/dimension/integer_dim_enc, and
--   is_null of dimension_encoding.hpp.
-- - Master/Hdfs: libhdfs, as the parameter of the assigners.
-- - Master/Listing: the files that a listing gives, apart from how the assigners go through it.
-- - Master/Orc (children Schedule, Serve, Replies, Found, Rows): src/husky-plugins/master/orc_assigner.
-- - Master/Parquet (children Local, Single, Remote with Queue, Scan, Forget, Serve, Browse, Groups):
--   src/husky-plugins/master/parquet_assigner, the part for HDFS in Remote.
-- - Table (child Range): src/table/table.
-- - Examples: the theorems at concrete inputs.
--
-- How the code is read. A `uint64_t` is a number below 2 ^ 64 and keeps its wrap-around where it
-- can wrap; an `int` is its 32-bit pattern where its sign matters and a number where it counts. A
-- failed CHECK, a throw, and a read that is undefined are `none`. A pointer that the code compares
-- is its address, a number. Where it matters which of these it is, or whether a loop runs out of its
-- fuel, the result has a constructor for each: Search of the scheduler, Fetch of the table. A variable
-- that is not initialised is an argument. Of the data model the row key sees only `find_column` and
-- `get_identity`, which are parameters, as are `std::stoll` and `std::to_string` of the integer
-- encoding and the calendar of the dates.
--
-- Bounds and fuel. `bit_count` and `bits` take 65 rounds, one more than a word has digits. The
-- layers of `build_tree_bottom_up` have at least one digit more each, so that 66 rounds are enough,
-- and its second loop takes one cuboid off the queue in each round; the search for a valid parent
-- gains a digit in each round and has 66. The theorems about these functions say that they return.
--
-- `build_index` takes one node off its queue in each round, and has as many rounds as the tree has
-- nodes.
--
-- Not modelled: reading and writing JSON, the Husky engine (workers, channels, aggregators), ZMQ,
-- the contents of HDFS, ORC and Parquet files, logging, and the constructors that only read JSON;
-- what the code asks of libhdfs, the file readers and the C++ library is a parameter. The
-- input formats, the table readers and the cubing job itself have no file here yet.
pub mod Prelude
pub mod Word
pub mod Utils
pub mod Collections
pub mod Dimension
pub mod Cube
pub mod Metadata
pub mod Algorithm
pub mod Master
pub mod Table
mod Examples
