-- ===== src/Examples/Encoding.antt =====
-- Keys of two integer columns, and dates.
use husky_kylin.Prelude.{
  ℕ, ◌+◌, ◌%◌, ◌≤◌, ◌≡◌, ◌==◌, arith, refl, some, none, List, [], ◌∷◌, Text, codes, length,
  replicate, if◌then◌else◌, text_eq,
}
use husky_kylin.Utils.Bytes.{long_to_bytes}
use husky_kylin.Utils.Bits.Count.{ones_below}
use husky_kylin.Word.Digit.{bit}
use husky_kylin.Collections.Maps.{find}
use husky_kylin.Dimension.Integer.{new_integer_dim_enc}
use husky_kylin.Prelude.{Option}
use husky_kylin.Metadata.DataType.{DataType}
use husky_kylin.Dimension.Date.{
  Tm, Calendar, parse_date, get_epoch_time, has_integer_type, encode_date, decode_date,
}
use husky_kylin.Dimension.Date.DateTrip.{decode_date-encode_date}
use husky_kylin.Cube.RowKey.{RowKeyDesc, RowKeyColDesc, one_shl, get_col_desc}
use husky_kylin.Cube.Cuboid.{
  Cuboid, columns_of, translated_id_to_columns, new_cuboid, find_for_mandatory,
}
use husky_kylin.Cube.Kv.{
  Formats, create, integer_length, get_length_of_encoding, get_dim_enc, get_column_length,
  RowKeyEncoder, new_row_key_encoder, cuboidid_length, create_buf, copy_to, fill_header,
  encode_body, split,
}
use husky_kylin.Cube.Kv.Splitting.{joined, HasLengths, split-encode_body}
use husky_kylin.Metadata.FunctionDesc.{FunctionDesc, is_column_type, get_col_refs}
use husky_kylin.Algorithm.BaseCuboidEncoder.{
  column_indexes, function_columns, measure_indexes, get_string_values,
}
use husky_kylin.Algorithm.BaseCuboidEncoder.Inputs.{strings_of, get_string_values-strings_of}
use husky_kylin.Algorithm.NdCuboidBuilder.{build_key_internal}
use husky_kylin.Algorithm.NdCuboidBuilder.Picked.{picked, rounds_of, build_key_internal-picked}

-- The last of August 2016, and what a variable held before.
abbrev day : Tm
day = record {
  tm_sec = 0;
  tm_min = 0;
  tm_hour = 0;
  tm_mday = 31;
  tm_mon = 7;
  tm_year = 116;
  tm_wday = 3;
  tm_yday = 243;
  tm_isdst = 0;
}

abbrev rubbish : Tm
rubbish = record day { tm_hour = 17; tm_mday = 99 }

abbrev calendar : Calendar
calendar = record {
  strptime = λ text format tm. record tm { tm_mday = 31 };
  mktime = λ tm. 1472601600;
  localtime_r = λ seconds. day;
  put_time = λ tm format. tm.tm_mday ∷ [];
  to_string = λ seconds. seconds ∷ [];
}

abbrev three : List ℕ
three = replicate 3 0

abbrev long_type : Option DataType
long_type = some (record { name = codes "bigint"; precision = 0; scale = 0 })

decode_date-encode_date_example :
    (out : List ℕ) × (encode_date calendar rubbish (codes "2016-08-31") three 0 ≡ some out)
    × (length out ≡ length three)
    × (decode_date calendar long_type 256 out 0 ≡ (
        if 256 % 256 == 0
        then some (
            if has_integer_type long_type
            then calendar.put_time
                (parse_date calendar rubbish (codes "2016-08-31"))
                (codes "%Y%m%d")
            else calendar.to_string (get_epoch_time calendar rubbish (codes "2016-08-31")))
        else none))
unfolding get_epoch_time parse_date
decode_date-encode_date_example =
    decode_date-encode_date calendar rubbish long_type (codes "2016-08-31") 256 0 three
      (omega arith) (omega arith) (omega arith) refl (omega arith)

abbrev column : ℕ → ℕ → RowKeyColDesc
column index col = record {
  column = codes "T.C";
  encoding = codes "integer:2";
  encoding_name = codes "integer";
  encoding_args = codes "2" ∷ [];
  bit_index = index;
  col_ref = col;
}

abbrev row_key : RowKeyDesc
row_key = record {
  row_key_columns = column 1 11 ∷ column 0 12 ∷ [];
  full_mask = 3;
  column_map = (11, column 1 11) ∷ (12, column 0 12) ∷ [];
}

abbrev formats : Formats
formats = record {
  numerals = record { stoll = λ t. none; to_string_signed = λ n. []; to_string_unsigned = λ n. [] };
  calendar = calendar;
  stoi = λ t. some 2;
  uninitialised = rubbish;
}

abbrev both : Cuboid
both = record { input_id = 3; id = 3; id_bytes = long_to_bytes 3; dimension_columns = 11 ∷ 12 ∷ [] }

both-found : find_for_mandatory row_key 3 ≡ some both
unfolding find_for_mandatory new_cuboid translated_id_to_columns columns_of one_shl
both-found = refl

abbrev slices : List (List ℕ)
slices = (1 ∷ 2 ∷ []) ∷ (3 ∷ 4 ∷ []) ∷ []

slices-HasLengths : HasLengths formats row_key both.dimension_columns slices
unfolding get_column_length get_dim_enc get_col_desc find create integer_length new_integer_dim_enc
    get_length_of_encoding text_eq
slices-HasLengths = ((refl, omega arith), ((refl, omega arith), tt))

split-encode_body_example :
    (e : RowKeyEncoder) × (out : List ℕ) × (new_row_key_encoder formats row_key both ≡ some e)
    × (encode_body e (joined slices) (create_buf e) ≡ some out)
    × (split formats row_key 0 out ≡ some (3, long_to_bytes 3 ∷ slices))
split-encode_body_example =
    split-encode_body formats row_key both 3 0 slices (omega arith) (omega arith) both-found
      slices-HasLengths

-- A parent of four columns, the topmost digit of which is odd, and a child without one of them.
abbrev parts : List (List ℕ)
parts = long_to_bytes 15 ∷ (1 ∷ []) ∷ (2 ∷ []) ∷ (3 ∷ []) ∷ (4 ∷ []) ∷ []

abbrev blank : List ℕ
blank = replicate 11 0

abbrev encoder : RowKeyEncoder
encoder = record { cuboid = both; body_length = 3 }

parts-enough : 1 + ones_below 4 15 ≤ length parts
unfolding ones_below bit
parts-enough = omega arith

room : cuboidid_length + length (picked 15 13 parts (rounds_of 3) 3 1) ≤ length blank
unfolding picked bit
room = omega arith

build_key_internal-picked_example :
    build_key_internal encoder 15 13 parts blank
    ≡ some
        (fill_header encoder (copy_to blank cuboidid_length (picked 15 13 parts (rounds_of 3) 3 1)))
build_key_internal-picked_example =
    build_key_internal-picked 15 13 parts encoder 3 blank (omega arith) (omega arith) (omega arith)
      parts-enough room

-- A sum over a column with a constant, and a count.
abbrev measures : List FunctionDesc
measures =
    record {
      expression = codes "SUM";
      parameters =
          record { parameter_type = codes "constant"; value = codes "7"; col_ref = 0 }
          ∷ record { parameter_type = codes "column"; value = codes "T.D"; col_ref = 13 }
          ∷ [];
    }
    ∷ record {
      expression = codes "COUNT";
      parameters =
          record { parameter_type = codes "constant"; value = codes "1"; col_ref = 0 } ∷ [];
    }
    ∷ []

abbrev flat : List (ℕ × ℕ)
flat = (11, 0) ∷ (12, 1) ∷ (13, 2) ∷ []

abbrev row : List Text
row = codes "a" ∷ codes "b" ∷ codes "c" ∷ []

measures-indexes : measure_indexes flat measures ≡ some ((2 ∷ []) ∷ [] ∷ [])
unfolding measure_indexes function_columns column_indexes get_col_refs is_column_type find text_eq
measures-indexes = refl

get_string_values-strings_of_example :
    get_string_values measures ((2 ∷ []) ∷ [] ∷ []) row ≡ strings_of flat row measures
get_string_values-strings_of_example =
    get_string_values-strings_of flat row measures ((2 ∷ []) ∷ [] ∷ []) measures-indexes
