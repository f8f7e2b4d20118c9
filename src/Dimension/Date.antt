-- ===== src/Dimension/Date.antt =====
-- src/core-metadata/dimension/date_dim_enc. `strptime`, `mktime`, `localtime_r`, `put_time` and
-- `to_string` are parameters.
pub mod DateTrip
use husky_kylin.Prelude.{
  ℕ, ◌+◌, ◌-◌, ◌*◌, ◌/◌, ◌%◌, ◌^◌, ◌&&◌, ltb, leb, if◌then◌else◌, Bool, true, false, Option, none,
  some, List, [], ◌∷◌, ◌>>=◌, Text, codes,
}
use husky_kylin.Word.{u64}
use husky_kylin.Metadata.DataType.{DataType, is_integer_family}
use husky_kylin.Utils.Bytes.{write_long, read_long}

-- `std::tm`, each `int` as its 32-bit pattern.
pub record Tm : Type 0 where
  pub tm_sec : ℕ
  pub tm_min : ℕ
  pub tm_hour : ℕ
  pub tm_mday : ℕ
  pub tm_mon : ℕ
  pub tm_year : ℕ
  pub tm_wday : ℕ
  pub tm_yday : ℕ
  pub tm_isdst : ℕ

-- The C++ library's functions on times. A `time_t` is its 64-bit pattern. `strptime` takes the text,
-- the format and the struct before the call, and gives the struct after it, also where it fails.
pub record Calendar : Type 0 where
  pub strptime : Text → Text → Tm → Tm
  pub mktime : Tm → ℕ
  pub localtime_r : ℕ → Tm
  pub put_time : Tm → Text → Text
  pub to_string : ℕ → Text

-- The struct behind `strptime`; `initial` is what its variable happens to hold.
unfoldable pub parse_date : Calendar → Tm → Text → Tm
parse_date calendar initial date =
    calendar.strptime date (codes "%Y-%m-%d")
      (record initial { tm_hour = 0; tm_min = 0; tm_sec = 0 })

unfoldable pub get_epoch_time : Calendar → Tm → Text → ℕ
get_epoch_time calendar initial date = calendar.mktime (parse_date calendar initial date)

abbrev pub date_fixed_len : ℕ
date_fixed_len = 3

-- The result is an `int`, as its 32-bit pattern.
unfoldable pub get_num_days_since_0000_from_seconds : ℕ → ℕ
get_num_days_since_0000_from_seconds time = u64 (time / 86400 + 719530) % 2 ^ 32

-- `(days - 719530) * 86400` is computed in `int`, where a result out of range is undefined: `none`.
unfoldable pub get_seconds_from_num_days_since_0000 : ℕ → Option ℕ
get_seconds_from_num_days_since_0000 days =
    let later = (days - 719530) * 86400 in
    let earlier = (719530 - days) * 86400 in
    if leb 719530 days
    then (if ltb later (2 ^ 31) && ltb days (2 ^ 31) then some later else none)
    else (if leb earlier (2 ^ 31) then some (u64 (2 ^ 64 - earlier)) else none)

-- An `int` that becomes a `uint64_t` keeps its sign.
unfoldable pub value_to_code : Calendar → Tm → Text → ℕ
value_to_code calendar initial value =
    let days = get_num_days_since_0000_from_seconds (get_epoch_time calendar initial value) in
    if ltb days (2 ^ 31) then days else days + (2 ^ 64 - 2 ^ 32)

-- Whether the encoding has an argument that names an integer type; without one it is `none`.
unfoldable pub has_integer_type : Option DataType → Bool
has_integer_type none = false
has_integer_type (some data_type) = is_integer_family data_type

-- What is printed of the seconds.
unfoldable pub print_seconds : Calendar → Option DataType → ℕ → Text
print_seconds calendar datatype seconds =
    if has_integer_type datatype
    then calendar.put_time (calendar.localtime_r seconds) (codes "%Y%m%d")
    else calendar.to_string seconds

unfoldable pub code_to_value : Calendar → Option DataType → ℕ → Option Text
code_to_value calendar datatype code = do
  seconds ← get_seconds_from_num_days_since_0000 (code % 2 ^ 32)
  some (print_seconds calendar datatype seconds)

unfoldable pub encode_date : Calendar → Tm → Text → List ℕ → ℕ → Option (List ℕ)
encode_date calendar initial value output output_offset =
    write_long (value_to_code calendar initial value) output output_offset date_fixed_len

-- `start` is what `read_long` finds in its uninitialised variable.
unfoldable pub decode_date : Calendar → Option DataType → ℕ → List ℕ → ℕ → Option Text
decode_date calendar datatype start bytes offset = do
  code ← read_long start bytes offset date_fixed_len
  code_to_value calendar datatype code
