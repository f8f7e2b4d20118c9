-- ===== src/Dimension/Date/DateTrip.antt =====
-- What is decoded of a date that was encoded.
use husky_kylin.Prelude.{
  ℕ, ◌+◌, ◌*◌, ◌/◌, ◌%◌, ◌^◌, ◌≤◌, ◌<◌, ◌≡◌, ◌==◌, inr, inl, arith, length, if◌then◌else◌, none,
  some, List, Text, Bool-cases,
}
use husky_kylin.Utils.Bytes.Long.{read_long-write_long_inside}
use husky_kylin.Prelude.{Option, ◌∙◌, refl, codes}
use husky_kylin.Metadata.DataType.{DataType}
use husky_kylin.Dimension.Date.{
  Tm, Calendar, parse_date, get_epoch_time, has_integer_type, print_seconds, date_fixed_len,
  get_num_days_since_0000_from_seconds, get_seconds_from_num_days_since_0000, value_to_code,
  code_to_value, encode_date, decode_date,
}

-- The day of a time, as the seconds of its start.
abbrev pub day_start : ℕ → ℕ
day_start time = time / 86400 * 86400

seconds_of_read :
    (start time : ℕ)
    → start < 2 ^ 64
    → time < 2 ^ 31
    → get_seconds_from_num_days_since_0000
        ((start * 2 ^ 24 + (time / 86400 + 719530) % 2 ^ 24) % 2 ^ 64 % 2 ^ 32)
      ≡ (if start % 256 == 0 then some (day_start time) else none)
unfolding get_seconds_from_num_days_since_0000
seconds_of_read start time hs ht =
    let d = time / 86400 + 719530 in
    let r = start % 256 in
    let low : (start * 2 ^ 24 + d % 2 ^ 24) % 2 ^ 64 % 2 ^ 32 ≡ r * 2 ^ 24 + d = omega arith in
    rw low (elim (Bool-cases (r == 0)) [ inl e ↦ ground (arith, e) | inr ne ↦ ground (arith, ne) ])

day_code :
    (calendar : Calendar) (initial : Tm) (value : Text)
    → get_epoch_time calendar initial value < 2 ^ 31
    → value_to_code calendar initial value ≡ get_epoch_time calendar initial value / 86400 + 719530
unfolding value_to_code get_num_days_since_0000_from_seconds
day_code calendar initial value h = ground (arith, h)

-- What comes back of any date: the start of the day, in universal time, of the moment that it is read as.
decode_date-day :
    (calendar : Calendar) (initial : Tm) (datatype : Option DataType) (value : Text)
    (start offset : ℕ) (output : List ℕ)
    → start < 2 ^ 64
    → get_epoch_time calendar initial value < 2 ^ 31
    → offset + date_fixed_len ≤ length output
    → (out : List ℕ) × (encode_date calendar initial value output offset ≡ some out)
      × (length out ≡ length output)
      × (decode_date calendar datatype start out offset ≡ (
          if start % 256 == 0
          then some
              (print_seconds calendar datatype (day_start (get_epoch_time calendar initial value)))
          else none))
unfolding encode_date decode_date code_to_value
decode_date-day calendar initial datatype value start offset output hs ht fits =
    let code = day_code calendar initial value ht in
    let (out, written, same, kept, reads) =
      read_long-write_long_inside (value_to_code calendar initial value) start offset 3 output
        (offset + 3) hs fits (inr (omega arith)) in
    let seconds = seconds_of_read start (get_epoch_time calendar initial value) hs ht in
    (out, written, same, rw (reads, code, seconds) (ground arith))

-- A date whose midnight is midnight in universal time too, from 1970 to 2038, where `localtime_r`
-- undoes `mktime` on the struct that `strptime` fills, written into an array that has room for it.
-- The array keeps its length. If the low byte of the variable that `read_long` does not initialise
-- is 0, the date comes back: the very struct is printed for an integer type, and the very seconds
-- otherwise. With any other low byte the number of days is out of range, and the seconds overflow an `int`.
pub decode_date-encode_date :
    (calendar : Calendar) (initial : Tm) (datatype : Option DataType) (value : Text)
    (start offset : ℕ) (output : List ℕ)
    → start < 2 ^ 64
    → get_epoch_time calendar initial value < 2 ^ 31
    → get_epoch_time calendar initial value % 86400 ≡ 0
    → calendar.localtime_r (calendar.mktime (parse_date calendar initial value))
      ≡ parse_date calendar initial value
    → offset + date_fixed_len ≤ length output
    → (out : List ℕ) × (encode_date calendar initial value output offset ≡ some out)
      × (length out ≡ length output)
      × (decode_date calendar datatype start out offset ≡ (
          if start % 256 == 0
          then some (
              if has_integer_type datatype
              then calendar.put_time (parse_date calendar initial value) (codes "%Y%m%d")
              else calendar.to_string (get_epoch_time calendar initial value))
          else none))
unfolding print_seconds get_epoch_time
decode_date-encode_date calendar initial datatype value start offset output hs ht midnight same
      fits =
    let (out, written, len, back) =
      decode_date-day calendar initial datatype value start offset output hs ht fits in
    let day : day_start (get_epoch_time calendar initial value)
        ≡ calendar.mktime (parse_date calendar initial value) =
      omega (arith, midnight) in
    (out, written, len, back ∙ rw (print_seconds, day, same) refl)
