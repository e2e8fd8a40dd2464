-- ===== src/Values.antt =====
-- server/src/value.c: a value from the bytes of a column. The buffer that a value owns (`base`) is not
-- modelled: the string that points to it is the buffer's bytes.
use npsql.Base.{ℕ, ◌-◌, ◌^◌, true, [], Mem, ltb, bytes, if◌then◌else◌}
use npsql.Base.Int.{ℤ, pos, negsuc}
use npsql.Bytes.{read_uint32}
use npsql.Sql.{
  NpsqlType, type_unknown, type_int, type_char, type_bool, Union, number, string, boolean, Value,
}

-- A uint32_t that is assigned to an int.
abbrev pub int_of_uint32 : ℕ → ℤ
int_of_uint32 n = if ltb n (2 ^ 31) then pos n else negsuc (2 ^ 32 - n - 1)

abbrev reset_as : NpsqlType → Union → Union
reset_as type_int v = number (pos 0)
reset_as type_char v = string []
reset_as type_bool v = v
reset_as type_unknown v = v

unfoldable pub reset : Value → Value
reset v = record v { type = type_unknown; as_ = reset_as v.type v.as_ }

abbrev as_of : NpsqlType → Mem → ℕ → Union → Union
as_of type_int src size v = number (int_of_uint32 (read_uint32 src 0))
as_of type_char src size v = string (bytes src 0 size)
as_of type_bool src size v = boolean true
as_of type_unknown src size v = v

unfoldable pub deserialize : Value → NpsqlType → Mem → ℕ → Value
deserialize dest type src size = record {
  type = type;
  size = size;
  as_ = as_of type src size (reset dest).as_;
}
