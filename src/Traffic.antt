-- ===== src/Traffic.antt =====
-- How traffic is counted: internal/client/traffic_counter.go on a client, and the memory of
-- internal/storage/traffic_repo.go on the server. Machine integers are kept modulo their size.
pub mod Counter
pub mod Conservation
pub mod Active
pub mod Repository
pub mod StatsTable
pub mod Flush
mod Tests
use message_boy.Base.{ℕ, ◌+◌, ◌%◌, Bool, ◌&&◌, ltb}

-- `atomic.AddInt64`, and `> 0`, on the two's complement.
abbrev pub add_int64 : ℕ → ℕ → ℕ
add_int64 a b = (a + b) % 18446744073709551616

abbrev pub is_positive_int64 : ℕ → Bool
is_positive_int64 a = ltb 0 a && ltb a 9223372036854775808

abbrev pub add_int32 : ℕ → ℕ → ℕ
add_int32 a b = (a + b) % 4294967296

abbrev pub is_positive_int32 : ℕ → Bool
is_positive_int32 a = ltb 0 a && ltb a 2147483648
