-- ===== src/Wire/Strings.antt =====
-- tunnel.go: the big-endian integers and the length-prefixed strings of a payload.
use message_boy.Base.{
  ℕ, ◌+◌, ◌%◌, ◌≤◌, ◌<◌, min, ◌≡◌, refl, false, [], ◌∷◌, ◌++◌, append_assoc, append-nil, arith,
  Bytes, ltb, le→ltb, length, drop, length-append, take-append, drop-append, take_all,
}
use message_boy.Wire.{
  max_string_len, put_uint16, put_uint32, uint16, uint32, string_size, read_string, rest_from,
}
use message_boy.Wire.Layout.{string_bytes}

pub uint32-put_uint32 : (n : ℕ) → n < 4294967296 → uint32 (put_uint32 n) ≡ n
unfolding uint32 put_uint32
uint32-put_uint32 n h = omega arith

pub uint16-put_uint16 : (n : ℕ) → n < 65536 → uint16 (put_uint16 n) ≡ n
unfolding uint16 put_uint16
uint16-put_uint16 n h = omega arith

-- A string that fits is written whole, behind its length.
pub string_bytes-short :
    (s : Bytes) → length s ≤ max_string_len → string_bytes s ≡ put_uint16 (length s) ++ s
unfolding string_bytes
string_bytes-short s h =
    let exact : min (length s) max_string_len ≡ length s = omega arith in
    let small : length s % 65536 ≡ length s = omega arith in
    rw (exact, small, take_all (length s) s (omega arith))

pub string_size-short : (s : Bytes) → length s ≤ max_string_len → string_size s ≡ 2 + length s
unfolding string_size
string_size-short s h = omega arith

-- The reader at an offset, given what the two length bytes say and what stands behind them.
read_string_at :
    (pre s rest : Bytes) (offset : ℕ)
    → length pre ≡ offset
    → length s < 65536
    → read_string (pre ++ (put_uint16 (length s) ++ (s ++ rest))) offset
      ≡ (s, offset + 2 + length s)
unfolding read_string put_uint16
read_string_at pre s rest offset e h =
    rw (drop-append offset pre (put_uint16 (length s) ++ (s ++ rest)) e) (
      rw (big, uint16-put_uint16 (length s) h, le→ltb _ _ fits, behind)
        (rw (take-append (length s) s rest refl)))
  where
    whole : Bytes
    whole = pre ++ (put_uint16 (length s) ++ (s ++ rest))

    size : length whole ≡ offset + 2 + length s + length rest
    size =
        omega
          (arith, length-append pre (put_uint16 (length s) ++ (s ++ rest)), length-append s rest)

    big : ltb (length whole) (offset + 2) ≡ false
    big = le→ltb _ _ (omega (arith, size))

    fits : offset + 2 + length s ≤ length whole
    fits = omega (arith, size)

    behind : drop (offset + 2) whole ≡ s ++ rest
    behind = rw (← append_assoc) (
        drop-append (offset + 2) (pre ++ put_uint16 (length s)) (s ++ rest)
          (omega (arith, length-append pre (put_uint16 (length s)))))

-- A string that fits is read back, whatever stands before and behind it.
pub read_string-string_bytes :
    (pre s rest : Bytes) (offset : ℕ)
    → length pre ≡ offset
    → length s ≤ max_string_len
    → read_string (pre ++ (string_bytes s ++ rest)) offset ≡ (s, offset + string_size s)
read_string-string_bytes pre s rest offset e h =
    let shift : offset + (2 + length s) ≡ offset + 2 + length s = omega arith in
    rw (string_bytes-short s h, string_size-short s h, append_assoc, shift)
      (read_string_at pre s rest offset e (omega arith))

-- What is left behind the last string of a payload.
pub rest_from-append :
    (pre rest : Bytes) (offset : ℕ) → length pre ≡ offset → rest_from (pre ++ rest) offset ≡ rest
unfolding rest_from
rest_from-append pre [] offset e = rw (append-nil, le→ltb offset (length pre) (omega arith))
rest_from-append pre (b ∷ rest) offset e =
    rw (length-append pre (b ∷ rest), drop-append offset pre (b ∷ rest) e) (ground arith)
