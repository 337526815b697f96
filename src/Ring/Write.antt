-- ===== src/Ring/Write.antt =====
-- contribute/agonet/pkg/buffer/ring/ring_buffer.go: the writers, and `grow`.
use ag_core.Prelude.{
  ℕ, zero, suc, ◌+◌, ◌-◌, ◌/◌, false, Option, none, some, List, [], ◌++◌, ltb, leb, ◌==◌,
  if◌then◌else◌, length, set, take, drop, slice, copy, copy_at,
}
use ag_core.Pow.{ceil_to_power_of_two}
use ag_core.Ring.{
  Buffer, Fresh, default_buffer_size, buffer_grow_threshold, buffered, available, read,
}

-- `for 0 < n && n < newCap { n += n / 4 }`. The first argument bounds the rounds.
unfoldable pub grow_loop : ℕ → ℕ → ℕ → ℕ
grow_loop zero n new_cap = n
grow_loop (suc k) n new_cap =
    let rest = grow_loop k (n + n / 4) new_cap in if ltb n new_cap then rest else n

-- The capacity that `grow(newCap)` takes at size `n`.
unfoldable pub grown_cap : ℕ → ℕ → Option ℕ
grown_cap n new_cap =
    if n == 0
    then (if leb new_cap default_buffer_size
        then some default_buffer_size
        else ceil_to_power_of_two new_cap)
    else if leb new_cap (n + n)
    then (if ltb n buffer_grow_threshold then some (n + n) else some (grow_loop new_cap n new_cap))
    else some new_cap

-- What `grow` does once the capacity is chosen.
unfoldable pub move_to : Fresh → Buffer → ℕ → Buffer
move_to fresh b new_cap =
    let res = read b (fresh new_cap) in
    record {
      buf = res.p;
      size = new_cap;
      r = 0;
      w = buffered b;
      is_empty = if ltb 0 (buffered b) then false else res.after.is_empty;
    }

-- `grow`
unfoldable pub grow : Fresh → Buffer → ℕ → Option Buffer
grow fresh b new_cap = elim (grown_cap b.size new_cap) [
  | none ↦ none
  | some c ↦ some (move_to fresh b c)
]

-- `if rb.w == rb.size { rb.w = 0 }; rb.isEmpty = false`
unfoldable pub close_write : Buffer → Buffer
close_write b = record b { w = if b.w == b.size then 0 else b.w; is_empty = false }

-- The copies of `Write(p)`, for a buffer with room for `p`.
unfoldable pub write_wrapped : Buffer → List ℕ → Buffer
write_wrapped b p =
    let c1 = b.size - b.w in
    record b { buf = copy (copy_at b.w b.buf (take c1 p)) (drop c1 p); w = length p - c1 }

unfoldable pub write_straight : Buffer → List ℕ → Buffer
write_straight b p = record b { buf = copy_at b.w b.buf p; w = b.w + length p }

unfoldable pub write_into : Buffer → List ℕ → Buffer
write_into b p =
    if leb b.r b.w
    then (if leb (length p) (b.size - b.w) then write_straight b p else write_wrapped b p)
    else write_straight b p

-- The buffer that `Write` copies to: `b`, or `b` grown.
unfoldable pub make_room : Fresh → Buffer → ℕ → Option Buffer
make_room fresh b n =
    if ltb (available b) n then grow fresh b (b.size + n - available b) else some b

-- `Write`, and so `WriteString`: the count and the buffer after it.
unfoldable pub write : Fresh → Buffer → List ℕ → Option (ℕ × Buffer)
write fresh b p = if length p == 0 then some (0, b) else elim (make_room fresh b (length p)) [
  | none ↦ none
  | some b' ↦ some (length p, close_write (write_into b' p))
]

-- `WriteByte`: `none` where `rb.buf[rb.w]` is out of range.
unfoldable pub put_byte : Buffer → ℕ → Option Buffer
put_byte b c =
    if ltb b.w (length b.buf)
    then some (close_write (record b { buf = set b.buf b.w c; w = b.w + 1 }))
    else none

unfoldable pub write_byte : Fresh → Buffer → ℕ → Option Buffer
write_byte fresh b c = elim (if ltb (available b) 1 then grow fresh b 1 else some b) [
  | none ↦ none
  | some b' ↦ put_byte b' c
]

-- `Bytes`
unfoldable pub bytes : Buffer → List ℕ
bytes b =
    if b.is_empty
    then []
    else if b.w == b.r
    then drop b.r b.buf ++ take b.w b.buf
    else if ltb b.r b.w
    then slice b.r b.w b.buf
    else drop b.r b.buf ++ (if b.w == 0 then [] else take b.w b.buf)
