-- ===== src/Ring/Valid.antt =====
-- The invariant of a ring buffer, and the queue of bytes that it stands for.
use ag_core.Prelude.{
  ℕ, ◌+◌, ◌-◌, ◌≤◌, ◌<◌, ◌≡◌, true, false, List, [], ◌++◌, arith, ltb, if◌then◌else◌, length, take,
  drop, slice, length-append, length-take, length-drop,
}
use ag_core.Ring.{Buffer, buffered, available}

-- Both indices lie inside the buffer (at 0 where there is none), an empty one has met indices, and
-- one without storage is empty.
pub record IsValid (b : Buffer) : Type 0 where
  pub length_buf : length b.buf ≡ b.size
  pub r_in : b.r ≤ b.size - 1
  pub w_in : b.w ≤ b.size - 1
  pub met : b.is_empty ≡ true → b.r ≡ b.w
  pub stored : b.is_empty ≡ false → 0 < b.size

-- The bytes that can be read, oldest first.
abbrev pub contents : Buffer → List ℕ
contents b =
    if b.is_empty
    then []
    else if ltb b.r b.w
    then slice b.r b.w b.buf
    else drop b.r b.buf ++ take b.w b.buf

-- On a valid buffer what is buffered and what is available add up to the size.
pub buffered-add-available : {b : Buffer} → IsValid b → buffered b + available b ≡ b.size
unfolding buffered available
buffered-add-available v = ground arith

pub length-contents : {b : Buffer} → IsValid b → length (contents b) ≡ buffered b
unfolding buffered
length-contents {b} v = ground (
  arith,
  length-append (drop b.r b.buf) (take b.w b.buf),
  length-drop b.r b.buf,
  length-take b.w b.buf,
  length-take (b.w - b.r) (drop b.r b.buf),
)

-- The two shapes of a buffer that holds something.
pub contents_straight :
    (b : Buffer) → b.is_empty ≡ false → b.r < b.w → contents b ≡ slice b.r b.w b.buf
contents_straight b e h = ground arith

pub contents_wrapped :
    (b : Buffer) → b.is_empty ≡ false → b.w ≤ b.r → contents b ≡ drop b.r b.buf ++ take b.w b.buf
contents_wrapped b e h = ground arith

pub contents_empty : (b : Buffer) → b.is_empty ≡ true → contents b ≡ []
contents_empty b e = ground arith
