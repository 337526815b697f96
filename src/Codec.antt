-- ===== src/Codec.antt =====
-- contribute/agonet/simple/codec_length_field_decoder.go and codec_length_field_encoder.go: frames
-- with a length field. An `int` of Go that may be negative is an integer; the sum that is computed on
-- `int64` keeps its wrap-around. A panic of `utils.Assert` is `none`.
-- `binary.ByteOrder` is Go's: the two orders put the low byte first or last.
pub mod Bytes
pub mod Sound
pub mod RoundTrip
pub mod Events
pub mod Traffic
mod Tests
use mathlib.Core.List.{reverse}
use ag_core.Prelude.{
  ℕ, zero, suc, ◌+◌, ◌-◌, ◌*◌, ◌/◌, ◌%◌, ◌^◌, Bool, true, false, ◌&&◌, ◌||◌, not, Option, none,
  some, List, [], ◌∷◌, ◌++◌, ltb, leb, ◌==◌, if◌then◌else◌, length, take, drop, slice,
}
use ag_core.Prelude.Int.{ℤ, pos, negsuc, pos_part, ◌+ℤ◌, ◌-ℤ◌, ltb_ℤ}
use ag_core.Conn.{ConnError, ok, closed, short_buffer}
use ag_core.Reader.{Reader}

pub data Endian : Type 0 where
  big little : Endian

-- The value of bytes, low byte first.
unfoldable pub le_value : List ℕ → ℕ
le_value [] = 0
le_value (b ∷ bs) = b + 256 * le_value bs

-- The low `k` bytes of a value, low byte first.
unfoldable pub le_bytes : ℕ → ℕ → List ℕ
le_bytes zero v = []
le_bytes (suc k) v = v % 256 ∷ le_bytes k (v / 256)

-- `byteOrder.Uint16` and its like.
unfoldable pub uint : Endian → List ℕ → ℕ
uint little bs = le_value bs
uint big bs = le_value (reverse bs)

-- `byteOrder.PutUint16` and its like.
unfoldable pub put_uint : Endian → ℕ → ℕ → List ℕ
put_uint little k v = le_bytes k v
put_uint big k v = reverse (le_bytes k v)

-- The `int64` with the bits of a `uint64`, and back.
abbrev pub to_int64 : ℕ → ℤ
to_int64 v = if ltb v (2 ^ 63) then pos v else negsuc (2 ^ 64 - v - 1)

abbrev pub of_int64 : ℤ → ℕ
of_int64 (pos n) = n
of_int64 (negsuc n) = 2 ^ 64 - (n + 1)

-- A sum of two `int64`s that may be too large.
abbrev pub wrap64 : ℤ → ℤ
wrap64 z = if ltb_ℤ z (pos (2 ^ 63)) then z else z -ℤ pos (2 ^ 64)

-- The lengths that a length field can have.
abbrev pub is_field_length : ℕ → Bool
is_field_length k = k == 1 || k == 2 || k == 4 || k == 8

-- `unpackFieldLength`
unfoldable pub unpack_field_length : Endian → ℕ → List ℕ → Option ℤ
unpack_field_length order k buff =
    if is_field_length k then some (to_int64 (uint order (take k buff))) else none

-- The largest length that a field of `k` bytes holds; an `int64` always fits 8 bytes.
abbrev pub max_field : ℕ → ℕ
max_field k = if k == 8 then 2 ^ 63 - 1 else 256 ^ k - 1

-- `packFieldLength`
unfoldable pub pack_field_length : Endian → ℕ → ℤ → Option (List ℕ)
pack_field_length order k data_len =
    if not (is_field_length k) || ltb_ℤ (pos (max_field k)) data_len
    then none
    else some (put_uint order k (of_int64 data_len))

-- `lengthFieldEncoder`
pub record Encoder : Type 0 where
  pub order : Endian
  pub field_length : ℕ
  pub adjustment : ℤ
  pub includes_field : Bool

-- The value of the length field.
unfoldable pub field_value : Encoder → List ℕ → ℤ
field_value e body =
    let length = pos (length body) +ℤ e.adjustment in
    if e.includes_field then length +ℤ pos e.field_length else length

-- `lengthFieldEncoder.HandleWrite`: the bytes that are passed on.
unfoldable pub handle_write : Encoder → List ℕ → Option (List ℕ)
handle_write e body = elim (pack_field_length e.order e.field_length (field_value e body)) [
  | none ↦ none
  | some head ↦ some (head ++ body)
]

-- `lengthFieldDecoder`
pub record Decoder : Type 0 where
  pub order : Endian
  pub max_frame : ℕ
  pub offset : ℕ
  pub field_length : ℕ
  pub adjustment : ℤ
  pub strip : ℕ

-- The checks of `NewLengthFieldDecoder` that are not on signs.
abbrev pub is_legal : Decoder → Bool
is_legal d =
    ltb 0 d.max_frame
    && is_field_length d.field_length
    && leb (d.offset + d.field_length) d.max_frame

pub data DecodeError : Type 0 where
  negative_length below_header exceeded below_strip : DecodeError
  reader_error read_failed : ConnError → DecodeError

-- What `doDecode` returns: `nil, nil` where bytes are missing, one frame, an error, or a panic.
pub data Decoded : Type 0 where
  need_more panicked : Decoded
  frame : List ℕ → Decoded
  failed : DecodeError → Decoded

module _ (R : Reader) where
  -- The last step: `Next` of what is left of the frame.
  unfoldable pub next_frame : R.State → ℕ → Decoded × R.State
  next_frame s n =
      let (bytes, err, s') = R.next s n in
      elim err [
        | ok ↦ (frame bytes, s')
        | short_buffer ↦ (need_more, s')
        | closed ↦ (failed (read_failed closed), s')
      ]

  unfoldable pub strip_frame : Decoder → R.State → ℕ → Decoded × R.State
  strip_frame d s n =
      if d.strip == 0
      then next_frame s n
      else if ltb n d.strip
      then (failed below_strip, s)
      else (let (k, err, s') = R.discard s d.strip in
          elim err [
            | ok ↦ next_frame s' (n - d.strip)
            | short_buffer ↦ (failed (reader_error short_buffer), s')
            | closed ↦ (failed (reader_error closed), s')
          ])

  -- With the frame's length known: wait until it is there.
  unfoldable pub take_frame : Decoder → R.State → ℕ → Decoded × R.State
  take_frame d s n = if ltb (R.inbound_buffered s) n then (need_more, s) else strip_frame d s n

  -- The checks on the adjusted length.
  unfoldable pub check_length : Decoder → R.State → ℤ → Decoded × R.State
  check_length d s z =
      if ltb_ℤ z (pos (d.offset + d.field_length))
      then (failed below_header, s)
      else if ltb_ℤ (pos d.max_frame) z
      then (failed exceeded, s)
      else take_frame d s (pos_part z)

  unfoldable pub adjust : Decoder → R.State → Option ℤ → Decoded × R.State
  adjust d s none = (panicked, s)
  adjust d s (some (negsuc n)) = (failed negative_length, s)
  adjust d s (some (pos n)) =
      check_length d s (wrap64 (pos n +ℤ (d.adjustment +ℤ pos (d.offset + d.field_length))))

  -- `doDecode`
  unfoldable pub do_decode : Decoder → R.State → Decoded × R.State
  do_decode d s =
      let (bytes, err, s') = R.peek s (d.offset + d.field_length) in
      elim err [
        | ok ↦ adjust d s' (
            unpack_field_length d.order d.field_length
              (slice d.offset (d.offset + d.field_length) bytes))
        | short_buffer ↦ (need_more, s')
        | closed ↦ (failed (reader_error closed), s')
      ]
