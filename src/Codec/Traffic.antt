-- ===== src/Codec/Traffic.antt =====
-- contribute/agonet/simple/codec_length_field_decoder.go, `HandleRead`, under `OnTraffic` of
-- simple_event_handler.go, for a pipeline whose handlers behind the decoder leave the reader alone.
-- `none` is a panic of `utils.Assert`, which `OnTraffic` recovers.
pub mod Laws
use ag_core.Prelude.{
  ℕ, zero, suc, Bool, true, false, ◌&&◌, not, Option, none, some, List, [], ◌∷◌, ◌++◌, ltb, ◌==◌,
  if◌then◌else◌,
}
use ag_core.Reader.{Reader}
use ag_core.Codec.{Decoder, Decoded, need_more, panicked, frame, failed, do_decode}

-- The frames that are fired.
unfoldable pub fired : Decoded → Option (List (List ℕ))
fired need_more = some []
fired panicked = none
fired (frame b) = some (b ∷ [])
fired (failed e) = none

module _ (R : Reader) where
  -- `HandleRead`
  unfoldable pub handle_read : Decoder → R.State → Option (List (List ℕ)) × R.State
  handle_read d s = let (out, s') = do_decode R d s in (fired out, s')

  -- `OnTraffic`: the frames, whether it wakes the connection again, and the reader.
  unfoldable pub on_traffic : Decoder → R.State → Option (List (List ℕ)) × Bool × R.State
  on_traffic d s =
      let (out, s') = handle_read d s in
      elim out [
        | none ↦ (none, false, s')
        | some frames ↦ (
          some frames,
          ltb 0 (R.inbound_buffered s') && not (R.inbound_buffered s' == R.inbound_buffered s),
          s',
        )
      ]

  -- Calls of `OnTraffic` in a row, each where the one before asked to wake the connection, and at most
  -- `k` of them: what they fire in all. What the event loop does behind a call is not part of it.
  unfoldable pub rounds : ℕ → Decoder → R.State → List (List ℕ) × R.State
  rounds zero d s = ([], s)
  rounds (suc k) d s =
      let (out, wakes, s') = on_traffic d s in
      let (more, last) = rounds k d s' in
      elim out [
        | none ↦ ([], s')
        | some frames ↦ if wakes then (frames ++ more, last) else (frames, s')
      ]
