-- ===== src/Reader.antt =====
-- The reader that a decoder is given (`agonet.Reader` in contribute/agonet/typs.go), with what the
-- decoder relies on: it shows, takes and drops the front of one stream of bytes.
pub mod OfConn
use ag_core.Prelude.{ℕ, ◌≤◌, ◌<◌, ◌≡◌, List, [], length, take, drop}
use ag_core.Conn.{ConnError, ok, short_buffer}

pub record Reader : Type 1 where
  pub State : Type 0
  pub IsReady : State → Type 0
  pub stream : State → List ℕ
  pub inbound_buffered : State → ℕ
  pub peek : State → ℕ → List ℕ × ConnError × State
  pub next : State → ℕ → List ℕ × ConnError × State
  pub discard : State → ℕ → ℕ × ConnError × State
  pub buffered-eq : (s : State) → IsReady s → inbound_buffered s ≡ length (stream s)
  pub peek_lem :
      (s : State) (n : ℕ)
      → IsReady s
      → 0 < n
      → n ≤ length (stream s)
      → ((peek s n).0 ≡ take n (stream s))
        × ((peek s n).1 ≡ ok)
        × (stream (peek s n).2 ≡ stream s)
        × IsReady (peek s n).2
  pub peek_short :
      (s : State) (n : ℕ) → IsReady s → length (stream s) < n → peek s n ≡ ([], short_buffer, s)
  pub next_lem :
      (s : State) (n : ℕ)
      → IsReady s
      → n ≤ length (stream s)
      → ((next s n).0 ≡ take n (stream s))
        × ((next s n).1 ≡ ok)
        × (stream (next s n).2 ≡ drop n (stream s))
        × IsReady (next s n).2
  pub discard_lem :
      (s : State) (n : ℕ)
      → IsReady s
      → 0 < n
      → n ≤ length (stream s)
      → ((discard s n).1 ≡ ok)
        × (stream (discard s n).2 ≡ drop n (stream s))
        × IsReady (discard s n).2
