-- ===== src/EventLoop/Sockets.antt =====
-- The registered connections of an event loop are distinct and have their sockets, and the connections
-- that wait for `open` have theirs.
use ag_core.Prelude.{
  ℕ, ◌≡◌, ◌≢◌, refl, sym, ap, ◌∙◌, Bool, true, false, not, ◌&&◌, Option, none, some, List, [], ◌∷◌,
  inl, inr, ◌==◌, ==_ne, ==_eq, ltb, if◌then◌else◌, Bool-cases,
}
use mathlib.Core.Path.{subst}
use ag_core.EventLoop.{
  Action, no_action, close_conn, shutdown, Outcome, returned, panicked, LoopError, Loop, inc_int32,
  dec_int32, exceeds, has_conn, delete_conn, release, unregister, register, handle_action, close,
  close_rounds, opened, open_conn, read, wake,
}
use ag_core.EventLoop.Count.{IsDistinct, delete_conn-IsDistinct, has_conn-delete_conn, close-enough}

abbrev pub HaveSockets : List ℕ → Loop → Type 0
HaveSockets [] s = Unit {0}
HaveSockets (c ∷ cs) s = (s.raw c ≡ true) × HaveSockets cs s

abbrev pub IsSound : Loop → Type 0
IsSound s = IsDistinct s.connections × HaveSockets s.connections s

abbrev pub IsWaiting : ℕ → Loop → Type 0
IsWaiting d s = (has_conn s.connections d ≡ false) × (s.raw d ≡ true)

-- What `close` keeps, the other operations keep.
module _ (P : Loop → Type 0)
    (close-P : (on_close : Outcome) (c : ℕ) (s : Loop)
      → P s
      → P (close close_rounds on_close c s).1) where
  handle_action-P :
      (on_close : Outcome) (c : ℕ) (s : Loop) (a : Action)
      → P s
      → P (handle_action (close close_rounds on_close c) s a).1
  unfolding handle_action
  handle_action-P on_close c s no_action p = p
  handle_action-P on_close c s close_conn p = close-P on_close c s p
  handle_action-P on_close c s shutdown p = p

  pub read-P :
      (on_traffic on_close : Outcome) (overflow : Bool) (c : ℕ) (s : Loop)
      → P s
      → P (read on_traffic on_close overflow c s).1
  unfolding read
  read-P on_traffic on_close overflow c s p = elim (Bool-cases (not (has_conn s.connections c))) [
    | inl e ↦ rw (read, e) p
    | inr e ↦ rw (read, e) (traffic on_traffic)
  ]
    where
      traffic :
          (o : Outcome)
          → P
              (elim o as (λ _. Option LoopError × Loop) [
                | panicked ↦ close close_rounds on_close c s
                | returned close_conn ↦ close close_rounds on_close c s
                | returned shutdown ↦ (some LoopError.engine_shutdown, s)
                | returned no_action ↦
                    if overflow then close close_rounds on_close c s else (none, s)
              ]).1
      traffic panicked = close-P on_close c s p
      traffic (returned close_conn) = close-P on_close c s p
      traffic (returned shutdown) = p
      traffic (returned no_action) = elim (Bool-cases overflow) [
        | inl f ↦ rw f (close-P on_close c s p)
        | inr f ↦ rw f p
      ]

  pub wake-P :
      (on_traffic on_close : Outcome) (c : ℕ) (s : Loop) → P s → P (wake on_traffic on_close c s).1
  unfolding wake
  wake-P on_traffic on_close c s p = elim (Bool-cases (not (has_conn s.connections c))) [
    | inl e ↦ rw (wake, e) p
    | inr e ↦ rw (wake, e) (traffic on_traffic)
  ]
    where
      traffic :
          (o : Outcome)
          → P
              (elim o as (λ _. Option LoopError × Loop) [
                | panicked ↦ (some LoopError.handler_panicked, s)
                | returned a ↦ handle_action (close close_rounds on_close c) s a
              ]).1
      traffic panicked = p
      traffic (returned a) = handle_action-P on_close c s a p

  opened-P :
      (on_open on_close : Outcome) (write_fails : Bool) (c : ℕ) (s : Loop)
      → P (register s c)
      → P (opened on_open on_close write_fails c s).1
  unfolding opened
  opened-P panicked on_close write_fails c s p = close-P on_close c (register s c) p
  opened-P (returned a) on_close true c s p = p
  opened-P (returned a) on_close false c s p = handle_action-P on_close c (register s c) a p

  pub open_conn-P :
      (max : ℕ) (on_open on_close : Outcome) (write_fails : Bool) (c : ℕ) (s : Loop)
      → ((n : ℕ) → P (register (record s { total_conn = n }) c))
      → ((n : ℕ) → P (release (record s { total_conn = n }) c))
      → P (open_conn max on_open on_close write_fails c s).1
  unfolding open_conn
  open_conn-P max on_open on_close write_fails c s p q = elim (Bool-cases (ltb 0 max)) [
    | inr e ↦ rw (open_conn, e) (opened-P on_open on_close write_fails c s (p s.total_conn))
    | inl e ↦ elim (Bool-cases (exceeds (inc_int32 s.total_conn) max)) [
      | inl f ↦ rw (open_conn, e, f) (q (dec_int32 (inc_int32 s.total_conn)))
      | inr f ↦
          rw (open_conn, e, f)
            (opened-P on_open on_close write_fails c
              (record s { total_conn = inc_int32 s.total_conn }) (p (inc_int32 s.total_conn)))
    ]
  ]

HaveSockets-delete :
    (cs : List ℕ) (c : ℕ) (s : Loop)
    → HaveSockets cs s
    → HaveSockets (delete_conn cs c) (release (unregister s c) c)
HaveSockets-delete [] c s h = tt
HaveSockets-delete (d ∷ ds) c s (r, h) = elim (Bool-cases (d == c)) [
  | inl e ↦ rw e (HaveSockets-delete ds c s h)
  | inr e ↦ rw e (rw e r, HaveSockets-delete ds c s h)
]

-- What `close` gives, by cases.
pub close_either :
    (P : Loop → Type 0) (on_close : Outcome) (c : ℕ) (s : Loop)
    → P s
    → (has_conn s.connections c ≡ true → P (release (unregister s c) c))
    → P (close close_rounds on_close c s).1
close_either P on_close c s p q =
    subst (λ r. P r.1) (sym (close-enough 1 on_close c s))
      (elim (Bool-cases (s.raw c && has_conn s.connections c)) [
        | inl e ↦ rw e (q (right (s.raw c) (has_conn s.connections c) e))
        | inr e ↦ rw e p
      ])
  where
    right : (a b : Bool) → (a && b) ≡ true → b ≡ true
    right true b e = e
    right false b e = absurd (cc e)

pub close-IsSound :
    (on_close : Outcome) (c : ℕ) (s : Loop)
    → IsSound s
    → IsSound (close close_rounds on_close c s).1
close-IsSound on_close c s (p, h) =
    close_either IsSound on_close c s (p, h)
      (λ e. (delete_conn-IsDistinct s.connections c p, HaveSockets-delete s.connections c s h))

pub close-IsWaiting :
    (d : ℕ) (on_close : Outcome) (c : ℕ) (s : Loop)
    → IsWaiting d s
    → IsWaiting d (close close_rounds on_close c s).1
close-IsWaiting d on_close c s (n, r) =
    close_either (IsWaiting d) on_close c s (n, r)
      (λ e. (
        has_conn-delete_conn s.connections c d n,
        rw (other d c (λ f. absurd (cc (sym n ∙ ap (has_conn s.connections) f ∙ e)))) r,
      ))
  where
    other : (a b : ℕ) → a ≢ b → (a == b) ≡ false
    other a b f = ==_ne f

HaveSockets-kept :
    (cs : List ℕ) (s s' : Loop)
    → ((d : ℕ) → has_conn cs d ≡ true → s'.raw d ≡ s.raw d)
    → HaveSockets cs s
    → HaveSockets cs s'
HaveSockets-kept [] s s' k h = tt
HaveSockets-kept (c ∷ cs) s s' k (r, h) = (
  k c (rw (==_eq {a = c} refl) refl) ∙ r,
  HaveSockets-kept cs s s' (λ d e. k d (later c cs d e)) h,
)
  where
    later : (c : ℕ) (cs : List ℕ) (d : ℕ) → has_conn cs d ≡ true → has_conn (c ∷ cs) d ≡ true
    later c cs d e = elim (Bool-cases (c == d)) [ inl f ↦ rw f refl | inr f ↦ rw f e ]

-- The socket of another connection, behind `release`.
pub raw-release : (s : Loop) (c d : ℕ) → c ≢ d → (release s c).raw d ≡ s.raw d
raw-release s c d n = rw (==_ne {a = d} {b = c} (λ e. n (sym e))) refl

pub absent_ne : (cs : List ℕ) (c d : ℕ) → has_conn cs c ≡ false → has_conn cs d ≡ true → c ≢ d
absent_ne cs c d n e f = absurd (cc (sym n ∙ ap (has_conn cs) f ∙ e))

pub open_conn-IsSound :
    (max : ℕ) (on_open on_close : Outcome) (write_fails : Bool) (c : ℕ) (s : Loop)
    → IsSound s
    → IsWaiting c s
    → IsSound (open_conn max on_open on_close write_fails c s).1
open_conn-IsSound max on_open on_close write_fails c s (p, h) (n, r) =
    open_conn-P IsSound close-IsSound max on_open on_close write_fails c s
      (λ m. (
        (n, p),
        (
          r,
          HaveSockets-kept s.connections s (register (record s { total_conn = m }) c) (λ d e. refl)
              h,
        ),
      ))
      (λ m. (
        p,
        HaveSockets-kept s.connections s (release (record s { total_conn = m }) c)
            (λ d e. raw-release s c d (absent_ne s.connections c d n e)) h,
      ))

pub open_conn-IsWaiting :
    (d max : ℕ) (on_open on_close : Outcome) (write_fails : Bool) (c : ℕ) (s : Loop)
    → c ≢ d
    → IsWaiting d s
    → IsWaiting d (open_conn max on_open on_close write_fails c s).1
open_conn-IsWaiting d max on_open on_close write_fails c s n (a, r) =
    open_conn-P (IsWaiting d) (close-IsWaiting d) max on_open on_close write_fails c s
      (λ m. (rw (==_ne n) a, r)) (λ m. (a, raw-release s c d n ∙ r))
