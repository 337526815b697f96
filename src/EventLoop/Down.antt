-- ===== src/EventLoop/Down.antt =====
-- The end of an event loop, and what is left of its connections.
use ag_core.Prelude.{
  ℕ, zero, suc, ◌≡◌, refl, sym, ap, ap₂, ◌∙◌, Bool, true, false, ◌&&◌, Option, none, List, [], ◌∷◌,
  inl, inr, ◌==◌, ==_iff, ==_eq, ==_ne, if◌then◌else◌, Bool-cases,
}
use ag_core.EventLoop.{
  Outcome, LoopError, Loop, has_conn, delete_conn, release, unregister, close, close_rounds,
}
use ag_core.EventLoop.Count.{IsDistinct, delete_conn-absent, close_error, close-enough}
use ag_core.EventLoop.Sockets.{
  HaveSockets, IsSound, IsWaiting, read-P, wake-P, close-IsSound, close-IsWaiting,
  open_conn-IsSound, open_conn-IsWaiting, absent_ne, raw-release,
}
use ag_core.EventLoop.Queue.{
  Event, error_event, close_event, open_event, read_event, wake_event, func_event, handle_event,
  reject_remaining, drain, close_all,
}

HaveSockets-release :
    (cs : List ℕ) (c : ℕ) (s s' : Loop)
    → s'.raw ≡ (release s c).raw
    → has_conn cs c ≡ false
    → HaveSockets cs s
    → HaveSockets cs s'
HaveSockets-release [] c s s' e n h = tt
HaveSockets-release (d ∷ ds) c s s' e n (r, h) = elim (Bool-cases (d == c)) [
  | inl f ↦ absurd (cc (sym (ap (λ b. if b then true else has_conn ds c) f) ∙ n))
  | inr f ↦ (
    ap (λ g. g d) e ∙ ap (λ b. if b then false else s.raw d) f ∙ r,
    HaveSockets-release ds c s s' e (sym (ap (λ b. if b then true else has_conn ds c) f) ∙ n) h,
  )
]

abbrev picked : Outcome → ℕ → Loop → Bool → Option LoopError × Loop
picked on_close c s b = if b then (close_error on_close, release (unregister s c) c) else (none, s)

has_conn-first : (c : ℕ) (cs : List ℕ) → has_conn (c ∷ cs) c ≡ true
has_conn-first c cs = rw (==_eq {a = c} refl) refl

delete_conn-first : (c : ℕ) (cs : List ℕ) → has_conn cs c ≡ false → delete_conn (c ∷ cs) c ≡ cs
delete_conn-first c cs n = rw (==_eq {a = c} refl) (delete_conn-absent cs c n)

-- `close` of the first connection.
close_first :
    (on_close : Outcome) (c : ℕ) (cs : List ℕ) (s : Loop)
    → s.connections ≡ c ∷ cs
    → s.raw c ≡ true
    → (close close_rounds on_close c s).1 ≡ release (unregister s c) c
close_first on_close c cs s e r =
    ap (λ p. p.1) (close-enough 1 on_close c s)
    ∙ ap (λ b. (picked on_close c s b).1)
        (ap₂ ◌&&◌ r (ap (λ l. has_conn l c) e ∙ has_conn-first c cs))

-- What is left of a socket.
abbrev pub left : List ℕ → Loop → ℕ → Bool
left cs s d = if has_conn cs d then false else s.raw d

left_step :
    (c : ℕ) (cs : List ℕ) (s : Loop) (d : ℕ)
    → left cs (release (unregister s c) c) d ≡ left (c ∷ cs) s d
left_step c cs s d = elim (Bool-cases (c == d)) [
  | inl e ↦ rw (e, ==_eq (sym ((==_iff c d).0 e))) (either (has_conn cs d))
  | inr e ↦
      rw (e, ==_ne {a = d} {b = c} (λ f. absurd (cc (sym (==_eq {a = c} {b = d} (sym f)) ∙ e))))
        refl
]
  where
    either : (b : Bool) → (if b then false else false) ≡ false
    either true = refl
    either false = refl

pub close_all-closes :
    (on_close : ℕ → Outcome) (cs : List ℕ) (s : Loop)
    → s.connections ≡ cs
    → IsDistinct cs
    → HaveSockets cs s
    → ((close_all on_close cs s).connections ≡ [])
      × ((d : ℕ) → (close_all on_close cs s).raw d ≡ left cs s d)
unfolding close_all
close_all-closes on_close [] s e p h = (e, λ d. refl)
close_all-closes on_close (c ∷ cs) s e (n, p) (r, h) =
    let first = close_first (on_close c) c cs s e r in
    let t = release (unregister s c) c in
    let (g, k) =
      close_all-closes on_close cs t (ap (λ l. delete_conn l c) e ∙ delete_conn-first c cs n) p
        (HaveSockets-release cs c s t refl n h) in
    (
      ap (λ u. (close_all on_close cs u).connections) first ∙ g,
      λ d. ap (λ u. (close_all on_close cs u).raw d) first ∙ k d ∙ left_step c cs s d,
    )

-- The connections of the `openConn`s.
abbrev pub opens : List Event → List ℕ
opens [] = []
opens (open_event has_cb on_open on_close write_fails c ∷ events) = c ∷ opens events
opens (_ ∷ events) = opens events

-- The connections that are to be opened are distinct and new, and have their sockets.
abbrev pub AreReady : List Event → Loop → Type 0
AreReady events s =
    IsDistinct (opens events) × ((d : ℕ) → has_conn (opens events) d ≡ true → IsWaiting d s)

abbrev pub Next : List Event → Loop → Type 0
Next events s = IsSound s × AreReady events s

has_conn-later : (c : ℕ) (cs : List ℕ) (d : ℕ) → has_conn cs d ≡ true → has_conn (c ∷ cs) d ≡ true
has_conn-later c cs d e = elim (Bool-cases (c == d)) [ inl f ↦ rw f refl | inr f ↦ rw f e ]

pub handle_event-Next :
    (max : ℕ) (event : Event) (events : List Event) (s : Loop)
    → Next (event ∷ events) s
    → Next events (handle_event max event s).1
unfolding handle_event
handle_event-Next max (error_event e) events s h = h
handle_event-Next max (close_event on_close c) events s (h, (p, k)) =
    (close-IsSound on_close c s h, (p, λ d e. close-IsWaiting d on_close c s (k d e)))
handle_event-Next max (open_event has_cb on_open on_close write_fails c) events s (h, ((n, p), k)) =
    (
      open_conn-IsSound max on_open on_close write_fails c s h
          (k c (has_conn-first c (opens events))),
      (
        p,
        λ d e.
            open_conn-IsWaiting d max on_open on_close write_fails c s
              (absent_ne (opens events) c d n e) (k d (has_conn-later c (opens events) d e)),
      ),
    )
handle_event-Next max (read_event on_traffic on_close overflow c) events s (h, (p, k)) = (
  read-P IsSound close-IsSound on_traffic on_close overflow c s h,
  (p, λ d e. read-P (IsWaiting d) (close-IsWaiting d) on_traffic on_close overflow c s (k d e)),
)
handle_event-Next max (wake_event on_traffic on_close c) events s (h, (p, k)) = (
  wake-P IsSound close-IsSound on_traffic on_close c s h,
  (p, λ d e. wake-P (IsWaiting d) (close-IsWaiting d) on_traffic on_close c s (k d e)),
)
handle_event-Next max (func_event e) events s h = h

release-Next :
    (c : ℕ) (events : List Event) (s : Loop)
    → IsSound s
    → has_conn (opens events) c ≡ false
    → IsDistinct (opens events)
    → ((d : ℕ) → has_conn (c ∷ opens events) d ≡ true → IsWaiting d s)
    → Next events (release s c)
release-Next c events s (q, h) n p k = (
  (
    q,
    HaveSockets-release s.connections c s (release s c) refl
        (k c (has_conn-first c (opens events))).0 h,
  ),
  (
    p,
    λ d e.
        let (a, r) = k d (has_conn-later c (opens events) d e) in
        (a, raw-release s c d (absent_ne (opens events) c d n e) ∙ r),
  ),
)

reject_remaining-IsSound :
    (events : List Event) (s : Loop) → Next events s → IsSound (reject_remaining events s).0
unfolding reject_remaining
reject_remaining-IsSound [] s (h, k) = h
reject_remaining-IsSound (error_event e ∷ events) s h = reject_remaining-IsSound events s h
reject_remaining-IsSound (close_event on_close c ∷ events) s h = reject_remaining-IsSound events s h
reject_remaining-IsSound (open_event has_cb on_open on_close write_fails c ∷ events) s
      (h, ((n, p), k)) =
    reject_remaining-IsSound events (release s c) (release-Next c events s h n p k)
reject_remaining-IsSound (read_event on_traffic on_close overflow c ∷ events) s h =
    reject_remaining-IsSound events s h
reject_remaining-IsSound (wake_event on_traffic on_close c ∷ events) s h =
    reject_remaining-IsSound events s h
reject_remaining-IsSound (func_event e ∷ events) s h = reject_remaining-IsSound events s h

pub drain-IsSound :
    (max more : ℕ) (events : List Event) (s : Loop)
    → Next events s
    → IsSound (drain max more events s).0
unfolding drain
drain-IsSound max more [] s (h, k) = h
drain-IsSound max zero (event ∷ events) s h =
    reject_remaining-IsSound events (handle_event max event s).1
      (handle_event-Next max event events s h)
drain-IsSound max (suc more) (event ∷ events) s h =
    drain-IsSound max more events (handle_event max event s).1
      (handle_event-Next max event events s h)
