-- ===== src/EventLoop/Settled.antt =====
-- A socket that an event loop got stays registered, or is closed.
use ag_core.Prelude.{
  ℕ, zero, suc, ◌≡◌, ◌≢◌, refl, sym, ap, ap₂, ◌∙◌, Bool, true, false, not, ◌||◌, List, [], ◌∷◌, ◌⊎◌,
  inl, inr, ◌==◌, ==_iff, ==_eq, ==_ne, if◌then◌else◌, Bool-cases,
}
use ag_core.EventLoop.{
  Outcome, Loop, has_conn, delete_conn, release, unregister, register, close, close_rounds,
  open_conn,
}
use ag_core.EventLoop.Sockets.{close_either, open_conn-P, read-P, wake-P}
use ag_core.EventLoop.Queue.{
  Event, error_event, close_event, open_event, read_event, wake_event, func_event, handle_event,
  reject_remaining, drain,
}

abbrev pub IsSettled : ℕ → Loop → Type 0
IsSettled d s = (has_conn s.connections d || not (s.raw d)) ≡ true

or_true : (b : Bool) → (b || true) ≡ true
or_true true = refl
or_true false = refl

has_conn-delete_other :
    (cs : List ℕ) (c d : ℕ) → c ≢ d → has_conn (delete_conn cs c) d ≡ has_conn cs d
has_conn-delete_other [] c d n = refl
has_conn-delete_other (x ∷ xs) c d n = elim (Bool-cases (x == c)) [
  | inl e ↦
      rw (e, ==_ne {a = x} {b = d} (λ f. n (sym ((==_iff x c).0 e) ∙ f)))
        (has_conn-delete_other xs c d n)
  | inr e ↦ rw e (ap (λ b. if x == d then true else b) (has_conn-delete_other xs c d n))
]

-- Behind the release of a connection, whether or not it is taken out.
release-IsSettled :
    (c d : ℕ) (s s' : Loop)
    → s'.raw ≡ s.raw
    → (c ≢ d → has_conn s'.connections d ≡ has_conn s.connections d)
    → (c ≡ d → ⊥) ⊎ (c ≡ d)
    → (c ≢ d → IsSettled d s)
    → IsSettled d (release s' c)
release-IsSettled c d s s' e k (inr f) p =
    rw (==_eq {a = d} {b = c} (sym f)) (or_true (has_conn s'.connections d))
release-IsSettled c d s s' e k (inl n) p =
    rw (==_ne {a = d} {b = c} (λ f. n (sym f)))
      (ap₂ (λ a b. a || not b) (k n) (ap (λ g. g d) e) ∙ p n)

same_or_not : (c d : ℕ) → (c ≡ d → ⊥) ⊎ (c ≡ d)
same_or_not c d = elim (Bool-cases (c == d)) [
  | inl e ↦ inr ((==_iff c d).0 e)
  | inr e ↦ inl (λ f. absurd (cc (sym (==_eq f) ∙ e)))
]

close-IsSettled :
    (d : ℕ) (on_close : Outcome) (c : ℕ) (s : Loop)
    → IsSettled d s
    → IsSettled d (close close_rounds on_close c s).1
close-IsSettled d on_close c s p = close_either (IsSettled d) on_close c s p (λ e.
    release-IsSettled c d s (unregister s c) refl (has_conn-delete_other s.connections c d)
      (same_or_not c d) (λ n. p))

register-IsSettled :
    (c d : ℕ) (s s' : Loop)
    → s'.raw ≡ s.raw
    → s'.connections ≡ s.connections
    → (c ≡ d → ⊥) ⊎ (c ≡ d)
    → (c ≢ d → IsSettled d s)
    → IsSettled d (register s' c)
register-IsSettled c d s s' e k (inr f) p = rw (==_eq {a = c} {b = d} f) refl
register-IsSettled c d s s' e k (inl n) p =
    rw (==_ne {a = c} {b = d} n) (ap₂ (λ l g. has_conn l d || not (g d)) k e ∙ p n)

-- `open` settles its connection, and leaves the others settled.
open_conn-IsSettled :
    (d max : ℕ) (on_open on_close : Outcome) (write_fails : Bool) (c : ℕ) (s : Loop)
    → (c ≢ d → IsSettled d s)
    → IsSettled d (open_conn max on_open on_close write_fails c s).1
open_conn-IsSettled d max on_open on_close write_fails c s p =
    open_conn-P (IsSettled d) (close-IsSettled d) max on_open on_close write_fails c s
      (λ m. register-IsSettled c d s (record s { total_conn = m }) refl refl (same_or_not c d) p)
      (λ m.
        release-IsSettled c d s (record s { total_conn = m }) refl (λ n. refl) (same_or_not c d) p)

-- Whether the event is the `openConn` of a connection.
abbrev pub opens_conn : Event → ℕ → Bool
opens_conn (open_event has_cb on_open on_close write_fails c) d = c == d
opens_conn _ d = false

abbrev pub any_opens : List Event → ℕ → Bool
any_opens [] d = false
any_opens (event ∷ events) d = opens_conn event d || any_opens events d

unless_opened : (c d : ℕ) (P : Type 0) → (((c == d) ≡ true) ⊎ P) → c ≢ d → P
unless_opened c d P (inl e) n = absurd (n ((==_iff c d).0 e))
unless_opened c d P (inr p) n = p

handle_event-IsSettled :
    (max : ℕ) (event : Event) (d : ℕ) (s : Loop)
    → ((opens_conn event d ≡ true) ⊎ IsSettled d s)
    → IsSettled d (handle_event max event s).1
unfolding handle_event
handle_event-IsSettled max (open_event has_cb on_open on_close write_fails c) d s p =
    open_conn-IsSettled d max on_open on_close write_fails c s (unless_opened c d (IsSettled d s) p)
handle_event-IsSettled max (error_event e) d s (inl f) = absurd (cc f)
handle_event-IsSettled max (error_event e) d s (inr p) = p
handle_event-IsSettled max (close_event on_close c) d s (inl f) = absurd (cc f)
handle_event-IsSettled max (close_event on_close c) d s (inr p) = close-IsSettled d on_close c s p
handle_event-IsSettled max (read_event on_traffic on_close overflow c) d s (inl f) = absurd (cc f)
handle_event-IsSettled max (read_event on_traffic on_close overflow c) d s (inr p) =
    read-P (IsSettled d) (close-IsSettled d) on_traffic on_close overflow c s p
handle_event-IsSettled max (wake_event on_traffic on_close c) d s (inl f) = absurd (cc f)
handle_event-IsSettled max (wake_event on_traffic on_close c) d s (inr p) =
    wake-P (IsSettled d) (close-IsSettled d) on_traffic on_close c s p
handle_event-IsSettled max (func_event e) d s (inl f) = absurd (cc f)
handle_event-IsSettled max (func_event e) d s (inr p) = p

either_first : (a b : Bool) (P : Type 0) → (((a || b) ≡ true) ⊎ P) → ((a ≡ true) ⊎ ((b ≡ true) ⊎ P))
either_first true b P h = inl refl
either_first false b P h = inr h

-- One event, and those behind it.
pub one_behind :
    (max : ℕ) (event : Event) (events : List Event) (d : ℕ) (s : Loop)
    → ((any_opens (event ∷ events) d ≡ true) ⊎ IsSettled d s)
    → (any_opens events d ≡ true) ⊎ IsSettled d (handle_event max event s).1
one_behind max event events d s h =
    elim (either_first (opens_conn event d) (any_opens events d) (IsSettled d s) h) [
      | inl e ↦ inr (handle_event-IsSettled max event d s (inl e))
      | inr (inl e) ↦ inl e
      | inr (inr p) ↦ inr (handle_event-IsSettled max event d s (inr p))
    ]

reject_remaining-IsSettled :
    (events : List Event) (d : ℕ) (s : Loop)
    → ((any_opens events d ≡ true) ⊎ IsSettled d s)
    → IsSettled d (reject_remaining events s).0
unfolding reject_remaining
reject_remaining-IsSettled [] d s (inl e) = absurd (cc e)
reject_remaining-IsSettled [] d s (inr p) = p
reject_remaining-IsSettled (open_event has_cb on_open on_close write_fails c ∷ events) d s h =
    reject_remaining-IsSettled events d (release s c)
      (elim (either_first (c == d) (any_opens events d) (IsSettled d s) h) [
        | inl e ↦ inr (
            release-IsSettled c d s s refl (λ n. refl) (same_or_not c d)
              (λ n. absurd (n ((==_iff c d).0 e))))
        | inr (inl e) ↦ inl e
        | inr (inr p) ↦ inr (release-IsSettled c d s s refl (λ n. refl) (same_or_not c d) (λ n. p))
      ])
reject_remaining-IsSettled (error_event e ∷ events) d s h = reject_remaining-IsSettled events d s h
reject_remaining-IsSettled (close_event on_close c ∷ events) d s h =
    reject_remaining-IsSettled events d s h
reject_remaining-IsSettled (read_event on_traffic on_close overflow c ∷ events) d s h =
    reject_remaining-IsSettled events d s h
reject_remaining-IsSettled (wake_event on_traffic on_close c ∷ events) d s h =
    reject_remaining-IsSettled events d s h
reject_remaining-IsSettled (func_event e ∷ events) d s h = reject_remaining-IsSettled events d s h

-- Behind `drain`, each connection that was settled or that an `openConn` in the queue brought is
-- settled.
pub drain-IsSettled :
    (max more : ℕ) (events : List Event) (d : ℕ) (s : Loop)
    → ((any_opens events d ≡ true) ⊎ IsSettled d s)
    → IsSettled d (drain max more events s).0
unfolding drain
drain-IsSettled max more [] d s (inl e) = absurd (cc e)
drain-IsSettled max more [] d s (inr p) = p
drain-IsSettled max zero (event ∷ events) d s h =
    reject_remaining-IsSettled events d (handle_event max event s).1
      (one_behind max event events d s h)
drain-IsSettled max (suc more) (event ∷ events) d s h =
    drain-IsSettled max more events d (handle_event max event s).1
      (one_behind max event events d s h)
