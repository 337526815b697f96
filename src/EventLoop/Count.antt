-- ===== src/EventLoop/Count.antt =====
-- The counters of an event loop and of its engine.
use ag_core.Prelude.{
  ℕ, zero, suc, ◌+◌, ◌^◌, ◌≡◌, ◌≤◌, ◌<◌, refl, ◌∙◌, sym, ap, Bool, true, false, ◌&&◌, Option, none,
  some, List, [], ◌∷◌, arith, ◌==◌, ==_iff, if◌then◌else◌, length, Bool-cases, inl, inr,
}
use ag_core.EventLoop.{
  Action, no_action, close_conn, shutdown, Outcome, returned, panicked, LoopError, engine_shutdown,
  Loop, inc_int32, has_conn, delete_conn, release, unregister, close_action, handle_action, close,
  register,
}

abbrev pub IsDistinct : List ℕ → Type 0
IsDistinct [] = Unit {0}
IsDistinct (c ∷ cs) = (has_conn cs c ≡ false) × IsDistinct cs

-- A search in two parts.
neither : (a b : Bool) → (if a then true else b) ≡ false → (a ≡ false) × (b ≡ false)
neither true b h = cc h
neither false b h = (refl, h)

second : (a b : Bool) → a ≡ false → (if a then true else b) ≡ true → b ≡ true
second true b e h = cc e
second false b e h = h

pub delete_conn-absent : (cs : List ℕ) (c : ℕ) → has_conn cs c ≡ false → delete_conn cs c ≡ cs
delete_conn-absent [] c h = refl
delete_conn-absent (d ∷ ds) c h =
    let (e, l) = neither (d == c) (has_conn ds c) h in
    rw e (ap (λ l. d ∷ l) (delete_conn-absent ds c l))

pub has_conn-delete_conn :
    (cs : List ℕ) (c d : ℕ) → has_conn cs d ≡ false → has_conn (delete_conn cs c) d ≡ false
has_conn-delete_conn [] c d h = refl
has_conn-delete_conn (x ∷ xs) c d h =
    let (n, l) = neither (x == d) (has_conn xs d) h in
    elim (Bool-cases (x == c)) [
      | inl e ↦ rw e (has_conn-delete_conn xs c d l)
      | inr e ↦ rw (e, n) (has_conn-delete_conn xs c d l)
    ]

has_conn-delete_conn_self : (cs : List ℕ) (c : ℕ) → has_conn (delete_conn cs c) c ≡ false
has_conn-delete_conn_self [] c = refl
has_conn-delete_conn_self (d ∷ ds) c = elim (Bool-cases (d == c)) [
  | inl e ↦ rw e (has_conn-delete_conn_self ds c)
  | inr e ↦ rw (e, e) (has_conn-delete_conn_self ds c)
]

length-delete_conn :
    (cs : List ℕ) (c : ℕ)
    → IsDistinct cs
    → has_conn cs c ≡ true
    → suc (length (delete_conn cs c)) ≡ length cs
length-delete_conn [] c p h = cc h
length-delete_conn (d ∷ ds) c (n, p) h = elim (Bool-cases (d == c)) [
  | inl e ↦ rw e (
      ap (λ l. suc (length l))
        (delete_conn-absent ds c (ap (has_conn ds) (sym ((==_iff d c).0 e)) ∙ n)))
  | inr e ↦ rw e (ap suc (length-delete_conn ds c p (second (d == c) (has_conn ds c) e h)))
]

pub delete_conn-IsDistinct : (cs : List ℕ) (c : ℕ) → IsDistinct cs → IsDistinct (delete_conn cs c)
delete_conn-IsDistinct [] c p = tt
delete_conn-IsDistinct (d ∷ ds) c (n, p) = elim (Bool-cases (d == c)) [
  | inl e ↦ rw e (delete_conn-IsDistinct ds c p)
  | inr e ↦ rw e (has_conn-delete_conn ds c d n, delete_conn-IsDistinct ds c p)
]

-- `others` connections are in other loops, and `pending` refusals there have not undone their count.
pub record IsCounted (max loops others pending : ℕ) (s : Loop) : Type 0 where
  pub distinct : IsDistinct s.connections
  pub count : s.conn_count ≡ length s.connections
  pub total : s.total_conn ≡ length s.connections + others + pending
  pub limit : length s.connections + others ≤ max
  pub refusals : pending ≤ loops

module _ {max loops others pending : ℕ} (small : max + loops + 1 < 2 ^ 31) where
  unregister-IsCounted :
      (s : Loop) (c : ℕ)
      → has_conn s.connections c ≡ true
      → IsCounted max loops others pending s
      → IsCounted max loops others pending (unregister s c)
  unregister-IsCounted s c h g =
      let shorter = length-delete_conn s.connections c g.distinct h in
      record {
        distinct = delete_conn-IsDistinct s.connections c g.distinct;
        count = omega (arith, g.count, g.limit, shorter);
        total = omega (arith, g.total, g.limit, g.refusals, shorter);
        limit = omega (arith, g.limit, shorter);
        refusals = g.refusals;
      }

  pub release-IsCounted :
      (s : Loop) (c : ℕ)
      → IsCounted max loops others pending s
      → IsCounted max loops others pending (release s c)
  release-IsCounted s c g = record {
    distinct = g.distinct;
    count = g.count;
    total = g.total;
    limit = g.limit;
    refusals = g.refusals;
  }

  pub register-IsCounted :
      (s : Loop) (c : ℕ)
      → has_conn s.connections c ≡ false
      → s.total_conn + 1 ≤ max
      → IsCounted max loops others pending s
      → IsCounted max loops others pending
          (register (record s { total_conn = inc_int32 s.total_conn }) c)
  register-IsCounted s c h l g = record {
    distinct = (h, g.distinct);
    count = omega (arith, g.count, g.limit);
    total = omega (arith, g.total, g.limit, g.refusals);
    limit = omega (arith, g.total);
    refusals = g.refusals;
  }

  pub handle_action-IsCounted :
      (rec : Loop → Option LoopError × Loop) (s : Loop) (a : Action)
      → IsCounted max loops others pending (rec s).1
      → IsCounted max loops others pending s
      → IsCounted max loops others pending (handle_action rec s a).1
  unfolding handle_action
  handle_action-IsCounted rec s no_action r g = g
  handle_action-IsCounted rec s close_conn r g = r
  handle_action-IsCounted rec s shutdown r g = g

  pub close-IsCounted :
      (k : ℕ) (on_close : Outcome) (c : ℕ) (s : Loop)
      → IsCounted max loops others pending s
      → IsCounted max loops others pending (close k on_close c s).1
  unfolding close
  close-IsCounted zero on_close c s g = g
  close-IsCounted (suc k) on_close c s g = elim (Bool-cases (s.raw c && has_conn s.connections c)) [
    | inr e ↦ rw (close, e) g
    | inl e ↦
        let g' = unregister-IsCounted s c (right (s.raw c) (has_conn s.connections c) e) g in
        rw (close, e)
          (release-IsCounted
            (handle_action (close k on_close c) (unregister s c) (close_action on_close)).1 c
            (handle_action-IsCounted (close k on_close c) (unregister s c) (close_action on_close)
              (close-IsCounted k on_close c (unregister s c) g') g'))
  ]
    where
      right : (a b : Bool) → (a && b) ≡ true → b ≡ true
      right a b e = ground (arith, e)

-- The error of an action of `OnClose`.
abbrev pub close_error : Outcome → Option LoopError
close_error (returned shutdown) = some engine_shutdown
close_error (returned no_action) = none
close_error (returned close_conn) = none
close_error panicked = none

close-gone :
    (k : ℕ) (on_close : Outcome) (c : ℕ) (s : Loop)
    → (s.raw c && has_conn s.connections c) ≡ false
    → close k on_close c s ≡ (none, s)
unfolding close
close-gone zero on_close c s e = refl
close-gone (suc k) on_close c s e = rw (close, e) refl

gone : (a b : Bool) → b ≡ false → (a && b) ≡ false
gone true b e = e
gone false b e = refl

-- What the action of `OnClose` does, once the connection is gone.
act :
    (k : ℕ) (on_close o : Outcome) (c : ℕ) (s : Loop)
    → handle_action (close k on_close c) (unregister s c) (close_action o)
      ≡ (close_error o, unregister s c)
unfolding handle_action
act k on_close (returned no_action) c s = refl
act k on_close (returned close_conn) c s = close-gone k on_close c (unregister s c) (
    gone (s.raw c) (has_conn (delete_conn s.connections c) c)
      (has_conn-delete_conn_self s.connections c))
act k on_close (returned shutdown) c s = refl
act k on_close panicked c s = refl

-- With any bound above 0 on the nested calls, `close` of a connection that is registered and has
-- its socket takes it out and releases it once, also where `OnClose` asks to close it again or
-- panics, and gives the shutdown error exactly where `OnClose` asks for it; `close` of any other
-- connection changes nothing.
pub close-enough :
    (k : ℕ) (on_close : Outcome) (c : ℕ) (s : Loop)
    → close (suc k) on_close c s ≡ (
        if s.raw c && has_conn s.connections c
        then (close_error on_close, release (unregister s c) c)
        else (none, s))
unfolding close
close-enough k on_close c s = elim (Bool-cases (s.raw c && has_conn s.connections c)) [
  | inr e ↦ rw (close, e) refl
  | inl e ↦ rw (close, e) (ap (λ r. (r.0, release r.1 c)) (act k on_close on_close c s))
]
