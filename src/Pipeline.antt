-- ===== src/Pipeline.antt =====
-- contribute/agonet/simple/pipeline.go and context.go: the doubly linked list of handler contexts. A
-- context is an address; its fields are functions of it, and an address at `fresh` or above is not
-- allocated yet. `nil` is `none`. What a handler does when it is called is not part of the pipeline:
-- an event yields the context whose handler is called.
pub mod Chain
pub mod Linked
pub mod Add
pub mod Fire
mod Tests
use ag_core.Prelude.{
  ℕ, zero, suc, ◌+◌, Bool, true, false, ◌&&◌, ◌||◌, not, Option, none, some, List, [], ◌∷◌, ◌==◌,
  if◌then◌else◌,
}

-- A handler: which it is, the interfaces that it implements, and whether it is an
-- `UnshareableHandler`.
pub record Handler : Type 0 where
  pub id : ℕ
  pub inbound : Bool
  pub outbound : Bool
  pub exception : Bool
  pub active : Bool
  pub inactive : Bool
  pub inactive_func : Bool
  pub event : Bool
  pub unshareable : Bool

-- `pipeline`, with the contexts that it has allocated and the `bound` flags of the handlers.
pub record Pipeline : Type 0 where
  pub head : ℕ
  pub tail : ℕ
  pub size : ℕ
  pub handling_exception : Bool
  pub next : ℕ → Option ℕ
  pub prev : ℕ → Option ℕ
  pub handler : ℕ → Handler
  pub fresh : ℕ
  pub bound : ℕ → Bool

abbrev pub update {ℓ} : {A : Type ℓ} → (ℕ → A) → ℕ → A → ℕ → A
update f a v b = if b == a then v else f b

-- `headHandler`
abbrev pub head_handler : Handler
head_handler = record {
  id = 0;
  inbound = false;
  outbound = true;
  exception = false;
  active = false;
  inactive = false;
  inactive_func = false;
  event = false;
  unshareable = false;
}

-- `tailHandler`
abbrev pub tail_handler : Handler
tail_handler = record head_handler { id = 1; outbound = false; exception = true }

-- `NewPipeline`, for handlers with the flags `bound`.
unfoldable pub new_pipeline : (ℕ → Bool) → Pipeline
new_pipeline bound = record {
  head = 0;
  tail = 1;
  size = 2;
  handling_exception = false;
  next = update (λ a. none) 0 (some 1);
  prev = update (λ a. none) 1 (some 0);
  handler = update (λ a. head_handler) 1 tail_handler;
  fresh = 2;
  bound = bound;
}

-- One handler of `checkHandler`.
unfoldable pub is_recognized : Handler → Bool
is_recognized h = h.inbound || h.outbound || h.exception || h.active || h.inactive_func || h.event

-- `checkHandler`: whether it returns.
unfoldable pub check_handler : List Handler → Bool
check_handler [] = true
check_handler (h ∷ hs) = is_recognized h && check_handler hs

-- `bindHandler`, with `TryBind`; `none` is its panic.
unfoldable pub bind_handler : Pipeline → Handler → Option Pipeline
bind_handler p h =
    if not h.unshareable
    then some p
    else if p.bound h.id
    then none
    else some (record p { bound = update p.bound h.id true })

-- `newHandlerContext` between two contexts, and the stores of `addFirst` and `addLast`.
unfoldable pub link : Pipeline → Handler → ℕ → ℕ → Pipeline
link p h before behind = record p {
  next = update (update p.next p.fresh (some behind)) before (some p.fresh);
  prev = update (update p.prev p.fresh (some before)) behind (some p.fresh);
  handler = update p.handler p.fresh h;
  fresh = p.fresh + 1;
  size = p.size + 1;
}

-- A store through `nil` panics.
unfoldable pub link_behind_head : Handler → Option Pipeline → Option Pipeline
link_behind_head h none = none
link_behind_head h (some p) = elim (p.next p.head) [
  | none ↦ none
  | some old_next ↦ some (link p h p.head old_next)
]

unfoldable pub link_before_tail : Handler → Option Pipeline → Option Pipeline
link_before_tail h none = none
link_before_tail h (some p) = elim (p.prev p.tail) [
  | none ↦ none
  | some old_prev ↦ some (link p h old_prev p.tail)
]

-- `addFirst` and `addLast`
unfoldable pub add_first : Pipeline → Handler → Option Pipeline
unfolding link_behind_head bind_handler
add_first p h = link_behind_head h (bind_handler p h)

unfoldable pub add_last : Pipeline → Handler → Option Pipeline
unfolding link_before_tail bind_handler
add_last p h = link_before_tail h (bind_handler p h)

-- The loops of `AddFirst` and `AddLast`; `add` is the step.
unfoldable pub add_all :
    (Pipeline → Handler → Option Pipeline) → Pipeline → List Handler → Option Pipeline
add_all add p [] = some p
add_all add p (h ∷ hs) = elim (add p h) [ none ↦ none | some p' ↦ add_all add p' hs ]

-- `AddFirst` and `AddLast`; a handler that is not recognized panics before any is added.
unfoldable pub add_first_all : Pipeline → List Handler → Option Pipeline
add_first_all p hs = if check_handler hs then add_all add_first p hs else none

unfoldable pub add_last_all : Pipeline → List Handler → Option Pipeline
add_last_all p hs = if check_handler hs then add_all add_last p hs else none

-- The loop that each event runs: from a link, to the first context whose handler has the interface.
-- The first argument bounds the contexts.
unfoldable pub find : ℕ → (ℕ → Option ℕ) → (ℕ → Bool) → Option ℕ → Option ℕ
find zero step has c = none
find (suc k) step has none = none
find (suc k) step has (some c) =
    let rest = find k step has (step c) in if has c then some c else rest

-- The events of a context: `FireActive`, `FireInactive`, `FireRead`, `FireExceptionCaught` and
-- `FireEvent` go to the next contexts, `FireWrite` and `Write` to the previous.
unfoldable pub fire_next : Pipeline → (Handler → Bool) → ℕ → Option ℕ
fire_next p has c = find p.size p.next (λ a. has (p.handler a)) (p.next c)

unfoldable pub fire_prev : Pipeline → (Handler → Bool) → ℕ → Option ℕ
fire_prev p has c = find p.size p.prev (λ a. has (p.handler a)) (p.prev c)

pub fire_active : Pipeline → ℕ → Option ℕ
fire_active p c = fire_next p (λ h. h.active) c

pub fire_inactive : Pipeline → ℕ → Option ℕ
fire_inactive p c = fire_next p (λ h. h.inactive) c

unfoldable pub fire_read : Pipeline → ℕ → Option ℕ
fire_read p c = fire_next p (λ h. h.inbound) c

unfoldable pub fire_exception_caught : Pipeline → ℕ → Option ℕ
fire_exception_caught p c = fire_next p (λ h. h.exception) c

pub fire_event : Pipeline → ℕ → Option ℕ
fire_event p c = fire_next p (λ h. h.event) c

unfoldable pub fire_write : Pipeline → ℕ → Option ℕ
fire_write p c = fire_prev p (λ h. h.outbound) c

-- `FireChannelRead` and `FireChannelWrite`
unfoldable pub fire_channel_read : Pipeline → Option ℕ
fire_channel_read p = fire_read p p.head

unfoldable pub fire_channel_write : Pipeline → Option ℕ
fire_channel_write p = fire_write p p.tail

-- `TryFireException`: the context whose handler is called, whether it reports success, and the
-- pipeline. `panics` tells whether the call of a context's handler panics.
unfoldable pub try_fire_exception : (ℕ → Bool) → Pipeline → Option ℕ × Bool × Pipeline
try_fire_exception panics p =
    if p.handling_exception then (none, false, p) else elim (fire_exception_caught p p.head) [
      | none ↦ (none, true, p)
      | some c ↦
          if panics c
          then (some c, false, record p { handling_exception = true })
          else (some c, true, p)
    ]
