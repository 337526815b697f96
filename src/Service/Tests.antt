-- ===== src/Service/Tests.antt =====
-- The theorems on the chains and on transactions at concrete calls.
use mathlib.Core.List.{Perm}
use ag_core.Prelude.{
  ℕ, ◌+◌, ◌≡◌, refl, ap, true, false, Option, none, some, List, [], ◌∷◌, inr, if◌then◌else◌, ◌==◌,
}
use ag_core.Prelude.Int.{pos}
use ag_core.Service.{CallInfo, new_call_info, add_tag, lock, store}
use ag_core.Sorting.{IsSorted}
use ag_core.Sorting.Insertion.{insertion_sort, insertion_sort-Sorts}
use ag_core.Service.Chain.{
  Ctx, Endpoint, Provider, Prioritized, MethodMiddleware, get_order, simple_middleware, select,
  holds, prioritize, call_info_ctx_bind_mw, apply_opts, build_chain,
}
use ag_core.Service.Chain.Laws.{behind, build_chain-order}
use ag_core.Service.Transaction.{
  supports, required, Tag, propagation, flag, Action, with_transaction,
  do_transaction_with_required, transaction_pre_opt, condition,
}
use ag_core.Service.Transaction.Laws.{BindsTx, with_transaction-nested}

-- An endpoint gives the names of what ran.
abbrev Trace : Type 0
Trace = List ℕ

abbrev tracing : ℕ → Endpoint Tag Trace → Endpoint Tag Trace
tracing name next ctx = name ∷ next ctx

-- One middleware without an order, one with a high priority for calls in a transaction, and one that
-- is not for this call.
abbrev providers : List (Provider Tag Trace)
providers =
    simple_middleware (tracing 1)
    ∷ record { condition = some condition; priority = some (pos 1000); middleware = tracing 2 }
    ∷ record {
      condition = some (λ ci. ci.client_streaming);
      priority = some (pos 0);
      middleware = tracing 3;
    }
    ∷ []

abbrev fresh_call : CallInfo Tag
fresh_call = new_call_info 1 2 false false

-- A call that is marked as transactional.
abbrev tagged_call : CallInfo Tag
tagged_call = record fresh_call { tag = λ k. if k == 0 then some (flag true) else none }

abbrev marked_call : CallInfo Tag
marked_call = record tagged_call { tag = store tagged_call.tag 1 (propagation required) }

abbrev actual : Endpoint Tag Trace
actual ctx = 9 ∷ []

build_chain-order_example : ∥ (
    (mws : List (Prioritized Tag Trace)) × Perm mws (select (lock marked_call) providers)
    × IsSorted get_order mws
    × (build_chain
          (insertion_sort get_order)
          (transaction_pre_opt ∷ [])
          providers
          tagged_call
          []
          actual
        ≡ (
          lock marked_call,
          inr (λ ctx. behind mws actual (record ctx { call_info = some (lock marked_call) })),
        ))) ∥₁
unfolding new_call_info apply_opts transaction_pre_opt add_tag select holds prioritize
    call_info_ctx_bind_mw
build_chain-order_example =
    build_chain-order (insertion_sort get_order) (insertion_sort-Sorts get_order)
      (transaction_pre_opt ∷ []) providers [] tagged_call marked_call actual refl (refl, (refl, tt))

abbrev methods : List (MethodMiddleware Tag Trace)
methods =
    record { order = pos 20; middleware = λ method. tracing (20 + method) }
    ∷ record { order = pos 0; middleware = λ method. tracing method }
    ∷ []

-- A manager that begins transaction 7, and rolls back where the function fails or panics.
abbrev manager : {S : Type 0} → Ctx Tag → Action S → S → Option (Option ℕ × S)
manager ctx fn s = elim (fn (record ctx { tx = some 7 }) s) [
  | none ↦ none
  | some r ↦ elim r.0 [ none ↦ some r | some err ↦ some (some err, s) ]
]

manager-BindsTx : {S : Type 0} → BindsTx (manager {S = S})
manager-BindsTx ctx fn gn s same =
    ap
      (λ o. elim o [
        | none ↦ none
        | some r ↦ elim r.0 [ none ↦ some r | some err ↦ some (some err, s) ]
      ])
      (same (record ctx { tx = some 7 }) s refl)

abbrev outside : Ctx Tag
outside = record { call_info = some marked_call; tx = none; rest = 0 }

-- It counts, and fails with the number of the transaction.
abbrev failing : Action ℕ
failing ctx n = some (ctx.tx, n + 1)

with_transaction-nested_example :
    with_transaction manager outside required (λ c. with_transaction manager c supports failing) 3
    ≡ some (some 7, 3)
unfolding with_transaction do_transaction_with_required
with_transaction-nested_example =
    with_transaction-nested manager outside supports failing 3 (manager-BindsTx)
