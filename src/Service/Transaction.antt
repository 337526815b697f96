-- ===== src/Service/Transaction.antt =====
-- contribute/agdb/transaction.go and transaction_service_middleware.go: the propagation of database
-- transactions over the context of a call. A computation on a state gives a result or panics, `none`;
-- an error is a reference, and `none` is nil. The transaction manager is a parameter.
pub mod Laws
use ag_core.Prelude.{ℕ, Bool, true, false, ◌||◌, not, Option, none, some, if◌then◌else◌}
use ag_core.Service.{CallInfo, CallError, not_supported, is_some, has_tag, add_tag, get_tag}
use ag_core.Service.Chain.{Ctx, Endpoint, get_call_info_from_context}

-- `TransactionPropagation`, an `int` with three names.
pub data Propagation : Type 0 where
  unknown : Propagation
  supports : Propagation
  required : Propagation
  other : ℕ → Propagation

-- The values of tags, by the types that `TransactionPreOpt` tells apart.
pub data Tag : Type 0 where
  flag : Bool → Tag
  propagation : Propagation → Tag
  other_value : ℕ → Tag

-- `TransactionTag` and `transactionPropagationKey`
abbrev pub transaction_tag : ℕ
transaction_tag = 0

abbrev pub transaction_propagation_key : ℕ
transaction_propagation_key = 1

-- `IsSupportsTransaction`
abbrev pub is_supports_transaction : Propagation → Bool
is_supports_transaction unknown = false
is_supports_transaction supports = true
is_supports_transaction required = true
is_supports_transaction (other n) = false

abbrev pub bind_tx_to_ctx : Ctx Tag → ℕ → Ctx Tag
bind_tx_to_ctx ctx tx = record ctx { tx = some tx }

-- `GetTxFromCtx`; `zero_value` is the zero value of its type.
pub get_tx_from_ctx : ℕ → Ctx Tag → ℕ
get_tx_from_ctx zero_value ctx = elim ctx.tx [ none ↦ zero_value | some tx ↦ tx ]

abbrev pub has_current_tx : Ctx Tag → Bool
has_current_tx ctx = is_some ctx.tx

-- A function that takes a context and may fail with an error.
abbrev pub Action : Type 0 → Type 0
Action S = Ctx Tag → S → Option (Option ℕ × S)

module _ {S : Type 0} (transaction : Ctx Tag → Action S → S → Option (Option ℕ × S)) where
  unfoldable pub do_transaction_with_required : Ctx Tag → Action S → S → Option (Option ℕ × S)
  do_transaction_with_required ctx fn s =
      if has_current_tx ctx then fn ctx s else transaction ctx (λ c. fn c) s

  unfoldable pub with_transaction : Ctx Tag → Propagation → Action S → S → Option (Option ℕ × S)
  with_transaction ctx unknown fn s = fn ctx s
  with_transaction ctx supports fn s = fn ctx s
  with_transaction ctx required fn s = do_transaction_with_required ctx fn s
  with_transaction ctx (other n) fn s = fn ctx s

-- The propagation that a transaction tag asks for.
abbrev pub wanted : Tag → Option Propagation
wanted (flag b) = if not b then none else some required
wanted (propagation tp) = some tp
wanted (other_value n) = none

unfoldable pub transaction_pre_opt : CallInfo Tag → Option CallError × CallInfo Tag
transaction_pre_opt ci = elim (get_tag ci transaction_tag) [
  | none ↦ (none, ci)
  | some ttag ↦ elim (wanted ttag) [
    | none ↦ (none, ci)
    | some tp ↦
        if not (is_supports_transaction tp)
        then (some not_supported, ci)
        else add_tag ci transaction_propagation_key (propagation tp)
  ]
]

-- `TransactionMiddlewareProvider.Condition`
abbrev pub condition : CallInfo Tag → Bool
condition ci = has_tag ci transaction_propagation_key

-- The type assertion on the tag.
abbrev pub as_propagation : Option Tag → Propagation
as_propagation none = unknown
as_propagation (some (flag b)) = unknown
as_propagation (some (propagation tp)) = tp
as_propagation (some (other_value n)) = unknown

-- A response and an error.
abbrev pub Response : Type 0 → Type 0
Response S = Option ((Option ℕ × Option ℕ) × S)

-- The variables `resp` and `rerr` that the function of the middleware sets, beside the state.
abbrev pub Vars : Type 0 → Type 0
Vars S = S × Option ℕ × Option ℕ

module _ {S : Type 0}
    (transaction : Ctx Tag → Action (Vars S) → Vars S → Option (Option ℕ × Vars S)) where
  unfoldable pub call_next : Endpoint Tag (S → Response S) → Action (Vars S)
  call_next next ctx vars = elim (next ctx vars.0) [
    | none ↦ none
    | some r ↦ some (r.0.1, (r.1, r.0.0, r.0.1))
  ]

  -- What the middleware returns, from the error of `WithTransaction` and the variables.
  unfoldable pub respond : Option ℕ × Vars S → (Option ℕ × Option ℕ) × S
  respond (none, (s, resp, rerr)) = ((resp, rerr), s)
  respond (some terr, (s, resp, rerr)) = ((resp, some terr), s)

  -- `TransactionMiddlewareProvider.Middleware`; without a call's information it panics.
  unfoldable pub transaction_middleware :
      Endpoint Tag (S → Response S) → Endpoint Tag (S → Response S)
  transaction_middleware next ctx s = elim (get_call_info_from_context ctx) [
    | none ↦ none
    | some cinfo ↦
        let tp = as_propagation (get_tag cinfo transaction_propagation_key) in
        elim (with_transaction transaction ctx tp (call_next next) (s, none, none)) [
          | none ↦ none
          | some r ↦ some (respond r)
        ]
  ]
