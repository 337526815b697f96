-- ===== src/Service/Chain.antt =====
-- ag/ag_service/agservice_builder.go and endpoint.go, the chain of middlewares before an endpoint, and
-- `RegisterHandler` of ag/ag_service/service_middleware.go. What an endpoint does with a context is of
-- any type. `sort` is sort.Sort by the given order.
pub mod Laws
use mathlib.Core.List.{reverse}
use ag_core.Prelude.{
  ℕ, ◌^◌, ◌-◌, Bool, true, false, Option, none, some, List, [], ◌∷◌, ◌++◌, map, ◌⊎◌, inl, inr,
  if◌then◌else◌,
}
use ag_core.Prelude.Int.{ℤ, pos, negsuc}
use ag_core.Service.{CallInfo, CallError, lock}

module _ (V : Type 0) where
  -- The values of a context that the code binds: the call's information, and the current transaction.
  pub record Ctx : Type 0 where
    pub call_info : Option (CallInfo V)
    pub tx : Option ℕ
    pub rest : ℕ

module _ (V A : Type 0) where
  abbrev pub Endpoint : Type 0
  Endpoint = Ctx V → A

  -- `MiddlewareProvider`, with the interfaces that it may implement: `MiddleWareCondition`, and the
  -- order of a `PrioritizedMiddlewareProvider`.
  pub record Provider : Type 0 where
    pub condition : Option (CallInfo V → Bool)
    pub priority : Option ℤ
    pub middleware : Endpoint → Endpoint

  -- `PrioritizedMiddlewareProvider`
  pub record Prioritized : Type 0 where
    pub order : ℤ
    pub middleware : Endpoint → Endpoint

  -- The middlewares of `RegisterHandler`, which also see the name of the method.
  pub record MethodMiddleware : Type 0 where
    pub order : ℤ
    pub middleware : ℕ → Endpoint → Endpoint

module _ {V : Type 0} where
  -- `GetCallInfoFromContext`
  abbrev pub get_call_info_from_context : Ctx V → Option (CallInfo V)
  get_call_info_from_context ctx = ctx.call_info

  -- The options that `BuildEndpointChain` applies first; an error ends them.
  unfoldable pub apply_opts :
      List (CallInfo V → Option CallError × CallInfo V) → CallInfo V → Option CallError × CallInfo V
  apply_opts [] ci = (none, ci)
  apply_opts (opt ∷ opts) ci = elim (opt ci).0 [
    | none ↦ apply_opts opts (opt ci).1
    | some err ↦ (some err, (opt ci).1)
  ]

module _ {V A : Type 0} where
  abbrev pub get_order : Prioritized V A → ℤ
  get_order m = m.order

  -- `SimpleMiddleware`
  abbrev pub simple_middleware : (Endpoint V A → Endpoint V A) → Provider V A
  simple_middleware mw = record { condition = none; priority = none; middleware = mw }

  -- `NewAgServiceBuilder`: the global middlewares of the three kinds.
  pub merge_global_mws :
      List (Provider V A)
      → List (Provider V A)
      → List (Endpoint V A → Endpoint V A)
      → List (Provider V A)
  merge_global_mws global_mws gp_mws global_mw_funs =
      (global_mws ++ gp_mws) ++ map simple_middleware global_mw_funs

  -- `callInfoCtxBindMw`; its order is `math.MinInt`.
  unfoldable pub call_info_ctx_bind_mw : CallInfo V → Prioritized V A
  call_info_ctx_bind_mw ci = record {
    order = negsuc (2 ^ 63 - 1);
    middleware = λ next ctx. next (record ctx { call_info = some ci });
  }

  unfoldable pub holds : Provider V A → CallInfo V → Bool
  holds mw ci = elim mw.condition [ none ↦ true | some condition ↦ condition ci ]

  -- A middleware without an order gets `ServiceInfoMiddlewarePriorityNormal`.
  unfoldable pub prioritize : Provider V A → Prioritized V A
  prioritize mw = record {
    order = elim mw.priority [ none ↦ pos 2000 | some order ↦ order ];
    middleware = mw.middleware;
  }

  -- The loop of `buildEndpointChain` over the middlewares.
  unfoldable pub select : CallInfo V → List (Provider V A) → List (Prioritized V A)
  select ci [] = []
  select ci (mw ∷ mws) =
      let rest = select ci mws in if holds mw ci then prioritize mw ∷ rest else rest

  -- The loop that wraps the endpoint, from the last middleware to the first: the list is reversed.
  unfoldable pub wrap : List (Prioritized V A) → Endpoint V A → Endpoint V A
  wrap [] chain = chain
  wrap (m ∷ ms) chain = wrap ms (m.middleware chain)

  module _ (sort : List (Prioritized V A) → List (Prioritized V A)) where
    -- `buildEndpointChain`, with the call's information that it locks.
    unfoldable pub build_endpoint_chain :
        CallInfo V → List (Provider V A) → Endpoint V A → CallInfo V × Endpoint V A
    build_endpoint_chain cinfo middlewares actual =
        let ci = lock cinfo in
        let pmws = sort (call_info_ctx_bind_mw ci ∷ select ci middlewares) in
        (ci, wrap (reverse pmws) actual)

    -- `agServiceBuilder.BuildEndpointChain`
    unfoldable pub build_chain :
        List (CallInfo V → Option CallError × CallInfo V)
        → List (Provider V A)
        → CallInfo V
        → List (Provider V A)
        → Endpoint V A
        → CallInfo V × (CallError ⊎ Endpoint V A)
    build_chain opts global_mws cinfo custom_mws actual =
        let (err, ci) = apply_opts opts cinfo in
        elim err [
          | none ↦
              let (ci', chain) = build_endpoint_chain ci (global_mws ++ custom_mws) actual in
              (ci', inr chain)
          | some e ↦ (ci, inl e)
        ]

  -- The wrapping loop of `RegisterHandler`, over the reversed list.
  unfoldable pub wrap_method : ℕ → List (MethodMiddleware V A) → Endpoint V A → Endpoint V A
  wrap_method method [] wrapped = wrapped
  wrap_method method (m ∷ ms) wrapped = wrap_method method ms (m.middleware method wrapped)

  -- `RegisterHandler`, with the caller's slice, which it sorts.
  unfoldable pub register_handler :
      (List (MethodMiddleware V A) → List (MethodMiddleware V A))
      → ℕ
      → List (MethodMiddleware V A)
      → Endpoint V A
      → List (MethodMiddleware V A) × Endpoint V A
  register_handler sort method mws handler =
      let sorted = sort mws in (sorted, wrap_method method (reverse sorted) handler)
