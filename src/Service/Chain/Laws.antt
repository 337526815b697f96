-- ===== src/Service/Chain/Laws.antt =====
-- The order in which a chain runs its middlewares.
use mathlib.Core.List.{reverse, reverse-cons, Perm}
use mathlib.Core.List.Perm
use mathlib.Core.Logic.{∥∥₁_map}
use ag_core.Prelude.{ℕ, ◌≡◌, refl, ◌∙◌, ap, Option, none, some, List, [], ◌∷◌, ◌++◌, inr}
use ag_core.Prelude.Int.{ltb_ℤ}
use ag_core.Service.{CallInfo, CallError, lock}
use ag_core.Sorting.{Every, IsSorted, Sorts, sort-least}
use ag_core.Service.Chain.{
  Endpoint, Provider, Prioritized, MethodMiddleware, get_order, call_info_ctx_bind_mw, select, wrap,
  build_endpoint_chain, apply_opts, build_chain, wrap_method, register_handler,
}

module _ {V A : Type 0} where
  -- The endpoint behind the middlewares, the first of them outermost.
  abbrev pub behind : List (Prioritized V A) → Endpoint V A → Endpoint V A
  behind [] actual = actual
  behind (m ∷ ms) actual = m.middleware (behind ms actual)

  wrap-append :
      (ms ns : List (Prioritized V A)) (e : Endpoint V A) → wrap (ms ++ ns) e ≡ wrap ns (wrap ms e)
  unfolding wrap
  wrap-append [] ns e = refl
  wrap-append (m ∷ ms) ns e = wrap-append ms ns (m.middleware e)

  wrap-reverse :
      (ms : List (Prioritized V A)) (e : Endpoint V A) → wrap (reverse ms) e ≡ behind ms e
  unfolding wrap
  wrap-reverse [] e = refl
  wrap-reverse (m ∷ ms) e =
      ap (λ l. wrap l e) (reverse-cons m ms)
      ∙ wrap-append (reverse ms) (m ∷ []) e
      ∙ ap m.middleware (wrap-reverse ms e)

  module _ (sort : List (Prioritized V A) → List (Prioritized V A))
      (sorts : Sorts get_order sort) where
    -- What follows from the order of the sorted list.
    build_endpoint_chain-sorted :
        (ci : CallInfo V) (mws : List (Provider V A)) (actual : Endpoint V A)
        (ms : List (Prioritized V A))
        → sort (call_info_ctx_bind_mw (lock ci) ∷ select (lock ci) mws)
          ≡ call_info_ctx_bind_mw (lock ci) ∷ ms
        → build_endpoint_chain sort ci mws actual
          ≡ (lock ci, λ ctx. behind ms actual (record ctx { call_info = some (lock ci) }))
    unfolding build_endpoint_chain call_info_ctx_bind_mw
    build_endpoint_chain-sorted ci mws actual ms q =
        ap (λ l. (lock ci, wrap (reverse l) actual)) q
        ∙ ap (λ c. (lock ci, c)) (wrap-reverse (call_info_ctx_bind_mw (lock ci) ∷ ms) actual)

    -- Where the options of the builder succeed, and every middleware that applies to the locked
    -- call has an order above the lowest `int`, `build_chain` with a sort that gives a sorted
    -- permutation succeeds: the endpoint first binds the call's information to the context, and
    -- then runs the middlewares that apply, each once, by ascending order, before the actual
    -- endpoint.
    pub build_chain-order :
        (opts : List (CallInfo V → Option CallError × CallInfo V))
        (global_mws custom_mws : List (Provider V A)) (cinfo ci : CallInfo V)
        (actual : Endpoint V A)
        → apply_opts opts cinfo ≡ (none, ci)
        → Every
            (λ m. ltb_ℤ (get_order (call_info_ctx_bind_mw {A = A} ci)) (get_order m))
            (select (lock ci) (global_mws ++ custom_mws))
        → ∥ (
            (mws : List (Prioritized V A)) × Perm mws (select (lock ci) (global_mws ++ custom_mws))
            × IsSorted get_order mws
            × (build_chain sort opts global_mws cinfo custom_mws actual ≡ (
              lock ci,
              inr (λ ctx. behind mws actual (record ctx { call_info = some (lock ci) })),
            ))) ∥₁
    unfolding build_chain call_info_ctx_bind_mw
    build_chain-order opts global_mws custom_mws cinfo ci actual e above =
        ∥∥₁_map
          (sort-least get_order sort (call_info_ctx_bind_mw (lock ci))
            (select (lock ci) (global_mws ++ custom_mws)) _ sorts Perm.rfl above)
          (λ s.
            let (mws, q, p, o) = s in
            (
              mws,
              p,
              o,
              rw
                  (
                    build_chain,
                    ap (λ r. r.0) e,
                    ap (λ r. r.1) e,
                    build_endpoint_chain-sorted ci (global_mws ++ custom_mws) actual mws q,
                  )
                  refl,
            ))

  abbrev pub behind_method : ℕ → List (MethodMiddleware V A) → Endpoint V A → Endpoint V A
  behind_method method [] handler = handler
  behind_method method (m ∷ ms) handler = m.middleware method (behind_method method ms handler)

  wrap_method-append :
      (method : ℕ) (ms ns : List (MethodMiddleware V A)) (e : Endpoint V A)
      → wrap_method method (ms ++ ns) e ≡ wrap_method method ns (wrap_method method ms e)
  unfolding wrap_method
  wrap_method-append method [] ns e = refl
  wrap_method-append method (m ∷ ms) ns e = wrap_method-append method ms ns (m.middleware method e)

  wrap_method-reverse :
      (method : ℕ) (ms : List (MethodMiddleware V A)) (e : Endpoint V A)
      → wrap_method method (reverse ms) e ≡ behind_method method ms e
  unfolding wrap_method
  wrap_method-reverse method [] e = refl
  wrap_method-reverse method (m ∷ ms) e =
      ap (λ l. wrap_method method l e) (reverse-cons m ms)
      ∙ wrap_method-append method (reverse ms) (m ∷ []) e
      ∙ ap (m.middleware method) (wrap_method-reverse method ms e)

  -- With a sort that gives a sorted permutation, and a middleware whose order is below all others,
  -- `register_handler` gives a handler that runs this middleware outermost, and the others, each
  -- once, by ascending order, behind it.
  pub register_handler-least :
      (sort : List (MethodMiddleware V A) → List (MethodMiddleware V A)) (method : ℕ)
      (m : MethodMiddleware V A) (others mws : List (MethodMiddleware V A)) (handler : Endpoint V A)
      → Sorts (λ n. n.order) sort
      → Perm mws (m ∷ others)
      → Every (λ n. ltb_ℤ m.order n.order) others
      → ∥ (
          (rest : List (MethodMiddleware V A)) × Perm rest others
          × IsSorted (λ n. n.order) rest
          × (register_handler sort method mws handler
              ≡ (m ∷ rest, m.middleware method (behind_method method rest handler)))) ∥₁
  unfolding register_handler
  register_handler-least sort method m others mws handler sorts same least =
      ∥∥₁_map (sort-least (λ n. n.order) sort m others mws sorts same least) (λ s.
        let (rest, q, p, o) = s in
        (
          rest,
          p,
          o,
          ap (λ l. (l, wrap_method method (reverse l) handler)) q
              ∙ ap (λ e. (m ∷ rest, e)) (wrap_method-reverse method (m ∷ rest) handler),
        ))
