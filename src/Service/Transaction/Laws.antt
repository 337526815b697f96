-- ===== src/Service/Transaction/Laws.antt =====
-- When a call runs in a transaction of its own, and when it joins the current one.
use ag_core.Prelude.{ℕ, ◌≡◌, refl, true, false, Option, none, some, Bool-cases, inl, inr}
use ag_core.Service.{CallInfo, not_supported, is_some, get_tag, add_tag}
use ag_core.Service.Chain.{Ctx, Endpoint}
use ag_core.Service.Transaction.{
  Propagation, unknown, supports, required, other, Tag, flag, propagation, other_value,
  transaction_tag, transaction_propagation_key, has_current_tx, Action,
  do_transaction_with_required, with_transaction, wanted, transaction_pre_opt, condition,
  as_propagation, Response, Vars, call_next, respond, transaction_middleware,
}

-- A manager runs the function with contexts that it has bound a transaction to, and no others.
abbrev pub BindsTx : {S : Type 0} → (Ctx Tag → Action S → S → Option (Option ℕ × S)) → Type 0
BindsTx {S} transaction =
    (ctx : Ctx Tag) (fn gn : Action S) (s : S)
    → ((c : Ctx Tag) (t : S) → has_current_tx c ≡ true → fn c t ≡ gn c t)
    → transaction ctx fn s ≡ transaction ctx gn s

module _ {S : Type 0} (transaction : Ctx Tag → Action S → S → Option (Option ℕ × S)) where
  -- With a current transaction, nothing is begun.
  pub with_transaction-joins :
      (ctx : Ctx Tag) (tp : Propagation) (fn : Action S) (s : S)
      → has_current_tx ctx ≡ true
      → with_transaction transaction ctx tp fn s ≡ fn ctx s
  unfolding with_transaction do_transaction_with_required
  with_transaction-joins ctx unknown fn s e = refl
  with_transaction-joins ctx supports fn s e = refl
  with_transaction-joins ctx required fn s e = rw e refl
  with_transaction-joins ctx (other n) fn s e = refl

  -- With a manager that runs its function only with contexts that it has bound a transaction to,
  -- `with_transaction` of any propagation inside one that is required joins the transaction: the
  -- result is the same as without the inner one.
  pub with_transaction-nested :
      (ctx : Ctx Tag) (tp : Propagation) (fn : Action S) (s : S)
      → BindsTx transaction
      → with_transaction transaction ctx required (λ c. with_transaction transaction c tp fn) s
        ≡ with_transaction transaction ctx required fn s
  unfolding with_transaction do_transaction_with_required
  with_transaction-nested ctx tp fn s binds = elim (Bool-cases (has_current_tx ctx)) [
    | inl e ↦ rw e (with_transaction-joins ctx tp fn s e)
    | inr e ↦ rw e (
        binds ctx (λ c. with_transaction transaction c tp fn) fn s
          (λ c t q. with_transaction-joins c tp fn t q))
  ]

-- What a tag asks for, where the code supports it.
abbrev pub supported : Option Tag → Option Propagation
supported none = none
supported (some t) = wanted t

module _ (ci : CallInfo Tag) (unlocked : ci.locked ≡ false)
    (new : ci.tag transaction_propagation_key ≡ none) where
  -- What the option leaves, by the tag.
  abbrev Marks : Option Tag → Type 0
  Marks t =
      (condition (transaction_pre_opt ci).1 ≡ is_some (supported t))
      × (as_propagation (get_tag (transaction_pre_opt ci).1 transaction_propagation_key)
          ≡ elim (supported t) [ none ↦ unknown | some tp ↦ tp ])

  refused :
      (tp : Propagation)
      → (transaction_pre_opt ci).0 ≡ some not_supported
      → (transaction_pre_opt ci).0 ≡ none
      → Marks (some (propagation tp))
  refused tp e h = cc (e, h)

  marks :
      (t : Option Tag) → ci.tag transaction_tag ≡ t → (transaction_pre_opt ci).0 ≡ none → Marks t
  unfolding transaction_pre_opt add_tag
  marks none e h = rw (transaction_pre_opt, e, new) (refl, refl)
  marks (some (flag false)) e h = rw (transaction_pre_opt, e, new) (refl, refl)
  marks (some (flag true)) e h = rw (transaction_pre_opt, e, add_tag, unlocked, new) (refl, refl)
  marks (some (other_value n)) e h = rw (transaction_pre_opt, e, new) (refl, refl)
  marks (some (propagation supports)) e h =
      rw (transaction_pre_opt, e, add_tag, unlocked, new) (refl, refl)
  marks (some (propagation required)) e h =
      rw (transaction_pre_opt, e, add_tag, unlocked, new) (refl, refl)
  marks (some (propagation unknown)) e h = refused unknown (rw (transaction_pre_opt, e) refl) h
  marks (some (propagation (other n))) e h = refused (other n) (rw (transaction_pre_opt, e) refl) h

  -- On an unlocked call without a propagation, where `transaction_pre_opt` succeeds, the condition
  -- of the middleware holds exactly for a transaction tag that asks for a propagation, and the
  -- middleware then finds the propagation that the tag asks for, or else the unknown one.
  pub transaction_pre_opt-marks :
      (transaction_pre_opt ci).0 ≡ none
      → (condition (transaction_pre_opt ci).1 ≡ is_some (supported (ci.tag transaction_tag)))
        × (as_propagation (get_tag (transaction_pre_opt ci).1 transaction_propagation_key)
            ≡ elim (supported (ci.tag transaction_tag)) [ none ↦ unknown | some tp ↦ tp ])
  unfolding transaction_pre_opt
  transaction_pre_opt-marks h = marks (ci.tag transaction_tag) refl h

module _ {S : Type 0}
    (transaction : Ctx Tag → Action (Vars S) → Vars S → Option (Option ℕ × Vars S)) where
  called : Response S → Option (Option ℕ × Vars S)
  called none = none
  called (some r) = some (r.0.1, (r.1, r.0.0, r.0.1))

  -- On a context with a call's information and a current transaction, the transaction middleware
  -- has the outcome of the next endpoint, with its response, its error, its state, or its panic.
  pub transaction_middleware-transparent :
      (next : Endpoint Tag (S → Response S)) (ctx : Ctx Tag) (cinfo : CallInfo Tag) (s : S)
      → has_current_tx ctx ≡ true
      → transaction_middleware transaction next (record ctx { call_info = some cinfo }) s
        ≡ next (record ctx { call_info = some cinfo }) s
  unfolding transaction_middleware call_next respond called
  transaction_middleware-transparent next ctx cinfo s q =
      rw
        (
          transaction_middleware,
          with_transaction-joins transaction (record ctx { call_info = some cinfo })
              (as_propagation (get_tag cinfo transaction_propagation_key))
              (call_next transaction next) (s, none, none) q,
        )
        (returned (next (record ctx { call_info = some cinfo }) s))
    where
      returned :
          (r : Response S)
          → elim (called r) as (λ x. Response S) [
            | none ↦ none
            | some v ↦ some (respond transaction v)
          ]
            ≡ r
      returned none = refl
      returned (some ((resp, none), s)) = refl
      returned (some ((resp, some err), s)) = refl
