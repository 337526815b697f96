-- ===== src/Balancer/Spread.antt =====
-- How the round robin spreads connections over the event loops.
use native.Mathlib.Nat.{mod-eq_of_lt, mod_self, mod-add-mod, mod-lt}
use ag_core.Prelude.{
  ℕ, zero, suc, ◌+◌, ◌-◌, ◌%◌, ◌^◌, ◌≡◌, ◌≤◌, ◌<◌, refl, ◌∙◌, sym, ap, ap₂, some, List, [], ◌∷◌,
  ◌++◌, map, append-nil, arith, ==_ne, get_elem?, get_elem?-drop, take, drop, length-drop, take_all,
}
use mathlib.Core.List.{map-append}
use ag_core.Balancer.{LoadBalancer, Chosen, loop, next_round_robin}
use ag_core.Balancer.Laws.{IsValid, loop_at-some}

-- As many calls of `next`, one after the other.
abbrev pub calls : ℕ → LoadBalancer → List Chosen
calls zero lb = []
calls (suc k) lb = (next_round_robin lb).0 ∷ calls k (next_round_robin lb).1

next_round_robin_lem :
    (lb : LoadBalancer) (x : ℕ)
    → 0 < lb.size
    → lb.next_index + 1 < 2 ^ 64
    → get_elem? lb.event_loops (lb.next_index % lb.size) ≡ some x
    → next_round_robin lb ≡ (loop x, record lb { next_index = lb.next_index + 1 })
unfolding next_round_robin
next_round_robin_lem lb x h b e =
    rw
      (
        ==_ne {a = lb.size} {b = 0} (omega arith),
        loop_at-some lb (lb.next_index % lb.size) x e,
        mod-eq_of_lt b,
      )
      refl

-- Calls whose indices run through a part of the list.
calls-straight :
    (k j r : ℕ) (lb : LoadBalancer)
    → IsValid lb
    → ((i : ℕ) → i < k → (lb.next_index + i) % lb.size ≡ r + i)
    → r + k ≤ lb.size
    → lb.next_index + k < 2 ^ 64
    → calls (k + j) lb
      ≡ map loop (take k (drop r lb.event_loops))
        ++ calls j (record lb { next_index = lb.next_index + k })
calls-straight zero j r lb v e h b =
    ap (λ i. calls i lb) {x = 0 + j} {y = j} (omega arith)
    ∙ ap (λ n. calls j (record lb { next_index = n })) {x = lb.next_index} {y = lb.next_index + 0}
        (omega arith)
calls-straight (suc k) j r lb v e h b =
    let (x, at, split) = get_elem?-drop lb.event_loops r (omega (arith, v)) in
    ap (λ i. calls i lb) {x = suc k + j} {y = suc (k + j)} (omega arith)
    ∙ ap (λ res. res.0 ∷ calls (k + j) res.1)
        (next_round_robin_lem lb x (omega arith) (omega arith) (rw (here, at) refl))
    ∙ ap (λ l. loop x ∷ l)
        (calls-straight k j (suc r) (record lb { next_index = lb.next_index + 1 }) v
            (λ i l. later i l) (omega arith) (omega arith)
          ∙ ap
              (λ n.
                map loop (take k (drop (suc r) lb.event_loops))
                ++ calls j (record lb { next_index = n }))
              {x = lb.next_index + 1 + k} {y = lb.next_index + suc k} (omega arith))
    ∙ ap
        (λ l.
          map loop (take (suc k) l) ++ calls j (record lb { next_index = lb.next_index + suc k }))
        (sym split)
  where
    here : lb.next_index % lb.size ≡ r
    here =
        ap (λ n. n % lb.size) {x = lb.next_index} {y = lb.next_index + 0} (omega arith)
        ∙ e 0 (omega arith)
        ∙ omega arith

    later : (i : ℕ) → i < k → (lb.next_index + 1 + i) % lb.size ≡ suc r + i
    later i l =
        ap (λ n. n % lb.size) {x = lb.next_index + 1 + i} {y = lb.next_index + suc i} (omega arith)
        ∙ e (suc i) (omega arith)
        ∙ omega arith

-- The indices run up to the end of the list.
mod_run : (n s k i : ℕ) → n % s + k ≤ s → i < k → (n + i) % s ≡ n % s + i
mod_run n s k i h l = sym (mod-add-mod n s i) ∙ mod-eq_of_lt {n = n % s + i} {m = s} (omega arith)

mod_end : (n s : ℕ) → 0 < s → (n + (s - n % s)) % s ≡ 0
mod_end n s h =
    sym (mod-add-mod n s (s - n % s))
    ∙ ap (λ m. m % s) {x = n % s + (s - n % s)} {y = s} (omega (arith, mod-lt n h))
    ∙ mod_self s

-- On a valid load balancer with event loops, whose counter does not wrap round during the calls, as
-- many calls of the round robin as there are event loops choose each of them once, from the one
-- that the counter names, in their order.
pub calls-round :
    (lb : LoadBalancer)
    → IsValid lb
    → 0 < lb.size
    → lb.next_index + lb.size < 2 ^ 64
    → calls lb.size lb
      ≡ map loop (
          drop (lb.next_index % lb.size) lb.event_loops
          ++ take (lb.next_index % lb.size) lb.event_loops)
calls-round lb v h b =
    ap (λ i. calls i lb) {x = lb.size} {y = left + r} (omega (arith, low))
    ∙ calls-straight left r r lb v
        (λ i l. mod_run lb.next_index lb.size left i (omega (arith, low)) l) (omega (arith, low))
        (omega (arith, low))
    ∙ ap₂ (λ l m. map loop l ++ m)
        (take_all left (drop r lb.event_loops) (omega (arith, v, length-drop r lb.event_loops)))
        again
    ∙ sym (map-append loop (drop r lb.event_loops) (take r lb.event_loops))
  where
    r : ℕ
    r = lb.next_index % lb.size

    left : ℕ
    left = lb.size - r

    low : r < lb.size
    low = mod-lt lb.next_index h

    turned : LoadBalancer
    turned = record lb { next_index = lb.next_index + left }

    start : (i : ℕ) → i < r → (turned.next_index + i) % lb.size ≡ 0 + i
    start i l =
        sym (mod-add-mod turned.next_index lb.size i)
        ∙ ap (λ m. (m + i) % lb.size) (mod_end lb.next_index lb.size h)
        ∙ mod-eq_of_lt {n = 0 + i} {m = lb.size} (omega (arith, low))

    again : calls r turned ≡ map loop (take r lb.event_loops)
    again =
        ap (λ i. calls i turned) {x = r} {y = r + 0} (omega arith)
        ∙ calls-straight r 0 0 turned v start (omega (arith, low)) (omega (arith, low))
        ∙ append-nil (map loop (take r lb.event_loops))
