-- ===== src/Metadata/Tests.antt =====
-- The theorems on metadata at concrete contexts.
use ag_core.Prelude.{
  ℕ, ◌≡◌, ◌⊎◌, refl, true, false, Option, none, some, List, [], ◌∷◌, ◌==◌, if◌then◌else◌, arith,
}
use mathlib.Core.Option
use ag_core.Metadata.{
  assign, new_md, Wrappers, Ctx, get_md_from_context, append_md_to_context, parse_keys, add_parsed,
  pairs, pairs_from, parse_md_to_context,
}
use ag_core.Metadata.Laws.{any_odd, all_pairs}
use ag_core.Metadata.Contexts.{Parsed, parse_md_to_context-Parsed}

-- Wrapper 0 has 5 for key 1, and is that of two contexts.
abbrev wrappers : Wrappers
wrappers = record { md = λ a. if a == 0 then assign new_md 1 5 else new_md; fresh = 1 }

-- Key 1 has one value, and key 2 brings pairs of 3 and 8, and of 1 and 9.
abbrev headers : ℕ → Option (List ℕ)
headers k = if k == 1 then some (7 ∷ []) else if k == 2 then some (3 ∷ 8 ∷ 1 ∷ 9 ∷ []) else none

parse_md_to_context-Parsed_example :
    ((any_odd headers (1 ∷ 2 ∷ []) ≡ true)
      × (parse_md_to_context (1 ∷ 2 ∷ []) headers wrappers (some 0) ≡ none))
    ⊎ ((any_odd headers (1 ∷ 2 ∷ []) ≡ false)
        × ((ctx' : Ctx) × (s' : Wrappers) × (parse_md_to_context
                (1 ∷ 2 ∷ [])
                headers
                wrappers
                (some 0)
              ≡ some (ctx', s'))
            × Parsed (all_pairs headers (1 ∷ 2 ∷ [])) wrappers (some 0) (some 0) ctx' s'))
parse_md_to_context-Parsed_example =
    parse_md_to_context-Parsed (1 ∷ 2 ∷ []) headers wrappers (some 0) (some 0) (omega arith)
      (omega arith)

-- The last pair wins.
last_wins :
    Option.map
      (λ r. get_md_from_context r.1 r.0 1)
      (parse_md_to_context (1 ∷ 2 ∷ []) headers wrappers (some 0))
    ≡ some (some 9)
unfolding parse_md_to_context parse_keys add_parsed pairs pairs_from append_md_to_context
    get_md_from_context
last_wins = refl
