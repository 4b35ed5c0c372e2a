-- ===== src/Sessions/Refresh/Walk.antt =====
-- The walk along replaced tokens, and its fuel.
use script_pay_backend.Shared.{
  ℕ, zero, suc, ◌≤◌, ◌<◌, true, false, Option, none, some, List, [], ◌∷◌, ◌≡◌, find, length, arith,
  refl, if◌then◌else◌, Bool-cases, Option-cases, inl, inr, is_some,
}
use script_pay_backend.Store.Rows.{RefreshToken}
use script_pay_backend.Sessions.Refresh.{has_token_id, has_visited, walk, unless_revoked}

-- How many tokens of the table the walk has not been at.
abbrev unseen : List ℕ → List RefreshToken → ℕ
unseen visited [] = 0
unseen visited (t ∷ ts) =
    if has_visited t.id visited then unseen visited ts else suc (unseen visited ts)

unseen-le : (visited : List ℕ) (ts : List RefreshToken) → unseen visited ts ≤ length ts
unseen-le visited [] = omega arith
unseen-le visited (t ∷ ts) = ground (arith, unseen-le visited ts)

unseen_weaken :
    (id : ℕ) (visited : List ℕ) (ts : List RefreshToken)
    → unseen (id ∷ visited) ts ≤ unseen visited ts
unseen_weaken id visited [] = omega arith
unseen_weaken id visited (t ∷ ts) = ground (arith, unseen_weaken id visited ts)

unseen_step :
    (id : ℕ) (visited : List ℕ) (next : RefreshToken) (ts : List RefreshToken)
    → has_visited id visited ≡ false
    → find (has_token_id id) ts ≡ some next
    → unseen (id ∷ visited) ts < unseen visited ts
unseen_step id visited next [] new found = ground arith
unseen_step id visited next (t ∷ ts) new found =
    ground (arith, unseen_step id visited next ts, unseen_weaken id visited ts)

walk_ends :
    (n : ℕ) (ts : List RefreshToken) (visited : List ℕ) (current : RefreshToken)
    → unseen visited ts < n
    → is_some (walk n ts visited current) ≡ true
unfolding walk
walk_ends zero ts visited current h = ground arith
walk_ends (suc n) ts visited current h = go current.replaced_by_token_id λ id next new found.
    walk_ends n ts (id ∷ visited) next (omega (arith, unseen_step id visited next ts new found))
  where
    go :
        (o : Option ℕ)
        → ((id : ℕ) (next : RefreshToken)
            → has_visited id visited ≡ false
            → find (has_token_id id) ts ≡ some next
            → is_some (walk n ts (id ∷ visited) next) ≡ true)
        → is_some (elim o as (λ o. Option (Option RefreshToken)) [
          | none ↦ some (unless_revoked current)
          | some id ↦
              if has_visited id visited then some none else (elim (find (has_token_id id) ts) [
                | none ↦ some none
                | some next ↦ walk n ts (id ∷ visited) next
              ])
        ])
          ≡ true
    go none next = refl
    go (some id) next = elim (Bool-cases (has_visited id visited)) [
      | inl seen ↦ rw seen refl
      | inr new ↦ elim (Option-cases (find (has_token_id id) ts)) [
        | inl missing ↦ rw (new, missing) refl
        | inr (t, found) ↦ rw (new, found) (next id t new found)
      ]
    ]

-- The walk from a replaced token to its live descendant ends within as many steps as the table has
-- tokens, plus one, also where tokens replace each other in a circle.
pub walk_enough :
    (ts : List RefreshToken) (token : RefreshToken)
    → is_some (walk (suc (length ts)) ts (token.id ∷ []) token) ≡ true
walk_enough ts token =
    walk_ends (suc (length ts)) ts (token.id ∷ []) token
      (omega (arith, unseen-le (token.id ∷ []) ts))
