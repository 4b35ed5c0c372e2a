-- ===== src/Sessions/Refresh/Reuse.antt =====
-- What a presented token can do to the sessions of its user.
use mathlib.Core.List.{Memᴰ}
use script_pay_backend.Shared.{
  ℕ, zero, suc, ◌+◌, ◌≤◌, String, Bool, true, false, Option, none, some, List, [], ◌∷◌, ◌++◌, ◌≡◌,
  find, update, update_many, length, arith, refl, if◌then◌else◌, Bool-cases, Option-cases, inl, inr,
  ◌⊎◌, sym, subst,
}
use script_pay_backend.Store.Rows.{Store, RefreshToken, unauthorized}
use script_pay_backend.Store.Tx.{Result, err}
use script_pay_backend.Sessions.Refresh.{
  TokenConfig, Rotation, is_within_grace, has_token_id, has_token_hash, is_live, is_live_of,
  revoke_at, replace_by, has_visited, walk, unless_revoked, ended, find_live_descendant, new_token,
  rotate, rotate_by, rotate_found, rotate_or_reuse, rotate_unless_expired, current_of,
  create_refresh_token, revoke_all_for_user, verify_and_rotate,
}

-- How many live sessions a user has.
abbrev pub live_count : ℕ → List RefreshToken → ℕ
live_count user [] = 0
live_count user (t ∷ ts) =
    if is_live_of user t then suc (live_count user ts) else live_count user ts

abbrev bit : Bool → ℕ
bit true = 1
bit false = 0

live_count-append :
    (user : ℕ) (t : RefreshToken) (ts : List RefreshToken)
    → live_count user (ts ++ t ∷ []) ≡ live_count user ts + bit (is_live_of user t)
live_count-append user t [] = ground arith
live_count-append user t (x ∷ ts) = ground (arith, live_count-append user t ts)

-- A row that is replaced is not live any more.
live_count-replace :
    (user id now new : ℕ) (e c : RefreshToken) (ts : List RefreshToken)
    → find (has_token_id id) ts ≡ some e
    → live_count user (update (has_token_id id) (replace_by now new) (ts ++ c ∷ []))
        + bit (is_live_of user e)
      ≡ live_count user (ts ++ c ∷ [])
live_count-replace user id now new e c [] found = ground arith
live_count-replace user id now new e c (x ∷ ts) found =
    ground (arith, live_count-replace user id now new e c ts)

live_count-revoke :
    (user other now : ℕ) (ts : List RefreshToken)
    → live_count other (update_many (is_live_of user) (revoke_at now) ts) ≤ live_count other ts
live_count-revoke user other now [] = omega arith
live_count-revoke user other now (t ∷ ts) = ground (arith, live_count-revoke user other now ts)

pub revoke_all :
    (user now : ℕ) (ts : List RefreshToken)
    → live_count user (update_many (is_live_of user) (revoke_at now) ts) ≡ 0
revoke_all user now [] = refl
revoke_all user now (t ∷ ts) = ground (arith, revoke_all user now ts)

-- Row ids are unique.
abbrev pub AreKeyed : List RefreshToken → Type 0
AreKeyed ts = (t : RefreshToken) → Memᴰ t ts → find (has_token_id t.id) ts ≡ some t

found_mem :
    (p : RefreshToken → Bool) (t : RefreshToken) (ts : List RefreshToken)
    → find p ts ≡ some t
    → Memᴰ t ts
found_mem p t [] h = cc
found_mem p t (x ∷ ts) h = elim (Bool-cases (p x)) [
  | inl here ↦ let e : x ≡ t = ground arith in Memᴰ.head (sym e)
  | inr later ↦ Memᴰ.tail (found_mem p t ts (ground arith))
]

-- What the walk ends at is a live row of the table.
walk_live :
    (n : ℕ) (ts : List RefreshToken) (visited : List ℕ) (current r : RefreshToken)
    → Memᴰ current ts
    → ended (walk n ts visited current) ≡ some r
    → Memᴰ r ts × (is_live r ≡ true)
unfolding walk
walk_live zero ts visited current r there h = cc
walk_live (suc n) ts visited current r there h =
    go current.replaced_by_token_id h λ id next k. walk_live n ts (id ∷ visited) next r k
  where
    arrived : unless_revoked current ≡ some r → Memᴰ r ts × (is_live r ≡ true)
    arrived h = elim (Bool-cases (is_live current)) [
      | inl live ↦
          let e : current ≡ r = ground arith in
          (subst (λ t. Memᴰ t ts) e there, subst (λ (t : RefreshToken). is_live t ≡ true) e live)
      | inr gone ↦ ground arith
    ]

    go :
        (o : Option ℕ)
        → ended (elim o as (λ o. Option (Option RefreshToken)) [
          | none ↦ some (unless_revoked current)
          | some id ↦
              if has_visited id visited then some none else (elim (find (has_token_id id) ts) [
                | none ↦ some none
                | some next ↦ walk n ts (id ∷ visited) next
              ])
        ])
          ≡ some r
        → ((id : ℕ) (next : RefreshToken)
            → Memᴰ next ts
            → ended (walk n ts (id ∷ visited) next) ≡ some r
            → Memᴰ r ts × (is_live r ≡ true))
        → Memᴰ r ts × (is_live r ≡ true)
    go none h next = arrived h
    go (some id) h next = elim (Bool-cases (has_visited id visited)) [
      | inl seen ↦ ground arith
      | inr new ↦ elim (Option-cases (find (has_token_id id) ts)) [
        | inl missing ↦ ground arith
        | inr (t, found) ↦ next id t (found_mem _ t ts found) (ground arith)
      ]
    ]

module _ (config : TokenConfig) where
  rotate_count :
      (raw : String) (e : RefreshToken) (s : Store) (user : ℕ)
      → find (has_token_id e.id) s.refresh_tokens ≡ some e
      → is_live e ≡ true
      → live_count user (rotate config raw e s).1.refresh_tokens ≡ live_count user s.refresh_tokens
  unfolding rotate create_refresh_token
  rotate_count raw e s user found live =
      let c = record (new_token config s.now e.user_id raw) { id = s.next_id } in
      ground (
        arith,
        live_count-append user c s.refresh_tokens,
        live_count-replace user e.id s.now s.next_id e c s.refresh_tokens found,
      )

  rotate_or_reuse-count :
      (raw : String) (existing : RefreshToken) (o : Option RefreshToken) (s : Store) (user : ℕ)
      → ((e : RefreshToken)
          → o ≡ some e
          → (find (has_token_id e.id) s.refresh_tokens ≡ some e) × (is_live e ≡ true))
      → live_count user (rotate_or_reuse config raw existing o s).1.refresh_tokens
        ≤ live_count user s.refresh_tokens
  unfolding revoke_all_for_user
  rotate_or_reuse-count raw existing none s user known =
      live_count-revoke existing.user_id user s.now s.refresh_tokens
  rotate_or_reuse-count raw existing (some e) s user known =
      let (found, live) = known e refl in omega (arith, rotate_count raw e s user found live)

  rotate_unless_expired-count :
      (raw : String) (e : RefreshToken) (b : Bool) (s : Store) (user : ℕ)
      → find (has_token_id e.id) s.refresh_tokens ≡ some e
      → is_live e ≡ true
      → live_count user (rotate_unless_expired config raw e b s).1.refresh_tokens
        ≤ live_count user s.refresh_tokens
  rotate_unless_expired-count raw e true s user found live = omega arith
  rotate_unless_expired-count raw e false s user found live =
      omega (arith, rotate_count raw e s user found live)

  current_live :
      (existing : RefreshToken) (revoked : ℕ) (s : Store) (e : RefreshToken)
      → AreKeyed s.refresh_tokens
      → Memᴰ existing s.refresh_tokens
      → current_of config existing revoked s ≡ some e
      → (find (has_token_id e.id) s.refresh_tokens ≡ some e) × (is_live e ≡ true)
  unfolding find_live_descendant
  current_live existing revoked s e keyed there h =
      elim (Bool-cases (is_within_grace config s.now revoked)) [
        | inl within ↦
            let (in_table, live) =
              walk_live (suc (length s.refresh_tokens)) s.refresh_tokens (existing.id ∷ []) existing
                e there (ground arith) in
            (keyed e in_table, live)
        | inr late ↦ ground arith
      ]

  rotate_by-count :
      (raw : String) (e : RefreshToken) (o : Option ℕ) (s : Store) (user : ℕ)
      → AreKeyed s.refresh_tokens
      → Memᴰ e s.refresh_tokens
      → e.revoked_at ≡ o
      → live_count user (rotate_by config raw e o s).1.refresh_tokens
        ≤ live_count user s.refresh_tokens
  rotate_by-count raw e none s user keyed there is =
      rotate_unless_expired-count raw e _ s user (keyed e there) (ground arith)
  rotate_by-count raw e (some revoked) s user keyed there is =
      rotate_or_reuse-count raw e _ s user λ r h. current_live e revoked s r keyed there h

  -- No presented token, live, replaced, revoked, expired or unknown, gives any user more live
  -- sessions than before, where row ids are unique.
  pub verify_and_rotate_count :
      (raw new_raw : String) (s : Store) (user : ℕ)
      → AreKeyed s.refresh_tokens
      → live_count user (verify_and_rotate config raw new_raw s).1.refresh_tokens
        ≤ live_count user s.refresh_tokens
  unfolding verify_and_rotate
  verify_and_rotate_count raw new_raw s user keyed =
      go (find (has_token_hash (config.hash_token raw)) s.refresh_tokens) refl
    where
      go :
          (o : Option RefreshToken)
          → find (has_token_hash (config.hash_token raw)) s.refresh_tokens ≡ o
          → live_count user (rotate_found config new_raw o s).1.refresh_tokens
            ≤ live_count user s.refresh_tokens
      go none h = omega arith
      go (some e) h =
          rotate_by-count new_raw e e.revoked_at s user keyed
            (found_mem (has_token_hash (config.hash_token raw)) e s.refresh_tokens h) refl

  -- A token that was revoked before and has no live descendant, or was revoked ten seconds ago or
  -- more, is taken for stolen: the request is refused, and its user has no live session left.
  pub verify_and_rotate_reuse :
      (raw new_raw : String) (existing : RefreshToken) (revoked : ℕ) (s : Store)
      → find (has_token_hash (config.hash_token raw)) s.refresh_tokens ≡ some existing
      → existing.revoked_at ≡ some revoked
      → (is_within_grace config s.now revoked ≡ false)
        ⊎ (find_live_descendant s.refresh_tokens existing ≡ none)
      → let (r, t) = verify_and_rotate config raw new_raw s in
        (r ≡ err unauthorized) × (live_count existing.user_id t.refresh_tokens ≡ 0)
  unfolding verify_and_rotate revoke_all_for_user
  verify_and_rotate_reuse raw new_raw existing revoked s found was why =
      subst (λ o. Refused (rotate_found config new_raw o s)) (sym found)
        (subst (λ o. Refused (rotate_by config new_raw existing o s)) (sym was)
          (subst (λ o. Refused (rotate_or_reuse config new_raw existing o s)) (sym dead)
            (refl, revoke_all existing.user_id s.now s.refresh_tokens)))
    where
      dead : current_of config existing revoked s ≡ none
      dead = ground arith

      Refused : Result Rotation × Store → Type 0
      Refused x = (x.0 ≡ err unauthorized) × (live_count existing.user_id x.1.refresh_tokens ≡ 0)
