-- ===== src/Sessions/Refresh/Grace.antt =====
-- Two requests that refresh with the same token at nearly the same time.
use script_pay_backend.Shared.{
  ℕ, suc, ◌+◌, ◌-◌, String, true, false, none, some, List, [], ◌∷◌, ◌++◌, ◌≡◌, ◌==◌, find, update,
  length, arith, refl, if◌then◌else◌, find_test, find-append_none, Bool-cases, ==_iff, inl, inr,
  ltb, ap, sym, ◌∙◌,
}
use script_pay_backend.Store.Rows.{Store, RefreshToken}
use script_pay_backend.Store.Tx.{Result, ok}
use script_pay_backend.Sessions.Refresh.{
  TokenConfig, reuse_grace_window_ms, Rotation, has_token_id, has_token_hash, replace_by, walk,
  ended, find_live_descendant, new_token, rotate, rotate_by, rotate_found, rotate_or_reuse,
  rotate_unless_expired, create_refresh_token, verify_and_rotate,
}

module _ (now new : ℕ) (e c : RefreshToken) where
  -- The table after `e` is rotated.
  abbrev rotated : List RefreshToken → List RefreshToken
  rotated ts = update (has_token_id e.id) (replace_by now new) (ts ++ c ∷ [])

  find_hash-rotated :
      (hash : String) (ts : List RefreshToken)
      → find (has_token_hash hash) ts ≡ some e
      → find (has_token_id e.id) ts ≡ some e
      → find (has_token_hash hash) (rotated ts) ≡ some (replace_by now new e)
  find_hash-rotated hash [] found keyed = ground arith
  find_hash-rotated hash (x ∷ ts) found keyed =
      ground (arith, find_hash-rotated hash ts, find_test (has_token_hash hash) e ts)

  find_other-update :
      (ts : List RefreshToken)
      → e.id == new ≡ false
      → find (has_token_id new) (update (has_token_id e.id) (replace_by now new) ts)
        ≡ find (has_token_id new) ts
  find_other-update [] other = refl
  find_other-update (x ∷ ts) other = ground (arith, find_other-update ts)

  find_new-rotated :
      (ts : List RefreshToken)
      → c.id ≡ new
      → e.id == new ≡ false
      → find (has_token_id new) ts ≡ none
      → find (has_token_id new) (rotated ts) ≡ some c
  find_new-rotated ts is other unused =
      find_other-update (ts ++ c ∷ []) other
      ∙ find-append_none (has_token_id new) ts (c ∷ []) unused
      ∙ ground arith

  length-update :
      (ts : List RefreshToken)
      → length (update (has_token_id e.id) (replace_by now new) ts) ≡ length ts
  length-update [] = refl
  length-update (x ∷ ts) = ground (arith, length-update ts)

  length-append : (ts : List RefreshToken) → length (ts ++ c ∷ []) ≡ suc (length ts)
  length-append [] = refl
  length-append (x ∷ ts) = ap (λ n. suc n) (length-append ts)

  length-rotated : (ts : List RefreshToken) → length (rotated ts) ≡ suc (length ts)
  length-rotated ts = length-update (ts ++ c ∷ []) ∙ length-append ts

  -- The walk from the replaced token stops at the one that replaced it.
  walk-rotated :
      (n : ℕ) (ts : List RefreshToken)
      → c.replaced_by_token_id ≡ none
      → c.revoked_at ≡ none
      → e.id == new ≡ false
      → find (has_token_id new) ts ≡ some c
      → ended (walk (suc (suc n)) ts (e.id ∷ []) (replace_by now new e)) ≡ some c
  unfolding walk
  walk-rotated n ts tail live other found = rw other (rw found (ground arith))

module _ (config : TokenConfig) (raw : String) (e : RefreshToken) where
  -- A live, unexpired token of the table with an id of its own, and an unused next id.
  pub record IsCurrent (s : Store) : Type 0 where
    pub found : find (has_token_hash (config.hash_token raw)) s.refresh_tokens ≡ some e
    pub keyed : find (has_token_id e.id) s.refresh_tokens ≡ some e
    pub live : e.revoked_at ≡ none
    pub unexpired : ltb e.expires_at s.now ≡ false
    pub unused : find (has_token_id s.next_id) s.refresh_tokens ≡ none

  abbrev child : String → Store → RefreshToken
  child new_raw s = record (new_token config s.now e.user_id new_raw) { id = s.next_id }

  abbrev table : String → Store → List RefreshToken
  table new_raw s = rotated s.now s.next_id e (child new_raw s) s.refresh_tokens

  abbrev pub rotation : String → Rotation
  rotation new_raw = record { user_id = e.user_id; new_raw_token = new_raw }

  first_rotates :
      (new_raw : String) (s : Store)
      → IsCurrent s
      → verify_and_rotate config raw new_raw s ≡ (
        ok (rotation new_raw),
        record s { next_id = s.next_id + 1; refresh_tokens = table new_raw s },
      )
  unfolding verify_and_rotate rotate create_refresh_token
  first_rotates new_raw s h =
      ap (λ o. rotate_found config new_raw o s) h.found
      ∙ ap (λ o. rotate_by config new_raw e o s) h.live
      ∙ ap (λ b. rotate_unless_expired config new_raw e b s) h.unexpired

  descendant :
      (new_raw : String) (s : Store)
      → IsCurrent s
      → find_live_descendant (table new_raw s) (replace_by s.now s.next_id e)
        ≡ some (child new_raw s)
  unfolding find_live_descendant
  descendant new_raw s h =
      ap (λ n. ended (walk (suc n) (table new_raw s) (e.id ∷ []) (replace_by s.now s.next_id e)))
        (length-rotated s.now s.next_id e (child new_raw s) s.refresh_tokens)
      ∙ walk-rotated s.now s.next_id e (child new_raw s) (length s.refresh_tokens) (table new_raw s)
          refl refl other
          (find_new-rotated s.now s.next_id e (child new_raw s) s.refresh_tokens refl other
            h.unused)
    where
      other : e.id == s.next_id ≡ false
      other = elim (Bool-cases (e.id == s.next_id)) [
        | inl same ↦
            let clash : some e ≡ none =
              sym h.keyed
              ∙ ap (λ n. find (has_token_id n) s.refresh_tokens) ((==_iff e.id s.next_id).0 same)
              ∙ h.unused in
            cc
        | inr differ ↦ differ
      ]

  second_rotates :
      (first second : String) (s : Store) (later : ℕ)
      → IsCurrent s
      → ltb (later - s.now) reuse_grace_window_ms ≡ true
      → (verify_and_rotate config raw second
          (record s { now = later; next_id = s.next_id + 1; refresh_tokens = table first s })).0
        ≡ ok (rotation second)
  unfolding verify_and_rotate rotate create_refresh_token
  second_rotates first second s later h within =
      ap (λ o. (rotate_found config second o u).0)
        (find_hash-rotated s.now s.next_id e (child first s) (config.hash_token raw)
          s.refresh_tokens h.found h.keyed)
      ∙ ap (λ o. (rotate_or_reuse config second replaced o u).0)
          (ap (λ b. if b then find_live_descendant (table first s) replaced else none) within
            ∙ descendant first s h)
    where
      u : Store
      u = record s { now = later; next_id = s.next_id + 1; refresh_tokens = table first s }

      replaced : RefreshToken
      replaced = replace_by s.now s.next_id e

  -- A live, unexpired refresh token can be used, and the same token again within ten seconds, as
  -- by a second tab: both requests get a session, where the token's row has an id of its own and
  -- the next id is unused.
  pub verify_and_rotate_twice :
      (first second : String) (s : Store) (later : ℕ)
      → IsCurrent s
      → ltb (later - s.now) reuse_grace_window_ms ≡ true
      → let (r, t) = verify_and_rotate config raw first s in
        (r ≡ ok (rotation first))
        × ((verify_and_rotate config raw second (record t { now = later })).0
            ≡ ok (rotation second))
  verify_and_rotate_twice first second s later h within =
      let step = first_rotates first s h in
      (
        ap (λ p. p.0) step,
        ap
              (λ (p : Result Rotation × Store).
                (verify_and_rotate config raw second (record (p.1) { now = later })).0)
              step
            ∙ second_rotates first second s later h within,
      )
