-- ===== src/Examples/Tokens.antt =====
-- API keys, refresh tokens and reset links: the theorems about them on a small store.
use mathlib.Core.List.{Memᴰ}
use script_pay_backend.Shared.{
  suc, ◌≤◌, String, true, none, some, List, [], ◌∷◌, ◌≡◌, ◌⊎◌, inl, refl, sym, subst, is_some,
  length, find, str_eq,
}
use script_pay_backend.Store.Rows.{
  Store, User, Role, RefreshToken, OneTimeToken, ApiKey, ApiKeyScope, Shown, Mail, unauthorized,
}
use script_pay_backend.Store.Tx.{ok, err}
use script_pay_backend.ApiKeys
use script_pay_backend.ApiKeys.{Hasher, IssuedKey, mint_key_material, is_admin_of}
use script_pay_backend.ApiKeys.Guard.{can_activate}
use script_pay_backend.ApiKeys.Guard.Keys.{Admits, can_activate-Admits, can_activate-create}
use script_pay_backend.ApiKeys.Letters.{IsForAdmin, create_letters}
use script_pay_backend.Sessions.Refresh.{TokenConfig, has_token_id, walk, verify_and_rotate}
use script_pay_backend.Sessions.Refresh.Grace.{verify_and_rotate_twice}
use script_pay_backend.Sessions.Refresh.Walk.{walk_enough}
use script_pay_backend.Sessions.Refresh.Reuse.{
  live_count, AreKeyed, verify_and_rotate_count, verify_and_rotate_reuse,
}
use script_pay_backend.Sessions.Auth.{AuthConfig, reset_password}
use script_pay_backend.Sessions.Auth.Reset.{reset_password_once}
use script_pay_backend.Examples.{books}

abbrev hasher : Hasher
hasher = record { hash = λ x. x; verify = λ x y. str_eq x y; pepper = "" }

abbrev scopes : List ApiKeyScope
scopes = ApiKeyScope.payments_initiate ∷ ApiKeyScope.payments_read ∷ []

abbrev key : ApiKey
key = record {
  id = 40;
  tenant_id = 7;
  key_hash = "sp_abcdefgh";
  key_prefix = "sp_abcde";
  scopes = scopes;
  last_used_at = none;
  revoked_at = none;
  expires_at = none;
}

abbrev spare : ApiKey
spare = record key { id = 41; key_hash = "sp_12345678"; key_prefix = "sp_12345" }

abbrev owner : User
owner = record {
  id = 20;
  username = none;
  email = "owner@shop.example";
  password_hash = "hash";
  email_verified = true;
  role = Role.tenant_admin;
  tenant_id = some 7;
}

abbrev with_keys : Store
with_keys = record books { users = owner ∷ []; api_keys = key ∷ spare ∷ [] }

abbrev reader : List ApiKeyScope
reader = ApiKeyScope.payments_read ∷ []

can_activate-Admits_example :
    (raw : String) × (some "sp_abcdefgh" ≡ some raw)
    × (k : ApiKey) × Admits hasher reader raw with_keys
        (record { tenant_id = 7; api_key_scopes = scopes; api_key_id = 40 })
        k
unfolding can_activate
can_activate-Admits_example =
    can_activate-Admits hasher reader (some "sp_abcdefgh")
      (record { tenant_id = 7; api_key_scopes = scopes; api_key_id = 40 }) with_keys refl

-- A hash function that tells no texts apart.
abbrev always : Hasher
always = record { hash = λ x. x; verify = λ x y. true; pepper = "" }

can_activate-create_example :
    let (created, t) = ApiKeys.create always 7 scopes 20 (some 2000000) "00ff" books in
    (issued : IssuedKey) × (created ≡ ok issued)
    × ((can_activate always reader (some issued.raw_key) t).0
        ≡ ok (record { tenant_id = 7; api_key_scopes = scopes; api_key_id = issued.id }))
can_activate-create_example =
    can_activate-create always 7 scopes reader 20 (some 2000000) "00ff" books (λ x. refl) refl refl
      refl

create_letters_example :
    Memᴰ
      (record { to = "owner@shop.example"; mail = Mail.api_key_rotated "sp_00ff" })
      with_keys.letters
    ⊎ (IsForAdmin 7
          (Mail.api_key_rotated "sp_00ff")
          with_keys.users
          (record { to = "owner@shop.example"; mail = Mail.api_key_rotated "sp_00ff" })
        ⊎ (Mail.api_key_rotated "sp_00ff"
            ≡ Mail.api_key_staff_notice
                (Shown.name "shop")
                "sp_00ff"
                scopes
                (Shown.name "owner@shop.example")))
unfolding ApiKeys.create
create_letters_example =
    create_letters hasher 7 scopes 20 none "00ff" with_keys
      (record { to = "owner@shop.example"; mail = Mail.api_key_rotated "sp_00ff" }) (Memᴰ.head refl)

-- Two tokens that replace each other in a circle, and a live one.
abbrev old : RefreshToken
old = record {
  id = 50;
  user_id = 20;
  token_hash = "old";
  expires_at = 9000000;
  revoked_at = some 100;
  replaced_by_token_id = some 51;
}

abbrev older : RefreshToken
older = record old { id = 51; token_hash = "older"; replaced_by_token_id = some 50 }

abbrev phone : RefreshToken
phone = record old { id = 52; token_hash = "phone"; revoked_at = none; replaced_by_token_id = none }

abbrev table : List RefreshToken
table = old ∷ older ∷ phone ∷ []

abbrev with_sessions : Store
with_sessions = record books { users = owner ∷ []; refresh_tokens = table }

abbrev config : TokenConfig
config = record { hash_token = λ x. x; refresh_ttl_days = 30 }

walk_enough_example : is_some (walk (suc (length table)) table (50 ∷ []) old) ≡ true
walk_enough_example = walk_enough table old

table-AreKeyed : AreKeyed table
table-AreKeyed t m = elim m [
  | Memᴰ.head e ↦ subst (λ (x : RefreshToken). find (has_token_id x.id) table ≡ some x) (sym e) refl
  | Memᴰ.tail n ↦ elim n [
    | Memᴰ.head e ↦
        subst (λ (x : RefreshToken). find (has_token_id x.id) table ≡ some x) (sym e) refl
    | Memᴰ.tail o ↦ elim o [
      | Memᴰ.head e ↦
          subst (λ (x : RefreshToken). find (has_token_id x.id) table ≡ some x) (sym e) refl
      | Memᴰ.tail q ↦ elim q [ ]
    ]
  ]
]

verify_and_rotate_count_example :
    live_count 20 (verify_and_rotate config "phone" "new" with_sessions).1.refresh_tokens ≤ 1
verify_and_rotate_count_example =
    verify_and_rotate_count config "phone" "new" with_sessions 20 table-AreKeyed

verify_and_rotate_reuse_example :
    let (r, t) = verify_and_rotate config "old" "new" with_sessions in
    (r ≡ err unauthorized) × (live_count 20 t.refresh_tokens ≡ 0)
verify_and_rotate_reuse_example =
    verify_and_rotate_reuse config "old" "new" old 100 with_sessions refl refl (inl refl)

abbrev pub auth : AuthConfig
auth = record {
  tokens = config;
  hash_password = λ x. x;
  verify_password = λ x y. str_eq x y;
  sign_access_token = λ u. u.email;
  email_verification_ttl_hours = 24;
  password_reset_ttl_minutes = 30;
}

abbrev link : OneTimeToken
link = record { id = 60; user_id = 20; token_hash = "link"; expires_at = 9000000; used_at = none }

abbrev with_link : Store
with_link = record with_sessions { password_reset_tokens = link ∷ [] }

-- A month later, when the user has another link and a new session.
abbrev month_later : Store
month_later =
    let u = (reset_password auth "link" "better" with_link).1 in
    record u {
      now = 2593000000;
      password_reset_tokens =
          record link { id = 61; token_hash = "other link" } ∷ u.password_reset_tokens;
      refresh_tokens = with_sessions.refresh_tokens;
    }

reset_password_once_example :
    let u = (reset_password auth "link" "better" with_link).1 in
    (live_count 20 u.refresh_tokens ≡ 0)
    × (reset_password auth "link" "again" month_later ≡ (err unauthorized, month_later))
unfolding reset_password
reset_password_once_example =
    reset_password_once auth "link" "better" "again" link with_link month_later refl refl refl refl

verify_and_rotate_twice_example :
    let (r, t) = verify_and_rotate config "phone" "tab-1" with_sessions in
    (r ≡ ok (record { user_id = 20; new_raw_token = "tab-1" }))
    × ((verify_and_rotate config "phone" "tab-2" (record t { now = 1004000 })).0
        ≡ ok (record { user_id = 20; new_raw_token = "tab-2" }))
verify_and_rotate_twice_example =
    verify_and_rotate_twice config "phone" phone "tab-1" "tab-2" with_sessions 1004000
      (record { found = refl; keyed = refl; live = refl; unexpired = refl; unused = refl }) refl
