-- ===== src/Tenants/Credentials/Secrets.antt =====
-- Credentials that are set and then read.
use script_pay_backend.Shared.{
  ℕ, String, true, false, some, ◌≡◌, refl, ap, ◌∙◌, find, update, str_eq, find-update_self,
  find_test,
}
use script_pay_backend.Store.Rows.{Store, Tenant, TenantShortcode, ShortcodeType}
use script_pay_backend.Store.Tx.{ok}
use script_pay_backend.Store.Action.{modify}
use script_pay_backend.Store.Outcomes.{>>=-returned}
use script_pay_backend.Ledger.{is_tenant}
use script_pay_backend.Payments.Safaricom.{PaymentChannel}
use script_pay_backend.Tenants.Access.{AuthenticatedUser, Vault, Gateway}
use script_pay_backend.Tenants.ShortcodeRows.{is_default_of}
use script_pay_backend.Tenants.Shortcodes.{find_tenant, find_tenant_found, may_manage}
use script_pay_backend.Tenants.Credentials.{
  is_blocked, type_of, payment_credentials_of, get_mpesa_credentials_for_payment,
  with_app_credentials, set_app_credentials, update_tenant, audit_tenant,
}

-- The vault gives back what it encrypted, and the ciphertext of a text is not empty.
pub record IsFaithful (vault : Vault) : Type 0 where
  pub reads : (x : String) → vault.decrypt (vault.encrypt x) ≡ ok x
  pub full : (x : String) → str_eq x "" ≡ false → str_eq (vault.encrypt x) "" ≡ false

update_tenant_found :
    (tenant : ℕ) (f : Tenant → Tenant) (row : Tenant) (s : Store)
    → find (is_tenant tenant) s.tenants ≡ some row
    → update_tenant tenant f s
      ≡ (ok tt, record s { tenants = update (is_tenant tenant) f s.tenants })
update_tenant_found tenant f row s there =
    >>=-returned (find_tenant tenant)
      (λ _. modify λ s. record s { tenants = update (is_tenant tenant) f s.tenants }) row s s
      (find_tenant_found tenant row s there)

module _ (vault : Vault) (daraja : Gateway) (tenant : ℕ) (key secret : String)
    (actor : AuthenticatedUser) (row : Tenant) where
  set_rows :
      (s : Store)
      → may_manage tenant actor ≡ true
      → daraja.verify_credentials key secret ≡ ok tt
      → find (is_tenant tenant) s.tenants ≡ some row
      → ((set_app_credentials vault daraja tenant key secret actor s).1.tenants
          ≡ update
              (is_tenant tenant)
              (with_app_credentials key (vault.encrypt secret) s.now)
              s.tenants)
        × ((set_app_credentials vault daraja tenant key secret actor s).1.shortcodes ≡ s.shortcodes)
  unfolding set_app_credentials
  set_rows s may accepted there =
      let saved =
        >>=-returned (update_tenant tenant (with_app_credentials key (vault.encrypt secret) s.now))
          (λ _. audit_tenant tenant (some actor.id) "tenant.app_credentials_configured") tt s _
          (update_tenant_found tenant (with_app_credentials key (vault.encrypt secret) s.now) row s
            there) in
      rw may (rw accepted (ap (λ p. p.1.tenants) saved, ap (λ p. p.1.shortcodes) saved))

  read_back :
      (type : ShortcodeType) (c : TenantShortcode) (now : ℕ) (passkey : String) (s : Store)
      → IsFaithful vault
      → is_blocked row.status ≡ false
      → str_eq key "" ≡ false
      → str_eq secret "" ≡ false
      → str_eq passkey "" ≡ false
      → find (is_default_of tenant type) s.shortcodes ≡ some c
      → c.mpesa_passkey_encrypted ≡ some (vault.encrypt passkey)
      → (payment_credentials_of vault tenant type
          (with_app_credentials key (vault.encrypt secret) now row)
          s).0
        ≡ ok (record {
          shortcode = c.shortcode;
          mpesa_consumer_key = key;
          mpesa_consumer_secret = secret;
          mpesa_passkey = passkey;
        })
  read_back type c now passkey s faithful unblocked named said locked default kept =
      rw (unblocked, named, faithful.full secret said)
        (rw default (
          rw (kept, faithful.reads secret, faithful.full passkey locked, faithful.reads passkey)
            refl))

  -- Credentials that a tenant sets are the ones its next payment uses. Where the vault gives back
  -- what it encrypts, a permitted caller who sets a consumer key and secret that Safaricom
  -- accepts, neither of them empty, for a tenant that is neither suspended nor removed and has a
  -- default shortcode of the channel's type with a stored passkey that is not empty, has the next
  -- read of credentials for a payment on that channel give that shortcode, key, secret and passkey.
  pub payment_credentials_round_trip :
      (channel : PaymentChannel) (c : TenantShortcode) (passkey : String) (s : Store)
      → IsFaithful vault
      → may_manage tenant actor ≡ true
      → daraja.verify_credentials key secret ≡ ok tt
      → str_eq key "" ≡ false
      → str_eq secret "" ≡ false
      → str_eq passkey "" ≡ false
      → find (is_tenant tenant) s.tenants ≡ some row
      → is_blocked row.status ≡ false
      → find (is_default_of tenant (type_of channel)) s.shortcodes ≡ some c
      → c.mpesa_passkey_encrypted ≡ some (vault.encrypt passkey)
      → (get_mpesa_credentials_for_payment vault tenant channel
          (set_app_credentials vault daraja tenant key secret actor s).1).0
        ≡ ok (record {
          shortcode = c.shortcode;
          mpesa_consumer_key = key;
          mpesa_consumer_secret = secret;
          mpesa_passkey = passkey;
        })
  unfolding get_mpesa_credentials_for_payment
  payment_credentials_round_trip channel c passkey s faithful may accepted named said locked there
        unblocked default kept =
      ap (λ p. p.0)
        (>>=-returned (find_tenant tenant) (payment_credentials_of vault tenant (type_of channel))
          new t t (find_tenant_found tenant new t found))
      ∙ read_back (type_of channel) c s.now passkey t faithful unblocked named said locked
          (ap (find (is_default_of tenant (type_of channel))) rows.1 ∙ default) kept
    where
      t : Store
      t = (set_app_credentials vault daraja tenant key secret actor s).1

      rows :
          (t.tenants
            ≡ update
                (is_tenant tenant)
                (with_app_credentials key (vault.encrypt secret) s.now)
                s.tenants)
          × (t.shortcodes ≡ s.shortcodes)
      rows = set_rows s may accepted there

      new : Tenant
      new = with_app_credentials key (vault.encrypt secret) s.now row

      found : find (is_tenant tenant) t.tenants ≡ some new
      found =
          ap (find (is_tenant tenant)) rows.0
          ∙ find-update_self (is_tenant tenant)
              (with_app_credentials key (vault.encrypt secret) s.now) row s.tenants there
              (find_test (is_tenant tenant) row s.tenants there)
