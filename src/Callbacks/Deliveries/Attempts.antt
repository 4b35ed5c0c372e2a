-- ===== src/Callbacks/Deliveries/Attempts.antt =====
-- No notice is posted more than five times.
use script_pay_backend.Shared.{
  ℕ, String, Bool, true, false, not, ◌&&◌, ◌||◌, Option, none, some, List, [], ◌∷◌, ◌≡◌, ◌+◌, refl,
  arith, leb, ltb, filter, take, map, update, zero, suc, Bool-cases, inl, inr, truthy,
}
use script_pay_backend.Store.Rows.{Store, Tenant, DeliveryPayload, TenantWebhookDelivery}
use script_pay_backend.Store.Tx.{Result, ok, err}
use script_pay_backend.Store.Action.{for_each, await, ◌>>=◌}
use script_pay_backend.Callbacks.Deliveries.{
  max_attempts, is_pending, is_due, insert, sort, has_delivery_id, give_up_unconfigured, deliver,
  spend, postpone, failed_at, record_failure, Response, accepted, refused, answered, with_tenant,
  due_deliveries, post_signed, deliver_to, attempt_delivery, poll_pending_deliveries,
}

-- At most five attempts, and fewer while another one is to come.
abbrev pub is_within : TenantWebhookDelivery → Bool
is_within d =
    leb d.attempts max_attempts && (ltb d.attempts max_attempts || not (is_pending d.status))

abbrev pub AllWithin : List TenantWebhookDelivery → Type 0
AllWithin [] = Unit
AllWithin (d ∷ ds) = (is_within d ≡ true) × AllWithin ds

abbrev AllOpen : List TenantWebhookDelivery → Type 0
AllOpen [] = Unit
AllOpen (d ∷ ds) = (ltb d.attempts max_attempts ≡ true) × AllOpen ds

abbrev Read : Type 0
Read = TenantWebhookDelivery × (Option String × Option String)

abbrev AllReadOpen : List Read → Type 0
AllReadOpen [] = Unit
AllReadOpen (r ∷ rs) = (ltb r.0.attempts max_attempts ≡ true) × AllReadOpen rs

filter-AllOpen :
    (now : ℕ) (ds : List TenantWebhookDelivery) → AllWithin ds → AllOpen (filter (is_due now) ds)
filter-AllOpen now [] h = tt
filter-AllOpen now (d ∷ ds) h = ground (arith, filter-AllOpen now ds h.1)

insert-AllOpen :
    (d : TenantWebhookDelivery) (ds : List TenantWebhookDelivery)
    → ltb d.attempts max_attempts ≡ true
    → AllOpen ds
    → AllOpen (insert d ds)
insert-AllOpen d [] o h = (o, tt)
insert-AllOpen d (x ∷ xs) o h = ground (arith, insert-AllOpen d xs o h.1)

sort-AllOpen : (ds : List TenantWebhookDelivery) → AllOpen ds → AllOpen (sort ds)
sort-AllOpen [] h = tt
sort-AllOpen (d ∷ ds) h = insert-AllOpen d (sort ds) h.0 (sort-AllOpen ds h.1)

take-AllOpen : (n : ℕ) (ds : List TenantWebhookDelivery) → AllOpen ds → AllOpen (take n ds)
take-AllOpen zero ds h = tt
take-AllOpen (suc n) [] h = tt
take-AllOpen (suc n) (d ∷ ds) h = (h.0, take-AllOpen n ds h.1)

map-AllReadOpen :
    (tenants : List Tenant) (ds : List TenantWebhookDelivery)
    → AllOpen ds
    → AllReadOpen (map (with_tenant tenants) ds)
map-AllReadOpen tenants [] h = tt
map-AllReadOpen tenants (d ∷ ds) h = (h.0, map-AllReadOpen tenants ds h.1)

update-AllWithin :
    (id : ℕ) (f : TenantWebhookDelivery → TenantWebhookDelivery) (ds : List TenantWebhookDelivery)
    → ((d : TenantWebhookDelivery) → is_within d ≡ true → is_within (f d) ≡ true)
    → AllWithin ds
    → AllWithin (update (has_delivery_id id) f ds)
update-AllWithin id f [] k h = tt
update-AllWithin id f (d ∷ ds) k h = ground (arith, k d, update-AllWithin id f ds k)

failed_at-AllWithin :
    (d : TenantWebhookDelivery) (n : ℕ) (reason : String) (spent : Bool) (s : Store)
    → leb n max_attempts ≡ true
    → leb max_attempts n ≡ spent
    → AllWithin s.webhook_deliveries
    → AllWithin (failed_at d n reason spent s).1.webhook_deliveries
failed_at-AllWithin d n reason true s bound e h =
    update-AllWithin d.id (spend n reason) s.webhook_deliveries (λ x k. ground arith) h
failed_at-AllWithin d n reason false s bound e h =
    update-AllWithin d.id (postpone s.now n reason) s.webhook_deliveries (λ x k. ground arith) h

record_failure-AllWithin :
    (d : TenantWebhookDelivery) (reason : String) (s : Store)
    → ltb d.attempts max_attempts ≡ true
    → AllWithin s.webhook_deliveries
    → AllWithin (record_failure d reason s).1.webhook_deliveries
unfolding record_failure
record_failure-AllWithin d reason s o h =
    failed_at-AllWithin d (d.attempts + 1) reason _ s (ground arith) refl h

answered-AllWithin :
    (d : TenantWebhookDelivery) (r : Response) (s : Store)
    → ltb d.attempts max_attempts ≡ true
    → AllWithin s.webhook_deliveries
    → AllWithin (answered d r s).1.webhook_deliveries
answered-AllWithin d accepted s o h =
    update-AllWithin d.id (deliver s.now) s.webhook_deliveries (λ x k. ground arith) h
answered-AllWithin d (refused reason) s o h = record_failure-AllWithin d reason s o h

unconfigured-AllWithin :
    (id : ℕ) (ds : List TenantWebhookDelivery)
    → AllWithin ds
    → AllWithin (update (has_delivery_id id) give_up_unconfigured ds)
unconfigured-AllWithin id ds = update-AllWithin id give_up_unconfigured ds (λ x k. ground arith)

module _ (sign : String → DeliveryPayload → Result String)
    (post : String → String → DeliveryPayload → Response) where
  signed-AllWithin :
      (d : TenantWebhookDelivery) (url : String) (r : Result String) (s : Store)
      → ltb d.attempts max_attempts ≡ true
      → AllWithin s.webhook_deliveries
      → AllWithin ((await r >>= post_signed sign post d url) s).1.webhook_deliveries
  signed-AllWithin d url (ok x) s o h = answered-AllWithin d (post url x d.payload) s o h
  signed-AllWithin d url (err e) s o h = h

  deliver_to-AllWithin :
      (d : TenantWebhookDelivery) (url secret : Option String) (s : Store)
      → ltb d.attempts max_attempts ≡ true
      → AllWithin s.webhook_deliveries
      → AllWithin (deliver_to sign post d url secret s).1.webhook_deliveries
  deliver_to-AllWithin d (some url) (some secret) s o h =
      elim (Bool-cases (truthy (some url) && truthy (some secret))) [
        | inl set ↦ rw set (signed-AllWithin d url (sign secret d.payload) s o h)
        | inr unset ↦ rw unset (unconfigured-AllWithin d.id s.webhook_deliveries h)
      ]
  deliver_to-AllWithin d (some url) none s o h = unconfigured-AllWithin d.id s.webhook_deliveries h
  deliver_to-AllWithin d none secret s o h = unconfigured-AllWithin d.id s.webhook_deliveries h

  attempt_delivery-AllWithin :
      (r : Read) (s : Store)
      → ltb r.0.attempts max_attempts ≡ true
      → AllWithin s.webhook_deliveries
      → AllWithin (attempt_delivery sign post r s).1.webhook_deliveries
  unfolding attempt_delivery
  attempt_delivery-AllWithin (d, (url, secret)) s o h = deliver_to-AllWithin d url secret s o h

  abbrev WithinAfter : Result (Unit {0}) × Store → Type 0
  WithinAfter out = AllWithin out.1.webhook_deliveries

  for_each-AllWithin :
      (rs : List Read) (s : Store)
      → AllReadOpen rs
      → AllWithin s.webhook_deliveries
      → WithinAfter (for_each (attempt_delivery sign post) rs s)
  for_each-AllWithin [] s o h = h
  for_each-AllWithin (r ∷ rs) s o h =
      go (attempt_delivery sign post r s).0 (attempt_delivery sign post r s).1
        (attempt_delivery-AllWithin r s o.0 h) (λ t k. for_each-AllWithin rs t o.1 k)
    where
      go :
          (out : Result (Unit {0})) (t : Store)
          → AllWithin t.webhook_deliveries
          → ((u : Store)
              → AllWithin u.webhook_deliveries
              → WithinAfter (for_each (attempt_delivery sign post) rs u))
          → WithinAfter
              (elim out [ ok x ↦ for_each (attempt_delivery sign post) rs t | err e ↦ (err e, t) ])
      go (ok x) t k next = next t k
      go (err e) t k next = k

  -- A poll of the deliveries, whatever the endpoints answer and also if a secret cannot be read,
  -- keeps every delivery at no more than five attempts, and at fewer while it is pending.
  pub poll_pending_deliveries-AllWithin :
      (s : Store)
      → AllWithin s.webhook_deliveries
      → AllWithin (poll_pending_deliveries sign post s).1.webhook_deliveries
  unfolding poll_pending_deliveries
  poll_pending_deliveries-AllWithin s h =
      let due = filter (is_due s.now) s.webhook_deliveries in
      for_each-AllWithin (due_deliveries s) s
        (map-AllReadOpen s.tenants (take 20 (sort due)) (
          take-AllOpen 20 (sort due)
            (sort-AllOpen due (filter-AllOpen s.now s.webhook_deliveries h))))
        h
