-- ===== src/Store/Action.antt =====
-- A service method outside a transaction: each statement commits by itself, so what was written
-- stays written when a later statement throws.
use script_pay_backend.Shared.{List, [], ◌∷◌}
use script_pay_backend.Store.Rows.{Error, Store, AuditEntry, Alert}
use script_pay_backend.Store.Tx.{Result, ok, err, Tx}

abbrev pub Action : Type 0 → Type 0
Action A = Store → Result A × Store

abbrev pub pure : {A : Type 0} → A → Action A
pure a s = (ok a, s)

abbrev pub throw : {A : Type 0} → Error → Action A
throw e s = (err e, s)

infixl 5 ◌>>=◌ ◌>>◌
abbrev pub ◌>>=◌ : {A B : Type 0} → Action A → (A → Action B) → Action B
◌>>=◌ m f s = let (r, t) = m s in elim r [ ok a ↦ f a t | err e ↦ (err e, t) ]

abbrev pub ◌>>◌ : {A B : Type 0} → Action A → Action B → Action B
m >> k = m >>= λ _. k

abbrev pub gets : {A : Type 0} → (Store → A) → Action A
gets f s = (ok (f s), s)

abbrev pub modify : (Store → Store) → Action (Unit {0})
modify f s = (ok tt, f s)

-- `$transaction` and `withTenantContext`: all of it, or nothing.
abbrev pub committed : {A : Type 0} → Store → Result (A × Store) → Result A × Store
committed s (ok (a, t)) = (ok a, t)
committed s (err e) = (err e, s)

abbrev pub transaction : {A : Type 0} → Tx A → Action A
transaction m s = committed s (m s)

-- `try { … } catch (error) { … }`.
abbrev pub handled : {A : Type 0} → Result A → (Error → Action A) → Action A
handled (ok a) h s = (ok a, s)
handled (err e) h s = h e s

abbrev pub try_catch : {A : Type 0} → Action A → (Error → Action A) → Action A
try_catch m h s = let (r, t) = m s in handled r h t

-- `AuditLogService.record`, which never throws.
abbrev pub record_audit : AuditEntry → Action (Unit {0})
record_audit e = modify λ s. record s { audit_log = e ∷ s.audit_log }

-- `AlertsService.send`, which never throws.
abbrev pub send_alert : Alert → Action (Unit {0})
send_alert a = modify λ s. record s { alerts = a ∷ s.alerts }

-- A call of Safaricom: its answer, or the error that it throws.
abbrev pub await : {A : Type 0} → Result A → Action A
await r s = (r, s)

-- `try { m } finally { f }`.
abbrev pub finally_do : {A : Type 0} → Action A → Action (Unit {0}) → Action A
finally_do m f s =
    let (r, t) = m s in let (q, u) = f t in elim q [ ok x ↦ (r, u) | err e ↦ (err e, u) ]

-- `catch (error) { log }`: the error goes no further.
abbrev pub swallow : Error → Action (Unit {0})
swallow e = pure tt

-- `for (const row of rows) await f(row)`.
abbrev pub for_each : {A : Type 0} → (A → Action (Unit {0})) → List A → Action (Unit {0})
for_each f [] s = (ok tt, s)
for_each f (x ∷ xs) s = let (r, t) = f x s in elim r [ ok u ↦ for_each f xs t | err e ↦ (err e, t) ]
