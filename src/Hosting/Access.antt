-- ===== src/Hosting/Access.antt =====
-- The company gate of apps/hosting/services.py: who may host, and who may ask.
pub mod Gate
use hosting_service.Base.{
  ℕ, Bool, true, false, not, Option, none, some, List, [], ◌∷◌, Text, codes, text_eq, if◌then◌else◌,
  ◌==◌, Result, ok, err, raise_if,
}
use hosting_service.Hosting.Models.{
  AccessStatus, pending, approved, denied, CompanyHostingAccess, Db, HostingSettings, HostingError,
  hosting_access_denied, invalid_status,
}

-- `CompanyHostingAccess.objects.filter(company_id=…).first()`
unfoldable pub find_access : ℕ → List CompanyHostingAccess → Option CompanyHostingAccess
find_access company [] = none
find_access company (r ∷ rs) =
    let rest = find_access company rs in if r.company_id == company then some r else rest

-- The row of a company is saved.
unfoldable pub save_access :
    CompanyHostingAccess → List CompanyHostingAccess → List CompanyHostingAccess
save_access r [] = r ∷ []
save_access r (s ∷ ss) =
    let rest = save_access r ss in if s.company_id == r.company_id then r ∷ ss else s ∷ rest

unfoldable pub get_access : ℕ → Db → Option CompanyHostingAccess
get_access company db = find_access company db.access

abbrev pub is_approved : AccessStatus → Bool
is_approved approved = true
is_approved _ = false

abbrev pub is_denied : AccessStatus → Bool
is_denied denied = true
is_denied _ = false

abbrev pub approved_record : Option CompanyHostingAccess → Bool
approved_record none = false
approved_record (some r) = is_approved r.status

unfoldable pub assert_hosting_access : HostingSettings → ℕ → Db → Result HostingError (Unit {0})
assert_hosting_access cfg company db =
    if cfg.debug_open
    then ok tt
    else raise_if (not (approved_record (get_access company db))) hosting_access_denied

-- A row as `get_or_create` makes it in `request_access`.
abbrev pub new_request : ℕ → ℕ → ℕ → CompanyHostingAccess
new_request now company user = record {
  company_id = company;
  status = pending;
  requested_by_id = some user;
  requested_at = now;
  reviewed_by_id = none;
  reviewed_at = none;
  notes = [];
}

abbrev pub asked_again : ℕ → ℕ → CompanyHostingAccess → CompanyHostingAccess
asked_again now user r = record r {
  status = pending;
  requested_by_id = some user;
  requested_at = now;
  reviewed_by_id = none;
  reviewed_at = none;
}

unfoldable pub requested : ℕ → ℕ → ℕ → Option CompanyHostingAccess → CompanyHostingAccess
requested now company user none = new_request now company user
requested now company user (some r) = if is_denied r.status then asked_again now user r else r

unfoldable pub request_access : ℕ → ℕ → ℕ → Db → Db × CompanyHostingAccess
unfolding requested
request_access now company user db =
    let r = requested now company user (get_access company db) in
    (record db { access = save_access r db.access }, r)

abbrev pub or_notes : Text → Text → Text
or_notes [] old = old
or_notes (c ∷ s) old = c ∷ s

unfoldable pub reviewed :
    ℕ → ℕ → AccessStatus → ℕ → Text → Option CompanyHostingAccess → CompanyHostingAccess
reviewed now company status reviewer notes none = record (new_request now company reviewer) {
  status = status;
  reviewed_by_id = some reviewer;
  reviewed_at = some now;
  notes = notes;
}
reviewed now company status reviewer notes (some r) = record r {
  status = status;
  reviewed_by_id = some reviewer;
  reviewed_at = some now;
  notes = or_notes notes r.notes;
}

-- `AccessStatus.values`
unfoldable pub access_status : Text → Option AccessStatus
access_status s =
    if text_eq s (codes "pending")
    then some pending
    else if text_eq s (codes "approved")
    then some approved
    else if text_eq s (codes "denied")
    then some denied
    else none

abbrev pub with_status :
    ℕ → ℕ → ℕ → Text → Db → Option AccessStatus → Result HostingError (Db × CompanyHostingAccess)
with_status now company reviewer notes db none = err invalid_status
with_status now company reviewer notes db (some status) =
    let r = reviewed now company status reviewer notes (get_access company db) in
    ok (record db { access = save_access r db.access }, r)

unfoldable pub update_access :
    ℕ → ℕ → Text → ℕ → Text → Db → Result HostingError (Db × CompanyHostingAccess)
update_access now company status reviewer notes db =
    with_status now company reviewer notes db (access_status status)
