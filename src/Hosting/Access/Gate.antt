-- ===== src/Hosting/Access/Gate.antt =====
-- What asking for access and reviewing it do to the gate.
use hosting_service.Base.{
  ℕ, ◌≡◌, refl, ap, inl, inr, true, ◌||◌, Option, none, some, List, [], ◌∷◌, arith, Text, codes,
  text_eq, text_eq_iff, Option-cases, if◌then◌else◌, ◌==◌, ok, err,
}
use hosting_service.Hosting.Models.{
  AccessStatus, CompanyHostingAccess, Db, HostingSettings, hosting_access_denied,
}
use hosting_service.Hosting.Access.{
  find_access, save_access, get_access, is_approved, approved_record, assert_hosting_access,
  requested, request_access, reviewed, access_status, with_status, update_access,
}

find-save :
    (c : ℕ) (r : CompanyHostingAccess) (rs : List CompanyHostingAccess)
    → find_access c (save_access r rs) ≡ (if r.company_id == c then some r else find_access c rs)
unfolding find_access save_access
find-save c r [] = refl
find-save c r (s ∷ ss) = ground (arith, find-save c r ss)

-- A row that is found has the company that was asked for.
find-company :
    (c : ℕ) (rs : List CompanyHostingAccess) (r : CompanyHostingAccess)
    → find_access c rs ≡ some r
    → r.company_id ≡ c
unfolding find_access
find-company c [] r h = cc
find-company c (s ∷ ss) r h = ground (arith, find-company c ss r)

requested-company :
    (now c user : ℕ) (o : Option CompanyHostingAccess)
    → ((r : CompanyHostingAccess) → o ≡ some r → r.company_id ≡ c)
    → (requested now c user o).company_id ≡ c
unfolding requested
requested-company now c user none h = refl
requested-company now c user (some r) h = ground (arith, h r refl)

requested-approved :
    (now c user : ℕ) (o : Option CompanyHostingAccess)
    → is_approved (requested now c user o).status ≡ approved_record o
unfolding requested
requested-approved now c user none = refl
requested-approved now c user (some r) = ground arith

-- Asking for access changes no company's right to host, whoever asks and whatever was decided.
pub assert_hosting_access-request_access :
    (cfg : HostingSettings) (now company user c : ℕ) (db : Db)
    → assert_hosting_access cfg c (request_access now company user db).0
      ≡ assert_hosting_access cfg c db
unfolding assert_hosting_access request_access get_access
assert_hosting_access-request_access cfg now company user c db =
    let o = find_access company db.access in
    let r = requested now company user o in
    ground (
      arith,
      find-save c r db.access,
      requested-company now company user o (find-company company db.access),
      requested-approved now company user o,
    )

reviewed-company :
    (now c reviewer : ℕ) (status : AccessStatus) (notes : Text) (o : Option CompanyHostingAccess)
    → ((r : CompanyHostingAccess) → o ≡ some r → r.company_id ≡ c)
    → (reviewed now c status reviewer notes o).company_id ≡ c
unfolding reviewed
reviewed-company now c reviewer status notes none h = refl
reviewed-company now c reviewer status notes (some r) h = h r refl

reviewed-status :
    (now c reviewer : ℕ) (status : AccessStatus) (notes : Text) (o : Option CompanyHostingAccess)
    → (reviewed now c status reviewer notes o).status ≡ status
unfolding reviewed
reviewed-status now c reviewer status notes none = refl
reviewed-status now c reviewer status notes (some r) = refl

with_status-access :
    (now c reviewer : ℕ) (notes : Text) (db db' : Db) (st : AccessStatus) (r : CompanyHostingAccess)
    → with_status now c reviewer notes db (some st) ≡ ok (db', r)
    → db'.access
      ≡ save_access (reviewed now c st reviewer notes (find_access c db.access)) db.access
unfolding get_access
with_status-access now c reviewer notes db db' st r h = cc

other_word : (s w v : Text) → text_eq s w ≡ true → text_eq s v ≡ text_eq w v
other_word s w v h = ap (λ t. text_eq t v) ((text_eq_iff s w).0 h)

access_status-approved :
    (s : Text) (st : AccessStatus)
    → access_status s ≡ some st
    → is_approved st ≡ text_eq s (codes "approved")
unfolding access_status
access_status-approved s st h = ground (
  arith,
  other_word s (codes "pending") (codes "approved"),
  other_word s (codes "denied") (codes "approved"),
)

-- After a review the company may host exactly if the status given was "approved" (or the gate is
-- open to all), and the right of every other company is as it was.
pub assert_hosting_access-update_access :
    (cfg : HostingSettings) (now company reviewer c : ℕ) (status notes : Text) (db db' : Db)
    (r : CompanyHostingAccess)
    → update_access now company status reviewer notes db ≡ ok (db', r)
    → assert_hosting_access cfg c db' ≡ (
        if company == c
        then if cfg.debug_open || text_eq status (codes "approved")
          then ok tt
          else err hosting_access_denied
        else assert_hosting_access cfg c db)
unfolding update_access assert_hosting_access get_access
assert_hosting_access-update_access cfg now company reviewer c status notes db db' r h =
    elim (Option-cases (access_status status)) [
      | inl unknown ↦ cc (rw unknown at h)
      | inr (st, known) ↦
          let o = find_access company db.access in
          let saved = with_status-access now company reviewer notes db db' st r (rw known at h) in
          ground (
            arith,
            saved,
            find-save c (reviewed now company st reviewer notes o) db.access,
            ap (find_access c) saved,
            reviewed-company now company reviewer st notes o (find-company company db.access),
            reviewed-status now company reviewer st notes o,
            access_status-approved status st known,
          )
    ]
