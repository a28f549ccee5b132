-- ===== src/Tests.antt =====
-- What the examples run on: a storage, a random source and a site.
use hosting_service.Base.{
  ℕ, ◌+◌, ◌-◌, ◌/◌, ◌≡◌, ◌≢◌, refl, ◌∙◌, ◌↔◌, inl, inr, Bool, true, false, Option, none, some, List,
  [], ◌∷◌, ◌++◌, arith, Text, codes, text_eq, text_eq_iff, is_one_of, starts_with, Bool-cases,
  if◌then◌else◌, ascii_only,
}
use hosting_service.Hosting.Storage.{Bytes, Storage, StorageSettings}
use hosting_service.Hosting.Slug.{Secrets}
use hosting_service.Hosting.Extract.{Member, Limits}
use hosting_service.Hosting.Models.{HostingSettings}
use hosting_service.Hosting.Deployments.{Site}
mod Texts
mod Stores
mod Runs
mod Tokens
mod Hosts
mod Outbox
mod Events
mod Platform

-- A store in memory: the entries, the latest first.
abbrev pub Entries : Type 0
Entries = List (Text × Bytes)

abbrev pub read_entry : Entries → Text → Option Bytes
read_entry [] k = none
read_entry ((j, b) ∷ fs) k = if text_eq j k then some b else read_entry fs k

abbrev pub add_kept : Bool → Text × Bytes → Entries → Entries
add_kept true p fs = fs
add_kept false p fs = p ∷ fs

abbrev pub delete_entry : Entries → Text → Entries
delete_entry [] k = []
delete_entry ((j, b) ∷ fs) k = add_kept (text_eq j k) (j, b) (delete_entry fs k)

abbrev pub add_below : Bool → Text → List Text → List Text
add_below true k ks = k ∷ ks
add_below false k ks = ks

abbrev pub entries_below : Entries → Text → List Text
entries_below [] d = []
entries_below ((j, b) ∷ fs) d = add_below (starts_with j (d ++ codes "/")) j (entries_below fs d)

pub read-delete_entry :
    (fs : Entries) (k j : Text)
    → read_entry (delete_entry fs k) j ≡ (if text_eq k j then none else read_entry fs j)
read-delete_entry [] k j = ground arith
read-delete_entry ((i, b) ∷ fs) k j = elim (Bool-cases (text_eq i k)) [
  | inl same ↦
      let e = (text_eq_iff i k).0 same in rw same (read-delete_entry fs k j ∙ rw e (ground arith))
  | inr other ↦ rw other (elim (Bool-cases (text_eq i j)) [
    | inl here ↦
        let e = (text_eq_iff i j).0 here in ground (arith, text_eq_iff k j, text_eq_iff i k, e)
    | inr away ↦ rw away (read-delete_entry fs k j)
  ])
]

pub below_iff :
    (fs : Entries) (d k : Text)
    → (is_one_of k (entries_below fs d) ≡ true)
      ↔ ((starts_with k (d ++ codes "/") ≡ true) × (read_entry fs k ≢ none))
unfolding is_one_of
below_iff [] d k = (λ h. cc, λ (h, n). absurd (n refl))
below_iff ((j, b) ∷ fs) d k = elim (Bool-cases (text_eq j k)) [
  | inl same ↦
      let e = (text_eq_iff j k).0 same in ground (arith, below_iff fs d k, text_eq_iff k j, e)
  | inr away ↦ ground (arith, below_iff fs d k, text_eq_iff k j, text_eq_iff j k)
]

abbrev pub memory : Storage
memory = record {
  Files = Entries;
  read = read_entry;
  save = λ fs k b. (k, b) ∷ fs;
  delete = delete_entry;
  listdir = λ fs k. none;
  files_below = entries_below;
  read-save = λ fs k j b h. refl;
  read-delete = read-delete_entry;
  files_below_iff = below_iff;
}

abbrev pub first_choice : Secrets
first_choice = record { choose = λ k n. 0; choose_lt = λ k n h. h }

abbrev pub on_disk : StorageSettings
on_disk = record { s3_backend = false; key_prefix = codes "sites"; has_location = true }

abbrev pub settings : HostingSettings
settings = record {
  debug_open = false;
  preview_ttl_days = 0;
  max_apps_per_company = 2;
  max_deployments_per_app = 3;
  max_upload_bytes = 10;
}

abbrev pub open_settings : HostingSettings
open_settings = record settings { debug_open = true }

abbrev pub small : Limits
small = record { max_files = 1; max_total_bytes = 8; max_file_bytes = 4 }

abbrev pub page : Member
page = record {
  name = codes "./index.html";
  is_file = true;
  size = 2;
  chunks = some (codes "hi" ∷ []);
}

-- Every archive holds one page, or two.
abbrev pub one_page : Bytes → Option (List Member)
one_page b = some (page ∷ [])

abbrev pub two_pages : Bytes → Option (List Member)
two_pages b = some (page ∷ record page { name = codes "about.html" } ∷ [])

abbrev pub id_text : ℕ → Text
id_text n = (b'0' + n) ∷ []

abbrev pub site : Site
site = record {
  storage = memory;
  unicode = ascii_only;
  settings = open_settings;
  store = on_disk;
  depth = 0;
  limits = small;
  open_tar = one_page;
  uuid_text = id_text;
}
