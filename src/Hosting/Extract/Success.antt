-- ===== src/Hosting/Extract/Success.antt =====
-- What the loop of apps/hosting/extract.py has written when it ends.
use hosting_service.Base.{
  ℕ, ◌+◌, ◌≤◌, ◌<◌, ◌≡◌, refl, ap, ◌⊎◌, inl, inr, Option, none, some, List, [], ◌∷◌, ◌++◌, arith,
  Text, split, length, is_empty, length-append, All, Bool-cases, if◌then◌else◌, leb, ltb, Result,
  ok, err,
}
use hosting_service.Hosting.Storage.{Bytes, Storage, StorageSettings, build_storage_key, overwrite}
use hosting_service.Hosting.Extract.{
  Member, ExtractError, too_many_files, file_too_large, Limits, safe_member_name,
  read_member_limited, Round, skip, stop, write, sized, opened, named, round, extract_tar_members,
}
use hosting_service.Hosting.Paths.Normal.{IsPlain, normalize_relative_path-IsPlain}

-- A file as it was written: its path below the prefix, and its content.
abbrev pub Written : Type 0
Written = Text × Bytes

abbrev pub total_bytes : List Written → ℕ
total_bytes [] = 0
total_bytes ((rel, content) ∷ ws) = length content + total_bytes ws

-- A chain of plain names, and a content within the limit for one file.
abbrev pub IsFit : Limits → Written → Type 0
IsFit limits (rel, content) =
    All IsPlain (split b'/' rel) × (length content ≤ limits.max_file_bytes)

read_member-le :
    (max : ℕ) (content : Bytes) (chunks : List Bytes) (b : Bytes)
    → length content ≤ max
    → read_member_limited max content chunks ≡ ok b
    → length b ≤ max
unfolding read_member_limited
read_member-le max content [] b h e = let e' : content ≡ b = ground arith in rw (← e') h
read_member-le max content (chunk ∷ chunks) b h e =
    ground (arith, read_member-le max (content ++ chunk) chunks b, length-append content chunk)

-- What a round establishes when it writes, from the inside out.
sized-write :
    (limits : Limits) (total : ℕ) (rel rel' : Text) (r : Result ExtractError Bytes)
    (content : Bytes)
    → sized limits total rel r ≡ write rel' content
    → (r ≡ ok content) × (rel ≡ rel') × (total + length content ≤ limits.max_total_bytes)
sized-write limits total rel rel' (err e') content e = cc
sized-write limits total rel rel' (ok c) content e = ground arith

opened-write :
    (limits : Limits) (total : ℕ) (rel rel' : Text) (o : Option (List Bytes)) (content : Bytes)
    → opened limits total rel o ≡ write rel' content
    → (rel ≡ rel')
      × (length content ≤ limits.max_file_bytes)
      × (total + length content ≤ limits.max_total_bytes)
opened-write limits total rel rel' none content e = cc
opened-write limits total rel rel' (some chunks) content e =
    let (r, same, fits) = sized-write limits total rel rel' _ content e in
    (same, read_member-le limits.max_file_bytes [] chunks content (omega arith) r, fits)

-- The guards before the member is opened. The rest of the round is any.
guards-write :
    (limits : Limits) (count size : ℕ) (r : Text) (later : Round) (rel : Text) (content : Bytes)
    → (if is_empty r
        then skip
        else if leb limits.max_files count
        then stop too_many_files
        else if ltb limits.max_file_bytes size
        then stop file_too_large
        else later)
      ≡ write rel content
    → (count < limits.max_files) × (later ≡ write rel content)
guards-write limits count size r later rel content e = ground arith

named-write :
    (limits : Limits) (count total : ℕ) (m : Member) (o : Option Text) (rel : Text)
    (content : Bytes)
    → named limits count total m o ≡ write rel content
    → (o ≡ some rel)
      × (count < limits.max_files)
      × (opened limits total rel m.chunks ≡ write rel content)
named-write limits count total m none rel content e = cc
named-write limits count total m (some r) rel content e =
    let (room, opens) =
      guards-write limits count m.size r (opened limits total r m.chunks) rel content e in
    let same = (opened-write limits total r rel m.chunks content opens).0 in
    (ap some same, room, rw same at opens)

round-write :
    (limits : Limits) (count total : ℕ) (m : Member) (rel : Text) (content : Bytes)
    → round limits count total m ≡ write rel content
    → IsFit limits (rel, content)
      × (count < limits.max_files)
      × (total + length content ≤ limits.max_total_bytes)
unfolding round
round-write limits count total m rel content e = elim (Bool-cases m.is_file) [
  | inl file ↦
      let (found, room, opens) =
        named-write limits count total m (safe_member_name m.name) rel content (rw file at e) in
      let (_, small, fits) = opened-write limits total rel rel m.chunks content opens in
      ((normalize_relative_path-IsPlain m.name rel found, small), room, fits)
  | inr other ↦ cc (rw other at e)
]

Round-cases :
    (r : Round)
    → (r ≡ skip)
      ⊎ (((e : ExtractError) × (r ≡ stop e))
          ⊎ ((rel : Text) × (content : Bytes) × (r ≡ write rel content)))
Round-cases skip = inl refl
Round-cases (stop e) = inr (inl (e, refl))
Round-cases (write rel content) = inr (inr (rel, content, refl))

returned : (a b : ℕ) → ◌≡◌ {A = Result ExtractError ℕ} (ok a) (ok b) → a ≡ b
returned a b e = cc

module _ (S : Storage) (cfg : StorageSettings) (prefix : Text) where
  open S use {Files}

  -- The store after some files were written, one after the other.
  abbrev pub write_all : Files → List Written → Files
  write_all fs [] = fs
  write_all fs ((rel, content) ∷ ws) =
      write_all (overwrite S fs (build_storage_key cfg (prefix ++ rel)) content) ws

  -- What an extraction that starts with `count` files and `total` bytes has done when it returns.
  pub record IsExtracted (limits : Limits) (count total : ℕ) (fs fs' : Files) (n : ℕ) : Type 0 where
    pub written : List Written
    pub result : write_all fs written ≡ fs'
    pub counted : n ≡ count + length written
    pub fit : All (IsFit limits) written
    pub few : n ≤ limits.max_files
    pub small : total + total_bytes written ≤ limits.max_total_bytes

  abbrev Loop : Limits → List Member → Files → ℕ → ℕ → Files × Result ExtractError ℕ
  Loop limits ms fs count total = extract_tar_members S cfg prefix limits fs count total ms

  -- One file more in front.
  IsExtracted-write :
      (limits : Limits) (count total : ℕ) (fs fs' : Files) (n : ℕ) (rel : Text) (content : Bytes)
      → IsFit limits (rel, content)
      → IsExtracted limits
          (count + 1)
          (total + length content)
          (overwrite S fs (build_storage_key cfg (prefix ++ rel)) content)
          fs'
          n
      → IsExtracted limits count total fs fs' n
  IsExtracted-write limits count total fs fs' n rel content fit x = record {
    written = (rel, content) ∷ x.written;
    result = x.result;
    counted = omega (arith, x.counted);
    fit = (fit, x.fit);
    few = x.few;
    small = omega (arith, x.small);
  }

  pub loop-IsExtracted :
      (limits : Limits) (ms : List Member) (fs fs' : Files) (count total n : ℕ)
      → count ≤ limits.max_files
      → total ≤ limits.max_total_bytes
      → Loop limits ms fs count total ≡ (fs', ok n)
      → IsExtracted limits count total fs fs' n
  unfolding extract_tar_members
  loop-IsExtracted limits [] fs fs' count total n h k e = record {
    written = [];
    result = ap (λ p. p.0) e;
    counted = omega (arith, returned _ _ (ap (λ p. p.1) e));
    fit = tt;
    few = omega (arith, returned _ _ (ap (λ p. p.1) e));
    small = omega arith;
  }
  loop-IsExtracted limits (m ∷ ms) fs fs' count total n h k e =
      elim (Round-cases (round limits count total m)) [
        | inl q ↦
            loop-IsExtracted limits ms fs fs' count total n h k (rw (q, extract_tar_members) at e)
        | inr (inl (x, q)) ↦ cc (ap (λ p. p.1) (rw (q, extract_tar_members) at e))
        | inr (inr (rel, content, q)) ↦
            let (fit, room, fits) = round-write limits count total m rel content q in
            IsExtracted-write limits count total fs fs' n rel content fit (
              loop-IsExtracted limits ms
                (overwrite S fs (build_storage_key cfg (prefix ++ rel)) content) fs' (count + 1)
                (total + length content) n (omega arith) fits (rw (q, extract_tar_members) at e))
      ]
