-- ===== src/Hosting/Storage/Uploads.antt =====
-- Saving an artifact within the size limit.
use hosting_service.Base.{
  ok-injective, ℕ, ◌≤◌, ◌≡◌, sym, ap, ◌∙◌, inl, inr, some, List, [], ◌∷◌, ◌++◌, append-nil,
  append_assoc, arith, Text, text_eq, length, is_empty, length-append, Bool-cases, if◌then◌else◌,
  leb, Result, ok, err,
}
use hosting_service.Hosting.Storage.{
  Bytes, Storage, overwrite, ArtifactTooLarge, artifact_too_large, read_upload, save_artifact,
}
use hosting_service.Hosting.Storage.Trees.{read-overwrite}

-- All that was sent. A read that gives nothing ends the upload.
abbrev pub sent : List Bytes → Bytes
sent [] = []
sent (chunk ∷ chunks) = if is_empty chunk then [] else chunk ++ sent chunks

read_upload-eq :
    (max_bytes : ℕ) (tmp : Bytes) (chunks : List Bytes)
    → length tmp ≤ max_bytes
    → read_upload max_bytes tmp chunks ≡ (
        if leb (length (tmp ++ sent chunks)) max_bytes
        then ok (tmp ++ sent chunks)
        else err artifact_too_large)
unfolding read_upload
read_upload-eq max_bytes tmp [] h = rw append-nil (ground arith)
read_upload-eq max_bytes tmp (chunk ∷ chunks) h = elim (Bool-cases (is_empty chunk)) [
  | inl over ↦ rw (over, append-nil) (ground arith)
  | inr more ↦
      rw (more, ← append_assoc tmp chunk (sent chunks))
        (ground (
          arith,
          read_upload-eq max_bytes (tmp ++ chunk) chunks,
          length-append tmp chunk,
          length-append (tmp ++ chunk) (sent chunks),
        ))
]

module _ (S : Storage) where
  open S use {Files, read}

  -- An upload is refused exactly if more was sent than the limit allows; otherwise its size is
  -- returned, with the store in which its key was overwritten by all that was sent.
  pub save_artifact_lem :
      (fs : Files) (key : Text) (chunks : List Bytes) (max_bytes : ℕ)
      → save_artifact S fs key chunks max_bytes ≡ (
          if leb (length (sent chunks)) max_bytes
          then ok (length (sent chunks), overwrite S fs key (sent chunks))
          else err artifact_too_large)
  unfolding save_artifact
  save_artifact_lem fs key chunks max_bytes = ground (arith, read_upload-eq max_bytes [] chunks)

  saved_as :
      (fs fs' : Files) (key : Text) (b : Bytes) (max_bytes n : ℕ)
      → ◌≡◌ {A = Result ArtifactTooLarge (ℕ × Files)}
          (if leb (length b) max_bytes
            then ok (length b, overwrite S fs key b)
            else err artifact_too_large)
          (ok (n, fs'))
      → (n ≡ length b) × (n ≤ max_bytes) × (overwrite S fs key b ≡ fs')
  saved_as fs fs' key b max_bytes n e = elim (Bool-cases (leb (length b) max_bytes)) [
    | inl fits ↦
        let same = ok-injective _ _ (rw fits at e) in
        (sym (ap (λ p. p.0) same), rw (← ap (λ p. p.0) same) (ground arith), ap (λ p. p.1) same)
    | inr over ↦ cc (rw over at e)
  ]

  -- When an upload succeeds, the size returned is that of all that was sent and within the limit; its
  -- key then holds what was sent, whatever was there, and every other key what it held.
  pub read-save_artifact :
      (fs fs' : Files) (key j : Text) (chunks : List Bytes) (max_bytes n : ℕ)
      → save_artifact S fs key chunks max_bytes ≡ ok (n, fs')
      → (n ≡ length (sent chunks))
        × (n ≤ max_bytes)
        × (read fs' j ≡ (if text_eq key j then some (sent chunks) else read fs j))
  read-save_artifact fs fs' key j chunks max_bytes n e =
      let (size, fits, same) =
        saved_as fs fs' key (sent chunks) max_bytes n
          (sym (save_artifact_lem fs key chunks max_bytes) ∙ e) in
      (size, fits, rw (← same) (read-overwrite S fs key j (sent chunks)))
