-- ===== src/Submissions/Finalize/Upload.antt =====
-- `checkUploadIntegrity` of apps/web/lib/storage.ts.
use research_crafters.Prelude.{
  Bool, List, Option, [], codes_eq, false, get_or, if◌then◌else◌, leb, length, nat_eq, none, not,
  some, string_eq, ℕ, ◌&&◌, ◌+◌, ◌==◌, ◌∷◌,
}

pub record FinalizeRequest : Type 0 where
  pub uploaded_sha : List ℕ
  pub uploaded_bytes : ℕ

-- `HeadObjectResult`
pub record HeadResult : Type 0 where
  pub exists : Bool
  pub head_sha : Option (List ℕ)
  pub head_size : Option ℕ

-- `FinalizeMismatch`, with what was expected.
pub data FinalizeMismatch : Type 0 where
  object_not_found : FinalizeMismatch
  sha_mismatch : List ℕ → FinalizeMismatch
  size_mismatch : ℕ → FinalizeMismatch

-- `toLowerCase` on the characters of a hash.
unfoldable pub lower : List ℕ → List ℕ
lower [] = []
lower (c ∷ cs) = (if leb 65 c && leb c 90 then c + 32 else c) ∷ lower cs

-- A hash that is there and not empty, and another one: do they differ?
unfoldable pub sha_differs : Option (List ℕ) → List ℕ → Bool
sha_differs none reported = false
sha_differs (some sha) reported = not (length sha == 0) && not (lower sha == lower reported)

unfoldable pub size_differs : Option ℕ → ℕ → Bool
size_differs none reported = false
size_differs (some n) reported = not (n == reported)

-- A recorded size that is positive.
abbrev pub positive : Option ℕ → Option ℕ
positive none = none
positive (some n) = if n == 0 then none else some n

-- `checkUploadIntegrity`
unfoldable pub check_upload_integrity :
    FinalizeRequest → Option (List ℕ) → Option ℕ → HeadResult → Option FinalizeMismatch
check_upload_integrity reported sha bytes head =
    if not head.exists
    then some object_not_found
    else if sha_differs head.head_sha reported.uploaded_sha
    then some (sha_mismatch (lower (get_or head.head_sha [])))
    else if sha_differs sha reported.uploaded_sha
    then some (sha_mismatch (get_or sha []))
    else if size_differs head.head_size reported.uploaded_bytes
    then some (size_mismatch (get_or head.head_size 0))
    else if size_differs (positive bytes) reported.uploaded_bytes
    then some (size_mismatch (get_or bytes 0))
    else none
