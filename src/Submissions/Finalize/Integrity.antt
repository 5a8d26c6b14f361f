-- ===== src/Submissions/Finalize/Integrity.antt =====
-- When an upload passes, and what the row records of it then.
use research_crafters.Prelude.{
  List, Option, [], arith, codes_equal_iff, false, inl, inr, none, refl, some, true, ℕ, ◌↔◌, ◌∷◌,
  ◌≡◌, ◌⊎◌,
}
use research_crafters.Submissions.Finalize.{
  FinalizeRequest, HeadResult, check_upload_integrity, lower, positive, sha_differs, size_differs,
}

-- A hash that is missing or empty, or the same hash whatever the case of its letters.
abbrev pub ShaAgrees : Option (List ℕ) → List ℕ → Type 0
ShaAgrees sha reported =
    (sha ≡ none) ⊎ (sha ≡ some []) ⊎ ((s : List ℕ) × (sha ≡ some s) × (lower s ≡ lower reported))

abbrev pub SizeAgrees : Option ℕ → ℕ → Type 0
SizeAgrees size reported = (size ≡ none) ⊎ (size ≡ some reported)

sha_differs_iff :
    (sha : Option (List ℕ)) (reported : List ℕ)
    → (sha_differs sha reported ≡ false) ↔ ShaAgrees sha reported
unfolding sha_differs
sha_differs_iff none reported = ground arith
sha_differs_iff (some []) reported = ground arith
sha_differs_iff (some (c ∷ cs)) reported = (
  λ h.
      inr
        (inr (c ∷ cs, refl, ground (arith, h, codes_equal_iff (lower (c ∷ cs)) (lower reported)))),
  λ agree. elim agree [
    | inl missing ↦ absurd (ground (arith, missing))
    | inr (inl empty) ↦ absurd (ground (arith, empty))
    | inr (inr (s, is, same)) ↦ ground (arith, is, same, codes_equal_iff (lower s) (lower reported))
  ],
)

size_differs_iff :
    (size : Option ℕ) (reported : ℕ)
    → (size_differs size reported ≡ false) ↔ SizeAgrees size reported
unfolding size_differs
size_differs_iff none reported = ground arith
size_differs_iff (some n) reported = ground arith

-- An upload passes exactly if the object exists, neither the store nor the row knows another hash or
-- another size of it, where an empty hash and a recorded size of 0 count as unknown.
pub check_upload_integrity_iff :
    (req : FinalizeRequest) (sha : Option (List ℕ)) (bytes : Option ℕ) (head : HeadResult)
    → (check_upload_integrity req sha bytes head ≡ none) ↔ (
        (head.exists ≡ true)
        × ShaAgrees head.head_sha req.uploaded_sha
        × ShaAgrees sha req.uploaded_sha
        × SizeAgrees head.head_size req.uploaded_bytes
        × SizeAgrees (positive bytes) req.uploaded_bytes)
unfolding check_upload_integrity
check_upload_integrity_iff req sha bytes head =
    let object_sha = sha_differs_iff head.head_sha req.uploaded_sha in
    let row_sha = sha_differs_iff sha req.uploaded_sha in
    let object_size = size_differs_iff head.head_size req.uploaded_bytes in
    let row_size = size_differs_iff (positive bytes) req.uploaded_bytes in
    (
      λ h. (
        ground (arith, h),
        object_sha.0 (ground (arith, h)),
        row_sha.0 (ground (arith, h)),
        object_size.0 (ground (arith, h)),
        row_size.0 (ground (arith, h)),
      ),
      λ (exists, a, b, c, d).
          let a' = object_sha.1 a in
          let b' = row_sha.1 b in
          let c' = object_size.1 c in
          let d' = row_size.1 d in ground (arith, exists, a', b', c', d'),
    )
