-- ===== src/Documents/Capacity.antt =====
-- modules/documents/service.py: uploads and the caps of an organisation.
use ragz.Prelude.{
  ℕ, ◌+◌, ◌≤◌, ◌<◌, ◌≡◌, Option, List, [], ◌∷◌, ◌++◌, String, ◌==◌, if◌then◌else◌, arith, inl, inr,
  Bool-cases, Result-cases, ok, any, select_where, count_where, ==_iff,
}
use ragz.Tenancy.State.{TenantContext}
use ragz.Tenancy.Members.{get_workspace_checked}
use ragz.Documents.State.{Document, DocDb}
use ragz.Documents.Folders.{check_parent}
use ragz.Documents.Uploads.{
  UploadLimits, UploadedContent, is_of_org, total_bytes, enforce_org_upload_quota, is_running,
  is_duplicate, is_predecessor, newest, new_document, create_from_upload,
}

-- Where a cap is on, the organisation's documents are within it.
abbrev pub IsWithin : UploadLimits → ℕ → List Document → Type 0
IsWithin limits org documents =
    (0 < limits.org_max_documents
      → count_where (is_of_org org) documents ≤ limits.org_max_documents)
    × (0 < limits.org_max_storage_bytes → total_bytes org documents ≤ limits.org_max_storage_bytes)

count_where-snoc :
    (org : ℕ) (ds : List Document) (d : Document)
    → count_where (is_of_org org) (ds ++ (d ∷ []))
      ≡ count_where (is_of_org org) ds + (if is_of_org org d then 1 else 0)
unfolding count_where
count_where-snoc org [] d = omega arith
count_where-snoc org (x ∷ xs) d = omega (arith, count_where-snoc org xs d)

total_bytes-snoc :
    (org : ℕ) (ds : List Document) (d : Document)
    → total_bytes org (ds ++ (d ∷ []))
      ≡ total_bytes org ds + (if is_of_org org d then d.size_bytes else 0)
unfolding total_bytes
total_bytes-snoc org [] d = omega arith
total_bytes-snoc org (x ∷ xs) d = omega (arith, total_bytes-snoc org xs d)

-- What an accepted upload leaves room for.
enforced :
    (limits : UploadLimits) (org size : ℕ) (ds : List Document)
    → enforce_org_upload_quota limits org size ds ≡ ok tt
    → (0 < limits.org_max_documents → count_where (is_of_org org) ds + 1 ≤ limits.org_max_documents)
      × (0 < limits.org_max_storage_bytes
          → total_bytes org ds + size ≤ limits.org_max_storage_bytes)
unfolding enforce_org_upload_quota
enforced limits org size ds h = (λ on. ground arith, λ on. ground arith)

added-IsWithin :
    (limits : UploadLimits) (org : ℕ) (ds : List Document) (d : Document)
    → enforce_org_upload_quota limits d.org_id d.size_bytes ds ≡ ok tt
    → IsWithin limits org ds
    → IsWithin limits org (ds ++ (d ∷ []))
unfolding is_of_org
added-IsWithin limits org ds d passed within = elim (Bool-cases (d.org_id == org)) [
  | inr other ↦ (
    λ on. rw (count_where-snoc org ds d, other) (omega (arith, within.0 on)),
    λ on. rw (total_bytes-snoc org ds d, other) (omega (arith, within.1 on)),
  )
  | inl own ↦
      let room = enforced limits org d.size_bytes ds (rw ((==_iff d.org_id org).0 own) at passed) in
      (
        λ on. rw (count_where-snoc org ds d, own) (room.0 on),
        λ on. rw (total_bytes-snoc org ds d, own) (room.1 on),
      )
]

-- An upload, accepted or refused, takes no organisation past a cap on its documents or on their
-- bytes.
pub create_from_upload-IsWithin :
    (id event now org : ℕ) (limits : UploadLimits) (ctx : TenantContext) (w : ℕ) (filename : String)
    (content : UploadedContent) (folder_id : Option ℕ) (db : DocDb)
    → IsWithin limits org db.documents
    → IsWithin limits org
        (create_from_upload id event now limits ctx w filename content folder_id db).1.documents
unfolding create_from_upload
create_from_upload-IsWithin id event now org limits ctx w filename content folder_id db within =
    elim (Result-cases (get_workspace_checked ctx w db.tenancy)) [
      | inr (_, e) ↦ rw e within
      | inl (ws, e) ↦ elim (Result-cases (check_parent ctx folder_id ws.id db.folders)) [
        | inr (_, e') ↦ rw (e, e') within
        | inl (_, e') ↦
            elim (Result-cases
              (enforce_org_upload_quota limits ctx.org_id content.size_bytes db.documents)) [
                | inr (_, e'') ↦ rw (e, e', e'') within
                | inl (u, e'') ↦ elim (Bool-cases (any (is_running ws.id) db.reembed_jobs)) [
                  | inl busy ↦ rw (e, e', e'', busy) within
                  | inr free ↦
                      elim (Bool-cases (any (is_duplicate ws.id content.sha256) db.documents)) [
                        | inl dup ↦ rw (e, e', e'', free, dup) within
                        | inr new ↦
                            rw (e, e', e'', free, new)
                              (added-IsWithin limits org db.documents
                                (new_document id ctx ws.id filename content folder_id (
                                  newest (
                                    select_where (is_predecessor ws.id folder_id filename)
                                      db.documents)))
                                e'' within)
                      ]
                ]
              ]
      ]
    ]
