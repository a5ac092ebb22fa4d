-- ===== src/Services/FactorPublish/TwoEyes.antt =====
-- What a publication guarantees.
use ghg_tool.Prelude.{ℕ, ◌≡◌, ◌≢◌, false, String, none, some, arith, Option-cases, inl, inr}
use ghg_tool.Domain.Factor.{Uuid}
use ghg_tool.Services.FactorPublish.{
  FactorRow, Approval, Store, UserContext, published, returned, get_by_uuid, find_open,
  assert_publishable, set_published, update_drafts, approve, is_user, do_publish, request_approval,
  decide, publish_row, publish_found, publish,
}

-- If a call publishes a factor, then the factor was a draft of the user's tenant that may be
-- published, another user had an open request for it, the caller is neither that proposer nor the
-- factor's creator, and the row returned is the draft marked as published by the caller.
pub publish-two_eyes :
    (s : Store) (factor_uuid : Uuid) (reason : String) (user : UserContext) (new_id now : ℕ)
    (row : FactorRow) (after : Store)
    → publish s factor_uuid reason user new_id now ≡ returned (published row) after
    → (draft : FactorRow) × (request : Approval) × (get_by_uuid s.factors user.tenant_id factor_uuid
        ≡ some draft)
      × (draft.is_published ≡ false)
      × (assert_publishable draft ≡ none)
      × (find_open s.approvals user.tenant_id draft.id ≡ some request)
      × (request.proposed_by ≢ user.sub)
      × (is_user draft.created_by user ≡ false)
      × (row ≡ set_published user now draft)
      × (after.factors ≡ update_drafts draft user now s.factors)
      × (after.approvals ≡ approve request.id user now s.approvals)
unfolding publish publish_found publish_row decide do_publish request_approval
publish-two_eyes s factor_uuid reason user new_id now row after h =
    elim (Option-cases (get_by_uuid s.factors user.tenant_id factor_uuid)) [
      | inl missing ↦ absurd (ground (arith))
      | inr (draft, found) ↦ elim (Option-cases (find_open s.approvals user.tenant_id draft.id)) [
        | inl nobody ↦ absurd (ground (arith))
        | inr (request, asked) ↦ (
          draft,
          request,
          found,
          (ground (arith)),
          (ground (arith)),
          asked,
          (ground (arith)),
          (ground (arith)),
          (ground (arith)),
          (ground (arith)),
          (ground (arith)),
        )
      ]
    ]
