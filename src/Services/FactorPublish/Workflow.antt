-- ===== src/Services/FactorPublish/Workflow.antt =====
-- The two calls that publish a factor, and that a third cannot.
use ghg_tool.Prelude.{ℕ, ◌≡◌, ◌≢◌, false, String, none, some, List, [], ◌∷◌, count_if, arith}
use ghg_tool.Services.FactorPublish.{
  FactorRow, Store, UserContext, approval_requested, published, factor_already_published,
  self_approval_forbidden, Outcome, raised, returned, get_by_uuid, find_open, assert_publishable,
  is_draft, set_published, update_drafts, is_user, do_publish, request_approval, decide,
  publish_row, publish_found, publish,
}

-- The state after a call; a call that raised is rolled back.
abbrev pub state_of : Store → Outcome → Store
state_of s (raised e) = s
state_of s (returned r after) = after

-- The marked row is found in place of the draft.
get_by_uuid-update_drafts :
    (draft : FactorRow) (user : UserContext) (now : ℕ) (fs : List FactorRow)
    → get_by_uuid fs user.tenant_id draft.id ≡ some draft
    → draft.is_published ≡ false
    → get_by_uuid (update_drafts draft user now fs) user.tenant_id draft.id
      ≡ some (set_published user now draft)
unfolding get_by_uuid update_drafts
get_by_uuid-update_drafts draft user now [] h k = ground arith
get_by_uuid-update_drafts draft user now (f ∷ fs) h k =
    ground (arith, get_by_uuid-update_drafts draft user now fs)

module _ (s : Store) (draft : FactorRow) (proposer approver : UserContext) (reason reason' : String)
    (new_id new_id' now now' : ℕ) where
  abbrev pub requested : Store
  requested = state_of s (publish s draft.id reason proposer new_id now)

  abbrev pub finished : Store
  finished = state_of requested (publish requested draft.id reason' approver new_id' now')

  -- For a draft that may be published, is its tenant's only row with its id and has no open request:
  -- the first call asks for an approval, no later call of the same user then approves it, a call by
  -- another user of the tenant who is not the creator publishes it, and after that every call on it by
  -- a user of the tenant is refused, whatever its reason, identifier and instant.
  pub publish-twice :
      get_by_uuid s.factors proposer.tenant_id draft.id ≡ some draft
      → count_if (is_draft draft approver) s.factors ≡ 1
      → draft.is_published ≡ false
      → assert_publishable draft ≡ none
      → find_open s.approvals proposer.tenant_id draft.id ≡ none
      → approver.tenant_id ≡ proposer.tenant_id
      → proposer.sub ≢ approver.sub
      → is_user draft.created_by approver ≡ false
      → (u : UserContext) (again : String) (id_again now_again : ℕ)
      → u.tenant_id ≡ proposer.tenant_id
      → (publish s draft.id reason proposer new_id now
          ≡ returned (approval_requested new_id) requested)
        × (publish requested draft.id again proposer id_again now_again
            ≡ raised self_approval_forbidden)
        × (publish requested draft.id reason' approver new_id' now'
            ≡ returned (published (set_published approver now' draft)) finished)
        × (publish finished draft.id again u id_again now_again ≡ raised factor_already_published)
  unfolding publish publish_found publish_row decide do_publish request_approval find_open
  publish-twice found only fresh fit nobody same other stranger u again id_again now_again tenant =
      (
        (ground arith),
        (ground arith),
        (ground arith),
        (ground (arith, get_by_uuid-update_drafts draft approver now' s.factors)),
      )
