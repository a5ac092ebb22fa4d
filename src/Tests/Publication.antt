-- ===== src/Tests/Publication.antt =====
-- A factor of tenant 1, proposed by user 10 and approved by user 20.
use ghg_tool.Prelude.{◌≡◌, ◌≢◌, refl, false, none, some, List, [], ◌∷◌, arith}
use ghg_tool.Decimal.{dec}
use ghg_tool.Services.FactorPublish.{
  FactorRow, Approval, pending, Store, UserContext, approval_requested, published,
  factor_already_published, self_approval_forbidden, raised, returned, get_by_uuid, find_open,
  assert_publishable, set_published, update_drafts, approve, is_user, do_publish, decide,
  request_approval, publish_row, publish_found, publish,
}
use ghg_tool.Services.FactorPublish.Ledger.{IsSound, Call, serve, serve-IsSound}
use ghg_tool.Services.FactorPublish.TwoEyes.{publish-two_eyes}
use ghg_tool.Services.FactorPublish.Workflow.{requested, finished, publish-twice}

abbrev draft_row : FactorRow
draft_row = record {
  id = 5;
  tenant_id = 1;
  value = some (dec 4397 4);
  is_tbc = false;
  is_licence_only = false;
  created_by = some 30;
  is_published = false;
  published_by = none;
  published_at = none;
}

abbrev start : Store
start = record { factors = draft_row ∷ []; approvals = []; audit = [] }

abbrev proposer : UserContext
proposer = record { sub = 10; tenant_id = 1 }

abbrev approver : UserContext
approver = record { sub = 20; tenant_id = 1 }

publish-twice_example :
    (publish start 5 "NEW" proposer 100 7
      ≡ returned
          (approval_requested 100)
          (requested start draft_row proposer approver "NEW" "OK" 100 101 7 8))
    × (publish
          (requested start draft_row proposer approver "NEW" "OK" 100 101 7 8)
          5
          "AGAIN"
          proposer
          102
          9
        ≡ raised self_approval_forbidden)
    × (publish
          (requested start draft_row proposer approver "NEW" "OK" 100 101 7 8)
          5
          "OK"
          approver
          101
          8
        ≡ returned
            (published (set_published approver 8 draft_row))
            (finished start draft_row proposer approver "NEW" "OK" 100 101 7 8))
    × (publish
          (finished start draft_row proposer approver "NEW" "OK" 100 101 7 8)
          5
          "AGAIN"
          proposer
          102
          9
        ≡ raised factor_already_published)
unfolding get_by_uuid find_open assert_publishable
publish-twice_example =
    publish-twice start draft_row proposer approver "NEW" "OK" 100 101 7 8 refl refl refl refl refl
      refl (λ e. absurd (omega (arith, e))) refl proposer "AGAIN" 102 9 refl

abbrev request : Approval
request = record {
  id = 100;
  tenant_id = 1;
  factor_id = 5;
  proposed_by = 10;
  approved_by = none;
  approved_at = none;
  decision = pending;
  reason_code = "NEW";
}

abbrev asked : Store
asked = record { factors = draft_row ∷ []; approvals = request ∷ []; audit = [] }

done :
    (after : Store) × (publish asked 5 "OK" approver 101 8
      ≡ returned (published (set_published approver 8 draft_row)) after)
unfolding publish publish_found publish_row decide do_publish get_by_uuid find_open
    assert_publishable
done = (_, refl)

publish-two_eyes_example :
    (draft : FactorRow) × (seen : Approval) × (get_by_uuid (draft_row ∷ []) 1 5 ≡ some draft)
    × (draft.is_published ≡ false)
    × (assert_publishable draft ≡ none)
    × (find_open (request ∷ []) 1 draft.id ≡ some seen)
    × (seen.proposed_by ≢ 20)
    × (is_user draft.created_by approver ≡ false)
    × (set_published approver 8 draft_row ≡ set_published approver 8 draft)
    × (done.0.factors ≡ update_drafts draft approver 8 (draft_row ∷ []))
    × (done.0.approvals ≡ approve seen.id approver 8 (request ∷ []))
publish-two_eyes_example =
    publish-two_eyes asked 5 "OK" approver 101 8 (set_published approver 8 draft_row) done.0 done.1

abbrev two_calls : List Call
two_calls =
    record { factor_uuid = 5; reason_code = "NEW"; user = proposer; new_id = 100; now = 7 }
    ∷ record { factor_uuid = 5; reason_code = "OK"; user = approver; new_id = 101; now = 8 }
    ∷ []

serve-IsSound_example : IsSound (serve start two_calls).approvals
unfolding publish publish_found publish_row decide do_publish request_approval get_by_uuid find_open
    assert_publishable approve
serve-IsSound_example =
    serve-IsSound start two_calls (refl, (refl, tt))
      (record { eyes = tt; ids = λ i. omega arith; single = λ t f. omega arith })
