-- ===== src/Services/FactorPublish.antt =====
-- application/services/factor_publish_service.py: the two-eyes publication of a factor. The state is
-- the rows of ref.factor_catalog, calc.factor_publish_approvals and the audit log that a call reads or
-- writes; a user's `sub` is a UUID in its canonical spelling, so that comparing the spellings is
-- comparing the UUIDs. A call that raises is rolled back by its caller. Logging and SIEM events are
-- left out. `new_id` is the fresh uuid4.
pub mod TwoEyes
pub mod Workflow
pub mod Ledger
use ghg_tool.Prelude.{
  ℕ, ◌+◌, Bool, true, false, not, ◌&&◌, String, Option, none, some, List, [], ◌∷◌, map, ◌==◌,
  count_if, if◌then◌else◌,
}
use ghg_tool.Decimal.{Decimal}
use ghg_tool.Domain.Factor.{Uuid}

pub record FactorRow : Type 0 where
  pub id : Uuid
  pub tenant_id : Uuid
  pub value : Option Decimal
  pub is_tbc : Bool
  pub is_licence_only : Bool
  pub created_by : Option Uuid
  pub is_published : Bool
  pub published_by : Option Uuid
  pub published_at : Option ℕ

pub data Decision : Type 0 where
  pending approved rejected : Decision

pub record Approval : Type 0 where
  pub id : Uuid
  pub tenant_id : Uuid
  pub factor_id : Uuid
  pub proposed_by : Uuid
  pub approved_by : Option Uuid
  pub approved_at : Option ℕ
  pub decision : Decision
  pub reason_code : String

pub data Action : Type 0 where
  factor_approval_requested factor_published : Action

pub record AuditLog : Type 0 where
  pub tenant_id : Uuid
  pub action : Action
  pub resource_id : Uuid
  pub status_code : ℕ
  pub user_sub : Uuid
  pub approval_id : Uuid

pub record Store : Type 0 where
  pub factors : List FactorRow
  pub approvals : List Approval
  pub audit : List AuditLog

pub record UserContext : Type 0 where
  pub sub : Uuid
  pub tenant_id : Uuid

pub data PublishResult : Type 0 where
  approval_requested : Uuid → PublishResult
  published : FactorRow → PublishResult

pub data PublishError : Type 0 where
  factor_not_found factor_already_published factor_tbc factor_null_value : PublishError
  self_approval_creator self_approval_forbidden publish_race_conflict : PublishError

pub data Outcome : Type 0 where
  raised : PublishError → Outcome
  returned : PublishResult → Store → Outcome

-- get_by_uuid, of the repository
unfoldable pub get_by_uuid : List FactorRow → Uuid → Uuid → Option FactorRow
get_by_uuid [] tenant_id factor_uuid = none
get_by_uuid (f ∷ fs) tenant_id factor_uuid =
    if f.tenant_id == tenant_id && f.id == factor_uuid
    then some f
    else get_by_uuid fs tenant_id factor_uuid

abbrev pub is_pending : Decision → Bool
is_pending pending = true
is_pending approved = false
is_pending rejected = false

-- The WHERE clause of the pending approval.
abbrev pub is_open : Uuid → Uuid → Approval → Bool
is_open tenant_id factor_id a =
    a.factor_id == factor_id && a.tenant_id == tenant_id && is_pending a.decision

unfoldable pub find_open : List Approval → Uuid → Uuid → Option Approval
find_open [] tenant_id factor_id = none
find_open (a ∷ rest) tenant_id factor_id =
    if is_open tenant_id factor_id a then some a else find_open rest tenant_id factor_id

abbrev pub is_none {ℓ} : {A : Type ℓ} → Option A → Bool
is_none none = true
is_none (some a) = false

-- `_assert_publishable`
unfoldable pub assert_publishable : FactorRow → Option PublishError
assert_publishable f =
    if f.is_tbc
    then some factor_tbc
    else if is_none f.value && not f.is_licence_only
    then some factor_null_value
    else none

-- The rows that the conditional UPDATE matches, and what it writes.
abbrev pub is_draft : FactorRow → UserContext → FactorRow → Bool
is_draft factor user f = f.id == factor.id && f.tenant_id == user.tenant_id && not f.is_published

abbrev pub set_published : UserContext → ℕ → FactorRow → FactorRow
set_published user now f = record f {
  is_published = true;
  published_by = some user.sub;
  published_at = some now;
}

unfoldable pub update_drafts : FactorRow → UserContext → ℕ → List FactorRow → List FactorRow
update_drafts factor user now =
    map (λ f. if is_draft factor user f then set_published user now f else f)

-- The approval row is the object that was read; its id picks the row.
unfoldable pub approve : Uuid → UserContext → ℕ → List Approval → List Approval
approve approval_id user now = map (λ (a : Approval).
    if a.id == approval_id
    then record a { decision = approved; approved_by = some user.sub; approved_at = some now }
    else a)

-- str(created_by) == user.sub, where it is not null
abbrev pub is_user : Option Uuid → UserContext → Bool
is_user none user = false
is_user (some u) user = u == user.sub

-- `_do_publish`, on the rows as they are when the UPDATE runs
unfoldable pub do_publish : Store → FactorRow → UserContext → Approval → ℕ → Outcome
do_publish s factor user approval now =
    if is_user factor.created_by user
    then raised self_approval_creator
    else if count_if (is_draft factor user) s.factors == 1
    then returned (published (set_published user now factor)) (record {
      factors = update_drafts factor user now s.factors;
      approvals = approve approval.id user now s.approvals;
      audit =
          (record {
            tenant_id = user.tenant_id;
            action = factor_published;
            resource_id = factor.id;
            status_code = 200;
            user_sub = user.sub;
            approval_id = approval.id;
          })
          ∷ s.audit;
    })
    else raised publish_race_conflict

-- State 1: the new PENDING row, and its audit entry.
unfoldable pub request_approval : Store → FactorRow → UserContext → Uuid → String → Outcome
request_approval s factor user new_id reason_code = returned (approval_requested new_id) (record s {
  approvals =
      (record {
        id = new_id;
        tenant_id = user.tenant_id;
        factor_id = factor.id;
        proposed_by = user.sub;
        approved_by = none;
        approved_at = none;
        decision = pending;
        reason_code = reason_code;
      })
      ∷ s.approvals;
  audit =
      (record {
        tenant_id = user.tenant_id;
        action = factor_approval_requested;
        resource_id = factor.id;
        status_code = 202;
        user_sub = user.sub;
        approval_id = new_id;
      })
      ∷ s.audit;
})

-- States 1 to 3, by the open approval.
unfoldable pub decide :
    Store → FactorRow → UserContext → Uuid → String → ℕ → Option Approval → Outcome
decide s factor user new_id reason_code now none = request_approval s factor user new_id reason_code
decide s factor user new_id reason_code now (some a) =
    if a.proposed_by == user.sub
    then raised self_approval_forbidden
    else do_publish s factor user a now

unfoldable pub publish_row :
    Store → FactorRow → UserContext → Uuid → String → ℕ → Option PublishError → Outcome
publish_row s factor user new_id reason_code now (some e) = raised e
publish_row s factor user new_id reason_code now none =
    decide s factor user new_id reason_code now (find_open s.approvals user.tenant_id factor.id)

unfoldable pub publish_found : Store → UserContext → Uuid → String → ℕ → Option FactorRow → Outcome
publish_found s user new_id reason_code now none = raised factor_not_found
publish_found s user new_id reason_code now (some factor) =
    if factor.is_published
    then raised factor_already_published
    else publish_row s factor user new_id reason_code now (assert_publishable factor)

unfoldable pub publish :
    Store → (factor_uuid : Uuid) → (reason_code : String) → UserContext → (new_id now : ℕ) → Outcome
publish s factor_uuid reason_code user new_id now =
    publish_found s user new_id reason_code now (get_by_uuid s.factors user.tenant_id factor_uuid)
