-- ===== src/Services/FactorPublish/Ledger.antt =====
-- The approvals as a ledger: what every call keeps, and so every sequence of calls.
use ghg_tool.Prelude.{
  ℕ, ◌≤◌, ◌≡◌, ◌≢◌, refl, Bool, true, false, not, String, Option, none, some, List, [], ◌∷◌, ◌==◌,
  count_if, arith, All, Bool-cases, Option-cases, inl, inr, if◌then◌else◌,
}
use ghg_tool.Domain.Factor.{Uuid}
use ghg_tool.Services.FactorPublish.{
  FactorRow, Decision, pending, approved, rejected, Approval, Store, UserContext, PublishError,
  factor_already_published, Outcome, raised, get_by_uuid, is_open, find_open, assert_publishable,
  is_draft, approve, is_user, do_publish, request_approval, decide, publish_row, publish_found,
  publish,
}
use ghg_tool.Services.FactorPublish.Workflow.{state_of}

abbrev pub has_id : Uuid → Approval → Bool
has_id i a = a.id == i

abbrev pub two_eyed : Decision → Uuid → Option Uuid → Bool
two_eyed pending proposer approver = true
two_eyed rejected proposer approver = true
two_eyed approved proposer none = false
two_eyed approved proposer (some u) = not (proposer == u)

-- An approved row was approved by another user than its proposer.
abbrev pub is_two_eyed : Approval → Bool
is_two_eyed a = two_eyed a.decision a.proposed_by a.approved_by

-- The approvals are two-eyed, their ids differ, and a factor of a tenant has at most one open
-- request.
pub record IsSound (approvals : List Approval) : Type 0 where
  pub eyes : All (λ a. is_two_eyed a ≡ true) approvals
  pub ids : (i : Uuid) → count_if (has_id i) approvals ≤ 1
  pub single : (t f : Uuid) → count_if (is_open t f) approvals ≤ 1

find_open-count :
    (t f : Uuid) (rows : List Approval) (r : Approval)
    → find_open rows t f ≡ some r
    → 1 ≤ count_if (has_id r.id) rows
unfolding find_open
find_open-count t f [] r h = ground arith
find_open-count t f (a ∷ rows) r h = ground (arith, find_open-count t f rows r)

find_open-none :
    (t f : Uuid) (rows : List Approval)
    → find_open rows t f ≡ none
    → count_if (is_open t f) rows ≡ 0
unfolding find_open
find_open-none t f [] h = refl
find_open-none t f (a ∷ rows) h = ground (arith, find_open-none t f rows)

module _ (i : Uuid) (user : UserContext) (now : ℕ) where
  approve-absent :
      (rows : List Approval) → count_if (has_id i) rows ≡ 0 → approve i user now rows ≡ rows
  unfolding approve
  approve-absent [] h = refl
  approve-absent (a ∷ rows) h = ground (arith, approve-absent rows)

  approve-ids :
      (j : Uuid) (rows : List Approval)
      → count_if (has_id j) (approve i user now rows) ≡ count_if (has_id j) rows
  unfolding approve
  approve-ids j [] = refl
  approve-ids j (a ∷ rows) = ground (arith, approve-ids j rows)

  approve-single :
      (t f : Uuid) (rows : List Approval)
      → count_if (is_open t f) (approve i user now rows) ≤ count_if (is_open t f) rows
  unfolding approve
  approve-single t f [] = omega arith
  approve-single t f (a ∷ rows) = ground (arith, approve-single t f rows)

approve-eyes :
    (user : UserContext) (now : ℕ) (t f : Uuid) (rows : List Approval) (r : Approval)
    → find_open rows t f ≡ some r
    → r.proposed_by ≢ user.sub
    → count_if (has_id r.id) rows ≤ 1
    → All (λ a. is_two_eyed a ≡ true) rows
    → All (λ a. is_two_eyed a ≡ true) (approve r.id user now rows)
unfolding approve find_open
approve-eyes user now t f [] r h d c e = tt
approve-eyes user now t f (a ∷ rows) r h d c e = elim (Bool-cases (is_open t f a)) [
  | inl here ↦
      let none_later : count_if (has_id r.id) rows ≡ 0 = ground arith in
      ((ground (arith, e.0)), rw (approve-absent r.id user now rows none_later) e.1)
  | inr later ↦
      let found : find_open rows t f ≡ some r = ground arith in
      let once : count_if (has_id r.id) rows ≤ 1 = ground arith in
      (
        (ground (arith, e.0, find_open-count t f rows r found)),
        approve-eyes user now t f rows r found d once e.1,
      )
]

not_same : (a b : ℕ) → (a == b) ≡ false → a ≡ b → ⊥
not_same a b h e = ground arith

module _ (user : UserContext) (new_id now : ℕ) (reason : String) where
  request-IsSound :
      (s : Store) (factor : FactorRow)
      → find_open s.approvals user.tenant_id factor.id ≡ none
      → count_if (has_id new_id) s.approvals ≡ 0
      → IsSound s.approvals
      → IsSound (state_of s (request_approval s factor user new_id reason)).approvals
  unfolding request_approval
  request-IsSound s factor nobody fresh sound = record {
    eyes = (refl, sound.eyes);
    ids = λ i. ground (arith, sound.ids i);
    single = λ t f.
        ground
          (arith, sound.single t f, find_open-none user.tenant_id factor.id s.approvals nobody);
  }

  do_publish-IsSound :
      (s : Store) (factor : FactorRow) (t f : Uuid) (r : Approval)
      → find_open s.approvals t f ≡ some r
      → r.proposed_by ≢ user.sub
      → IsSound s.approvals
      → IsSound (state_of s (do_publish s factor user r now)).approvals
  unfolding do_publish
  do_publish-IsSound s factor t f r found other sound =
      let after : IsSound (approve r.id user now s.approvals) = record {
        eyes = approve-eyes user now t f s.approvals r found other (sound.ids r.id) sound.eyes;
        ids = λ i. rw (approve-ids r.id user now i s.approvals) (sound.ids i);
        single =
            λ u g. omega (arith, approve-single r.id user now u g s.approvals, sound.single u g);
      } in
      elim (Bool-cases (is_user factor.created_by user)) [
        | inl creator ↦ rw creator sound
        | inr stranger ↦
            rw stranger (elim (Bool-cases (count_if (is_draft factor user) s.factors == 1)) [
              | inl only ↦ rw only after
              | inr race ↦ rw race sound
            ])
      ]

  decide-IsSound :
      (s : Store) (factor : FactorRow)
      → count_if (has_id new_id) s.approvals ≡ 0
      → IsSound s.approvals
      → IsSound
          (state_of s (
            decide s factor user new_id reason now
              (find_open s.approvals user.tenant_id factor.id))).approvals
  unfolding decide
  decide-IsSound s factor fresh sound =
      elim (Option-cases (find_open s.approvals user.tenant_id factor.id)) [
        | inl nobody ↦ rw nobody (request-IsSound s factor nobody fresh sound)
        | inr (r, found) ↦ rw found (elim (Bool-cases (r.proposed_by == user.sub)) [
          | inl own ↦ rw own sound
          | inr other ↦ rw other (
              do_publish-IsSound s factor user.tenant_id factor.id r found
                (not_same r.proposed_by user.sub other) sound)
        ])
      ]

  guard-IsSound :
      (s : Store) (b : Bool) (e : PublishError) (m : Outcome)
      → IsSound s.approvals
      → IsSound (state_of s m).approvals
      → IsSound (state_of s (if b then raised e else m)).approvals
  guard-IsSound s true e m sound h = sound
  guard-IsSound s false e m sound h = h

  publish_row-IsSound :
      (s : Store) (factor : FactorRow) (unfit : Option PublishError)
      → count_if (has_id new_id) s.approvals ≡ 0
      → IsSound s.approvals
      → IsSound (state_of s (publish_row s factor user new_id reason now unfit)).approvals
  unfolding publish_row
  publish_row-IsSound s factor none fresh sound = decide-IsSound s factor fresh sound
  publish_row-IsSound s factor (some e) fresh sound = sound

  publish-IsSound :
      (s : Store) (factor_uuid : Uuid)
      → count_if (has_id new_id) s.approvals ≡ 0
      → IsSound s.approvals
      → IsSound (state_of s (publish s factor_uuid reason user new_id now)).approvals
  unfolding publish publish_found
  publish-IsSound s factor_uuid fresh sound =
      elim (Option-cases (get_by_uuid s.factors user.tenant_id factor_uuid)) [
        | inl missing ↦ rw missing sound
        | inr (factor, found) ↦ rw found (
            guard-IsSound s factor.is_published factor_already_published _ sound
              (publish_row-IsSound s factor (assert_publishable factor) fresh sound))
      ]

-- One request to the service.
pub record Call : Type 0 where
  pub factor_uuid : Uuid
  pub reason_code : String
  pub user : UserContext
  pub new_id : Uuid
  pub now : ℕ

abbrev pub after_call : Store → Call → Store
after_call s c = state_of s (publish s c.factor_uuid c.reason_code c.user c.new_id c.now)

abbrev pub serve : Store → List Call → Store
serve s [] = s
serve s (c ∷ calls) = serve (after_call s c) calls

-- Each call's uuid4 is new when the call is made.
abbrev pub AreFresh : Store → List Call → Type 0
AreFresh s [] = Unit
AreFresh s (c ∷ calls) =
    (count_if (has_id c.new_id) s.approvals ≡ 0) × AreFresh (after_call s c) calls

-- Whatever calls are made, in any order and by any users, if the ids drawn are new and the approvals
-- were sound at the start, they are sound at the end: every approved row was approved by another user
-- than its proposer, the ids differ, and each factor of a tenant has at most one open request.
pub serve-IsSound :
    (s : Store) (calls : List Call)
    → AreFresh s calls
    → IsSound s.approvals
    → IsSound (serve s calls).approvals
serve-IsSound s [] fresh sound = sound
serve-IsSound s (c ∷ calls) fresh sound =
    serve-IsSound (after_call s c) calls fresh.1
      (publish-IsSound c.user c.new_id c.now c.reason_code s c.factor_uuid fresh.0 sound)
