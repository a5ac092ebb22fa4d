-- ===== src/Access/Rbac/Viewer.antt =====
-- What the matrix allows, whatever is asked.
use ghg_tool.Prelude.{◌≡◌, refl, Bool, true, false, not, ◌&&◌, ◌||◌, String, str_eq, arith}
use ghg_tool.Prelude.Dict.{string_eq, lookup}
use ghg_tool.Prelude.Every.{every, All-every, lookup-entry, or_nothing}
use ghg_tool.Access.Rbac.{Roles, permission_matrix, has_role, roles_of, is_permitted}

-- The viewer's actions.
abbrev pub is_reading : String → Bool
is_reading action =
    str_eq action "read"
    || str_eq action "status"
    || str_eq action "login"
    || str_eq action "refresh"

-- The decisions that are the administrator's.
abbrev pub is_decision : String → Bool
is_decision action =
    str_eq action "publish"
    || str_eq action "approve"
    || str_eq action "waiver"
    || str_eq action "pdf"

abbrev separated : String → Roles → Bool
separated action roles =
    not (has_role "viewer" roles && not (is_reading action))
    && not (has_role "editor" roles && is_decision action)

roles_of-separated : (resource action : String) → separated action (roles_of resource action) ≡ true
unfolding roles_of
roles_of-separated resource action =
    let test : String × Roles → Bool = λ p. separated p.0 p.1 in
    lookup-entry (λ a roles. separated a roles ≡ true) (λ a. refl) action
      (or_nothing (lookup resource permission_matrix))
      (All-every test _ (
        lookup-entry (λ k actions. every test actions ≡ true) (λ k. refl) resource permission_matrix
          (All-every (λ p. every test p.1) permission_matrix refl)))

-- On any resource, known or not, the viewer is permitted no action but to read, to ask for a report's
-- status, to log in and to refresh; and the editor none of the administrator's decisions: to publish
-- or approve a factor, to waive a finding, to issue a report as PDF.
pub is_permitted-separated :
    (resource action : String)
    → ((is_permitted "viewer" resource action && not (is_reading action)) ≡ false)
      × ((is_permitted "editor" resource action && is_decision action) ≡ false)
unfolding is_permitted
is_permitted-separated resource action = (
  ground (arith, roles_of-separated resource action),
  ground (arith, roles_of-separated resource action),
)
