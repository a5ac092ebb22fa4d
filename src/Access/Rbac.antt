-- ===== src/Access/Rbac.antt =====
-- infrastructure/security/rbac.py: the permission matrix.
pub mod Viewer
use ghg_tool.Prelude.{Bool, true, false, ◌||◌, String, Option, none, some, List, [], ◌∷◌, str_eq}
use ghg_tool.Prelude.Every.{or_nothing}
use ghg_tool.Prelude.Dict.{Dict, string_eq, lookup}

abbrev pub Roles : Type 0
Roles = List String

abbrev everyone : Roles
everyone = "editor" ∷ "admin" ∷ "viewer" ∷ []

abbrev editors : Roles
editors = "editor" ∷ []

abbrev admins : Roles
admins = "admin" ∷ []

abbrev writers : Roles
writers = "editor" ∷ "admin" ∷ []

abbrev pub permission_matrix : Dict String (Dict String Roles)
permission_matrix =
    ("emissions", ("read", everyone) ∷ ("write", editors) ∷ ("correct", writers) ∷ [])
    ∷ ("kpis", ("read", everyone) ∷ [])
    ∷ ("audit_trail", ("read", "admin" ∷ "viewer" ∷ []) ∷ [])
    ∷ (
      "factor_catalog",
      ("read", everyone) ∷ ("write", editors) ∷ ("publish", admins) ∷ ("approve", admins) ∷ [],
    )
    ∷ ("dq_findings", ("read", everyone) ∷ ("waiver", admins) ∷ [])
    ∷ ("go_certificates", ("read", everyone) ∷ ("write", editors) ∷ ("validate", editors) ∷ [])
    ∷ ("intensity", ("read", everyone) ∷ [])
    ∷ ("reports", ("pdf", admins) ∷ ("excel", writers) ∷ ("status", everyone) ∷ [])
    ∷ ("auth", ("login", everyone) ∷ ("refresh", everyone) ∷ [])
    ∷ ("users", ("read", admins) ∷ ("write", admins) ∷ [])
    ∷ ("reconciliation", ("read", everyone) ∷ ("write", admins) ∷ [])
    ∷ ("sbti_targets", ("read", everyone) ∷ ("write", admins) ∷ [])
    ∷ ("raw_ingestions", ("import", writers) ∷ [])
    ∷ ("chart_annotations", ("read", everyone) ∷ ("write", writers) ∷ [])
    ∷ ("sites", ("read", everyone) ∷ [])
    ∷ []

abbrev pub has_role : String → Roles → Bool
has_role role [] = false
has_role role (r ∷ roles) = str_eq role r || has_role role roles

-- The roles of an action on a resource, none where either is unknown.
unfoldable pub roles_of : (resource action : String) → Roles
roles_of resource action =
    or_nothing (lookup action (or_nothing (lookup resource permission_matrix)))

unfoldable pub is_permitted : (role resource action : String) → Bool
is_permitted role resource action = has_role role (roles_of resource action)
