-- ===== src/Tenancy/Permissions.antt =====
-- modules/tenancy/permissions.py: the catalogue of actions, and the sets that a context starts from.
use ragz.Prelude.{not, String, List, [], ◌∷◌, str_elem, select_where}

-- `PERMISSIONS`
unfoldable pub permissions : List String
permissions =
    "workspace.read" ∷ "workspace.create" ∷ "workspace.configure" ∷ "workspace.reembed"
    ∷ "workspace.members.read" ∷ "workspace.members.manage" ∷ "workspace.metadata.manage"
    ∷ "documents.list" ∷ "documents.content.read" ∷ "documents.upload" ∷ "documents.metadata.update"
    ∷ "documents.move" ∷ "documents.pin" ∷ "documents.delete" ∷ "documents.acl.manage"
    ∷ "documents.acl.bypass" ∷ "documents.approve" ∷ "folders.read" ∷ "folders.create"
    ∷ "folders.update" ∷ "folders.delete" ∷ "search.execute" ∷ "chat.read" ∷ "chat.generate"
    ∷ "chat.update" ∷ "chat.attachments.create" ∷ "chat.delete" ∷ "chat.feedback" ∷ "users.read"
    ∷ "users.invite" ∷ "users.activate" ∷ "users.role.assign" ∷ "groups.read" ∷ "groups.manage"
    ∷ "roles.read" ∷ "roles.author" ∷ "roles.assign" ∷ "audit.read" ∷ "audit.export" ∷ "models.read"
    ∷ "models.manage" ∷ "secrets.manage" ∷ "sso.manage" ∷ "integrations.manage" ∷ "api_keys.manage"
    ∷ "quota.read" ∷ "quota.manage" ∷ "analytics.view" ∷ "feedback.review" ∷ "evals.read"
    ∷ "evals.manage" ∷ "evals.run" ∷ "platform.health" ∷ "platform.orgs.manage" ∷ "settings.manage"
    ∷ "client_errors.report" ∷ "reports.view.self" ∷ "reports.view.department" ∷ "reports.view.org"
    ∷ "reports.view.platform" ∷ "chat.use" ∷ []

-- `DEFAULT_USER_PERMISSIONS`
unfoldable pub default_user_permissions : List String
default_user_permissions =
    "workspace.read" ∷ "documents.list" ∷ "documents.content.read" ∷ "search.execute" ∷ "chat.read"
    ∷ "chat.generate" ∷ "reports.view.self" ∷ []

-- `_AUTOMATIC_CARVE_OUTS`: what no tier holds without a role template.
unfoldable pub automatic_carve_outs : List String
automatic_carve_outs = "documents.acl.bypass" ∷ "audit.read" ∷ "audit.export" ∷ []

-- Difference of sets.
unfoldable pub without : List String → List String → List String
without xs ys = select_where (λ x. not (str_elem x ys)) xs
