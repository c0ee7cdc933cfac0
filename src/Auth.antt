-- ===== src/Auth.antt =====
-- modules/auth/domain: roles and access levels.
use cognitive_rag_system.Prelude.{Bool, true, false, Option, some, String}

-- models.py, `UserRole`
pub data UserRole : Type 0 where
  super_admin dept_admin member auditor : UserRole

-- The values of the enum, which are stored and compared.
abbrev pub role_value : UserRole → String
role_value super_admin = "SUPER_ADMIN"
role_value dept_admin = "DEPT_ADMIN"
role_value member = "MEMBER"
role_value auditor = "AUDITOR"

-- models.py, `AccessLevel`
pub data AccessLevel : Type 0 where
  public department confidential restricted : AccessLevel

-- The enum is a `str` enum: its value is the text that is stored and compared.
abbrev pub level_value : AccessLevel → String
level_value public = "PUBLIC"
level_value department = "DEPARTMENT"
level_value confidential = "CONFIDENTIAL"
level_value restricted = "RESTRICTED"

-- `user_role == UserRole.SUPER_ADMIN` for an optional role
abbrev pub is_super_admin : Option UserRole → Bool
is_super_admin (some super_admin) = true
is_super_admin _ = false

-- `user_role == UserRole.DEPT_ADMIN`
abbrev pub is_dept_admin : Option UserRole → Bool
is_dept_admin (some dept_admin) = true
is_dept_admin _ = false
