-- ===== src/Identity.antt =====
-- The identity domain, internal/domains/identity: users, tenants, logins and tokens.
pub mod User
pub mod UserDao
pub mod UserRepo
pub mod UserService
pub mod Tenant
pub mod TenantDao
pub mod TenantRepo
pub mod TenantService
pub mod Token
pub mod RefreshTokens
pub mod AuthService
pub mod Locked
pub mod Sample
mod Tests
