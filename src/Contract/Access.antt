-- ===== src/Contract/Access.antt =====
-- The roles under the calls: the super-admin's key, and what a caller who is not authorised can do
-- with the roles.
pub mod Keys
pub mod Guarded
pub mod Tenure
pub mod Takeover
