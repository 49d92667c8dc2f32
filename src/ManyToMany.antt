-- ===== src/ManyToMany.antt =====
-- Lists of related rows and their updates: lib/api/helpers/UpdateManyToManyHelper.js, and the
-- teams of lib/users/users-team-service.js that it serves.
pub mod Delta
pub mod Team
