-- ===== src/Auth.antt =====
-- Authentication: the AuthManager of src/core and the AuthModel of src/models.
pub mod Manager
pub mod Model
pub mod Agreement
