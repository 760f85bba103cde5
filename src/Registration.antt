-- ===== src/Registration.antt =====
-- pkg/registration: the registration of a tenant, with pkg/locale.
pub mod Slug
pub mod Locale
pub mod Ports
pub mod Request
pub mod Desk
pub mod Saga
pub mod Tests
