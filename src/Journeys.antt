-- ===== src/Journeys.antt =====
-- What the parts of web/src do together: the login page, the clients, the pages behind the login, and the
-- middleware in front of the backend.
pub mod Routes
pub mod Access
