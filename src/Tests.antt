-- ===== src/Tests.antt =====
-- Runs of the model on concrete inputs, and the theorems applied to them.
mod Fixtures
mod Clients
mod Routing
mod Catalogs
mod Chat
mod Console
mod Manual
mod Screens
mod Arrivals
mod Journeys
mod Mirror
