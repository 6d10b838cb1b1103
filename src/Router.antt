-- ===== src/Router.antt =====
-- The endpoints of the API: src/router/factory.py and src/router/v1.
pub mod Upload
pub mod Videos
pub mod Farm
pub mod Crud
pub mod Status
