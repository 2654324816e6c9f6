-- ===== src/Candidate.antt =====
-- The validation of a provider's candidate against a request (app/services/media/validation.py, with
-- the records of app/services/media/models.py).
pub mod Records
pub mod Validate
pub mod Serves
pub mod Usable
pub mod Complete
mod Examples
