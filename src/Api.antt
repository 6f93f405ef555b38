-- ===== src/Api.antt =====
-- The HTTP API, api/lifecycle.go and the request rules of api/main.go: the submitted request in
-- `Submission`, the producer locators in `Locator`, the request rules in `Validate` and what they
-- ensure in `Accepted`, the handlers in `Submit` and `Read`, and their answers in `Answers`.
pub mod Locator
pub mod Submission
pub mod Validate
pub mod Accepted
pub mod Submit
pub mod Read
pub mod Answers
