-- ===== src/Managed.antt =====
-- The managed authorization of one analysis plan: protocol/policy.py (Policy), protocol/plan.py
-- (Plan), protocol/authorization.py (Records) and shared/plan_validation.py (Validation, Validate,
-- Verify). The other modules are about these: Stops, Questions, Rules, Grounds and Validated about
-- `validate_plan`, Authorized and Fresh about authorizations.
mod Tests
pub mod Json
pub mod Policy
pub mod Plan
pub mod Records
pub mod Validation
pub mod Validate
pub mod Verify
pub mod Stops
pub mod Questions
pub mod Rules
pub mod Grounds
pub mod Validated
pub mod Authorized
pub mod Fresh
