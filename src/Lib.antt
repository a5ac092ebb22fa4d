-- ===== src/Lib.antt =====
-- Verification library of the GHG accounting tool: greenhouse-gas emissions of a plant by the GHG
-- Protocol's scopes, the SBTi target assessment, and the services that guard their inputs.
--
-- The parts and the files that model them (paths from the repository's root):
-- - Decimal: Python's decimal.Decimal under the default context, 28 digits, ties to even.
-- - Result: exceptions as values (src/ghg_tool/domain/exceptions/calc_errors.py).
-- - Domain: the emission record, factor records and the catalog port, GWP sets and their policy, the
--   SBTi target (src/ghg_tool/domain). `post_init` is a class's `__post_init__`.
-- - Calc: the sixteen calculations (src/ghg_tool/application/calc), a module each, with `calculate` and
--   its helpers under the source's names, and Calc.Orchestrator for
--   src/ghg_tool/application/services/calc_orchestrator.py, whose `run` makes the calls in order,
--   feeds the sums of Scope 1 and Scope 2 to Category 3 and checks the GWP set of the rows.
--   Calc.Returns says when each of them returns.
-- - Services.Sbti: src/ghg_tool/application/services/sbti_service.py.
-- - Services.YoyStats and Services.Hotspot: src/ghg_tool/application/services/yoy_stats.py and
--   hotspot_service.py beside it; the second uses the first for its thresholds.
-- - Services.Reconciliation: src/ghg_tool/application/services/reconciliation_service.py, with the
--   frozen totals of src/ghg_tool/api/routers/reconciliation.py; Services.Sbti.Coverage: what
--   src/ghg_tool/api/routers/sbti.py loads for a target; Services.Intensity:
--   src/ghg_tool/application/services/intensity_service.py with
--   src/ghg_tool/domain/entities/intensity_metric.py; Services.Recalculation:
--   src/ghg_tool/application/services/recalculation_policy.py.
-- - Services.Idempotency: src/ghg_tool/application/services/idempotency_service.py, on the table of
--   alembic/versions/0026_M6_site_type_country_directentry_idempotency.py.
-- - Services.FactorPublish: src/ghg_tool/application/services/factor_publish_service.py, on the rows it
--   reads and writes.
-- - Access: who may call, and how often. Access.RateLimit is src/ghg_tool/api/middleware/rate_limit.py,
--   Access.SessionCheck session_check.py beside it; Access.Redis is
--   src/ghg_tool/infrastructure/redis_client.py; Access.Tokens, Access.Blacklist and Access.Rbac are
--   jwt.py, token_blacklist.py and rbac.py of src/ghg_tool/infrastructure/security; Access.Sessions is
--   src/ghg_tool/application/services/session_service.py with src/ghg_tool/api/routers/sessions.py;
--   Access.CurrentUser is src/ghg_tool/api/dependencies/auth.py with the guards of
--   src/ghg_tool/api/middleware/rbac.py; Access.Users and Access.Auth are
--   src/ghg_tool/api/routers/auth.py with src/ghg_tool/application/services/auth_service.py, and
--   Access.Totp is totp.py beside it, whose challenge completes a login with a second factor and whose
--   routes run as the steps of a sequence of calls. A request passes the rate limiter and the session
--   check before its user is read; login, refresh and logout write the sessions and the blacklist that
--   the other two read.
-- - Prelude: shared names, lists, dictionaries, sorting and text; Tests: concrete inputs.
--
-- A calculation takes the factor catalog and the GWP table as records of operations, as the source
-- takes ports; the clock is an argument, and so are the draws of the seeded generator of Category 6,
-- the digest of an idempotency key, the mean and deviation of floats, the package that signs tokens, a
-- store like Redis with its documented laws, the package pyotp with its window, and bcrypt. Nothing
-- runs on fuel but the count of a number's digits, whose fuel is the number itself: each step divides
-- it by ten. Text functions know the letters and blanks of ASCII. The notes of a record keep their
-- pieces; how a number is printed is left open.
--
-- Not modelled: the database, the HTTP layer beyond the parts above, the user interface, the ETL and
-- the other services; logging and SIEM events; exponent limits, infinities and NaN of decimals.
pub mod Prelude
pub mod Decimal
pub mod Result
pub mod Domain
pub mod Calc
pub mod Access
pub mod Services
pub mod Tests
