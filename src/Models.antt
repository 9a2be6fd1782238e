-- ===== src/Models.antt =====
-- app/models: one record for each table, and the world that the services act on.
-- Ids, token hashes and salts are texts that the code only compares: they are numbers, and 0 is the
-- empty text. Times are microseconds since some start, all in UTC. Amounts are whole cents,
-- confidences ten-thousandths and job progress hundredths, since the code has no finer values.
-- The columns `updated_at`, which nothing modelled reads, are left out.
pub mod Account
pub mod Audit
pub mod JobRow
pub mod Tax
pub mod World
pub mod Leads
