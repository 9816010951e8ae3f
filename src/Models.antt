-- ===== src/Models.antt =====
-- The rows that the services read and write: the columns of libs/drogon-pay/src/models that they
-- use, and sql/001_init_pay_tables.sql. A status column holds a text; the services write only the
-- texts named here, so each status is a data type with one constructor for each text.
pub mod Status
pub mod Tables
pub mod Members
pub mod Lifecycle
