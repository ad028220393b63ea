-- ===== src/Tests.antt =====
-- Concrete inputs on which the theorems are applied, one module for each part of the program.
mod Query
mod Charset
mod Storage
mod Text
mod Scan
mod Bind
mod Catalog
mod Reports
