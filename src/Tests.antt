-- ===== src/Tests.antt =====
-- The theorems at concrete inputs.
mod Data
mod Questions
mod Drafts
mod Words
mod Services
mod Tables
mod Publishing
mod Uploads
