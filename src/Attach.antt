-- ===== src/Attach.antt =====
-- internal/attach: the files that a creator uploads with a prompt, as attachments that a model reads.
pub mod Types
pub mod Names
pub mod Identify
pub mod Prepare
pub mod Safe
pub mod Within
