-- ===== src/Domain.antt =====
-- internal/domain: the entities of a survey and their rules.
pub mod Errors
pub mod Question
pub mod Answer
pub mod Thanks
pub mod Style
pub mod Language
pub mod Localization
pub mod Draft
pub mod Survey
pub mod StyleChoice
pub mod WorkspaceStyle
pub mod StyleLanguages
pub mod Publication
pub mod StyleForm
pub mod StyleRefresh
