-- ===== src/StyleImage.antt =====
-- internal/styleimage: what a picture's header says, before it is decoded.
pub mod Jpeg
pub mod Written
pub mod Ends
