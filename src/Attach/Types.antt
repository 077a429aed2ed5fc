-- ===== src/Attach/Types.antt =====
-- internal/attach/attach.go: limits, refusals and kinds of files, and what comes from outside of the
-- package's own reading.
use earful.Prelude.{List, [], Option, ℕ, Bool}
use earful.Prelude.Text.{Text}

-- `Limits`; the program sets none below zero.
pub record Limits : Type 0 where
  pub max_files : ℕ
  pub max_file_bytes : ℕ
  pub max_total_bytes : ℕ
  pub max_ratio : ℕ
  pub max_document_xml_bytes : ℕ

abbrev pub default_limits : Limits
default_limits = record {
  max_files = 20;
  max_file_bytes = 5242880;
  max_total_bytes = 10485760;
  max_ratio = 100;
  max_document_xml_bytes = 67108864;
}

pub record File : Type 0 where
  pub name : Text
  pub content : List ℕ

pub data Reason : Type 0 where
  wrong_type legacy too_large over_total over_count nested bomb unreadable empty_file : Reason
  malicious : Reason

-- `Error`
pub record Refusal : Type 0 where
  pub reason : Reason
  pub name : Text
  pub modern : Text

abbrev pub refusal : Reason → Text → Refusal
refusal reason name = record { reason = reason; name = name; modern = [] }

-- A step that refuses a file, or goes on.
pub data Outcome {ℓ} (A : Type ℓ) : Type ℓ where
  refused : Refusal → Outcome A
  accepted : A → Outcome A

infixl 5 ◌>>=◌
abbrev pub ◌>>=◌ {ℓ κ} : {A : Type ℓ} {B : Type κ} → Outcome A → (A → Outcome B) → Outcome B
refused r >>= f = refused r
accepted a >>= f = f a

pub data Kind : Type 0 where
  kind_text kind_html kind_svg kind_pdf kind_png kind_jpeg : Kind
  kind_docx kind_pptx kind_xlsx kind_odt kind_odp kind_zip : Kind

-- The media types of ai.Attachment.
pub data Mime : Type 0 where
  mime_text mime_pdf mime_png mime_jpeg : Mime

pub record Attachment : Type 0 where
  pub name : Text
  pub mime : Mime
  pub content : List ℕ

-- zip.File: the sizes that its header declares, and what a reader of it yields: nothing if it does not
-- open, otherwise bytes, with an error behind the last one if it is broken.
pub record Member : Type 0 where
  pub name : Text
  pub is_dir : Bool
  pub uncompressed : ℕ
  pub compressed : ℕ
  pub opens : Bool
  pub bytes : List ℕ
  pub broken : Bool

-- What the package calls of other code: http.DetectContentType, utf8.Valid with the runes of a valid
-- text, the bytes of a text, unicode.IsControl, path.Clean, the members of a zip archive, the scanner
-- of known files (none is a failed lookup), and the readers of text of extract.go, which parse HTML
-- and XML.
pub record Readers : Type 0 where
  pub sniff : List ℕ → Text
  pub runes : List ℕ → Option Text
  pub to_bytes : Text → List ℕ
  pub is_control : ℕ → Bool
  pub clean_path : Text → Text
  pub unzip : List ℕ → Option (List Member)
  pub known_malicious : List ℕ → Option Bool
  pub document_text : Limits → Kind → List ℕ → Outcome Text
