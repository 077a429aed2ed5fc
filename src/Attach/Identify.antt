-- ===== src/Attach/Identify.antt =====
-- internal/attach/attach.go and archive.go: `identify`, what a file is, by its name and by its content.
use earful.Prelude.{
  List, [], ◌||◌, Option, contains, false, Bool, if◌then◌else◌, length, ◌∷◌, not, true, ◌&&◌, ltb,
  some, none, is_nil, ℕ, ◌==◌, nat_eq, list_eq, bool_eq,
}
use earful.Attach.Types.{
  Readers, Member, kind_odt, refused, kind_odp, unreadable, kind_html, kind_zip, kind_pdf, accepted,
  kind_xlsx, kind_docx, kind_jpeg, Kind, wrong_type, kind_text, kind_png, legacy, Outcome,
  kind_pptx, kind_svg, refusal, bomb, ◌>>=◌,
}
use earful.Runtime.{to_lower, Runtime, equal_fold}
use earful.Attach.Names.{extension}
use earful.Domain.Answer.{is_none}
use earful.Prelude.Text.{codes, Text, has_prefix, trim_space, contains_text}

abbrev member_of : Text → List Text → Bool
member_of s texts = contains texts s

-- `byExtension`, the allowlist.
unfoldable pub by_extension : Text → Option Kind
by_extension ext =
    if member_of ext (codes "txt" ∷ codes "md" ∷ codes "csv" ∷ [])
    then some kind_text
    else if member_of ext (codes "html" ∷ codes "htm" ∷ [])
    then some kind_html
    else if ext == codes "svg"
    then some kind_svg
    else if ext == codes "pdf"
    then some kind_pdf
    else if ext == codes "png"
    then some kind_png
    else if member_of ext (codes "jpg" ∷ codes "jpeg" ∷ [])
    then some kind_jpeg
    else if ext == codes "docx"
    then some kind_docx
    else if ext == codes "pptx"
    then some kind_pptx
    else if ext == codes "xlsx"
    then some kind_xlsx
    else if ext == codes "odt"
    then some kind_odt
    else if ext == codes "odp"
    then some kind_odp
    else if ext == codes "zip"
    then some kind_zip
    else none

-- `legacy`
unfoldable pub legacy_format : Text → Option Text
legacy_format ext =
    if ext == codes "doc"
    then some (codes "docx")
    else if ext == codes "ppt"
    then some (codes "pptx")
    else if ext == codes "xls"
    then some (codes "xlsx")
    else none

-- The loop of bytes.Contains.
unfoldable pub holds_bytes : List ℕ → List ℕ → Bool
holds_bytes bytes part = contains_text bytes part

-- What a member holds, read up to a limit and one byte more.
unfoldable pub read_member : ℕ → Member → Outcome (List ℕ)
read_member max f =
    if not f.opens
    then refused (refusal unreadable [])
    else if ltb max (length f.bytes)
    then refused (refusal bomb [])
    else if f.broken
    then refused (refusal unreadable [])
    else accepted f.bytes

-- `withName`: every failure of the package's own is a refusal.
abbrev pub with_name {ℓ} : {A : Type ℓ} → Text → Outcome A → Outcome A
with_name name (accepted a) = accepted a
with_name name (refused r) = refused (if is_nil r.name then record r { name = name } else r)

abbrev pub same_kind : Kind → Kind → Bool
same_kind kind_docx kind_docx = true
same_kind kind_pptx kind_pptx = true
same_kind kind_xlsx kind_xlsx = true
same_kind kind_odt kind_odt = true
same_kind kind_odp kind_odp = true
same_kind _ _ = false

module _ ⦃u : Runtime⦄ ⦃r : Readers⦄ where
  unfoldable pub find_part : Text → List Member → Option Member
  find_part name [] = none
  find_part name (f ∷ fs) =
      let rest = find_part name fs in if equal_fold f.name name then some f else rest

  kind_of_mimetype : Text → Kind
  kind_of_mimetype t =
      if t == codes "application/vnd.oasis.opendocument.text"
      then kind_odt
      else if t == codes "application/vnd.oasis.opendocument.presentation"
      then kind_odp
      else kind_zip

  abbrev pub text_or_none : Option Text → Text
  text_or_none none = []
  text_or_none (some t) = t

  by_main_part : List Member → Kind
  unfolding find_part
  by_main_part fs =
      if is_none (find_part (codes "[Content_Types].xml") fs)
      then kind_zip
      else if not (is_none (find_part (codes "word/document.xml") fs))
      then kind_docx
      else if not (is_none (find_part (codes "ppt/presentation.xml") fs))
      then kind_pptx
      else if not (is_none (find_part (codes "xl/workbook.xml") fs))
      then kind_xlsx
      else kind_zip

  by_mimetype : List Member → Option Member → Outcome Kind
  unfolding read_member kind_of_mimetype by_main_part
  by_mimetype fs none = accepted (by_main_part fs)
  by_mimetype fs (some f) = do
    mimetype ← read_member 256 f
    accepted (kind_of_mimetype (trim_space (text_or_none (r.runes mimetype))))

  members_kind : Option (List Member) → Outcome Kind
  unfolding by_mimetype
  members_kind none = refused (refusal unreadable [])
  members_kind (some fs) = by_mimetype fs (find_part (codes "mimetype") fs)

  -- `containerKind`
  unfoldable pub container_kind : List ℕ → Outcome Kind
  unfolding members_kind
  container_kind content = members_kind (r.unzip content)

  no_controls : Text → Bool
  no_controls [] = true
  no_controls (c ∷ s) =
      (not (r.is_control c) || contains (10 ∷ 13 ∷ 9 ∷ 12 ∷ []) c) && no_controls s

  valid_runes : Option Text → Bool
  unfolding no_controls
  valid_runes none = false
  valid_runes (some t) = no_controls t

  -- `isText`
  unfoldable pub is_text : Text → List ℕ → Bool
  unfolding valid_runes
  is_text sniffed content = has_prefix sniffed (codes "text/") && valid_runes (r.runes content)

  -- Whether the content is of the kind that the name claims, for the kinds that are no containers.
  unfoldable pub is_claimed : Kind → List ℕ → Bool
  unfolding is_text
  is_claimed kind_pdf content = r.sniff content == codes "application/pdf"
  is_claimed kind_png content = r.sniff content == codes "image/png"
  is_claimed kind_jpeg content = r.sniff content == codes "image/jpeg"
  is_claimed kind_text content = is_text (r.sniff content) content
  is_claimed kind_html content = is_text (r.sniff content) content
  is_claimed kind_svg content =
      is_text (r.sniff content) content && holds_bytes content (codes "<svg")
  is_claimed _ content = r.sniff content == codes "application/zip"

  abbrev pub is_document : Kind → Bool
  is_document k = same_kind k k

  unfoldable pub check_claimed : Text → List ℕ → Kind → Outcome Kind
  unfolding is_claimed
  check_claimed name content claimed =
      if not (is_claimed claimed content)
      then refused (refusal wrong_type name)
      else if not (is_document claimed)
      then accepted claimed
      else (do
        inside ← with_name name (container_kind content)
        if same_kind inside claimed then accepted claimed else refused (refusal wrong_type name))

  unfoldable pub check_extension : Text → List ℕ → Option Kind → Outcome Kind
  unfolding check_claimed
  check_extension name content none = refused (refusal wrong_type name)
  check_extension name content (some claimed) = check_claimed name content claimed

  unfoldable pub check_legacy : Text → List ℕ → Text → Option Text → Outcome Kind
  unfolding check_extension
  check_legacy name content ext (some modern) =
      refused (record { reason = legacy; name = name; modern = modern })
  check_legacy name content ext none = check_extension name content (by_extension ext)

  unfoldable pub identify : Text → List ℕ → Outcome Kind
  unfolding check_legacy
  identify name content =
      let ext = to_lower (text_or_none (extension name)) in
      check_legacy name content ext (legacy_format ext)
