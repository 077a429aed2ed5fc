-- ===== src/Attach/Prepare.antt =====
-- internal/attach/attach.go and archive.go: `Prepare`, what a model is sent of the files, and `unpack`.
use earful.Prelude.{
  List, length, is_nil, ◌∷◌, Option, if◌then◌else◌, ℕ, ltb, some, false, [], ◌++◌, eqb, ◌&&◌, ◌/◌,
  none, Bool, leb, ◌+◌, true, ◌||◌,
}
use earful.Attach.Types.{
  Readers, Member, ◌>>=◌, mime_pdf, Outcome, mime_png, mime_text, File, empty_file, nested, bomb,
  kind_zip, too_large, kind_jpeg, over_count, malicious, Kind, kind_text, refused, kind_pdf,
  unreadable, kind_png, Limits, over_total, mime_jpeg, accepted, refusal, Attachment,
  default_limits,
}
use earful.Runtime.{Runtime}
use earful.Attach.Names.{clean_name, ignored_member, member_name}
use earful.Attach.Identify.{with_name, identify, read_member}
use earful.Prelude.Text.{trim_space, Text}

-- `preparer`, less its limits.
pub record Preparer : Type 0 where
  pub out : List Attachment
  pub total : ℕ

abbrev pub byte_order_mark : ℕ
byte_order_mark = 0xfeff

unfoldable pub trim_mark : Text → Text
trim_mark [] = []
trim_mark (c ∷ s) = if eqb c byte_order_mark then s else c ∷ s

-- `expands`
unfoldable pub expands : ℕ → ℕ → ℕ → Bool
expands uncompressed compressed max =
    if eqb uncompressed 0
    then false
    else if eqb compressed 0
    then true
    else ltb max (uncompressed / compressed)

module _ ⦃u : Runtime⦄ ⦃r : Readers⦄ where
  -- The end of `convert`: the text that was read of a file, as an attachment.
  unfoldable pub as_text : Text → Text → Outcome Attachment
  unfolding trim_mark
  as_text name text =
      let t = trim_space (trim_mark text) in
      if is_nil t
      then refused (refusal empty_file name)
      else accepted (record { name = name; mime = mime_text; content = r.to_bytes t })

  -- `string(data)`, for data that `isText` has found valid.
  abbrev pub valid_text : Option Text → Text
  valid_text none = []
  valid_text (some t) = t

  unfoldable pub convert : Limits → Text → Kind → List ℕ → Outcome Attachment
  unfolding as_text
  convert lim name kind_pdf content =
      accepted (record { name = name; mime = mime_pdf; content = content })
  convert lim name kind_png content =
      accepted (record { name = name; mime = mime_png; content = content })
  convert lim name kind_jpeg content =
      accepted (record { name = name; mime = mime_jpeg; content = content })
  convert lim name kind_text content = as_text name (valid_text (r.runes content))
  convert lim name k content = do
    text ← with_name name (r.document_text lim k content)
    as_text name text

  -- The end of `add`, for a file that is no archive.
  unfoldable pub take_in : Limits → Preparer → Text → List ℕ → Kind → Outcome Preparer
  unfolding convert
  take_in lim p name content k =
      if leb lim.max_files (length p.out)
      then refused (refusal over_count name)
      else if ltb lim.max_total_bytes (p.total + length content)
      then refused (refusal over_total name)
      else (do
        a ← convert lim name k content
        accepted (record { out = p.out ++ a ∷ []; total = p.total + length content }))

  -- The start of `add`: the kind of a file that is not empty nor too large.
  unfoldable pub recognised : Limits → Text → List ℕ → Outcome Kind
  recognised lim name content =
      if is_nil content
      then refused (refusal empty_file name)
      else if ltb lim.max_file_bytes (length content)
      then refused (refusal too_large name)
      else identify name content

  -- `add` for a member of an archive, where `topLevel` is false.
  unfoldable pub add_member_kind : Limits → Preparer → Text → List ℕ → Kind → Outcome Preparer
  unfolding take_in
  add_member_kind lim p name content kind_zip = refused (refusal nested name)
  add_member_kind lim p name content k = take_in lim p name content k

  unfoldable pub add_member : Limits → Preparer → Text → List ℕ → Outcome Preparer
  unfolding add_member_kind recognised
  add_member lim p name content = do
    k ← recognised lim name content
    add_member_kind lim p name content k

  -- The body of the loop of `unpack`.
  unfoldable pub unpack_member : Limits → Text → Preparer → Member → Outcome Preparer
  unfolding add_member expands
  unpack_member lim name p f =
      let member = name ++ b'/' ∷ member_name f.name in
      if f.is_dir || ignored_member f.name
      then accepted p
      else if leb lim.max_files (length p.out)
      then refused (refusal over_count member)
      else if ltb lim.max_file_bytes f.uncompressed
      then refused (refusal too_large member)
      else if expands f.uncompressed f.compressed lim.max_ratio
      then refused (refusal bomb member)
      else (do
        content ← with_name member (read_member lim.max_file_bytes f)
        if expands (length content) f.compressed lim.max_ratio
            then refused (refusal bomb member)
            else add_member lim p member content)

  unfoldable pub unpack_members : Limits → Text → Preparer → List Member → Outcome Preparer
  unfolding unpack_member
  unpack_members lim name p [] = accepted p
  unpack_members lim name p (f ∷ fs) = do
    q ← unpack_member lim name p f
    unpack_members lim name q fs

  unfoldable pub unpack_opened : Limits → Text → Preparer → Option (List Member) → Outcome Preparer
  unfolding unpack_members
  unpack_opened lim name p none = refused (refusal unreadable name)
  unpack_opened lim name p (some fs) = unpack_members lim name p fs

  unfoldable pub unpack : Limits → Preparer → Text → List ℕ → Outcome Preparer
  unfolding unpack_opened
  unpack lim p name content = unpack_opened lim name p (r.unzip content)

  unfoldable pub add_kind : Limits → Preparer → Text → List ℕ → Kind → Outcome Preparer
  unfolding unpack take_in
  add_kind lim p name content kind_zip = unpack lim p name content
  add_kind lim p name content k = take_in lim p name content k

  -- `add` for a file that was uploaded, where `topLevel` is true.
  unfoldable pub add_file : Limits → Preparer → Text → List ℕ → Outcome Preparer
  unfolding add_kind recognised
  add_file lim p name content = do k ← recognised lim name content; add_kind lim p name content k

  -- `scan`, with a scanner or without one: a lookup that fails refuses nothing.
  unfoldable pub scan : Bool → Text → List ℕ → Outcome (Unit {0})
  scan scanning name content =
      if scanning && known (r.known_malicious content)
      then refused (refusal malicious name)
      else accepted tt
    where
      known : Option Bool → Bool
      known none = false
      known (some m) = m

  -- The loop of `Prepare`.
  unfoldable pub prepare_files : Limits → Bool → Preparer → List File → Outcome Preparer
  unfolding scan add_file
  prepare_files lim scanning p [] = accepted p
  prepare_files lim scanning p (f ∷ fs) = do
    _ ← scan scanning (clean_name f.name) f.content
    q ← add_file lim p (clean_name f.name) f.content
    prepare_files lim scanning q fs

  -- `opts.Limits`, or the defaults for its zero value.
  unfoldable pub given_limits : Limits → Limits
  given_limits lim =
      if eqb lim.max_files 0
        && eqb lim.max_file_bytes 0
        && eqb lim.max_total_bytes 0
        && eqb lim.max_ratio 0
        && eqb lim.max_document_xml_bytes 0
      then default_limits
      else lim

  unfoldable pub prepare : Limits → Bool → List File → Outcome (List Attachment)
  unfolding prepare_files given_limits
  prepare lim scanning files = do
    p ← prepare_files (given_limits lim) scanning (record { out = []; total = 0 }) files
    accepted p.out
