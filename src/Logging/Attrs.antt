-- ===== src/Logging/Attrs.antt =====
-- internal/logging/scrub.go: `scrubAttr` and the handler that applies it, and that no value under a
-- sensitive key is passed on.
use mathlib.Core.List.{map-append}
use earful.Runtime.{Runtime, to_lower}
use earful.Prelude.{
  sym, false, ap, Bool, List, map, ◌≡◌, [], refl, ◌∷◌, if◌then◌else◌, ◌∙◌, ◌||◌, ◌++◌,
}
use earful.Prelude.Text.{Text, codes, contains_text}

-- slog.Attr: a key with a value that is not a group, whose text stands for it, or with a group.
mutual
  pub data Attr : Type 0 where
    value_of : Text → Text → Attr
    group_of : Text → Attrs → Attr

  pub data Attrs : Type 0 where
    no_attrs : Attrs
    attr : Attr → Attrs → Attrs

-- slog.Record, less the time, the level and the caller.
pub record LogRecord : Type 0 where
  pub text : Text
  pub attrs : Attrs

abbrev pub redacted : Text
redacted = codes "[REDACTED]"

abbrev pub sensitive_substrings : List Text
sensitive_substrings =
    codes "email"
    ∷ codes "token"
    ∷ codes "transcript"
    ∷ codes "answer"
    ∷ codes "password"
    ∷ codes "secret"
    ∷ codes "cookie"
    ∷ codes "authorization"
    ∷ codes "credential"
    ∷ codes "filename"
    ∷ codes "attachment"
    ∷ []

-- The loop of `isSensitiveKey`.
contains_any : Text → List Text → Bool
contains_any text [] = false
contains_any text (s ∷ ss) = contains_text text s || contains_any text ss

-- slog.GroupValue and Record.AddAttrs leave out groups of nothing.
unfoldable pub without_empty : Attrs → Attrs
without_empty no_attrs = no_attrs
without_empty (attr (group_of key no_attrs) rest) = without_empty rest
without_empty (attr (group_of key (attr a more)) rest) =
    attr (group_of key (attr a more)) (without_empty rest)
without_empty (attr (value_of key value) rest) = attr (value_of key value) (without_empty rest)

module _ ⦃u : Runtime⦄ where
  unfoldable pub is_sensitive_key : Text → Bool
  unfolding contains_any
  is_sensitive_key key = contains_any (to_lower key) sensitive_substrings

  unfoldable mutual
    pub scrub_attr : Attr → Attr
    scrub_attr (group_of key group) = group_of key (without_empty (scrub_attrs group))
    scrub_attr (value_of key value) =
        value_of key (if is_sensitive_key key then redacted else value)

    -- The loop over a group, over a record and over the attributes of `WithAttrs`.
    pub scrub_attrs : Attrs → Attrs
    scrub_attrs no_attrs = no_attrs
    scrub_attrs (attr a rest) = attr (scrub_attr a) (scrub_attrs rest)

  -- `Handle`: the record that the next handler is given.
  unfoldable pub handle : LogRecord → LogRecord
  handle r = record r { attrs = without_empty (scrub_attrs r.attrs) }

  -- `WithAttrs`: the attributes that the next handler is given.
  unfoldable pub with_attrs : Attrs → Attrs
  with_attrs attrs = scrub_attrs attrs

-- A value of a record, under its key and the keys of the groups around it.
pub record Leaf : Type 0 where
  pub groups : List Text
  pub key : Text
  pub value : Text

unfoldable mutual
  pub leaves_of : List Text → Attr → List Leaf
  leaves_of groups (value_of key value) = record { groups = groups; key = key; value = value } ∷ []
  leaves_of groups (group_of key group) = leaves (groups ++ key ∷ []) group

  pub leaves : List Text → Attrs → List Leaf
  leaves groups no_attrs = []
  leaves groups (attr a rest) = leaves_of groups a ++ leaves groups rest

leaves-without_empty :
    (groups : List Text) (more : Attrs) → leaves groups (without_empty more) ≡ leaves groups more
unfolding leaves without_empty
leaves-without_empty groups no_attrs = refl
leaves-without_empty groups (attr (group_of key no_attrs) rest) = leaves-without_empty groups rest
leaves-without_empty groups (attr (group_of key (attr a more)) rest) =
    ap (λ l. leaves (groups ++ key ∷ []) (attr a more) ++ l) (leaves-without_empty groups rest)
leaves-without_empty groups (attr (value_of key value) rest) =
    ap (λ l. record { groups = groups; key = key; value = value } ∷ l)
      (leaves-without_empty groups rest)

module _ ⦃u : Runtime⦄ where
  -- What may be written of a value: not the value itself, if its key is sensitive.
  unfoldable pub redact : Leaf → Leaf
  redact l = record l { value = if is_sensitive_key l.key then redacted else l.value }

  mutual
    unfolding leaves scrub_attr redact

    leaves_of-scrub_attr :
        (groups : List Text) (a : Attr)
        → leaves_of groups (scrub_attr a) ≡ map redact (leaves_of groups a)
    leaves_of-scrub_attr groups (value_of key value) = refl
    leaves_of-scrub_attr groups (group_of key group) =
        leaves-without_empty (groups ++ key ∷ []) (scrub_attrs group)
        ∙ leaves-scrub_attrs (groups ++ key ∷ []) group

    leaves-scrub_attrs :
        (groups : List Text) (more : Attrs)
        → leaves groups (scrub_attrs more) ≡ map redact (leaves groups more)
    leaves-scrub_attrs groups no_attrs = refl
    leaves-scrub_attrs groups (attr a rest) =
        rw (leaves_of-scrub_attr groups a, leaves-scrub_attrs groups rest)
          (sym (map-append redact (leaves_of groups a) (leaves groups rest)))

  -- The record that the next handler is given has the text and the values of the one handled, in
  -- order, each under its key and its groups, with every value under a sensitive key replaced, however
  -- deep the groups around it.
  pub leaves-handle :
      (r : LogRecord)
      → ((handle r).text ≡ r.text) × (leaves [] (handle r).attrs ≡ map redact (leaves [] r.attrs))
  unfolding handle
  leaves-handle r =
      (refl, leaves-without_empty [] (scrub_attrs r.attrs) ∙ leaves-scrub_attrs [] r.attrs)
