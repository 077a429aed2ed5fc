-- ===== src/Attach/Safe.antt =====
-- internal/attach: a file that is taken in stays within the limits, and what is forwarded as it is, is
-- what it is sent as.
use earful.Prelude.{
  List, true, [], Bool-cases, refl, ◌++◌, arith, Bool, ◌∷◌, All, ◌+◌, inr, ◌≡◌, ◌≤◌, ◌==◌, ℕ,
  length, inl, nat_eq, list_eq, bool_eq, if◌then◌else◌, Option-cases, is_nil, ap, subst, sym, leb,
  All-append, length-append, ltb,
}
use earful.Attach.Types.{
  Readers, ◌>>=◌, refused, Attachment, Mime, mime_png, mime_text, Kind, Outcome, kind_pdf,
  mime_jpeg, Limits, mime_pdf, kind_text, accepted, wrong_type, kind_jpeg, refusal, kind_png,
  kind_zip,
}
use earful.Attach.Prepare.{
  add_member_kind, Preparer, convert, trim_mark, recognised, as_text, take_in, valid_text,
  add_member,
}
use earful.Runtime.{Runtime, to_lower}
use earful.Attach.Identify.{
  is_claimed, check_claimed, identify, container_kind, with_name, legacy_format, check_extension,
  by_extension, is_document, check_legacy, same_kind, text_or_none,
}
use earful.Prelude.Text.{codes, Text, trim_space}
use earful.Attach.Names.{extension}

-- A chain that is accepted went on from what its first step accepted.
pub bind_inv {ℓ κ} :
    {A : Type ℓ} {B : Type κ} (m : Outcome A) (f : A → Outcome B) (b : B)
    → (m >>= f) ≡ accepted b
    → (a : A) × (m ≡ accepted a) × (f a ≡ accepted b)
bind_inv (refused r) f b h = absurd (ground arith)
bind_inv (accepted a) f b h = (a, refl, h)

value_or {ℓ} : {A : Type ℓ} → A → Outcome A → A
value_or a (refused r) = a
value_or a (accepted b) = b

pub sent {ℓ} : {A : Type ℓ} (a b : A) → accepted a ≡ accepted b → a ≡ b
unfolding value_or
sent a b h = ap (value_or a) h

-- The bytes that are forwarded as they were uploaded.
abbrev pub forwarded_size : Attachment → ℕ
forwarded_size a = go a.mime (length a.content)
  where
    go : Mime → ℕ → ℕ
    go mime_text n = 0
    go mime_pdf n = n
    go mime_png n = n
    go mime_jpeg n = n

unfoldable pub forwarded_bytes : List Attachment → ℕ
forwarded_bytes [] = 0
forwarded_bytes (a ∷ more) = forwarded_size a + forwarded_bytes more

forwarded_bytes-append :
    (xs : List Attachment) (a : Attachment)
    → forwarded_bytes (xs ++ a ∷ []) ≡ forwarded_bytes xs + forwarded_size a
unfolding forwarded_bytes
forwarded_bytes-append [] a = omega arith
forwarded_bytes-append (x ∷ xs) a = omega (arith, forwarded_bytes-append xs a)

module _ ⦃u : Runtime⦄ ⦃r : Readers⦄ where
  -- The content is of the type that it is sent as.
  abbrev pub sniffed_as : Mime → List ℕ → Bool
  sniffed_as mime_text content = true
  sniffed_as mime_pdf content = r.sniff content == codes "application/pdf"
  sniffed_as mime_png content = r.sniff content == codes "image/png"
  sniffed_as mime_jpeg content = r.sniff content == codes "image/jpeg"

  abbrev pub IsSniffed : Attachment → Type 0
  IsSniffed a = sniffed_as a.mime a.content ≡ true

  pub record IsWithin (lim : Limits) (p : Preparer) : Type 0 where
    pub few : length p.out ≤ lim.max_files
    pub small : p.total ≤ lim.max_total_bytes
    pub counted : forwarded_bytes p.out ≤ p.total
    pub sniffed : All IsSniffed p.out

  check_claimed-is_claimed :
      (name : Text) (content : List ℕ) (claimed k : Kind)
      → check_claimed name content claimed ≡ accepted k
      → is_claimed k content ≡ true
  unfolding check_claimed
  check_claimed-is_claimed name content claimed k h =
      elim (Bool-cases (is_claimed claimed content)) [
        | inr other ↦ absurd (ground arith)
        | inl right ↦ elim (Bool-cases (is_document claimed)) [
          | inr plain ↦
              (let same : claimed ≡ k = sent claimed k (ground (arith, right, plain)) in
                subst (λ x. is_claimed x content ≡ true) same right)
          | inl document ↦
              (let step =
                  bind_inv (with_name name (container_kind content))
                    (λ inside.
                      if same_kind inside claimed
                      then accepted claimed
                      else refused (refusal wrong_type name))
                    k (ground (arith, right, document)) in
                let same : claimed ≡ k = sent claimed k (ground (arith, step.2)) in
                subst (λ x. is_claimed x content ≡ true) same right)
        ]
      ]

  identify-is_claimed :
      (name : Text) (content : List ℕ) (k : Kind)
      → identify name content ≡ accepted k
      → is_claimed k content ≡ true
  unfolding identify
  identify-is_claimed name content k h =
      let ext = to_lower (text_or_none (extension name)) in
      elim (Option-cases (legacy_format ext)) [
        | inr (modern, old) ↦ absurd (ground arith)
        | inl current ↦ elim (Option-cases (by_extension ext)) [
          | inl unlisted ↦ absurd (ground arith)
          | inr (claimed, listed) ↦ check_claimed-is_claimed name content claimed k (
              subst (λ o. check_extension name content o ≡ accepted k) listed
                (subst (λ o. check_legacy name content ext o ≡ accepted k) current h))
        ]
      ]

  mime_text-IsSniffed :
      (a : Attachment) (n : ℕ) → a.mime ≡ mime_text → IsSniffed a × (forwarded_size a ≤ n)
  mime_text-IsSniffed a n h = rw h (refl, omega arith)

  as_text-mime_text :
      (name text : Text) (a : Attachment) → as_text name text ≡ accepted a → a.mime ≡ mime_text
  unfolding as_text
  as_text-mime_text name text a h = elim (Bool-cases (is_nil (trim_space (trim_mark text)))) [
    | inl nothing ↦ absurd (ground arith)
    | inr wordy ↦
        (let sent_text : Attachment = record {
          name = name;
          mime = mime_text;
          content = r.to_bytes (trim_space (trim_mark text));
        } in
          ap (λ x. x.mime) (sym (sent sent_text a (ground (arith, wordy, h)))))
  ]

  document-mime_text :
      (lim : Limits) (name : Text) (k : Kind) (content : List ℕ) (a : Attachment)
      → (with_name name (r.document_text lim k content) >>= as_text name) ≡ accepted a
      → IsSniffed a × (forwarded_size a ≤ length content)
  document-mime_text lim name k content a h =
      let step = bind_inv (with_name name (r.document_text lim k content)) (as_text name) a h in
      mime_text-IsSniffed a (length content) (as_text-mime_text name step.0 a step.2)

  convert-IsSniffed :
      (lim : Limits) (name : Text) (k : Kind) (content : List ℕ) (a : Attachment)
      → is_claimed k content ≡ true
      → convert lim name k content ≡ accepted a
      → IsSniffed a × (forwarded_size a ≤ length content)
  unfolding convert is_claimed
  convert-IsSniffed lim name kind_pdf content a c h =
      subst (λ x. IsSniffed x × (forwarded_size x ≤ length content)) (sent _ a h) (c, omega arith)
  convert-IsSniffed lim name kind_png content a c h =
      subst (λ x. IsSniffed x × (forwarded_size x ≤ length content)) (sent _ a h) (c, omega arith)
  convert-IsSniffed lim name kind_jpeg content a c h =
      subst (λ x. IsSniffed x × (forwarded_size x ≤ length content)) (sent _ a h) (c, omega arith)
  convert-IsSniffed lim name kind_text content a c h =
      mime_text-IsSniffed a (length content)
        (as_text-mime_text name (valid_text (r.runes content)) a h)
  convert-IsSniffed lim name k content a c h = document-mime_text lim name k content a h

  pub recognised-is_claimed :
      (lim : Limits) (name : Text) (content : List ℕ) (k : Kind)
      → recognised lim name content ≡ accepted k
      → is_claimed k content ≡ true
  unfolding recognised
  recognised-is_claimed lim name content k h = elim (Bool-cases (is_nil content)) [
    | inl nothing ↦ absurd (ground arith)
    | inr filled ↦ elim (Bool-cases (ltb lim.max_file_bytes (length content))) [
      | inl large ↦ absurd (ground arith)
      | inr small ↦ identify-is_claimed name content k (ground (arith, filled, small, h))
    ]
  ]

  pub take_in-IsWithin :
      (lim : Limits) (p q : Preparer) (name : Text) (content : List ℕ) (k : Kind)
      → IsWithin lim p
      → is_claimed k content ≡ true
      → take_in lim p name content k ≡ accepted q
      → IsWithin lim q
  unfolding take_in
  take_in-IsWithin lim p q name content k w c h =
      elim (Bool-cases (leb lim.max_files (length p.out))) [
        | inl full ↦ absurd (ground arith)
        | inr room ↦ elim (Bool-cases (ltb lim.max_total_bytes (p.total + length content))) [
          | inl over ↦ absurd (ground arith)
          | inr under ↦
              (let step =
                  bind_inv (convert lim name k content)
                    (λ a.
                      accepted (record { out = p.out ++ a ∷ []; total = p.total + length content }))
                    q (ground (arith, room, under, h)) in
                let a = step.0 in
                let good = convert-IsSniffed lim name k content a c step.1 in
                let size = length-append p.out (a ∷ []) in
                let bytes = forwarded_bytes-append p.out a in
                subst (IsWithin lim) (sent _ q step.2) record {
                  few = ground (arith, size);
                  small = ground arith;
                  counted = omega (arith, bytes, good.1, w.counted);
                  sniffed = All-append IsSniffed p.out (a ∷ []) w.sniffed (good.0, tt);
                })
        ]
      ]

  pub add_member-IsWithin :
      (lim : Limits) (p q : Preparer) (name : Text) (content : List ℕ)
      → IsWithin lim p
      → add_member lim p name content ≡ accepted q
      → IsWithin lim q
  unfolding add_member
  add_member-IsWithin lim p q name content w h =
      let step = bind_inv (recognised lim name content) (add_member_kind lim p name content) q h in
      by_kind lim p q name content step.0 w (recognised-is_claimed lim name content step.0 step.1)
        step.2
    where
      by_kind :
          (lim : Limits) (p q : Preparer) (name : Text) (content : List ℕ) (k : Kind)
          → IsWithin lim p
          → is_claimed k content ≡ true
          → add_member_kind lim p name content k ≡ accepted q
          → IsWithin lim q
      by_kind lim p q name content kind_zip w c h = absurd (ground arith)
      by_kind lim p q name content k w c h = take_in-IsWithin lim p q name content k w c h
