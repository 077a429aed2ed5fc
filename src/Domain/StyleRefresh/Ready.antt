-- ===== src/Domain/StyleRefresh/Ready.antt =====
-- internal/domain/style_refresh.go: the draft of a version has nothing of its own left to review, so
-- what `RefreshAgainst` reports as blocking it is all that can block it.
use earful.Domain.StyleRefresh.Drawn.{followed_parts-version_draft}
use earful.Domain.StyleChoice.{followed_word_parts}
use earful.Domain.Style.{only, parts_is_zero}
use earful.Domain.StyleLanguages.{account_style_pending}
use earful.Prelude.{
  contains, ap, none, inl, sym, ◌∙◌, ◌≡◌, Bool-cases, some, Option-cases, true, inr, arith, refl,
  false, ◌⊎◌, nat_eq, list_eq, bool_eq, Bool, List, [], ◌∷◌,
}
use earful.Domain.StyleRefresh.Reviewed.{
  IsPublished, lookup-localized_in, version_draft-pending, version_draft-style,
  version_draft-thanks,
}
use earful.Runtime.{Runtime}
use earful.Domain.Publication.{
  first_with, ready_to_publish, languages, first_with-some, ready_to_publish_read,
  contains-languages, unreviewed_in, first_loop,
}
use earful.Domain.WorkspaceStyle.{WorkspaceStyle, pending_for}
use earful.Domain.StyleRefresh.{
  version_draft, blocked, version_languages, PublishedVersion, refresh_against,
}
use earful.Domain.Errors.{account_style_translation}
use earful.Prelude.Dict.{lookup, found, lookup-empty, empty}
use earful.Prelude.Text.{Text}

module _ ⦃u : Runtime⦄ where
  -- The draft's languages are the version's.
  held :
      (v : PublishedVersion) (lang : Text)
      → found (lookup lang (version_draft v).localizations) ≡ true
      → contains (version_languages v) lang ≡ true
  unfolding version_draft
  held v lang h = elim (Bool-cases (contains (version_languages v) lang)) [
    | inl there ↦ there
    | inr missing ↦
        (let nowhere : lookup lang (version_draft v).localizations ≡ none =
            lookup-localized_in v (version_languages v) empty lang
            ∙ rw missing (lookup-empty lang) in
          absurd (ground (arith, ap found nowhere)))
  ]

  version_draft-read :
      (v : PublishedVersion)
      → IsPublished v
      → first_with (unreviewed_in (version_draft v)) (languages (version_draft v)) ≡ none
  unfolding unreviewed_in
  version_draft-read v h =
      let d = version_draft v in
      elim (Option-cases (first_with (unreviewed_in d) (languages d))) [
        | inl read ↦ read
        | inr (lang, unread_there) ↦
            (let at = first_with-some (unreviewed_in d) (languages d) lang unread_there in
              let there = held v lang (sym (contains-languages d lang) ∙ at.0) in
              let own : unreviewed_in d lang ≡ false =
                rw
                  (
                    unreviewed_in,
                    version_draft-pending v lang h there,
                    version_draft-thanks v lang h there,
                    version_draft-style v lang h there,
                  )
                  refl in
              absurd (ground (arith, at.1, own)))
      ]

  -- A version that follows nothing has no words of its account's to wait for.
  version_draft-account_style_pending :
      (v : PublishedVersion) (account : WorkspaceStyle) (lang : Text)
      → parts_is_zero v.follows ≡ true
      → account_style_pending (version_draft v) account lang ≡ false
  unfolding account_style_pending pending_for followed_word_parts only
  version_draft-account_style_pending v account lang alone =
      let header : v.follows.header ≡ false = ground arith in
      let footer : v.follows.footer ≡ false = ground arith in
      let thanks : v.follows.thanks ≡ false = ground arith in
      rw (followed_parts-version_draft v, header, footer, thanks) refl

  first_with-false :
      (p : Text → Bool) (ts : List Text) → ((t : Text) → p t ≡ false) → first_with p ts ≡ none
  unfolding first_with
  first_with-false p [] never = refl
  first_with-false p (t ∷ ts) never = rw (never t) (first_with-false p ts never)

  version_draft-ready :
      (v : PublishedVersion) (account : WorkspaceStyle)
      → first_with (unreviewed_in (version_draft v)) (languages (version_draft v)) ≡ none
      → parts_is_zero v.follows ≡ true
      → ready_to_publish (version_draft v) account ≡ none
  unfolding ready_to_publish first_loop
  version_draft-ready v account read alone =
      let d = version_draft v in
      let followed =
        first_with-false (account_style_pending d account) (languages d)
          (λ lang. version_draft-account_style_pending v account lang alone) in
      rw (read, followed) refl

  -- Whatever the account's style, a version published again is either ready, and the refresh names no
  -- language, or held back only for words that it follows from its account, still to be reviewed in
  -- the language that the refresh names. Nothing of its own is left to review in any language. The
  -- version is one that was published: its questions have identities of their own, its languages are
  -- stored by their codes, and each of its translations has every word of the page and of the
  -- version's own parts.
  pub refresh_against-blocked :
      (v : PublishedVersion) (account : WorkspaceStyle)
      → IsPublished v
      → let d = version_draft v in
        let named = (refresh_against v account).blocked_in in
        (first_with (unreviewed_in d) (languages d) ≡ none)
        × (((ready_to_publish d account ≡ none) × (named ≡ []))
            ⊎ ((ready_to_publish d account ≡ some (account_style_translation named))
                × (account_style_pending d account named ≡ true)))
  unfolding refresh_against blocked
  refresh_against-blocked v account h =
      let d = version_draft v in
      let read = version_draft-read v h in
      elim (Bool-cases (parts_is_zero v.follows)) [
        | inl alone ↦ (read, inl (version_draft-ready v account read alone, rw alone refl))
        | inr follows ↦ elim (ready_to_publish_read d account read) [
          | inl ready ↦ (read, inl (ready, rw (follows, ready) refl))
          | inr (lang, behind, waits) ↦ (read, inr (rw (follows, behind) (refl, waits)))
        ]
      ]
