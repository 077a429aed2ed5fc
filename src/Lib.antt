-- ===== src/Lib.antt =====
-- Earful: surveys whose questions are answered in writing or by voice.
--
-- This library models the rules of the program, the packages of internal/ that decide without doing
-- input or output, and proves what makes them correct. The HTTP handlers call these packages with
-- what a creator or a respondent sent, and the store writes what they return.
--
-- Which file models what:
--   Prelude              lists, equality tests, integers, texts and dictionaries that the rest shares
--   Runtime              what comes from outside the repository: the case tables of Unicode and
--                        url.Parse, as a record of operations with their documented behaviour;
--                        the fingerprint of words is an argument of what compares it
--   Domain/Errors        internal/domain/errors.go: every error of the package as a value, its wording
--   Domain/Question      internal/domain/question.go: Question, Scale, ScalePoints, Validate
--   Domain/Answer        internal/domain/answer.go: AnswerValue, ValidateAnswer, Submission.Validate
--   Domain/Thanks        internal/domain/thanks.go: ThankYou, its link, the layout of its message
--   Domain/Style         internal/domain/style.go: Style, its equality, Validate, StyleWords and their
--                        translations
--   Domain/StyleChoice   internal/domain/style_choice.go: which parts a survey owns and follows
--   Domain/WorkspaceStyle
--                        internal/domain/workspace_style.go: the account's style and its words
--   Domain/StyleLanguages
--                        internal/domain/style.go and style_choice.go: StylePending and its kin, and
--                        ResolvedStyleWords
--   Domain/Localization, Domain/Language, Domain/Draft/Languages
--                        internal/domain/localization.go: languages, translations, what is pending
--   Domain/Draft         internal/domain/survey.go: Add, Replace, Remove, Move, ValidateForPublish
--   Domain/Survey        internal/domain/survey.go: StatusAt, AcceptsResponses, ValidateTitle
--   Domain/Publication   internal/domain/localization.go: Languages, ReadyToPublish
--   Domain/StyleForm     internal/domain/style_choice.go: SetStyleFromForm, adoptStyleTranslations
--   Domain/StyleRefresh  internal/domain/style_refresh.go: PublishedVersion, RefreshAgainst and its kin
--   Antibot/Limiter      internal/antibot/ratelimit.go: Limiter.Allow and its sweep
--   Antibot/Seen         internal/antibot/seen.go: Seen.FirstUse
--   Antibot/FormToken    internal/antibot/formtoken.go: FormTokens.Issue and Check
--   Voice                internal/voice/voice.go: Buffer, WAV, Budget
--   Audience             internal/audience/audience.go: BrowserFamily, DeviceClass, Suppressed
--   Geoip                internal/geoip/geoip.go and tools/geoipgen/main.go: the country table, written,
--                        decoded and searched
--   Logging              internal/logging/scrub.go: what a line of the log leaves out
--   Attach               internal/attach/attach.go and archive.go: Prepare, what a model is sent of the
--                        files that are uploaded; Attach/Types has the readers it calls
--   Ai                   internal/ai/meter.go: Meter, over a UsageStore and a Float
--   StyleImage           internal/styleimage/cost.go: jpegFrame
--   Tests                the theorems at concrete inputs
--
-- How the code is read. A method that changes its receiver returns the new value beside its error;
-- `error` is `Option Error`, with nil as none. A Go string is the list of its runes, `len` of it the
-- bytes of its UTF-8 form. An `int` is an integer, and a sum or product that can leave 64 bits wraps
-- around. A map is a dictionary behind its laws; the code sorts the keys that it ranges over or does
-- not depend on their order. A clock is an argument, an instant a number of nanoseconds, and the
-- difference of two instants saturates as `time.Duration` does. A mutex makes the calls of a limiter,
-- a set of uses or a budget a sequence, so a run is a list of events. Identities that the code mints
-- are arguments of the theorems, fresh by hypothesis.
--
-- Bounds and fuel. The decimal digits of n are read with n + 1 rounds of fuel, and each round divides
-- by ten; the grouping of digits has as many rounds as there are digits, and each passes three of
-- them. The binary search of n rows has n rounds, and each brings its two ends closer. Everything else
-- is recursion on a list or on a count read from a file, but for the search for the frame header of a
-- JPEG, which has one round more than there are bytes, and each leaves fewer of them.
--
-- Not modelled: encoding/json of drafts and answers, Hint and LanguageName, which are tables of texts,
-- the proof of work of a form, which a library checks,
-- the readers of HTML and of office documents behind internal/attach, and the packages that are input and output
-- around these rules: http, pages, ws, store, auth, email, export, purge, the AI providers, and the
-- catalogues of interface texts.
pub mod Prelude
pub mod Runtime
pub mod Domain
pub mod Antibot
pub mod Voice
pub mod Audience
pub mod Geoip
pub mod Logging
pub mod Attach
pub mod Ai
pub mod StyleImage
pub mod Tests
