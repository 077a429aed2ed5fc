-- ===== src/Domain/Thanks/Message.antt =====
-- internal/domain/thanks.go: `normalizeMessage` and `paragraphs`.
use Prim.Native.Nat.{ℕ}
use mathlib.Core.List.{append-nil, append_assoc}
use earful.Prelude.{
  arith, inl, ◌&&◌, ◌||◌, eqb, is_nil, [], sym, inr, ◌++◌, if◌then◌else◌, false, Bool-cases, ap,
  refl, ◌∷◌, Bool, All, List, All-append, ◌∙◌, ◌≡◌,
}
use earful.Domain.Errors.Message.{message}
use earful.Domain.Answer.Check.{blank}
use earful.Prelude.Text.{trim_space, trim_right_by, Text, split, All-trim_space, trim_space_idem}

-- strings.ReplaceAll(s, "\r\n", "\n")
crlf_to_lf : Text → Text
crlf_to_lf [] = []
crlf_to_lf (c ∷ []) = c ∷ []
crlf_to_lf (c ∷ d ∷ s) =
    let joined = 10 ∷ crlf_to_lf s in
    let kept = c ∷ crlf_to_lf (d ∷ s) in if eqb c 13 && eqb d 10 then joined else kept

-- strings.ReplaceAll(s, "\r", "\n")
cr_to_lf : Text → Text
cr_to_lf [] = []
cr_to_lf (c ∷ s) = (if eqb c 13 then 10 else c) ∷ cr_to_lf s

unfoldable pub normalize_message : Text → Text
unfolding crlf_to_lf cr_to_lf
normalize_message message = trim_space (cr_to_lf (crlf_to_lf message))

-- The cutset of strings.TrimRight(line, " \t").
unfoldable pub is_blank_or_tab : ℕ → Bool
is_blank_or_tab c = eqb c 32 || eqb c 9

-- `append(out, current)` where there is a current paragraph.
close_paragraph : List (List Text) → List Text → List (List Text)
close_paragraph out current = if is_nil current then out else out ++ current ∷ []

paragraphs_from : List (List Text) → List Text → List Text → List (List Text)
paragraphs_from out current [] = close_paragraph out current
paragraphs_from out current (l ∷ ls) =
    let line = trim_right_by is_blank_or_tab l in
    let closed = paragraphs_from (close_paragraph out current) [] ls in
    let longer = paragraphs_from out (current ++ line ∷ []) ls in
    if is_nil (trim_space line) then closed else longer

unfoldable pub paragraphs : Text → List (List Text)
unfolding paragraphs_from close_paragraph is_blank_or_tab
paragraphs message = paragraphs_from [] [] (split 10 message)

abbrev NoCr : Text → Type 0
NoCr s = All (λ c. eqb c 13 ≡ false) s

cr_to_lf-NoCr : (s : Text) → NoCr (cr_to_lf s)
unfolding cr_to_lf
cr_to_lf-NoCr [] = tt
cr_to_lf-NoCr (c ∷ s) = ground (arith, cr_to_lf-NoCr s)

crlf_to_lf_of_NoCr : (s : Text) → NoCr s → crlf_to_lf s ≡ s
unfolding crlf_to_lf
crlf_to_lf_of_NoCr [] h = refl
crlf_to_lf_of_NoCr (c ∷ []) h = refl
crlf_to_lf_of_NoCr (c ∷ d ∷ s) h = ground (arith, crlf_to_lf_of_NoCr (d ∷ s) h.1)

cr_to_lf_of_NoCr : (s : Text) → NoCr s → cr_to_lf s ≡ s
unfolding cr_to_lf
cr_to_lf_of_NoCr [] h = refl
cr_to_lf_of_NoCr (c ∷ s) h = ground (arith, cr_to_lf_of_NoCr s h.1)

pub normalize_message-NoCr : (s : Text) → NoCr (normalize_message s)
unfolding normalize_message
normalize_message-NoCr s = All-trim_space (λ c. eqb c 13 ≡ false) _ (cr_to_lf-NoCr (crlf_to_lf s))

normalize_message_of_NoCr : (s : Text) → NoCr s → normalize_message s ≡ trim_space s
unfolding normalize_message
normalize_message_of_NoCr s h = rw (crlf_to_lf_of_NoCr s h, cr_to_lf_of_NoCr s h) refl

-- A normalized message has no carriage return, and normalizing it again changes nothing.
pub normalize_message_idem :
    (s : Text)
    → All (λ c. eqb c 13 ≡ false) (normalize_message s)
      × (normalize_message (normalize_message s) ≡ normalize_message s)
normalize_message_idem s = (
  normalize_message-NoCr s,
  normalize_message_of_NoCr (normalize_message s) (normalize_message-NoCr s)
      ∙ unfold normalize_message in trim_space_idem (cr_to_lf (crlf_to_lf s)),
)

-- The lines of a text that are not blank, without the spaces and tabs at their ends.
abbrev pub kept_lines : List Text → List Text
kept_lines [] = []
kept_lines (l ∷ ls) =
    let line = trim_right_by is_blank_or_tab l in
    if is_nil (trim_space line) then kept_lines ls else line ∷ kept_lines ls

abbrev pub concat : List (List Text) → List Text
concat [] = []
concat (p ∷ ps) = p ++ concat ps

concat-close_paragraph :
    (out : List (List Text)) (cur : List Text)
    → concat (close_paragraph out cur) ≡ concat out ++ cur
unfolding close_paragraph
concat-close_paragraph [] [] = refl
concat-close_paragraph [] (l ∷ ls) = append-nil (l ∷ ls)
concat-close_paragraph (p ∷ out) [] = sym (append-nil (p ++ concat out))
concat-close_paragraph (p ∷ out) (l ∷ ls) =
    ap (λ r. p ++ r) (concat-close_paragraph out (l ∷ ls))
    ∙ sym (append_assoc p (concat out) (l ∷ ls))

concat-paragraphs_from :
    (out : List (List Text)) (cur ls : List Text)
    → concat (paragraphs_from out cur ls) ≡ (concat out ++ cur) ++ kept_lines ls
unfolding paragraphs_from
concat-paragraphs_from out cur [] =
    concat-close_paragraph out cur ∙ sym (append-nil (concat out ++ cur))
concat-paragraphs_from out cur (l ∷ ls) =
    let line = trim_right_by is_blank_or_tab l in
    elim (Bool-cases (is_nil (trim_space line))) [
      | inl blank ↦ rw blank (
          concat-paragraphs_from (close_paragraph out cur) [] ls
          ∙ ap (λ r. r ++ kept_lines ls) (append-nil _ ∙ concat-close_paragraph out cur))
      | inr worded ↦
          rw worded (concat-paragraphs_from out (cur ++ line ∷ []) ls ∙ simp append_assoc refl)
    ]

-- A paragraph with lines, none of them blank.
abbrev pub IsParagraph : List Text → Type 0
IsParagraph p = (is_nil p ≡ false) × All (λ l. is_nil (trim_space l) ≡ false) p

close_paragraph-IsParagraph :
    (out : List (List Text)) (cur : List Text)
    → All IsParagraph out
    → All (λ l. is_nil (trim_space l) ≡ false) cur
    → All IsParagraph (close_paragraph out cur)
unfolding close_paragraph
close_paragraph-IsParagraph out [] h c = h
close_paragraph-IsParagraph out (l ∷ ls) h c =
    All-append IsParagraph out ((l ∷ ls) ∷ []) h ((refl, c), tt)

paragraphs_from-IsParagraph :
    (out : List (List Text)) (cur ls : List Text)
    → All IsParagraph out
    → All (λ l. is_nil (trim_space l) ≡ false) cur
    → All IsParagraph (paragraphs_from out cur ls)
unfolding paragraphs_from
paragraphs_from-IsParagraph out cur [] h c = close_paragraph-IsParagraph out cur h c
paragraphs_from-IsParagraph out cur (l ∷ ls) h c =
    let line = trim_right_by is_blank_or_tab l in
    elim (Bool-cases (is_nil (trim_space line))) [
      | inl blank ↦ rw blank (
          paragraphs_from-IsParagraph (close_paragraph out cur) [] ls
            (close_paragraph-IsParagraph out cur h c) tt)
      | inr worded ↦ rw worded (
          paragraphs_from-IsParagraph out (cur ++ line ∷ []) ls h
            (All-append (λ l. is_nil (trim_space l) ≡ false) cur (line ∷ []) c (worded, tt)))
    ]

-- The paragraphs of a message hold its lines that are not blank, in order, without the spaces and
-- tabs at their ends; no paragraph is empty and no line in one is blank.
pub paragraphs_lem :
    (message : Text)
    → (concat (paragraphs message) ≡ kept_lines (split 10 message))
      × All IsParagraph (paragraphs message)
unfolding paragraphs
paragraphs_lem message = (
  concat-paragraphs_from [] [] (split 10 message),
  paragraphs_from-IsParagraph [] [] (split 10 message) tt tt,
)
