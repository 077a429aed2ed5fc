-- ===== src/Domain/Style/Words.antt =====
-- internal/domain/style.go: `StyleWords`, the words of a style that are translated, by its parts.
use earful.Prelude.{
  Bool, eq_iff, length, contains, refl, ◌&&◌, true, ◌∷◌, is_nil, ◌↔◌, if◌then◌else◌, [], ◌||◌, ◌==◌,
  eqb, false, arith, List, ◌≡◌, Comparable, not, nat_eq, list_eq, bool_eq,
}
use earful.Domain.Style.Types.{
  StyleParts, image_is_zero, shown_logo_alt, Style, StyleLink, StyleThanks,
}
use earful.Prelude.Text.{Text}

pub record StyleWords : Type 0 where
  pub tagline : Text
  pub logo_alt : Text
  pub header_links : List Text
  pub footer_text : Text
  pub footer_links : List Text
  pub thanks_alt : Text

abbrev pub no_words : StyleWords
no_words = record {
  tagline = [];
  logo_alt = [];
  header_links = [];
  footer_text = [];
  footer_links = [];
  thanks_alt = [];
}

unfoldable pub link_labels : List StyleLink → List Text
link_labels [] = []
link_labels (l ∷ ls) = l.label ∷ link_labels ls

-- `Style.thanksAlt`
abbrev pub shown_thanks_alt : StyleThanks → Text
shown_thanks_alt t = if image_is_zero t.image then [] else t.alt

-- `Style.Words`
unfoldable pub words_of : Style → StyleWords
unfolding link_labels shown_logo_alt
words_of s = record {
  tagline = s.header.tagline;
  logo_alt = shown_logo_alt s.header;
  header_links = link_labels s.header.links;
  footer_text = s.footer.text;
  footer_links = link_labels s.footer.links;
  thanks_alt = shown_thanks_alt s.thanks;
}

-- `StyleWords.IsZero`
abbrev pub words_is_zero : StyleWords → Bool
words_is_zero w =
    is_nil w.tagline
    && is_nil w.logo_alt
    && is_nil w.footer_text
    && is_nil w.thanks_alt
    && is_nil w.header_links
    && is_nil w.footer_links

-- `StyleWords.Equal`
unfoldable pub words_beq : StyleWords → StyleWords → Bool
words_beq w v =
    w.tagline == v.tagline
    && w.logo_alt == v.logo_alt
    && w.footer_text == v.footer_text
    && w.thanks_alt == v.thanks_alt
    && w.header_links == v.header_links
    && w.footer_links == v.footer_links

pub words_beq_iff : (w v : StyleWords) → (words_beq w v ≡ true) ↔ (w ≡ v)
unfolding words_beq
words_beq_iff w v = ground (
  arith,
  eq_iff w.tagline v.tagline,
  eq_iff w.logo_alt v.logo_alt,
  eq_iff w.footer_text v.footer_text,
  eq_iff w.thanks_alt v.thanks_alt,
  eq_iff w.header_links v.header_links,
  eq_iff w.footer_links v.footer_links,
)

instance abbrev pub words_eq : Comparable StyleWords
words_eq = record { alike = words_beq; alike_iff = words_beq_iff }

-- `StyleWords.Only`
unfoldable pub only : StyleWords → StyleParts → StyleWords
only w p = record {
  tagline = if p.header then w.tagline else [];
  logo_alt = if p.header then w.logo_alt else [];
  header_links = if p.header then w.header_links else [];
  footer_text = if p.footer then w.footer_text else [];
  footer_links = if p.footer then w.footer_links else [];
  thanks_alt = if p.thanks then w.thanks_alt else [];
}

-- `StyleWords.With`
unfoldable pub with_parts : StyleWords → StyleWords → StyleParts → StyleWords
with_parts w v p = record {
  tagline = if p.header then v.tagline else w.tagline;
  logo_alt = if p.header then v.logo_alt else w.logo_alt;
  header_links = if p.header then v.header_links else w.header_links;
  footer_text = if p.footer then v.footer_text else w.footer_text;
  footer_links = if p.footer then v.footer_links else w.footer_links;
  thanks_alt = if p.thanks then v.thanks_alt else w.thanks_alt;
}

labels_cover : List Text → List Text → Bool
labels_cover labels source = eqb (length labels) (length source) && not (contains labels [])

-- `StyleWords.covers`: a word for every word of the source.
unfoldable pub covers : StyleWords → StyleWords → Bool
unfolding labels_cover
covers w source =
    (is_nil source.tagline || not (is_nil w.tagline))
    && (is_nil source.footer_text || not (is_nil w.footer_text))
    && (is_nil source.logo_alt || not (is_nil w.logo_alt))
    && (is_nil source.thanks_alt || not (is_nil w.thanks_alt))
    && labels_cover w.header_links source.header_links
    && labels_cover w.footer_links source.footer_links

-- The loop of `relabel`: the labels are read in step with the links.
unfoldable pub relabel : List StyleLink → List Text → List StyleLink
relabel [] labels = []
relabel (l ∷ ls) [] = l ∷ ls
relabel (l ∷ ls) (t ∷ ts) = (if is_nil t then l else record l { label = t }) ∷ relabel ls ts

abbrev instead : Text → Text → Text
instead word old = if is_nil word then old else word

-- `Style.WithWords`
unfoldable pub with_words : Style → StyleWords → Style
unfolding relabel
with_words s w = record {
  theme = s.theme;
  header = record {
    name = s.header.name;
    tagline = instead w.tagline s.header.tagline;
    links = relabel s.header.links w.header_links;
    banner = s.header.banner;
    logo = s.header.logo;
    logo_alt =
        if image_is_zero s.header.logo
        then s.header.logo_alt
        else instead w.logo_alt s.header.logo_alt;
  };
  footer = record {
    text = instead w.footer_text s.footer.text;
    links = relabel s.footer.links w.footer_links;
  };
  thanks = record {
    picture = s.thanks.picture;
    image = s.thanks.image;
    alt = if image_is_zero s.thanks.image then s.thanks.alt else instead w.thanks_alt s.thanks.alt;
  };
}

-- Taking parts from other words and then looking at those parts shows the other words there, and at
-- parts that none of the taken ones share shows the words as they were.
pub only-with_parts :
    (w v : StyleWords) (p q : StyleParts)
    → ((p.header && q.header) || (p.footer && q.footer) || (p.thanks && q.thanks)) ≡ false
    → (only (with_parts w v p) p ≡ only v p) × (only (with_parts w v p) q ≡ only w q)
unfolding only with_parts
only-with_parts w v p q apart = ground arith

relabel-link_labels : (ls : List StyleLink) → relabel ls (link_labels ls) ≡ ls
unfolding relabel link_labels
relabel-link_labels [] = refl
relabel-link_labels (l ∷ ls) = ground (arith, relabel-link_labels ls)

unfoldable pub urls : List StyleLink → List Text
urls [] = []
urls (l ∷ ls) = l.url ∷ urls ls

urls-relabel : (ls : List StyleLink) (ts : List Text) → urls (relabel ls ts) ≡ urls ls
unfolding urls relabel
urls-relabel [] ts = refl
urls-relabel (l ∷ ls) [] = refl
urls-relabel (l ∷ ls) (t ∷ ts) = ground (arith, urls-relabel ls ts)

-- A style worded in its own words is itself.
pub with_words-words_of : (s : Style) → with_words s (words_of s) ≡ s
unfolding with_words words_of shown_logo_alt
with_words-words_of s =
    ground (arith, relabel-link_labels s.header.links, relabel-link_labels s.footer.links)

-- Wording a style in another language keeps its theme, the name, every picture and the address of
-- every link, in order.
pub with_words_keeps :
    (s : Style) (w : StyleWords)
    → let t = with_words s w in
      (t.theme ≡ s.theme)
      × (t.header.name ≡ s.header.name)
      × (t.header.banner ≡ s.header.banner)
      × (t.header.logo ≡ s.header.logo)
      × (t.thanks.picture ≡ s.thanks.picture)
      × (t.thanks.image ≡ s.thanks.image)
      × (urls t.header.links ≡ urls s.header.links)
      × (urls t.footer.links ≡ urls s.footer.links)
unfolding with_words
with_words_keeps s w = (
  refl,
  refl,
  refl,
  refl,
  refl,
  refl,
  urls-relabel s.header.links w.header_links,
  urls-relabel s.footer.links w.footer_links,
)
