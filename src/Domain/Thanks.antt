-- ===== src/Domain/Thanks.antt =====
-- internal/domain/thanks.go: the thank you page, its validation, and the layout of its message.
pub mod Links
pub mod Message
unfoldable pub use Links.{validate_link_url, max_thanks_url_len}
unfoldable pub use Message.{normalize_message, paragraphs}
use Prim.Native.Nat.{ℕ}
use earful.Runtime.{Runtime}
use earful.Prelude.{
  none, arith, length, some, ltb, ◌≡◌, not, ◌&&◌, true, is_nil, Option, if◌then◌else◌, false, Bool,
  [],
}
use earful.Domain.Errors.{
  thanks_link_label, limit, limit_thanks_message, thanks_link_address, Error, limit_thanks_label,
}
use earful.Domain.Thanks.Links.{SafeLink, validate_link_url-SafeLink}
use earful.Prelude.Text.{Text, trim_space}

pub record ThankYou : Type 0 where
  pub message : Text
  pub link_label : Text
  pub link_url : Text

abbrev pub no_thanks : ThankYou
no_thanks = record { message = []; link_label = []; link_url = [] }

abbrev pub max_thanks_message_len : ℕ
max_thanks_message_len = 1000

abbrev pub max_thanks_label_len : ℕ
max_thanks_label_len = 60

unfoldable pub has_link : ThankYou → Bool
has_link t = not (is_nil t.link_url)

module _ ⦃u : Runtime⦄ where
  unfoldable pub validate_thanks : ThankYou → Option Error
  validate_thanks t =
      if ltb max_thanks_message_len (length t.message)
      then some (limit limit_thanks_message max_thanks_message_len)
      else if ltb max_thanks_label_len (length t.link_label)
      then some (limit limit_thanks_label max_thanks_label_len)
      else if is_nil t.link_url && is_nil t.link_label
      then none
      else if is_nil t.link_url
      then some thanks_link_address
      else if is_nil t.link_label
      then some thanks_link_label
      else validate_link_url t.link_url

  -- `NewThankYou`: the page as typed comes back beside the error too.
  unfoldable pub new_thank_you : Text → Text → Text → ThankYou × Option Error
  unfolding validate_thanks
  new_thank_you message link_label link_url =
      let t : ThankYou = record {
        message = normalize_message message;
        link_label = trim_space link_label;
        link_url = trim_space link_url;
      } in
      (t, validate_thanks t)

  -- A page with a link passes only when the link has a label, and an address that package url reads
  -- as an absolute http or https address with a host, no user and nothing opaque.
  pub validate_thanks-link :
      (t : ThankYou)
      → validate_thanks t ≡ none
      → has_link t ≡ true
      → (is_nil t.link_label ≡ false) × SafeLink t.link_url
  unfolding validate_thanks has_link
  validate_thanks-link t h l = ground (arith, validate_link_url-SafeLink t.link_url)
