-- ===== src/Envelope/Tracks.antt =====
-- internal/envelope/builder.go: whom the tracking tokens of one Delivery name, and which of them are
-- shared.
use kannon.Base.{
  ℕ, not, ◌&&◌, Option, none, some, List, [], ◌++◌, Text, text, ◌==◌, nat_eq, list_eq,
  if◌then◌else◌,
}
use kannon.Tracking.{Mode, Policy, mode_pseudonymous, isolates_recipient}
use kannon.Tracking.Ceiling.{axis_opens, axis_links}
use kannon.Tracking.Identity.{new_pseudonym}
use kannon.Envelope.SharedTokens.{SharedTokenKey, SharedTokens, Reused, reuse}

pub record TrackingIdentity : Type 0 where
  pub email : Text
  pub pseudonym : Text

unfoldable pub with_pseudonym : Text → Option Text → Option TrackingIdentity
with_pseudonym email none = none
with_pseudonym email (some pseudonym) = some (record { email = email; pseudonym = pseudonym })

-- `newTrackingIdentity`, with the random bytes that it may draw
unfoldable pub new_tracking_identity :
    Option (List ℕ) → Policy → Text → Text → Option TrackingIdentity
new_tracking_identity raw policy email domain =
    if not (policy.opens == mode_pseudonymous) && not (policy.links == mode_pseudonymous)
    then some (record { email = email; pseudonym = [] })
    else with_pseudonym email (new_pseudonym raw domain)

-- `trackingIdentity.under`
unfoldable pub under : TrackingIdentity → Mode → Text
under i mode = if mode == mode_pseudonymous then i.pseudonym else i.email

pub record TrackTarget : Type 0 where
  pub identity : Text
  pub message_id : Text
  pub domain : Text
  pub mode : Mode

-- `trackTargetFor`, with the two fields of `SendingData` that it reads
unfoldable pub track_target_for : TrackingIdentity → Text → Text → Mode → TrackTarget
track_target_for identity message_id domain mode = record {
  identity = under identity mode;
  message_id = message_id;
  domain = domain;
  mode = mode;
}

module _ {W : Type 0} where
  -- a mint that the cache is not asked about
  unfoldable pub minted : SharedTokens → W × Option Text → Reused W
  minted c (w, token) = record { cache = c; world = w; token = token }

  -- `token`
  unfoldable pub token : SharedTokenKey → (W → W × Option Text) → SharedTokens → W → Reused W
  token key mint c w = if isolates_recipient key.mode then minted c (mint w) else reuse key mint c w

  unfoldable pub linked : Text → Text → Reused W → Reused W
  linked domain path r = record r {
    token = elim r.token [
      | none ↦ none
      | some t ↦ some (text "https://stats." ++ (domain ++ (path ++ t)))
    ];
  }

  -- `buildTrackClickLink`, whose minted token is a link's; the `token` of the result is the link
  unfoldable pub build_track_click_link :
      (TrackTarget → Text → W → W × Option Text) → Text → TrackTarget → SharedTokens → W → Reused W
  build_track_click_link create_link_token url t c w = linked t.domain (text "/c/") (
      token
        (record {
          axis = axis_links;
          domain = t.domain;
          message_id = t.message_id;
          url = url;
          mode = t.mode;
        })
        (create_link_token t url) c w)

  -- `buildTrackOpenLink`
  unfoldable pub build_track_open_link :
      (TrackTarget → W → W × Option Text) → TrackTarget → SharedTokens → W → Reused W
  build_track_open_link create_open_token t c w = linked t.domain (text "/o/") (
      token
        (record {
          axis = axis_opens;
          domain = t.domain;
          message_id = t.message_id;
          url = [];
          mode = t.mode;
        })
        (create_open_token t) c w)
