-- ===== src/Envelope/Sharing.antt =====
-- The links of different Recipients of a Batch under a Mode that must not tell them apart:
-- internal/envelope/builder.go over the cache of internal/envelope/sharedtokens.go.
use kannon.Base.{
  ◌≡◌, ◌≤◌, refl, sym, ap, ◌∙◌, false, Option, some, List, [], Text, text, ◌++◌, length, inl, inr,
  Option-cases, arith,
}
use kannon.Tracking.{isolates_recipient}
use kannon.Tracking.Ceiling.{axis_opens}
use kannon.Envelope.SharedTokens.{
  SharedTokenKey, SharedTokens, Reused, reuse, shared_token_generation,
}
use kannon.Envelope.SharedTokens.Stability.{Call, reuse_all, reuse_again}
use kannon.Envelope.Tracks.{TrackTarget, token, linked, build_track_open_link}

-- the key of the open token of a target
open_key : TrackTarget → SharedTokenKey
open_key t = record {
  axis = axis_opens;
  domain = t.domain;
  message_id = t.message_id;
  url = [];
  mode = t.mode;
}

module _ {W : Type 0} where
  linked-token :
      (domain path : Text) (r : Reused W) (t : Text)
      → r.token ≡ some t
      → (linked domain path r).token ≡ some (text "https://stats." ++ (domain ++ (path ++ t)))
  unfolding linked
  linked-token domain path r t e = rw e refl

  linked-some :
      (domain path : Text) (r : Reused W) {link : Text}
      → (linked domain path r).token ≡ some link
      → (t : Text) × (r.token ≡ some t)
  unfolding linked
  linked-some domain path r {link} h = elim (Option-cases r.token) [
    | inl e ↦ absurd (ground (arith, rw e at h))
    | inr found ↦ found
  ]

  build_track_open_link-reuse :
      (create_open_token : TrackTarget → W → W × Option Text) (t : TrackTarget) (c : SharedTokens)
      (w : W)
      → isolates_recipient t.mode ≡ false
      → build_track_open_link create_open_token t c w
        ≡ linked t.domain (text "/o/") (reuse (open_key t) (create_open_token t) c w)
  unfolding build_track_open_link token open_key
  build_track_open_link-reuse create_open_token t c w shared = rw shared refl

  -- The two calls of the cache, with other calls between them.
  reused_link :
      (key : SharedTokenKey) (domain link : Text) (mint again : W → W × Option Text)
      (calls : List (Call W)) (c : SharedTokens) (w : W)
      → (linked domain (text "/o/") (reuse key mint c w)).token ≡ some link
      → length calls ≤ shared_token_generation
      → let first = linked domain (text "/o/") (reuse key mint c w) in
        let between = reuse_all calls first.cache first.world in
        let second = linked domain (text "/o/") (reuse key again between.0 between.1) in
        (second.token ≡ some link) × (second.world ≡ between.1)
  unfolding linked
  reused_link key domain link mint again calls c w h le =
      let (t, e) = linked-some domain (text "/o/") (reuse key mint c w) h in
      let first = reuse key mint c w in
      let between = reuse_all calls first.cache first.world in
      let (same, untouched) = reuse_again key t mint again calls c w e le in
      (
        linked-token domain (text "/o/") (reuse key again between.0 between.1) t same
            ∙ sym (linked-token domain (text "/o/") first t e)
            ∙ h,
        untouched,
      )

  -- Two Recipients of a Batch whose opens are governed by a Mode that must not tell them apart have
  -- the same open link, and the second is not minted, where at most 1024 tokens are asked of the
  -- cache between the two.
  pub open_link_shared :
      (create_open_token : TrackTarget → W → W × Option Text) (t : TrackTarget) (other link : Text)
      (calls : List (Call W)) (c : SharedTokens) (w : W)
      → isolates_recipient t.mode ≡ false
      → (build_track_open_link create_open_token t c w).token ≡ some link
      → length calls ≤ shared_token_generation
      → let first = build_track_open_link create_open_token t c w in
        let between = reuse_all calls first.cache first.world in
        let second =
          build_track_open_link create_open_token
            (record t { identity = other })
            between.0
            between.1 in
        (second.token ≡ some link) × (second.world ≡ between.1)
  unfolding open_key
  open_link_shared create_open_token t other link calls c w shared h le =
      let second = record t { identity = other } in
      let first = linked t.domain (text "/o/") (reuse (open_key t) (create_open_token t) c w) in
      let between = reuse_all calls first.cache first.world in
      rw (build_track_open_link-reuse create_open_token t c w shared) (
        rw (build_track_open_link-reuse create_open_token second between.0 between.1 shared) (
          reused_link (open_key t) t.domain link (create_open_token t) (create_open_token second)
            calls c w
            (sym (
                ap (λ (r : Reused W). r.token)
                  (build_track_open_link-reuse create_open_token t c w shared))
              ∙ h)
            le))
