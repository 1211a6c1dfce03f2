-- ===== src/Examples/Building.antt =====
-- The builder of Envelopes and the loop of a worker at concrete inputs: internal/envelope,
-- internal/statssec and internal/runner.
use kannon.Base.{
  ℕ, ◌+◌, ◌≡◌, ◌≤◌, refl, false, Option, none, some, List, [], ◌∷◌, Text, text, inl, arith, nat_eq,
  list_eq, list_beq, lookup, put,
}
use kannon.Base.Int.{ℤ}
use kannon.Tracking.{
  Policy, mode_anonymous, mode_pseudonymous, isolates_recipient, reaches, states, collection,
  rank_or_zero, rank, find_rank,
}
use kannon.Tracking.Ceiling.{axis_opens, axis_links}
use kannon.LinkTokens.{Names, identity_under}
use kannon.Envelope.SharedTokens.{
  SharedTokenKey, new_shared_tokens, len, reuse, reuse_held, after_mint, put_token,
}
use kannon.Envelope.SharedTokens.Stability.{Call, reuse_all, len-reuse_all}
use kannon.Envelope.Tracks.{
  TrackingIdentity, TrackTarget, new_tracking_identity, track_target_for, build_track_open_link,
  linked, token,
}
use kannon.Envelope.Naming.{named_under, identity_under_lem}
use kannon.Envelope.Sharing.{open_link_shared}
use kannon.Runner.{max_loop, returned, run_with, build_options, configure_all, configure_runner}
use kannon.Runner.Limits.{ended, passes, then_loop, then_wait, run_with_lem}

-- a mint that counts the tokens that it makes
abbrev minting : ℕ → ℕ × Option Text
minting n = (n + 1, some (text "eyJ"))

abbrev opens_key : SharedTokenKey
opens_key = record {
  axis = axis_opens;
  domain = text "acme.test";
  message_id = text "msg_1@acme.test";
  url = [];
  mode = mode_anonymous;
}

abbrev link_key : SharedTokenKey
link_key = record opens_key { axis = axis_links; url = text "https://acme.test/" }

abbrev two_calls : List (Call ℕ)
two_calls =
    record { key = opens_key; mint = minting } ∷ record { key = link_key; mint = minting } ∷ []

len-reuse_all_example : len (reuse_all two_calls new_shared_tokens 0).0 ≤ 2048
len-reuse_all_example = len-reuse_all two_calls 0

abbrev ann_target : TrackTarget
ann_target = record {
  identity = text "ann@acme.test";
  message_id = text "msg_1@acme.test";
  domain = text "acme.test";
  mode = mode_anonymous;
}

abbrev create_open_token : TrackTarget → ℕ → ℕ × Option Text
create_open_token t n = minting n

anonymous_shared : isolates_recipient mode_anonymous ≡ false
unfolding isolates_recipient reaches states collection rank_or_zero rank find_rank list_beq
anonymous_shared = refl

ann_link :
    (build_track_open_link create_open_token ann_target new_shared_tokens 0).token
    ≡ some (text "https://stats.acme.test/o/eyJ")
unfolding build_track_open_link linked token reuse reuse_held after_mint lookup put_token put
    isolates_recipient reaches states collection rank_or_zero rank find_rank list_beq
ann_link = refl

open_link_shared_example :
    let first = build_track_open_link create_open_token ann_target new_shared_tokens 0 in
    let between = reuse_all two_calls first.cache first.world in
    let second =
      build_track_open_link create_open_token
        (record ann_target { identity = text "bob@acme.test" })
        between.0
        between.1 in
    (second.token ≡ some (text "https://stats.acme.test/o/eyJ")) × (second.world ≡ between.1)
open_link_shared_example =
    open_link_shared create_open_token ann_target (text "bob@acme.test")
      (text "https://stats.acme.test/o/eyJ") two_calls new_shared_tokens 0 anonymous_shared ann_link
      (omega arith)

abbrev mixed : Policy
mixed = record { opens = mode_pseudonymous; links = mode_anonymous }

abbrev drawn : List ℕ
drawn = 1 ∷ 2 ∷ 3 ∷ 4 ∷ 5 ∷ 6 ∷ 7 ∷ 8 ∷ 9 ∷ 10 ∷ 11 ∷ 12 ∷ 13 ∷ 14 ∷ 15 ∷ 255 ∷ []

abbrev acme_names : Names
acme_names = record { domain_of = λ m. some (text "acme.test"); fold = λ r. r }

identity_under_lem_example :
    (i : TrackingIdentity) × (new_tracking_identity
        (some drawn)
        mixed
        (text "ann@acme.test")
        (text "acme.test")
      ≡ some i)
    × (identity_under acme_names mode_pseudonymous
          (track_target_for i
            (text "msg_1@acme.test")
            (text "acme.test")
            mode_pseudonymous).identity
          (text "msg_1@acme.test")
        ≡ some
            (named_under mixed (text "ann@acme.test") (text "acme.test") drawn mode_pseudonymous))
identity_under_lem_example =
    identity_under_lem mixed (text "ann@acme.test") (text "acme.test") drawn acme_names
      (text "msg_1@acme.test") mode_pseudonymous refl refl (inl refl)

-- a loop that counts its calls, and a wait that nothing cuts short
abbrev counting_loop : ℕ → ℕ × Option Text
counting_loop n = (n + 1, none)

abbrev idle : ℤ → ℕ → ℕ × Option Text
idle d n = (n, none)

run_with_lem_example :
    run_with counting_loop idle 5 (some (max_loop 3) ∷ none ∷ []) 0 ≡ (3, returned none)
unfolding ended passes then_loop then_wait build_options configure_all configure_runner
run_with_lem_example =
    run_with_lem counting_loop idle (some (max_loop 3) ∷ none ∷ []) 5 0 refl (omega arith)
      (omega arith) (omega arith)
