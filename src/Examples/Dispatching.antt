-- ===== src/Examples/Dispatching.antt =====
-- The dispatcher at concrete inputs: pkg/dispatcher.
use kannon.Base.{
  ℕ, ◌+◌, ◌*◌, ◌≡◌, ◌↔◌, refl, inl, true, false, none, some, [], ◌∷◌, Text, text, All, any, length,
  list_beq, nat_eq, list_eq, arith,
}
use kannon.Base.Int.{pos, ◌-ℤ◌}
use kannon.Tracking.{mode_unspecified}
use kannon.Delivery.Backoff.{hour}
use kannon.Stats.{Event, Outcome, delivered, errored, outcome_type, type_error}
use kannon.Pool.{has_key, find_row, get_pool}
use kannon.Pool.Repository.{get}
use kannon.Dispatcher.{
  Outside, World, Done, dispatch_cycle, reply_of, ack, term, claimer_drop, with_delivery,
  parse_delivered, parse_bounced, parse_errors,
}
use kannon.Dispatcher.Loss.{IsAccounted, dispatch_cycle-IsAccounted}
use kannon.Dispatcher.Acks.{acked_is_gone, term_iff, IsUnknown}
use kannon.Dispatcher.Stranding.{IsUnanswered, rounds, waiting, unanswered_never_ends}
use kannon.Examples.Sending.{row, ann, free, default_repo}

-- Envelopes are addresses; a Template is missing, so nothing is built.
abbrev failing : Outside Text
failing = record {
  repo = default_repo;
  build = λ d. none;
  takes_mail = λ e. true;
  takes_stat = λ e. true;
  finds = true;
  reschedules = true;
  drops = true;
  now = pos 5000;
}

abbrev spent_world : World Text
spent_world = record { rows = row (text "ann@acme.test") 12 ∷ []; stats = []; mail = [] }

in_pool : any (has_key (text "ann@acme.test") (text "msg_1")) spent_world.rows ≡ true
unfolding any has_key list_beq
in_pool = refl

dispatch_cycle-IsAccounted_example :
    IsAccounted
      (text "ann@acme.test")
      (text "msg_1")
      (dispatch_cycle (λ i. failing) free spent_world)
dispatch_cycle-IsAccounted_example =
    dispatch_cycle-IsAccounted (λ i. failing) free spent_world (text "ann@acme.test") (text "msg_1")
      (inl in_pool)

abbrev stat_of : Text → Outcome → Event
stat_of email outcome = record {
  message_id = text "msg_1";
  domain = text "acme.test";
  email = email;
  timestamp = pos 7000;
  outcome = outcome;
  tracking_mode = mode_unspecified;
}

delivered_acked :
    reply_of
      (parse_delivered failing (stat_of (text "ann@acme.test") delivered) spent_world).failure
    ≡ ack
unfolding parse_delivered with_delivery get get_pool find_row has_key list_beq claimer_drop reply_of
delivered_acked = refl

acked_is_gone_example :
    any
      (has_key (text "ann@acme.test") (text "msg_1"))
      (parse_delivered failing (stat_of (text "ann@acme.test") delivered) spent_world).world.rows
    ≡ false
acked_is_gone_example =
    acked_is_gone failing (parse_delivered failing) (stat_of (text "ann@acme.test") delivered)
      spent_world (inl refl) delivered_acked

error_type : outcome_type (errored 451 (text "later")) ≡ type_error
unfolding outcome_type errored list_beq
error_type = refl

abbrev bob_error : Event
bob_error = stat_of (text "bob@acme.test") (errored 451 (text "later"))

term_iff_example :
    All
      (λ (x : Done Text). (reply_of x.failure ≡ term) ↔ IsUnknown failing bob_error spent_world)
      (parse_delivered failing bob_error spent_world
        ∷ parse_bounced failing bob_error spent_world
        ∷ parse_errors failing bob_error spent_world
        ∷ [])
term_iff_example = term_iff failing bob_error spent_world error_type

-- everything is built and published; two hours pass from one outside to the next
abbrev silent : ℕ → Outside Text
silent i = record failing { build = λ d. some d.email; now = pos ((10 + 2 * i) * hour) }

silent-IsUnanswered : IsUnanswered ann silent
unfolding ◌-ℤ◌
silent-IsUnanswered = record {
  env = λ d. d.email;
  builds = λ i d. refl;
  takes = λ i d. refl;
  is_due = λ i. ground arith;
  passes = λ i. ground arith;
}

abbrev one_waiting : World Text
one_waiting = record { rows = ann ∷ []; stats = []; mail = [] }

unanswered_never_ends_example :
    ((rounds silent 40 one_waiting).rows ≡ waiting ann 40 ∷ [])
    × ((rounds silent 40 one_waiting).stats ≡ [])
    × (length (rounds silent 40 one_waiting).mail ≡ 40)
unanswered_never_ends_example =
    unanswered_never_ends ann silent silent-IsUnanswered 40 0 one_waiting refl
