-- ===== src/Examples/Transmitting.antt =====
-- The transmission of Envelopes at concrete inputs: pkg/smtpsender.
use kannon.Base.{nat_eq, list_eq, ◌≡◌, refl, true, false, some, [], ◌∷◌, text}
use kannon.Base.Int.{pos, ◌+ℤ◌, ltb_ℤ}
use kannon.Stats.{Event, outcome_type}
use kannon.SmtpSender.{
  Outside, World, Envelope, ack, is_claimed, send_guard_ttl, deliver_all, handle_message,
}
use kannon.SmtpSender.Redelivery.{IsRepeated, handed_once, transmission_told, type_of_answer}

-- a guarded delivery that the relay refuses for the time being
abbrev busy : Outside
busy = record {
  wired = true;
  key = some (text "7.abc");
  bucket_answers = true;
  keeps = λ at. ltb_ℤ (pos 9000) (at +ℤ pos send_guard_ttl);
  relay = λ e. some (record { is_permanent = false; code = 451; message = text "later" });
  ids = λ i. some (text "msg_1", text "acme.test");
  takes_stat = λ e. true;
  now = pos 9000;
}

abbrev letter : Envelope
letter = record {
  email_id = text "letter";
  return_path = text "bump_1";
  to_address = text "ann@acme.test";
  body = text "hello";
  should_retry = true;
}

abbrev nothing_yet : World
nothing_yet = record { bucket = []; handed = []; stats = [] }

key_is_new : is_claimed busy (text "7.abc") nothing_yet.bucket ≡ false
unfolding is_claimed
key_is_new = refl

busy_again : IsRepeated (text "7.abc") (pos 9000) busy
unfolding ◌+ℤ◌
busy_again = ((refl, refl, refl), (λ at h. h), refl)

handed_once_example :
    (deliver_all letter (busy ∷ busy ∷ busy ∷ []) nothing_yet).handed ≡ letter ∷ []
handed_once_example =
    handed_once letter (text "7.abc") busy (busy ∷ busy ∷ []) nothing_yet (refl, refl, refl)
      key_is_new (busy_again, (busy_again, tt))

transmission_told_example :
    (e : Event) × ((handle_message busy letter nothing_yet).world.stats ≡ e ∷ [])
    × ((handle_message busy letter nothing_yet).reply ≡ ack)
    × (e.email ≡ letter.to_address)
    × (outcome_type e.outcome ≡ type_of_answer (busy.relay letter) letter)
transmission_told_example =
    transmission_told busy letter (text "7.abc") (text "msg_1", text "acme.test") nothing_yet
      (refl, refl, refl) key_is_new refl (λ e. refl)
