-- ===== src/Examples/Validating.antt =====
-- The validator at concrete inputs: pkg/validator.
use kannon.Base.{
  ℕ, Bool, List, select_rows, ◌≡◌, refl, true, false, [], ◌∷◌, text, any, nat_eq, list_eq, list_beq,
  has_suffix,
}
use kannon.Base.Int.{pos}
use kannon.Pool.{Row, has_key}
use kannon.Validator.{Outside, World, validate_email, handle_delivery}
use kannon.Validator.Silence.{cycles, names, rejected_for_good}
use kannon.Examples.Sending.{ann, bob, default_repo, tried}

-- An expression that only Ann's address matches
abbrev answering : Outside
answering = record {
  repo = default_repo;
  matches = λ a. list_beq a (text "ann@acme.test");
  takes_stat = λ e. true;
  marks = true;
  drops = true;
  now = pos 7000;
}

abbrev two_rows : World
two_rows = record { rows = ann ∷ bob ∷ []; stats = [] }

-- no address matches, and the broker is away
abbrev mute : Outside
mute = record answering { matches = λ a. false; takes_stat = λ e. false }

ann_refused : validate_email mute (tried 0).email ≡ false
unfolding validate_email has_suffix list_beq
ann_refused = refl

-- two cycles in which the broker is back
abbrev afterwards : List ((ℕ → Outside) × (Row → Bool))
afterwards = (λ i. answering, λ r. false) ∷ (λ i. answering, λ r. false) ∷ []

rejected_for_good_example :
    (any
        (has_key (tried 0).email (tried 0).batch_id)
        (cycles afterwards (handle_delivery mute (tried 0) two_rows)).rows
      ≡ false)
    × (select_rows
          (names (tried 0).email (tried 0).batch_id)
          (cycles afterwards (handle_delivery mute (tried 0) two_rows)).stats
        ≡ select_rows (names (tried 0).email (tried 0).batch_id) two_rows.stats)
rejected_for_good_example =
    rejected_for_good mute (tried 0) two_rows afterwards ann_refused refl (λ e. refl)
