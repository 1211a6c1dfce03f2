-- ===== src/Dispatcher/Branches.antt =====
-- The branches of the calls that pkg/dispatcher/disp.go makes, each under its condition.
use kannon.Base.{◌≡◌, refl, ap, true, false, none, some, List, [], ◌∷◌, ◌++◌, Text}
use kannon.Delivery.{Delivery}
use kannon.Stats.{Event}
use kannon.Pool.{Row}
use kannon.Pool.Repository.{reschedule, clean}
use kannon.Dispatcher.{
  Outside, World, refused, not_found, claimer_reschedule, claimer_drop, publish_stat, failed_event,
  drop_if_published, fail,
}

module _ {E : Type 0} (o : Outside E) (d : Delivery) where
  pub drop_done :
      (w : World E)
      → o.drops ≡ true
      → claimer_drop o d w
        ≡ record { world = record w { rows = clean d.batch_id d.email w.rows }; failure = none }
  unfolding claimer_drop
  drop_done w h = rw (h, claimer_drop) refl

  pub drop_refused :
      (w : World E)
      → o.drops ≡ false
      → claimer_drop o d w ≡ record { world = w; failure = some refused }
  unfolding claimer_drop
  drop_refused w h = rw (h, claimer_drop) refl

  published :
      (e : Event) (w : World E)
      → o.takes_stat e ≡ true
      → publish_stat o e w
        ≡ record { world = record w { stats = w.stats ++ e ∷ [] }; failure = none }
  unfolding publish_stat
  published e w h = rw (h, publish_stat) refl

  unpublished :
      (e : Event) (w : World E)
      → o.takes_stat e ≡ false
      → publish_stat o e w ≡ record { world = w; failure = some refused }
  unfolding publish_stat
  unpublished e w h = rw (h, publish_stat) refl

  pub fail_told :
      (reason : Text) (w : World E)
      → o.takes_stat (failed_event o.now d reason) ≡ true
      → fail o d reason w
        ≡ claimer_drop o d (record w { stats = w.stats ++ failed_event o.now d reason ∷ [] })
  unfolding fail drop_if_published
  fail_told reason w h = ap (drop_if_published o d) (published (failed_event o.now d reason) w h)

  pub fail_untold :
      (reason : Text) (w : World E)
      → o.takes_stat (failed_event o.now d reason) ≡ false
      → fail o d reason w ≡ record { world = w; failure = some refused }
  unfolding fail drop_if_published
  fail_untold reason w h =
      ap (drop_if_published o d) (unpublished (failed_event o.now d reason) w h)

  pub reschedule_done :
      (w : World E) (rows : List Row)
      → o.reschedules ≡ true
      → reschedule o.repo d.batch_id d.email w.rows ≡ some rows
      → claimer_reschedule o d w ≡ record { world = record w { rows = rows }; failure = none }
  unfolding claimer_reschedule
  reschedule_done w rows h k = rw (h, claimer_reschedule) (rw k refl)

  pub reschedule_unknown :
      (w : World E)
      → o.reschedules ≡ true
      → reschedule o.repo d.batch_id d.email w.rows ≡ none
      → claimer_reschedule o d w ≡ record { world = w; failure = some not_found }
  unfolding claimer_reschedule
  reschedule_unknown w h k = rw (h, claimer_reschedule) (rw k refl)

  pub reschedule_refused :
      (w : World E)
      → o.reschedules ≡ false
      → claimer_reschedule o d w ≡ record { world = w; failure = some refused }
  unfolding claimer_reschedule
  reschedule_refused w h = rw (h, claimer_reschedule) refl
