-- ===== src/Tests/Lifetimes.antt =====
-- Weak references and stopped objects of src/aml.c at the store of `Tests.Store`.
use aml.Base.{◌≡◌, ◌≢◌, some, arith, refl, [], ◌∷◌}
use aml.World.{Ptr, World, ok}
use aml.World.Safe.{Safe}
use aml.Ref.{aml_weak_ref_read}
use aml.Unref.{aml_unref}
use aml.Dispatch.{handle_event}
use aml.Registry.Cancel.{handle_event_unstarted}
use aml.Inv.WeakRefs.{Read, aml_weak_ref_read-Read, aml_unref-weak}
use aml.Tests.Quiet.{S, stopping, stopping-IsTame}
use aml.Tests.Store.{world, nobody, world-Inv, the_timer}
use aml.Tests.Safety.{but_handler, world_grabbed}

aml_weak_ref_read-Read_example :
    Safe (λ res w'. (res ≡ some 2) × Read world-Inv 9 (some 2) w') (aml_weak_ref_read 9 world)
aml_weak_ref_read-Read_example = aml_weak_ref_read-Read world-Inv 9 (some 2) refl

aml_unref-weak_example :
    Safe (λ n w'. n ≡ 0 → (r : Ptr) → w'.weak r ≢ some (some 4)) (aml_unref stopping 4 world)
aml_unref-weak_example =
    aml_unref-weak stopping (stopping-IsTame 1).free nobody but_handler world 4 world_grabbed
      (omega arith)

-- The timer is off the list of started objects; its event is still queued.
abbrev stopped_timer : World S
stopped_timer = record world { obj_list = 3 ∷ [] }

handle_event_unstarted_example : handle_event stopping 2 stopped_timer ≡ ok tt stopped_timer
handle_event_unstarted_example =
    handle_event_unstarted stopping stopped_timer 2 the_timer refl (omega arith) refl refl refl
