-- ===== src/Tests/Restarts.antt =====
-- A ticker that is made, started and stopped at the store of `Tests.Store`.
use aml.Base.{◌≡◌, none, arith, refl, inr}
use aml.World.{ticker, Obj, World, success, ok, put, ◌>>=◌}
use aml.Object.{new_obj}
use aml.Registry.{aml_start, aml_stop}
use aml.Registry.Roundtrip.{aml_stop-aml_start_timer}
use aml.Tests.Quiet.{S, quiet}
use aml.Tests.Store.{world}

abbrev new_ticker : Obj
new_ticker = let o = new_obj ticker none 0 none in record o { timeout = 250 }

abbrev restarted : World S
restarted = put 8 new_ticker world

aml_stop-aml_start_timer_example :
    (aml_start quiet 8 >>= λ _. aml_stop quiet 8) restarted
    ≡ ok success (put 8 (record new_ticker { deadline = 5000257 }) restarted)
aml_stop-aml_start_timer_example =
    aml_stop-aml_start_timer quiet restarted 8 new_ticker refl (omega arith) refl refl ticker refl
      (inr refl) refl (λ q n. ground arith) (λ d v. refl)
