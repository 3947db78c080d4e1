-- ===== src/Tests/Hubs.antt =====
-- The hub at a concrete run.
use flx.Prelude.{◌≡◌, List, [], ◌∷◌, codes, some, true}
use flx.Hub.{Hub, new_hub}
use flx.Hub.Invariant.{IsSound}
use flx.Hub.Safety.{
  Call, perform_all, perform_all-IsSound, call_subscribe, call_subscribe_all, call_gap_all,
  call_unsubscribe, call_unsubscribe_all,
}

-- A client leaves twice, and one leaves with the identifier of another kind of subscription.
abbrev calls : List Call
calls =
    call_subscribe (codes "7")
    ∷ call_subscribe_all
    ∷ call_gap_all (codes "gateway_gap") 5
    ∷ call_unsubscribe (codes "7") 0
    ∷ call_unsubscribe (codes "7") 0
    ∷ call_unsubscribe_all 0
    ∷ call_unsubscribe (codes "8") 1
    ∷ []

perform_all-IsSound_example : (h : Hub) × (perform_all calls (new_hub true) ≡ some h) × IsSound h
perform_all-IsSound_example = perform_all-IsSound true calls
