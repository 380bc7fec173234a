-- ===== src/StatusPages/Aggregate.antt =====
-- The aggregate status is the worst of the statuses.
use blackgrid.Prelude.{
  String, Bool, true, false, not, ◌||◌, if◌then◌else◌, List, [], ◌∷◌, any_of, ◌≡◌, refl, arith,
}
use blackgrid.Model.{MonitorStatus, up, down, degraded, unknown, paused, other, status_eq}
use blackgrid.StatusPages.Public.{aggregate_loop, compute_aggregate_status}

abbrev is_bad : MonitorStatus → Bool
is_bad s = status_eq s degraded || status_eq s unknown

-- The worst status: down before all else, up only where all are up.
abbrev pub worst_status : List MonitorStatus → String
worst_status [] = "empty"
worst_status (s ∷ ss) =
    if any_of (λ t. status_eq t down) (s ∷ ss)
    then "down"
    else if any_of (λ t. not (status_eq t up)) (s ∷ ss)
    then "degraded"
    else "up"

loop_lem :
    (has_down has_degraded all_up : Bool) (ss : List MonitorStatus)
    → aggregate_loop has_down has_degraded all_up ss ≡ (
        if has_down || any_of (λ t. status_eq t down) ss
        then "down"
        else if has_degraded || not all_up || any_of (λ t. not (status_eq t up)) ss
        then "degraded"
        else "up")
loop_lem d g u [] = ground arith
loop_lem d g u (up ∷ ss) = ground (arith, loop_lem d g u ss)
loop_lem d g u (down ∷ ss) = ground (arith, loop_lem true g false ss)
loop_lem d g u (degraded ∷ ss) = ground (arith, loop_lem d true false ss)
loop_lem d g u (unknown ∷ ss) = ground (arith, loop_lem d true false ss)
loop_lem d g u (paused ∷ ss) = ground (arith, loop_lem d g false ss)
loop_lem d g u (other w ∷ ss) = ground (arith, loop_lem d g false ss)

-- For every list of statuses the loop of ComputeAggregateStatus yields the worst: "empty" of none,
-- "down" where one is down, "up" where all are up, and "degraded" otherwise.
pub compute_aggregate_status-worst_status :
    (ss : List MonitorStatus) → compute_aggregate_status ss ≡ worst_status ss
unfolding compute_aggregate_status
compute_aggregate_status-worst_status [] = refl
compute_aggregate_status-worst_status (s ∷ ss) = ground (arith, loop_lem false false true (s ∷ ss))
