-- ===== src/Admission/Tick.antt =====
-- One round of the admission controller, on every path through its exchanges with HAProxy.
use s3_storage_node.Common.{◌+◌, ◌<◌, ◌≡◌, ◌⊎◌, Bool, true, List, ◌∷◌, none}
use s3_storage_node.Common.Int.{pos}
use s3_storage_node.Common.Result.{Result, ok, err}
use s3_storage_node.Admission.{ControlError, Report, Controller, Command, set_maxconn, Outcome}

-- The latest command sets the limit that the budget then holds and the report shows.
abbrev pub InStep : Outcome → Report → Type 0
InStep out r =
    ((sent : List Command) × (out.commands ≡ set_maxconn out.controller.budget.limit ∷ sent))
    × (r.write_limit ≡ out.controller.budget.limit)

-- An error leaves the limit at 1 and is counted; without one the count stays.
abbrev pub FailsClosed : Controller → Outcome → Report → Type 0
FailsClosed c out r =
    ((r.last_error ≡ none) × (out.controller.errors ≡ c.errors))
    ⊎ ((out.controller.budget.limit ≡ 1) × (out.controller.errors ≡ c.errors + 1))

-- When the limit has risen, the probe was healthy, the queue empty and the exchange free of error.
abbrev pub RisesHealthy : Bool → Controller → Outcome → Report → Type 0
RisesHealthy healthy c out r =
    c.budget.limit < out.controller.budget.limit
    → (healthy ≡ true) × (r.queue ≡ pos 0) × (r.last_error ≡ none)

-- A report is published.
abbrev pub Answers : Bool → Controller → Outcome → Type 0
Answers healthy c out =
    (r : Report) × (out.result ≡ ok r)
    × InStep out r
    × FailsClosed c out r
    × RisesHealthy healthy c out r

-- The round raises: the state is as it was, or the limit has fallen to 1.
abbrev pub Escapes : Controller → Outcome → Type 0
Escapes c out =
    (e : ControlError) × (out.result ≡ err e)
    × ((out.controller ≡ c)
        ⊎ ((out.controller.budget.limit ≡ 1) × (out.controller.errors ≡ c.errors + 1)))
