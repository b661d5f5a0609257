-- ===== src/Metrics/Registry.antt =====
-- internal/metrics/prometheus.go: what changes the registerer. A registerer is a number, and its
-- registry the list of the names of its metrics; registering a name twice panics.
use entropy_tdc_gateway.Common.{
  ℕ, Bool, false, ◌||◌, Option, none, some, List, [], ◌∷◌, if◌then◌else◌, ◌==◌, map,
}
use entropy_tdc_gateway.Common.Text.{same_text}
use entropy_tdc_gateway.Metrics.Definitions.{definitions}
use entropy_tdc_gateway.Metrics.Unregistered.{unregistered}

abbrev pub Registry : Type 0
Registry = List (List ℕ)

abbrev pub holds : List ℕ → Registry → Bool
holds name [] = false
holds name (other ∷ others) = same_text other name || holds name others

-- The factory registers each metric when it makes it: none is a panic.
unfoldable pub initialize_metrics : List (List ℕ) → Registry → Option Registry
initialize_metrics [] registry = some registry
initialize_metrics (name ∷ names) registry =
    let rest = initialize_metrics names (name ∷ registry) in
    if holds name registry then none else rest

unfoldable pub unregister : List ℕ → Registry → Registry
unregister name [] = []
unregister name (other ∷ others) =
    let rest = unregister name others in if same_text other name then rest else other ∷ rest

unfoldable pub unregister_all : List (List ℕ) → Registry → Registry
unregister_all [] registry = registry
unregister_all (name ∷ names) registry = unregister_all names (unregister name registry)

pub record Registrations : Type 0 where
  pub current : ℕ
  pub registries : ℕ → Registry

abbrev pub put : ℕ → Registry → (ℕ → Registry) → ℕ → Registry
put id registry registries other = if other == id then registry else registries other

-- `SetRegisterer` and `resetMetrics`: none is a panic.
unfoldable pub set_registerer : ℕ → Registrations → Option Registrations
set_registerer id s =
    let cleared =
      put s.current (unregister_all unregistered (s.registries s.current)) s.registries in
    elim (initialize_metrics (map (λ d. d.name) definitions) (cleared id)) [
      | none ↦ none
      | some registry ↦ some (record { current = id; registries = put id registry cleared })
    ]

-- Several changes, one after the other.
unfoldable pub set_registerers : List ℕ → Registrations → Option Registrations
set_registerers [] s = some s
set_registerers (id ∷ ids) s = elim (set_registerer id s) [
  | none ↦ none
  | some next ↦ set_registerers ids next
]
