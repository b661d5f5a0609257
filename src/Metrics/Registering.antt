-- ===== src/Metrics/Registering.antt =====
-- Changing the registerer never registers a name twice.
use entropy_tdc_gateway.Common.{
  ℕ, ◌≡◌, refl, ◌∙◌, inl, inr, Bool, true, false, ◌||◌, Bool-cases, some, List, [], ◌∷◌, All, arith,
  ◌==◌, if◌then◌else◌, map, sym, subst,
}
use entropy_tdc_gateway.Common.Text.{same_text, same_text→path}
use entropy_tdc_gateway.Metrics.Definitions.{
  definitions, event_definitions, stream_definitions, collector_definitions, cloud_definitions,
}
use entropy_tdc_gateway.Metrics.Unregistered.{
  unregistered, unregistered_events, unregistered_entropy, unregistered_checks,
  unregistered_servers,
}
use entropy_tdc_gateway.Metrics.Registry.{
  Registry, Registrations, holds, initialize_metrics, unregister, unregister_all, set_registerer,
  set_registerers, put,
}

-- No name of the list is in the registry.
abbrev pub AreAbsent : List (List ℕ) → Registry → Type 0
AreAbsent names registry = All (λ name. holds name registry ≡ false) names

abbrev are_distinct : List (List ℕ) → Bool
are_distinct [] = true
are_distinct (name ∷ names) = if holds name names then false else are_distinct names

abbrev pub metric_names : List (List ℕ)
metric_names = map (λ d. d.name) definitions

metric_names_distinct : are_distinct metric_names ≡ true
unfolding definitions event_definitions stream_definitions collector_definitions cloud_definitions
    same_text
metric_names_distinct = refl

same_text_symm : (xs ys : List ℕ) → same_text xs ys ≡ same_text ys xs
unfolding same_text
same_text_symm [] [] = refl
same_text_symm [] (y ∷ ys) = refl
same_text_symm (x ∷ xs) [] = refl
same_text_symm (x ∷ xs) (y ∷ ys) = ground (arith, same_text_symm xs ys)

or_false : (a b : Bool) → (a || b) ≡ false → (a ≡ false) × (b ≡ false)
or_false true b h = absurd (cc h)
or_false false b h = (refl, h)

neither : (a b : Bool) → a ≡ false → b ≡ false → (a || b) ≡ false
neither a b p q = rw (p, q) refl

-- A name that is registered stays apart from those that differ from it.
others_absent :
    (name : List ℕ) (names : List (List ℕ)) (registry : Registry)
    → holds name names ≡ false
    → AreAbsent names registry
    → AreAbsent names (name ∷ registry)
others_absent name [] registry h a = tt
others_absent name (other ∷ others) registry h (b, a) =
    let (p, q) = or_false (same_text other name) (holds name others) h in
    (neither _ _ (same_text_symm name other ∙ p) b, others_absent name others registry q a)

-- Registering distinct names that are absent does not panic.
initialize_metrics-absent :
    (names : List (List ℕ)) (registry : Registry)
    → are_distinct names ≡ true
    → AreAbsent names registry
    → (next : Registry) × (initialize_metrics names registry ≡ some next)
unfolding initialize_metrics
initialize_metrics-absent [] registry d a = (registry, refl)
initialize_metrics-absent (name ∷ names) registry d (first, a) =
    elim (Bool-cases (holds name names)) [
      | inl h ↦ absurd (cc (rw h at d))
      | inr h ↦
          let (next, e) =
            initialize_metrics-absent names (name ∷ registry) (rw h at d)
              (others_absent name names registry h a) in
          (next, rw (initialize_metrics, first) e)
    ]

-- Unregistering keeps a name absent, and makes its own absent.
unregister_keeps :
    (name other : List ℕ) (registry : Registry)
    → holds other registry ≡ false
    → holds other (unregister name registry) ≡ false
unfolding unregister
unregister_keeps name other [] h = refl
unregister_keeps name other (x ∷ xs) h =
    let (p, q) = or_false (same_text x other) (holds other xs) h in
    elim (Bool-cases (same_text x name)) [
      | inl e ↦ rw (unregister, e) (unregister_keeps name other xs q)
      | inr e ↦ rw (unregister, e) (neither _ _ p (unregister_keeps name other xs q))
    ]

unregister_gone :
    (name : List ℕ) (registry : Registry) → holds name (unregister name registry) ≡ false
unfolding unregister
unregister_gone name [] = refl
unregister_gone name (x ∷ xs) = elim (Bool-cases (same_text x name)) [
  | inl e ↦ rw (unregister, e) (unregister_gone name xs)
  | inr e ↦ rw (unregister, e) (neither _ _ e (unregister_gone name xs))
]

unregister_all_keeps :
    (names : List (List ℕ)) (other : List ℕ) (registry : Registry)
    → holds other registry ≡ false
    → holds other (unregister_all names registry) ≡ false
unfolding unregister_all
unregister_all_keeps [] other registry h = h
unregister_all_keeps (name ∷ names) other registry h =
    unregister_all_keeps names other (unregister name registry)
      (unregister_keeps name other registry h)

-- A name of the list is gone, wherever it stands there.
unregister_all_gone :
    (names : List (List ℕ)) (other : List ℕ) (registry : Registry)
    → holds other names ≡ true
    → holds other (unregister_all names registry) ≡ false
unfolding unregister_all
unregister_all_gone [] other registry h = absurd (cc h)
unregister_all_gone (name ∷ names) other registry h = elim (Bool-cases (same_text name other)) [
  | inl e ↦ unregister_all_keeps names other (unregister name registry) (
      subst (λ x. holds other (unregister x registry) ≡ false) (sym (same_text→path name other e))
        (unregister_gone other registry))
  | inr e ↦ unregister_all_gone names other (unregister name registry) (rw e at h)
]

-- Every name of the second list is one of the first.
abbrev covers : List (List ℕ) → List (List ℕ) → Bool
covers names [] = true
covers names (other ∷ others) = if holds other names then covers names others else false

unregister_all-absent :
    (names others : List (List ℕ)) (registry : Registry)
    → covers names others ≡ true
    → AreAbsent others (unregister_all names registry)
unregister_all-absent names [] registry h = tt
unregister_all-absent names (other ∷ others) registry h = elim (Bool-cases (holds other names)) [
  | inl e ↦ (
    unregister_all_gone names other registry e,
    unregister_all-absent names others registry (rw e at h),
  )
  | inr e ↦ absurd (cc (rw e at h))
]

-- No metric is forgotten: each that is registered is also unregistered.
unregistered-covers : covers unregistered metric_names ≡ true
unfolding definitions event_definitions stream_definitions collector_definitions cloud_definitions
    unregistered unregistered_events unregistered_entropy unregistered_checks unregistered_servers
    same_text
unregistered-covers = refl

-- No registry but the current one holds a name of the metrics.
abbrev pub IsOnlyCurrent : Registrations → Type 0
IsOnlyCurrent s = (id : ℕ) → (id == s.current) ≡ false → AreAbsent metric_names (s.registries id)

cleared-absent :
    (s : Registrations)
    → IsOnlyCurrent s
    → (id : ℕ)
    → AreAbsent metric_names
        (put s.current (unregister_all unregistered (s.registries s.current)) s.registries id)
cleared-absent s only id = elim (Bool-cases (id == s.current)) [
  | inl e ↦
      rw e (
        unregister_all-absent unregistered metric_names (s.registries s.current)
          unregistered-covers)
  | inr e ↦ rw e (only id e)
]

set_registerer-IsOnlyCurrent :
    (id : ℕ) (s : Registrations)
    → IsOnlyCurrent s
    → (next : Registrations) × ((set_registerer id s ≡ some next) × IsOnlyCurrent next)
unfolding set_registerer
set_registerer-IsOnlyCurrent id s only =
    let cleared =
      put s.current (unregister_all unregistered (s.registries s.current)) s.registries in
    let (registry, e) =
      initialize_metrics-absent metric_names (cleared id) metric_names_distinct
        (cleared-absent s only id) in
    (
      record { current = id; registries = put id registry cleared },
      (rw (set_registerer, e) refl, λ other apart. rw apart (cleared-absent s only other)),
    )

-- Where no registry but that of the current registerer holds a name of the metrics, any changes of
-- the registerer, to new ones and back, succeed: since each of the names that are registered is also
-- unregistered, no metric is registered twice.
pub set_registerers-succeed :
    (ids : List ℕ) (s : Registrations)
    → IsOnlyCurrent s
    → (next : Registrations) × (set_registerers ids s ≡ some next)
unfolding set_registerers
set_registerers-succeed [] s only = (s, refl)
set_registerers-succeed (id ∷ ids) s only =
    let (next, (e, kept)) = set_registerer-IsOnlyCurrent id s only in
    let (final, f) = set_registerers-succeed ids next kept in (final, rw (set_registerers, e) f)
