-- ===== src/Telemetry/Handles.antt =====
-- Setup and Shutdown of pkg/otel/otel.go together.
use nile.Prelude.{◌≡◌, ◌≢◌, ◌⊎◌, inl, inr, refl, if_cases, true, Option, none, some, List, [], ◌∷◌}
use nile.Telemetry.{
  traces, metrics, Process, SetupHost, SetupError, setup, ShutdownErrors, shutdown,
}

-- The first error of a list of results.
abbrev pub first_of : {E : Type 0} → List (Option E) → Option E
first_of [] = none
first_of (none ∷ rest) = first_of rest
first_of (some e ∷ rest) = some e

abbrev pub IsUndone : Process → Option SetupError × Process → Type 0
IsUndone p r = (r.0 ≢ none) × (r.1 ≡ p)

abbrev pub IsReady :
    {E : Type 0} → ShutdownErrors E → Process → Option SetupError × Process → Type 0
IsReady errors p r =
    (r ≡ (none, record { open_files = metrics ∷ (traces ∷ p.open_files); global_providers = true }))
    × (shutdown errors r.1 ≡ (
      first_of (errors.tracer ∷ errors.meter ∷ errors.trace_file ∷ errors.metric_file ∷ []),
      record p { global_providers = true },
    ))

first_error_lem :
    {E : Type 0} (a b c d : Option E) (p : Process)
    → shutdown
        (record { tracer = a; meter = b; trace_file = c; metric_file = d })
        (record { open_files = metrics ∷ (traces ∷ p.open_files); global_providers = true })
      ≡ (first_of (a ∷ b ∷ c ∷ d ∷ []), record p { global_providers = true })
unfolding shutdown
first_error_lem (some e) b c d p = refl
first_error_lem none (some e) c d p = refl
first_error_lem none none (some e) d p = refl
first_error_lem none none none (some e) p = refl
first_error_lem none none none none p = refl

some_error : (e : SetupError) → some e ≢ none
some_error e h = absurd (cc)

-- A Setup that reports an error has closed the files that it opened and set no global provider. One
-- that reports none has opened the two files, and Shutdown then closes both, whatever its calls
-- report, and returns the first error: of the providers of traces and of metrics, then of the files.
pub setup-shutdown :
    {E : Type 0} (host : SetupHost) (errors : ShutdownErrors E) (p : Process)
    → IsUndone p (setup host p) ⊎ IsReady errors p (setup host p)
unfolding setup
setup-shutdown host errors p =
    if_cases Either host.makes_dir
      (λ _.
        if_cases Either (host.opens traces)
          (λ _.
            if_cases Either (host.exports traces)
              (λ _.
                if_cases Either (host.opens metrics)
                  (λ _.
                    if_cases Either (host.exports metrics)
                      (λ _. inr (
                        refl,
                        first_error_lem errors.tracer errors.meter errors.trace_file
                            errors.metric_file p,
                      ))
                      (λ _. inl (some_error _, refl)))
                  (λ _. inl (some_error _, refl)))
              (λ _. inl (some_error _, refl)))
          (λ _. inl (some_error _, refl)))
      (λ _. inl (some_error _, refl))
  where
    Either : Option SetupError × Process → Type 0
    Either r = IsUndone p r ⊎ IsReady errors p r
