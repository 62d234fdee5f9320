-- ===== src/Server/Checks.antt =====
-- metrics/heapster.go: what the health check and the check of the options accept.
use heapster.Common.{
  ℕ, ◌*◌, ◌+◌, ◌-◌, ◌≤◌, get_last?-append, String, Option, none, some, Option-cases, true, false,
  Bool, Bool-cases, not, ◌&&◌, ◌||◌, inl, inr, ◌≡◌, refl, sym, subst, ◌↔◌, arith, length,
  if◌then◌else◌, ◌<◌,
}
use mathlib.Core.Option.{some-injective}
use heapster.Common.Int64.{two63, two64}
use heapster.Common.Time.{Time}
use heapster.Core.Values.{DataBatch}
use heapster.Server.{
  check_batch, healthz_checker, HeapsterRunOptions, lt64, is_given, validate_flags,
}
use heapster.Sinks.Metric.{MetricSink, get_latest_data_batch, export_data, pop_old}

abbrev pub IsHealthy : MetricSink → Time → Type 0
IsHealthy sink now =
    (batch : DataBatch) × (get_latest_data_batch sink ≡ some batch)
    × (now ≤ batch.timestamp + 180 * 1000000000)
    × (1 ≤ length batch.metric_sets)

-- The health check passes exactly when the sink has a latest batch, with a set in it, that is at most
-- three minutes old.
pub healthz_checker_lem :
    (sink : MetricSink) (now : Time) → (healthz_checker sink now ≡ none) ↔ IsHealthy sink now
unfolding healthz_checker
healthz_checker_lem sink now = elim (Option-cases (get_latest_data_batch sink)) [
  | inl e ↦ rw (e, healthz_checker) (λ h. cc, λ (batch, e', recent, present). cc)
  | inr (latest, e) ↦
      let batch = latest in
      rw (e, healthz_checker)
        (
          λ h. (latest, refl, ground (arith, h), ground (arith, h)),
          λ (batch', e', recent, some_set).
              let same = some-injective latest batch' e' in
              subst (λ b. check_batch now (some b) ≡ none) (sym same)
                (ground (arith, recent, some_set)),
        )
]

lt64_five : (x : ℕ) → x < two64 → (lt64 x 5000000000 ≡ false) ↔ ((5000000000 ≤ x) × (x < two63))
lt64_five x w = (λ h. (ground (arith, h, w), ground (arith, h, w)), λ (a, b). ground (arith, a, b))

abbrev check_tls : Bool → Bool → Bool → Option String
check_tls cert key ca =
    if (cert && not key) || (not cert && key)
    then some "both TLS certificate & key are required to enable TLS serving"
    else (if ca && not cert
        then some "client cert authentication requires TLS certificate & key"
        else none)

check_tls_lem :
    (cert key ca : Bool)
    → (check_tls cert key ca ≡ none) ↔ ((cert ≡ key) × (ca ≡ true → cert ≡ true))
check_tls_lem true true ca = (λ h. (refl, λ c. refl), λ h. ground arith)
check_tls_lem true false ca = (λ h. cc, λ (e, c). absurd (ground (arith, e)))
check_tls_lem false true ca = (λ h. cc, λ (e, c). absurd (ground (arith, e)))
check_tls_lem false false true = (λ h. cc, λ (e, c). absurd (ground (arith, c refl)))
check_tls_lem false false false = (λ h. (refl, λ c. ground (arith, c)), λ h. refl)

-- `validateFlags` accepts exactly the options with a resolution of at least five seconds, with both or
-- neither of a certificate and its key, and with a certificate where clients are to be checked.
pub validate_flags_lem :
    (opt : HeapsterRunOptions)
    → opt.metric_resolution < two64
    → (validate_flags opt ≡ none) ↔ (
        (5000000000 ≤ opt.metric_resolution)
        × (opt.metric_resolution < two63)
        × (is_given opt.tls_cert_file ≡ is_given opt.tls_key_file)
        × (is_given opt.tls_client_ca_file ≡ true → is_given opt.tls_cert_file ≡ true))
unfolding validate_flags
validate_flags_lem opt w =
    let five = lt64_five opt.metric_resolution w in
    let tls =
      check_tls_lem (is_given opt.tls_cert_file) (is_given opt.tls_key_file)
        (is_given opt.tls_client_ca_file) in
    elim (Bool-cases (lt64 opt.metric_resolution 5000000000)) [
      | inl q ↦ rw q (λ h. cc, λ (a, b, c, d). absurd (ground (arith, q, five.1 (a, b))))
      | inr q ↦ rw q (
        λ h. let (a, b) = five.0 q in let (c, d) = tls.0 h in (a, b, c, d),
        λ (a, b, c, d). tls.1 (c, d),
      )
    ]

-- Once a batch with a set in it is exported to the sink, whatever the sink held before, the health
-- check passes until three minutes after the batch's timestamp, and fails later, if no other batch is
-- exported by then.
pub healthz_checker-export_data :
    (sink : MetricSink) (now later : Time) (batch : DataBatch)
    → 1 ≤ length batch.metric_sets
    → (healthz_checker (export_data now batch sink) later ≡ none)
      ↔ (later ≤ batch.timestamp + 180 * 1000000000)
unfolding healthz_checker get_latest_data_batch export_data
healthz_checker-export_data sink now later batch present =
    let latest =
      get_last?-append (pop_old sink.short_store (now - sink.short_store_duration)) batch in
    rw latest (λ h. ground (arith, h, present), λ h. ground (arith, h, present))
