-- ===== src/Tests/Providers.antt =====
-- ProviderOps correlation and progress at concrete inputs.
use smpp_telemetry_platform.Base.{ℕ, ◌≡◌, ◌↔◌, true, Option, some, List}
use smpp_telemetry_platform.Base.Result.{Ensures}
use smpp_telemetry_platform.Json.{Value, Fields, obj, str, arr, cons, nil, end, field}
use smpp_telemetry_platform.Correlation.{scan, normalize_provider_correlation}
use smpp_telemetry_platform.Correlation.Domain.{Found, scan-Found_lem}
use smpp_telemetry_platform.Correlation.Origin.{IsOrigin, normalize_provider_correlation-IsOrigin}
use smpp_telemetry_platform.Progress.{progress_response, caught_up}
use smpp_telemetry_platform.Progress.Verdict.{SaysCaughtUp, progress_response-caught_up}

abbrev scored : Value
scored = obj (field "payload" (obj (field "caseId" (str "c1") end)) end)

scan-Found_lem_example : (scan 13 scored ≡ true) ↔ Found 13 scored
scan-Found_lem_example = scan-Found_lem scored

abbrev originated : Fields
originated =
    field "attributes"
      (obj (
        field "correlation"
          (obj (
            field "originSystem" (str "smpp")
              (field "originTaskIds" (arr (cons (str "t1") nil)) end)))
          end))
      end

normalize_provider_correlation-IsOrigin_example :
    Ensures IsOrigin (normalize_provider_correlation originated)
normalize_provider_correlation-IsOrigin_example = normalize_provider_correlation-IsOrigin originated

abbrev some_time : List ℕ → Option ℕ
some_time cs = some 1000

abbrev row : Fields
row = field "progress_observed_at" (str "2026-08-31T02:00:00Z") (
    field "coverage_status" (str "exact") (
      field "accepted" (str "1") (
        field "projected" (str "1") (
          field "quarantined" (str "0") (
            field "not_routed" (str "0") (
              field "pending" (str "0") (
                field "received_through" (str "1") (
                  field "processed_through" (str "1")
                    (field "visible_through" (str "1") end)))))))))

progress_response-caught_up_example :
    ((progress_response some_time row 1200 60000).completeness ≡ caught_up)
    ↔ SaysCaughtUp some_time row 1200 60000
progress_response-caught_up_example = progress_response-caught_up some_time row 1200 60000
