-- ===== src/Cli/View/Shown.antt =====
-- What a view shows of a report.
use qurbrix_hwinfo.Common.{
  ◌≡◌, refl, sym, ap, ◌∙◌, Bool, true, false, not, ◌&&◌, ◌||◌, List, [], ◌∷◌, map, if◌then◌else◌,
  retain, arith, Text,
}
use qurbrix_hwinfo.Model.Kind.{DeviceKind, has_kind}
use qurbrix_hwinfo.Model.Device.{Device}
use qurbrix_hwinfo.Model.Report.{ScanReport}
use qurbrix_hwinfo.Cli.View.{
  optional_display_kinds, is_empty_kinds, only_kinds, without_kinds, without_optional,
  clear_sources, clear_warnings, filtered_report,
}

-- The kinds that the three filters of kinds let through.
abbrev pub is_shown : List DeviceKind → List DeviceKind → Bool → DeviceKind → Bool
is_shown kinds excluded omit_optional k =
    (is_empty_kinds kinds || has_kind kinds k)
    && (not (has_kind excluded k) && not (omit_optional && has_kind optional_display_kinds k))

abbrev pub ids : List Device → List Text
ids [] = []
ids (d ∷ ds) = d.id ∷ ids ds

ids-sources : (ds : List Device) → ids (map clear_sources ds) ≡ ids ds
ids-sources [] = refl
ids-sources (d ∷ ds) = ap (λ l. d.id ∷ l) (ids-sources ds)

ids-warnings : (ds : List Device) → ids (map clear_warnings ds) ≡ ids ds
ids-warnings [] = refl
ids-warnings (d ∷ ds) = ap (λ l. d.id ∷ l) (ids-warnings ds)

retain-true : (ds : List Device) → retain (λ d. true) ds ≡ ds
retain-true [] = refl
retain-true (d ∷ ds) = ap (λ l. d ∷ l) (retain-true ds)

retain-retain :
    (p q : Device → Bool) (ds : List Device) → retain p (retain q ds) ≡ retain (λ d. q d && p d) ds
retain-retain p q [] = refl
retain-retain p q (d ∷ ds) = ground (arith, retain-retain p q ds)

only_kinds-retain :
    (kinds : List DeviceKind) (ds : List Device)
    → only_kinds kinds ds ≡ retain (λ d. is_empty_kinds kinds || has_kind kinds d.kind) ds
unfolding only_kinds
only_kinds-retain [] ds = sym (retain-true ds)
only_kinds-retain (k ∷ ks) ds = refl

without_kinds-retain :
    (kinds : List DeviceKind) (ds : List Device)
    → without_kinds kinds ds ≡ retain (λ d. not (has_kind kinds d.kind)) ds
unfolding without_kinds has_kind
without_kinds-retain [] ds = sym (retain-true ds)
without_kinds-retain (k ∷ ks) ds = refl

without_optional-retain :
    (omit : Bool) (ds : List Device)
    → without_optional omit ds
      ≡ retain (λ d. not (omit && has_kind optional_display_kinds d.kind)) ds
unfolding without_optional
without_optional-retain true ds = refl
without_optional-retain false ds = sym (retain-true ds)

kept :
    (kinds excluded : List DeviceKind) (omit : Bool) (ds : List Device)
    → without_optional omit (without_kinds excluded (only_kinds kinds ds))
      ≡ retain (λ d. is_shown kinds excluded omit d.kind) ds
kept kinds excluded omit ds =
    without_optional-retain omit (without_kinds excluded (only_kinds kinds ds))
    ∙ (ap (retain _) (without_kinds-retain excluded (only_kinds kinds ds))
        ∙ (retain-retain _ _ (only_kinds kinds ds)
            ∙ (ap (retain _) (only_kinds-retain kinds ds) ∙ retain-retain _ _ ds)))

ids-omitted :
    (omit_sources omit_warnings : Bool) (report : ScanReport) (ds : List Device)
    → let ds' = if omit_sources then map clear_sources ds else ds in
      let view =
        if omit_warnings
        then record report { devices = map clear_warnings ds'; warnings = [] }
        else record report { devices = ds' } in
      (view.status ≡ report.status) × (ids view.devices ≡ ids ds)
ids-omitted true true report ds = (refl, ids-warnings (map clear_sources ds) ∙ ids-sources ds)
ids-omitted true false report ds = (refl, ids-sources ds)
ids-omitted false true report ds = (refl, ids-warnings ds)
ids-omitted false false report ds = (refl, refl)

-- A view has the status of its report, and the ids of the devices whose kinds the three filters let
-- through, in their order; what it omits of sources and warnings removes no device.
pub filtered_report-shown :
    (report : ScanReport) (kinds excluded : List DeviceKind)
    (omit_optional omit_sources omit_warnings : Bool)
    → let view = filtered_report report kinds excluded omit_optional omit_sources omit_warnings in
      (view.status ≡ report.status)
      × (ids view.devices
          ≡ ids (retain (λ d. is_shown kinds excluded omit_optional d.kind) report.devices))
unfolding filtered_report
filtered_report-shown report kinds excluded omit_optional omit_sources omit_warnings =
    let shown =
      without_optional omit_optional (without_kinds excluded (only_kinds kinds report.devices)) in
    let (status, same) = ids-omitted omit_sources omit_warnings report shown in
    (status, same ∙ ap ids (kept kinds excluded omit_optional report.devices))
