-- ===== src/Releases/Report/Tests.antt =====
-- A report of a release that one of three devices has downloaded.
use upload.Prelude.{ℕ, none, some, [], ◌∷◌, ◌≡◌, refl, ◌+◌, ◌≤◌}
use upload.Storage.Orm.{list_orm}
use upload.Storage.Enums.{released}
use upload.Storage.Samples.{a_release}
use upload.Releases.Report.{
  DeliveryStatus, DeployStatus, bare, entity, Answers, DeploymentReport, report_of,
  get_deployment_report, no_detail, put_device, deliver_to, deploy_to, offer_to, device_map,
}
use upload.Releases.Report.Counts.{report-counts}
use upload.Releases.Report.Parts.{report-parts}

abbrev answers : Answers
answers = record {
  deliveries = some (
      record {
        device = entity "tablet" none (some "Tablet");
        delivery_status = DeliveryStatus.done;
        download_done = some 5;
      }
      ∷ record {
        device = bare "phone";
        delivery_status = DeliveryStatus.download;
        download_done = none;
      }
      ∷ record {
        device = bare "old";
        delivery_status = DeliveryStatus.cancelled;
        download_done = none;
      }
      ∷ []);
  deployments = some (
      record {
        device = entity "phone" (some "Phone") none;
        deploy_status = DeployStatus.done;
        deploy_done = some 9;
      }
      ∷ []);
  push_offerings = some (
      record { device_id = some "tablet"; device_name = none }
      ∷ record { device_id = some "watch"; device_name = some "Watch" }
      ∷ record { device_id = none; device_name = none }
      ∷ []);
}

-- The counts that a percentage is made of.
abbrev percentage : ℕ → ℕ → ℕ × ℕ
percentage installed total = (installed, total)

abbrev report : DeploymentReport (ℕ × ℕ)
report = report_of (0, 0) percentage 1 "1.0.0" (a_release "1.0.0" released 1) answers

report-counts_example :
    (report.downloaded_count ≤ report.total)
    × (report.installed_count ≤ report.total)
    × (report.pending ≤ report.total)
report-counts_example =
    report-counts (0, 0) percentage 1 "1.0.0" (a_release "1.0.0" released 1) answers refl refl

report-parts_example : report.downloaded_count + report.pending ≡ report.total
report-parts_example =
    report-parts (0, 0) percentage 1 "1.0.0" (a_release "1.0.0" released 1) answers
      ((refl, (refl, tt)), ((refl, tt), (tt, tt))) refl

report_run :
    get_deployment_report
      (0, 0)
      percentage
      list_orm
      (λ id. answers)
      1
      "1.0.0"
      (a_release "1.0.0" released 1 ∷ [])
    ≡ some (record {
      project_id = 1;
      release_name = (a_release "1.0.0" released 1).name;
      version = "1.0.0";
      downloaded_count = 1;
      installed_count = 1;
      total = 3;
      pending = 2;
      deployment_percentage = (1, 3);
      devices =
          record (no_detail "tablet") {
            device_name = some "Tablet";
            delivery_status = some DeliveryStatus.done;
            download_time = some 5;
          }
          ∷ record (no_detail "phone") {
            device_name = some "Phone";
            delivery_status = some DeliveryStatus.download;
            deploy_status = some DeployStatus.done;
            installation_time = some 9;
          }
          ∷ record (no_detail "watch") { device_name = some "Watch" }
          ∷ [];
    })
unfolding get_deployment_report report_of device_map deliver_to deploy_to offer_to put_device
report_run = refl

-- A device with two deliveries can count as downloaded and as pending.
abbrev twice : Answers
twice = record {
  deliveries = some (
      record {
        device = bare "phone";
        delivery_status = DeliveryStatus.done;
        download_done = some 5;
      }
      ∷ record {
        device = bare "phone";
        delivery_status = DeliveryStatus.start;
        download_done = none;
      }
      ∷ []);
  deployments = none;
  push_offerings = none;
}

twice_run :
    let r = report_of (0, 0) percentage 1 "1.0.0" (a_release "1.0.0" released 1) twice in
    (r.downloaded_count ≡ 1) × (r.pending ≡ 1) × (r.total ≡ 1)
unfolding report_of device_map deliver_to put_device
twice_run = (refl, refl, refl)
