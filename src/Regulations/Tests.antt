-- ===== src/Regulations/Tests.antt =====
-- Tests of the model of apps/upload/src/regulation-status.service.ts.
use upload.Prelude.{true, false, none, some}
use upload.Storage.Orm.{list_orm, list_orm-IsSql}
use upload.Storage.Enums.{in_review}
use upload.Storage.Samples.{db, a_release, a_regulation}
use upload.Storage.Rows.{Regulation, Release}
use upload.Regulations.{put_status, put_compliance}
use upload.Regulations.Laws.{IsPutInto, put_status_lem}

abbrev tests : Regulation
tests = a_regulation 1 "tests"

abbrev release : Release
release = a_release "1.0.0" in_review 1

put_status_example :
    IsPutInto tests release true
      (some "98")
      none
      db.statuses
      (put_status list_orm 1 tests release true (some "98") none db).statuses
    × IsPutInto tests release false
        (some "98")
        none
        db.statuses
        (put_compliance list_orm 2 tests release false
          (put_status list_orm 1 tests release true (some "98") none db)).statuses
put_status_example =
    put_status_lem list_orm 1 2 tests release true false (some "98") none db list_orm-IsSql
