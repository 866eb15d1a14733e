-- ===== src/Releases/Report.antt =====
-- `getDeploymentReport` of apps/upload/src/releases.service.ts: which devices have a release, by what
-- the services for deliveries, deployments and offerings answer. A device that is an object has an
-- ID that is not empty; the times of the answers are milliseconds.
pub mod Known
pub mod Counts
pub mod Parts
mod Tests
use upload.Prelude.{
  ℕ, ℕ_eq, String, String_eq, Bool, true, false, not, ◌&&◌, Option, none, some, List, [], ◌∷◌, ◌++◌,
  map, ◌==◌, Eq, option_beq, if◌then◌else◌, filter, head?, any, ltb, map_where, truthy, length,
  nat_eq, ◌≡◌, ◌↔◌, arith, eq_iff,
}
use upload.Prelude.Sets.{unique}
use upload.Storage.Orm.{Orm}
use upload.Storage.Rows.{Release}
use upload.Storage.Db.{of_version}

pub data DeliveryStatus : Type 0 where
  start done error cancelled pause continue download deleted : DeliveryStatus

pub data DeployStatus : Type 0 where
  start done installing continue pause cancelled error uninstall : DeployStatus

abbrev pub is_delivered : DeliveryStatus → Bool
is_delivered DeliveryStatus.done = true
is_delivered _ = false

abbrev pub is_deployed : DeployStatus → Bool
is_deployed DeployStatus.done = true
is_deployed _ = false

-- `status !== CANCELLED && status !== DELETED`
abbrev pub is_delivery : DeliveryStatus → Bool
is_delivery DeliveryStatus.cancelled = false
is_delivery DeliveryStatus.deleted = false
is_delivery _ = true

-- `status !== CANCELLED && status !== UNINSTALL`
abbrev pub is_deployment : DeployStatus → Bool
is_deployment DeployStatus.cancelled = false
is_deployment DeployStatus.uninstall = false
is_deployment _ = true

-- `device` of an answer: nothing, an id, or an object with its ID, its `name` and its `Name`.
pub data Device : Type 0 where
  no_device : Device
  bare : String → Device
  entity : String → Option String → Option String → Device

-- `device?.ID || device`
abbrev pub device_key : Device → Option String
device_key no_device = none
device_key (bare id) = some id
device_key (entity id name name') = some id

-- The key, where it is not empty.
abbrev pub given_key : Device → Option String
given_key d = if truthy (device_key d) then device_key d else none

-- `device?.name || device?.Name`
abbrev pub name_of : Device → Option String
name_of (entity id name name') = if truthy name then name else name'
name_of _ = none

pub record Delivery : Type 0 where
  pub device : Device
  pub delivery_status : DeliveryStatus
  pub download_done : Option ℕ

pub record Deployment : Type 0 where
  pub device : Device
  pub deploy_status : DeployStatus
  pub deploy_done : Option ℕ

pub record PushOffering : Type 0 where
  pub device_id : Option String
  pub device_name : Option String

pub record DeviceDeploymentDetail : Type 0 where
  pub device_id : String
  pub device_name : Option String
  pub delivery_status : Option DeliveryStatus
  pub deploy_status : Option DeployStatus
  pub download_time : Option ℕ
  pub installation_time : Option ℕ

abbrev pub of_device : String → DeviceDeploymentDetail → Bool
of_device id d = d.device_id == id

-- `deviceMap`, with its entries in the order in which they came: one that is there is changed.
unfoldable pub put_device :
    String
    → (DeviceDeploymentDetail → DeviceDeploymentDetail)
    → DeviceDeploymentDetail
    → List DeviceDeploymentDetail
    → List DeviceDeploymentDetail
put_device id f fresh devices =
    if any devices (of_device id) then map_where (of_device id) f devices else devices ++ fresh ∷ []

abbrev pub no_detail : String → DeviceDeploymentDetail
no_detail id = record {
  device_id = id;
  device_name = none;
  delivery_status = none;
  deploy_status = none;
  download_time = none;
  installation_time = none;
}

abbrev pub delivered_to : Delivery → DeviceDeploymentDetail → DeviceDeploymentDetail
delivered_to d r = record r {
  delivery_status = some d.delivery_status;
  download_time = d.download_done;
}

abbrev pub deployed_to : Deployment → DeviceDeploymentDetail → DeviceDeploymentDetail
deployed_to d r = record r {
  deploy_status = some d.deploy_status;
  installation_time = d.deploy_done;
}

-- A name that is missing is filled in from a deployment.
abbrev pub with_name : Deployment → DeviceDeploymentDetail → DeviceDeploymentDetail
with_name d r =
    if not (truthy r.device_name) && truthy (name_of d.device)
    then record r { device_name = name_of d.device }
    else r

-- A delivery for the device of a key, if there is one.
unfoldable pub deliver_to :
    Delivery → Option String → List DeviceDeploymentDetail → List DeviceDeploymentDetail
unfolding put_device
deliver_to d none devices = devices
deliver_to d (some id) devices =
    if is_delivery d.delivery_status
    then put_device id (delivered_to d)
        (delivered_to d (record (no_detail id) { device_name = name_of d.device })) devices
    else devices

abbrev pub process_delivery : Delivery → List DeviceDeploymentDetail → List DeviceDeploymentDetail
process_delivery d devices = deliver_to d (given_key d.device) devices

unfoldable pub deploy_to :
    Deployment → Option String → List DeviceDeploymentDetail → List DeviceDeploymentDetail
unfolding put_device
deploy_to d none devices = devices
deploy_to d (some id) devices =
    if is_deployment d.deploy_status
    then put_device id (λ r. with_name d (deployed_to d r))
        (deployed_to d (record (no_detail id) { device_name = name_of d.device })) devices
    else devices

abbrev pub process_deployment :
    Deployment → List DeviceDeploymentDetail → List DeviceDeploymentDetail
process_deployment d devices = deploy_to d (given_key d.device) devices

-- A device of a push offering that is there stays as it is.
unfoldable pub offer_to :
    PushOffering → Option String → List DeviceDeploymentDetail → List DeviceDeploymentDetail
unfolding put_device
offer_to po none devices = devices
offer_to po (some id) devices =
    put_device id (λ r. r) (record (no_detail id) { device_name = po.device_name }) devices

abbrev pub process_push_offering :
    PushOffering → List DeviceDeploymentDetail → List DeviceDeploymentDetail
process_push_offering po devices =
    offer_to po (if truthy po.device_id then po.device_id else none) devices

-- `forEach`
abbrev pub for_each {ℓ κ} : {A : Type ℓ} {B : Type κ} → (A → B → B) → List A → B → B
for_each f [] b = b
for_each f (x ∷ xs) b = for_each f xs (f x b)

-- What the three services answer; none is a call that fails.
pub record Answers : Type 0 where
  pub deliveries : Option (List Delivery)
  pub deployments : Option (List Deployment)
  pub push_offerings : Option (List PushOffering)

abbrev pub or_empty {ℓ} : {A : Type ℓ} → Option (List A) → List A
or_empty none = []
or_empty (some xs) = xs

-- `deviceMap` after the three loops.
unfoldable pub device_map : Answers → List DeviceDeploymentDetail
unfolding deliver_to deploy_to offer_to
device_map answers = for_each process_push_offering (or_empty answers.push_offerings) (
    for_each process_deployment (or_empty answers.deployments)
      (for_each process_delivery (or_empty answers.deliveries) []))

pub option_beq_iff : (a b : Option String) → (option_beq a b ≡ true) ↔ (a ≡ b)
option_beq_iff none none = ground arith
option_beq_iff none (some b) = ground arith
option_beq_iff (some a) none = ground arith
option_beq_iff (some a) (some b) = ground (arith, eq_iff a b)

instance abbrev pub Key_eq : Eq (Option String)
Key_eq = record { is_same = option_beq; same_iff = option_beq_iff }

-- Each device whose delivery is done, once.
abbrev pub downloaded : Answers → List (Option String)
downloaded answers = unique (
    map (λ (d : Delivery). device_key d.device)
      (filter (λ (d : Delivery). is_delivered d.delivery_status) (or_empty answers.deliveries)))

abbrev pub installed : Answers → List (Option String)
installed answers = unique (
    map (λ (d : Deployment). device_key d.device)
      (filter (λ (d : Deployment). is_deployed d.deploy_status) (or_empty answers.deployments)))

abbrev pub is_pending : DeviceDeploymentDetail → Bool
is_pending r = elim r.delivery_status [ none ↦ true | some s ↦ not (is_delivered s) ]

pub record DeploymentReport (Number : Type 0) : Type 0 where
  pub project_id : ℕ
  pub release_name : Option String
  pub version : String
  pub downloaded_count : ℕ
  pub installed_count : ℕ
  pub total : ℕ
  pub pending : ℕ
  pub deployment_percentage : Number
  pub devices : List DeviceDeploymentDetail

-- `percentage installed total` is JavaScript's `Math.round(((installed / total) * 100) * 100) / 100`.
module _ {Number : Type 0} (zero_percent : Number) (percentage : ℕ → ℕ → Number) where
  unfoldable pub report_of : ℕ → String → Release → Answers → DeploymentReport Number
  unfolding device_map
  report_of project version release answers =
      let devices = device_map answers in
      record {
        project_id = project;
        release_name = release.name;
        version = version;
        downloaded_count = length (downloaded answers);
        installed_count = length (installed answers);
        total = length devices;
        pending = length (filter is_pending devices);
        deployment_percentage =
            if ltb 0 (length devices)
            then percentage (length (installed answers)) (length devices)
            else zero_percent;
        devices = devices;
      }

  -- The services are asked for the release's catalog id; none is a NotFoundException.
  unfoldable pub get_deployment_report :
      Orm → (String → Answers) → ℕ → String → List Release → Option (DeploymentReport Number)
  unfolding report_of
  get_deployment_report orm ask project version releases =
      elim (head? (orm.find (of_version project version) releases)) [
        | none ↦ none
        | some release ↦ some (report_of project version release (ask release.catalog_id))
      ]
