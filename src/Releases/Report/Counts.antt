-- ===== src/Releases/Report/Counts.antt =====
-- The numbers of the report that `getDeploymentReport` of apps/upload/src/releases.service.ts makes.
use upload.Prelude.{
  all-imp, ℕ, ℕ_eq, suc, ◌≤◌, String, String_eq, Bool, true, not, ◌||◌, Option, none, List, [], ◌∷◌,
  map, if◌then◌else◌, filter, all, truthy, Bool-cases, inl, inr, ◌≡◌, refl, ap, ◌∙◌, arith,
  includes, length, length-filter-le, ==-refl, subst,
}
use upload.Prelude.Sets.{unique, all-unique}
use upload.Prelude.Sizes.{Distinct-unique, length-included}
use upload.Storage.Rows.{Release}
use upload.Releases.Report.{
  DeliveryStatus, DeployStatus, Delivery, Deployment, PushOffering, Device, no_device, bare, entity,
  device_key, given_key, DeviceDeploymentDetail, process_delivery, process_deployment,
  process_push_offering, for_each, is_delivery, is_deployment, Key_eq, is_delivered, is_deployed,
  Answers, or_empty, device_map, is_pending, report_of,
}
use upload.Releases.Report.Known.{
  knows, keys_of, includes-keys_of, is_given, knows-deliver_to, knows-deploy_to, knows-offer_to,
}

-- The device of an answer has an id.
abbrev pub is_named : Device → Bool
is_named d = truthy (device_key d)

module _ {A : Type 0} (step : A → List DeviceDeploymentDetail → List DeviceDeploymentDetail) where
  -- What the map has stays through a loop whose steps keep it.
  for_each-keeps :
      (k : Option String)
      → ((a : A) (devices : List DeviceDeploymentDetail)
          → knows devices k ≡ true
          → knows (step a devices) k ≡ true)
      → (xs : List A) (devices : List DeviceDeploymentDetail) → knows devices k ≡ true
      → knows (for_each step xs devices) k ≡ true
  for_each-keeps k keeps [] devices h = h
  for_each-keeps k keeps (x ∷ xs) devices h =
      for_each-keeps k keeps xs (step x devices) (keeps x devices h)

  -- What each step for some answers puts into the map is there after the loop.
  for_each-known :
      (is_done : A → Bool) (device : A → Device)
      → ((a : A) (devices : List DeviceDeploymentDetail)
          → is_done a ≡ true
          → is_named (device a) ≡ true
          → knows (step a devices) (device_key (device a)) ≡ true)
      → ((k : Option String) (a : A) (devices : List DeviceDeploymentDetail)
          → knows devices k ≡ true
          → knows (step a devices) k ≡ true)
      → (xs : List A) (devices : List DeviceDeploymentDetail)
      → all xs (λ a. not (is_done a) || is_named (device a)) ≡ true
      → all
          (map (λ a. device_key (device a)) (filter is_done xs))
          (knows (for_each step xs devices))
        ≡ true
  for_each-known is_done device puts keeps [] devices h = refl
  for_each-known is_done device puts keeps (x ∷ xs) devices h =
      let rest = for_each-known is_done device puts keeps xs (step x devices) (ground arith) in
      elim (Bool-cases (is_done x)) [
        | inr other ↦ rw other rest
        | inl hit ↦
            let own = puts x devices hit (ground arith) in
            let stays =
              for_each-keeps (device_key (device x)) (keeps (device_key (device x))) xs
                (step x devices) own in
            rw hit (rw (stays, rest) refl)
      ]

delivery-keeps :
    (k : Option String) (d : Delivery) (devices : List DeviceDeploymentDetail)
    → knows devices k ≡ true
    → knows (process_delivery d devices) k ≡ true
delivery-keeps k d devices h = knows-deliver_to d (given_key d.device) devices k ∙ rw h refl

deployment-keeps :
    (k : Option String) (d : Deployment) (devices : List DeviceDeploymentDetail)
    → knows devices k ≡ true
    → knows (process_deployment d devices) k ≡ true
deployment-keeps k d devices h = knows-deploy_to d (given_key d.device) devices k ∙ rw h refl

offering-keeps :
    (k : Option String) (po : PushOffering) (devices : List DeviceDeploymentDetail)
    → knows devices k ≡ true
    → knows (process_push_offering po devices) k ≡ true
offering-keeps k po devices h =
    knows-offer_to po (if truthy po.device_id then po.device_id else none) devices k ∙ rw h refl

-- A device that an answer names.
pub named-key :
    (d : Device)
    → is_named d ≡ true
    → (given_key d ≡ device_key d) × (is_given (device_key d) ≡ true)
named-key no_device h = cc
named-key (bare id) h = (rw h refl, refl)
named-key (entity id name name') h = (rw h refl, refl)

pub delivered-is_delivery : (s : DeliveryStatus) → is_delivered s ≡ true → is_delivery s ≡ true
delivered-is_delivery s h = ground arith

deployed-is_deployment : (s : DeployStatus) → is_deployed s ≡ true → is_deployment s ≡ true
deployed-is_deployment s h = ground arith

delivery-puts :
    (d : Delivery) (devices : List DeviceDeploymentDetail)
    → is_delivered d.delivery_status ≡ true
    → is_named d.device ≡ true
    → knows (process_delivery d devices) (device_key d.device) ≡ true
delivery-puts d devices finished named =
    let (given, present) = named-key d.device named in
    knows-deliver_to d (given_key d.device) devices (device_key d.device)
    ∙ rw
        (
          given,
          present,
          delivered-is_delivery d.delivery_status finished,
          ==-refl (device_key d.device),
        )
        (ground arith)

deployment-puts :
    (d : Deployment) (devices : List DeviceDeploymentDetail)
    → is_deployed d.deploy_status ≡ true
    → is_named d.device ≡ true
    → knows (process_deployment d devices) (device_key d.device) ≡ true
deployment-puts d devices finished named =
    let (given, present) = named-key d.device named in
    knows-deploy_to d (given_key d.device) devices (device_key d.device)
    ∙ rw
        (
          given,
          present,
          deployed-is_deployment d.deploy_status finished,
          ==-refl (device_key d.device),
        )
        (ground arith)

-- The devices of some keys, each once, are no more than those of a map that has them all.
length-known :
    (keys : List (Option String)) (devices : List DeviceDeploymentDetail)
    → all keys (knows devices) ≡ true
    → length (unique keys) ≤ length devices
length-known keys devices h =
    subst (λ n. length (unique keys) ≤ n) (length-keys_of devices)
      (length-included (unique keys) (keys_of devices) (Distinct-unique keys) (
        all-unique keys (includes (keys_of devices))
        ∙ all-imp (knows devices) (includes (keys_of devices))
            (λ k known. includes-keys_of devices k ∙ known) keys h))
  where
    length-keys_of :
        (devices : List DeviceDeploymentDetail) → length (keys_of devices) ≡ length devices
    length-keys_of [] = refl
    length-keys_of (r ∷ devices) = ap suc (length-keys_of devices)

-- Where each delivery and each deployment that is done names its device, the devices that are
-- counted as downloaded are no more than all the devices of the report, and neither are those that
-- are counted as installed, nor those that are pending.
pub report-counts :
    {Number : Type 0} (zero_percent : Number) (percentage : ℕ → ℕ → Number) (project : ℕ)
    (version : String) (release : Release) (answers : Answers)
    → all
        (or_empty answers.deliveries)
        (λ (d : Delivery). not (is_delivered d.delivery_status) || is_named d.device)
      ≡ true
    → all
        (or_empty answers.deployments)
        (λ (d : Deployment). not (is_deployed d.deploy_status) || is_named d.device)
      ≡ true
    → let r = report_of zero_percent percentage project version release answers in
      (r.downloaded_count ≤ r.total) × (r.installed_count ≤ r.total) × (r.pending ≤ r.total)
unfolding report_of device_map
report-counts zero_percent percentage project version release answers ds ps =
    let delivered = for_each process_delivery (or_empty answers.deliveries) [] in
    let deployed = for_each process_deployment (or_empty answers.deployments) delivered in
    let final = for_each process_push_offering (or_empty answers.push_offerings) deployed in
    let offers : (k : Option String) → knows deployed k ≡ true → knows final k ≡ true = λ k.
      for_each-keeps process_push_offering k (offering-keeps k) (or_empty answers.push_offerings)
        deployed in
    let deploys : (k : Option String) → knows delivered k ≡ true → knows deployed k ≡ true = λ k.
      for_each-keeps process_deployment k (deployment-keeps k) (or_empty answers.deployments)
        delivered in
    (
      length-known _ final (
          all-imp (knows delivered) (knows final) (λ k h. offers k (deploys k h)) _
            (for_each-known process_delivery (λ (d : Delivery). is_delivered d.delivery_status)
              (λ (d : Delivery). d.device) delivery-puts delivery-keeps
              (or_empty answers.deliveries) [] ds)),
      length-known _ final (
          all-imp (knows deployed) (knows final) offers _ (
            for_each-known process_deployment (λ (d : Deployment). is_deployed d.deploy_status)
              (λ (d : Deployment). d.device) deployment-puts deployment-keeps
              (or_empty answers.deployments) delivered ps)),
      length-filter-le is_pending final,
    )
