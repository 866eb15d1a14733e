-- ===== src/Releases/Report/Parts.antt =====
-- The downloaded and the pending devices of `getDeploymentReport` in
-- apps/upload/src/releases.service.ts, where each device has one delivery.
use upload.Prelude.{
  ℕ, ℕ_eq, suc, ◌+◌, String, String_eq, Bool, true, false, not, ◌&&◌, Option, none, some, List, [],
  ◌∷◌, ◌++◌, map, ◌==◌, if◌then◌else◌, filter, any, all, map_where, Bool-cases, inl, inr, ◌≡◌, refl,
  sym, ap, ◌∙◌, arith, length, All, All-of, Distinct, Distinct-filter, truthy, Option-cases,
}
use upload.Prelude.Sizes.{length-filter-not, Distinct-map, length-unique}
use upload.Storage.Rows.{Release}
use upload.Releases.Report.{
  DeliveryStatus, Delivery, Deployment, PushOffering, device_key, given_key, DeviceDeploymentDetail,
  of_device, name_of, put_device, delivered_to, deployed_to, with_name, deliver_to, deploy_to,
  offer_to, process_delivery, process_deployment, process_push_offering, for_each, is_delivery,
  is_deployment, no_detail, Key_eq, is_delivered, Answers, or_empty, device_map, downloaded,
  is_pending, report_of,
}
use upload.Releases.Report.Known.{knows, is_given, knows-deliver_to}
use upload.Releases.Report.Counts.{is_named, named-key}

-- How many devices have a delivery that is done.
abbrev finished : List DeviceDeploymentDetail → ℕ
finished devices = length (filter (λ r. not (is_pending r)) devices)

finished-map_where :
    (p : DeviceDeploymentDetail → Bool) (f : DeviceDeploymentDetail → DeviceDeploymentDetail)
    (devices : List DeviceDeploymentDetail)
    → ((r : DeviceDeploymentDetail) → is_pending (f r) ≡ is_pending r)
    → finished (map_where p f devices) ≡ finished devices
finished-map_where p f [] same = refl
finished-map_where p f (r ∷ devices) same =
    let rest = finished-map_where p f devices same in
    elim (Bool-cases (p r)) [
      | inl hit ↦
          rw (hit, same r)
            (elim (Bool-cases (is_pending r)) [
              | inl waits ↦ rw waits rest
              | inr ends ↦ rw ends (ap suc rest)
            ])
      | inr miss ↦ rw miss (elim (Bool-cases (is_pending r)) [
        | inl waits ↦ rw waits rest
        | inr ends ↦ rw ends (ap suc rest)
      ])
    ]

finished-snoc :
    (devices : List DeviceDeploymentDetail) (r : DeviceDeploymentDetail)
    → finished (devices ++ r ∷ []) ≡ finished devices + (if is_pending r then 0 else 1)
finished-snoc [] r = ground arith
finished-snoc (x ∷ devices) r = ground (arith, finished-snoc devices r)

-- A device that comes without a delivery, or is changed beside its delivery, leaves the number.
finished-put_device :
    (id : String) (f : DeviceDeploymentDetail → DeviceDeploymentDetail)
    (fresh : DeviceDeploymentDetail) (devices : List DeviceDeploymentDetail)
    → ((r : DeviceDeploymentDetail) → is_pending (f r) ≡ is_pending r)
    → is_pending fresh ≡ true
    → finished (put_device id f fresh devices) ≡ finished devices
unfolding put_device
finished-put_device id f fresh devices same waits = elim (Bool-cases (any devices (of_device id))) [
  | inl found ↦ rw found (finished-map_where (of_device id) f devices same)
  | inr missing ↦ rw missing (finished-snoc devices fresh ∙ rw waits (omega arith))
]

with_name-is_pending :
    (d : Deployment) (r : DeviceDeploymentDetail)
    → is_pending (with_name d (deployed_to d r)) ≡ is_pending r
with_name-is_pending d r =
    elim (Bool-cases (not (truthy r.device_name) && truthy (name_of d.device))) [
      | inl hit ↦ rw hit refl
      | inr miss ↦ rw miss refl
    ]

finished-deploy_to :
    (d : Deployment) (key : Option String) (devices : List DeviceDeploymentDetail)
    → finished (deploy_to d key devices) ≡ finished devices
unfolding deploy_to
finished-deploy_to d none devices = refl
finished-deploy_to d (some id) devices = elim (Bool-cases (is_deployment d.deploy_status)) [
  | inl counts ↦ rw counts (
      finished-put_device id (λ r. with_name d (deployed_to d r))
        (deployed_to d (record (no_detail id) { device_name = name_of d.device })) devices
        (with_name-is_pending d) refl)
  | inr out ↦ rw out refl
]

finished-offer_to :
    (po : PushOffering) (key : Option String) (devices : List DeviceDeploymentDetail)
    → finished (offer_to po key devices) ≡ finished devices
unfolding offer_to
finished-offer_to po none devices = refl
finished-offer_to po (some id) devices =
    finished-put_device id (λ r. r) (record (no_detail id) { device_name = po.device_name }) devices
      (λ r. refl) refl

finished-for_each :
    {A : Type 0} (step : A → List DeviceDeploymentDetail → List DeviceDeploymentDetail)
    → ((a : A) (devices : List DeviceDeploymentDetail)
        → finished (step a devices) ≡ finished devices)
    → (xs : List A) (devices : List DeviceDeploymentDetail)
    → finished (for_each step xs devices) ≡ finished devices
finished-for_each step same [] devices = refl
finished-for_each step same (x ∷ xs) devices =
    finished-for_each step same xs (step x devices) ∙ same x devices

undelivered : (s : DeliveryStatus) → is_delivery s ≡ false → is_delivered s ≡ false
undelivered s h = ground arith

-- The first delivery for a device.
finished-deliver_to :
    (d : Delivery) (id : String) (devices : List DeviceDeploymentDetail)
    → any devices (of_device id) ≡ false
    → finished (deliver_to d (some id) devices)
      ≡ finished devices + (if is_delivered d.delivery_status then 1 else 0)
unfolding deliver_to put_device
finished-deliver_to d id devices missing = elim (Bool-cases (is_delivery d.delivery_status)) [
  | inl counts ↦
      rw (counts, missing)
        (finished-snoc devices
            (delivered_to d (record (no_detail id) { device_name = name_of d.device }))
          ∙ ground arith)
  | inr out ↦ rw (out, undelivered d.delivery_status out) (omega arith)
]

finished-process_delivery :
    (d : Delivery) (devices : List DeviceDeploymentDetail)
    → is_named d.device ≡ true
    → knows devices (device_key d.device) ≡ false
    → finished (process_delivery d devices)
      ≡ finished devices + (if is_delivered d.delivery_status then 1 else 0)
finished-process_delivery d devices named missing =
    let (given, present) = named-key d.device named in
    elim (Option-cases (device_key d.device)) [
      | inl nobody ↦ let impossible : false ≡ true = ap is_given (sym nobody) ∙ present in cc
      | inr (id, keyed) ↦
          ap (λ k. finished (deliver_to d k devices)) (given ∙ keyed)
          ∙ finished-deliver_to d id devices (ap (knows devices) (sym keyed) ∙ missing)
    ]

abbrev pub same_device : Delivery → Delivery → Bool
same_device d e = device_key d.device == device_key e.device

still-missing :
    (d : Delivery) (devices : List DeviceDeploymentDetail) (ds : List Delivery)
    → All (λ e. same_device d e ≡ false) ds
    → All (λ (e : Delivery). knows devices (device_key e.device) ≡ false) ds
    → All (λ (e : Delivery). knows (process_delivery d devices) (device_key e.device) ≡ false) ds
still-missing d devices [] apart missing = tt
still-missing d devices (e ∷ ds) apart missing = (
  knows-deliver_to d (given_key d.device) devices (device_key e.device)
      ∙ rw missing.0 (elim (Bool-cases (is_named d.device)) [
        | inl named ↦ rw ((named-key d.device named).0, apart.0) (ground arith)
        | inr unnamed ↦ rw unnamed (ground arith)
      ]),
  still-missing d devices ds apart.1 missing.1,
)

knows-none : (k : Option String) → knows [] k ≡ false
knows-none none = refl
knows-none (some id) = refl

finished-deliveries :
    (ds : List Delivery) (devices : List DeviceDeploymentDetail)
    → Distinct same_device ds
    → all ds (λ (d : Delivery). is_named d.device) ≡ true
    → All (λ (d : Delivery). knows devices (device_key d.device) ≡ false) ds
    → finished (for_each process_delivery ds devices)
      ≡ finished devices + length (filter (λ (d : Delivery). is_delivered d.delivery_status) ds)
finished-deliveries [] devices apart named missing = omega arith
finished-deliveries (d ∷ ds) devices apart named missing =
    let first = finished-process_delivery d devices (ground arith) missing.0 in
    let rest =
      finished-deliveries ds (process_delivery d devices) apart.1 (ground arith)
        (still-missing d devices ds apart.0 missing.1) in
    rest
    ∙ rw first (elim (Bool-cases (is_delivered d.delivery_status)) [
      | inl hit ↦ rw hit (omega arith)
      | inr miss ↦ rw miss (omega arith)
    ])

length-map {ℓ κ} :
    {A : Type ℓ} {B : Type κ} (f : A → B) (xs : List A) → length (map f xs) ≡ length xs
length-map f [] = refl
length-map f (x ∷ xs) = ap suc (length-map f xs)

length-downloaded :
    (answers : Answers)
    → Distinct same_device (or_empty answers.deliveries)
    → length (downloaded answers)
      ≡ length
          (filter (λ (d : Delivery). is_delivered d.delivery_status) (or_empty answers.deliveries))
length-downloaded answers apart =
    let key : Delivery → Option String = λ (d : Delivery). device_key d.device in
    let delivered =
      filter (λ (d : Delivery). is_delivered d.delivery_status) (or_empty answers.deliveries) in
    length-unique (map key delivered) (
      Distinct-map key (λ k l. k == l) delivered
        (Distinct-filter same_device (λ (d : Delivery). is_delivered d.delivery_status)
          (or_empty answers.deliveries) apart))
    ∙ length-map key delivered

-- Where each delivery names its device and no two name the same, each device of the report is either
-- counted as downloaded or as pending.
pub report-parts :
    {Number : Type 0} (zero_percent : Number) (percentage : ℕ → ℕ → Number) (project : ℕ)
    (version : String) (release : Release) (answers : Answers)
    → Distinct same_device (or_empty answers.deliveries)
    → all (or_empty answers.deliveries) (λ (d : Delivery). is_named d.device) ≡ true
    → let r = report_of zero_percent percentage project version release answers in
      r.downloaded_count + r.pending ≡ r.total
unfolding report_of device_map
report-parts zero_percent percentage project version release answers apart named =
    let delivered = for_each process_delivery (or_empty answers.deliveries) [] in
    let deployed = for_each process_deployment (or_empty answers.deployments) delivered in
    let final = for_each process_push_offering (or_empty answers.push_offerings) deployed in
    let started : finished delivered ≡ length (downloaded answers) =
      finished-deliveries (or_empty answers.deliveries) [] apart named (
        All-of _ (or_empty answers.deliveries) (λ (d : Delivery). knows-none (device_key d.device)))
      ∙ (let same = length-downloaded answers apart in omega arith) in
    let counted : finished final ≡ length (downloaded answers) =
      finished-for_each process_push_offering
        (λ po devices.
          finished-offer_to po (if truthy po.device_id then po.device_id else none) devices)
        (or_empty answers.push_offerings) deployed
      ∙ finished-for_each process_deployment
          (λ d devices. finished-deploy_to d (given_key d.device) devices)
          (or_empty answers.deployments) delivered
      ∙ started in
    ap (λ n. n + length (filter is_pending final)) (sym counted)
    ∙ length-filter-not is_pending final
