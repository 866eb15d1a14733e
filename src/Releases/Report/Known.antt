-- ===== src/Releases/Report/Known.antt =====
-- Which devices the map of `getDeploymentReport` in apps/upload/src/releases.service.ts has.
use upload.Prelude.{
  ℕ_eq, String, String_eq, Bool, true, false, ◌&&◌, ◌||◌, Option, none, some, List, [], ◌∷◌, map,
  ◌==◌, any, map_where, Bool-cases, inl, inr, ◌≡◌, refl, sym, ap, ◌∙◌, arith, includes, any-map,
}
use upload.Prelude.Sets.{any-append}
use upload.Releases.Report.{
  Delivery, Deployment, PushOffering, DeviceDeploymentDetail, of_device, name_of, put_device,
  delivered_to, deployed_to, with_name, deliver_to, deploy_to, offer_to, is_delivery, is_deployment,
  no_detail, Key_eq,
}

-- Whether the map has a device of the key.
abbrev pub knows : List DeviceDeploymentDetail → Option String → Bool
knows devices none = false
knows devices (some id) = any devices (of_device id)

-- The keys of the map.
abbrev pub keys_of : List DeviceDeploymentDetail → List (Option String)
keys_of devices = map (λ (r : DeviceDeploymentDetail). some r.device_id) devices

pub includes-keys_of :
    (devices : List DeviceDeploymentDetail) (k : Option String)
    → includes (keys_of devices) k ≡ knows devices k
includes-keys_of [] none = refl
includes-keys_of (r ∷ devices) none = includes-keys_of devices none
includes-keys_of devices (some id) =
    any-map (λ (r : DeviceDeploymentDetail). some r.device_id) (λ k. k == some id) devices

any-renamed :
    (p : DeviceDeploymentDetail → Bool) (f : DeviceDeploymentDetail → DeviceDeploymentDetail)
    (devices : List DeviceDeploymentDetail) (i : String)
    → ((r : DeviceDeploymentDetail) → (f r).device_id ≡ r.device_id)
    → any (map_where p f devices) (of_device i) ≡ any devices (of_device i)
any-renamed p f [] i same = refl
any-renamed p f (r ∷ devices) i same = elim (Bool-cases (p r)) [
  | inl hit ↦ rw (hit, same r, any-renamed p f devices i same) refl
  | inr miss ↦ rw (miss, any-renamed p f devices i same) refl
]

-- A device that is put into the map is there with the others.
pub any-put_device :
    (id : String) (f : DeviceDeploymentDetail → DeviceDeploymentDetail)
    (fresh : DeviceDeploymentDetail) (devices : List DeviceDeploymentDetail) (i : String)
    → ((r : DeviceDeploymentDetail) → (f r).device_id ≡ r.device_id)
    → fresh.device_id ≡ id
    → any (put_device id f fresh devices) (of_device i) ≡ (any devices (of_device i) || id == i)
unfolding put_device
any-put_device id f fresh devices i same named = elim (Bool-cases (any devices (of_device id))) [
  | inl found ↦ rw found (
      any-renamed (of_device id) f devices i same ∙ elim (Bool-cases (id == i)) [
        | inl hit ↦
            let e : any devices (of_device i) ≡ true =
              ap (λ x. any devices (of_device x)) (sym ((String_eq.same_iff id i).0 hit)) ∙ found in
            ground arith
        | inr miss ↦ rw miss (ground arith)
      ])
  | inr missing ↦ rw (missing, any-append devices (fresh ∷ []) (of_device i), named) (ground arith)
]

with_name-device_id :
    (d : Deployment) (r : DeviceDeploymentDetail)
    → (with_name d (deployed_to d r)).device_id ≡ r.device_id
with_name-device_id d r = ground arith

abbrev pub is_given : Option String → Bool
is_given none = false
is_given (some k) = true

-- Which devices are known after each step.
pub knows-deliver_to :
    (d : Delivery) (key : Option String) (devices : List DeviceDeploymentDetail) (k : Option String)
    → knows (deliver_to d key devices) k
      ≡ (knows devices k || (is_delivery d.delivery_status && is_given key && key == k))
unfolding deliver_to
knows-deliver_to d none devices k = ground arith
knows-deliver_to d (some id) devices none = ground arith
knows-deliver_to d (some id) devices (some i) = elim (Bool-cases (is_delivery d.delivery_status)) [
  | inl counts ↦ rw counts (
      any-put_device id (delivered_to d)
        (delivered_to d (record (no_detail id) { device_name = name_of d.device })) devices i
        (λ r. refl) refl)
  | inr out ↦ rw out (ground arith)
]

pub knows-deploy_to :
    (d : Deployment) (key : Option String) (devices : List DeviceDeploymentDetail)
    (k : Option String)
    → knows (deploy_to d key devices) k
      ≡ (knows devices k || (is_deployment d.deploy_status && is_given key && key == k))
unfolding deploy_to
knows-deploy_to d none devices k = ground arith
knows-deploy_to d (some id) devices none = ground arith
knows-deploy_to d (some id) devices (some i) = elim (Bool-cases (is_deployment d.deploy_status)) [
  | inl counts ↦ rw counts (
      any-put_device id (λ r. with_name d (deployed_to d r))
        (deployed_to d (record (no_detail id) { device_name = name_of d.device })) devices i
        (with_name-device_id d) refl)
  | inr out ↦ rw out (ground arith)
]

pub knows-offer_to :
    (po : PushOffering) (key : Option String) (devices : List DeviceDeploymentDetail)
    (k : Option String)
    → knows (offer_to po key devices) k ≡ (knows devices k || (is_given key && key == k))
unfolding offer_to
knows-offer_to po none devices k = ground arith
knows-offer_to po (some id) devices none = ground arith
knows-offer_to po (some id) devices (some i) =
    any-put_device id (λ r. r) (record (no_detail id) { device_name = po.device_name }) devices i
      (λ r. refl) refl
