-- ===== src/Rules/Store.antt =====
-- The tables of libs/common/src/rules/services/rule.service.ts, and its methods as functions of
-- them that may end in an exception. What was written before an exception stays written.
use upload.Prelude.{
  ℕ, ℕ_eq, String, String_eq, Bool, true, false, ◌↔◌, Option, List, ◌≡◌, Eq, arith,
}
use upload.Config.Json.{Value}
use upload.Storage.Orm.{Orm}
use upload.Storage.Rows.{Project, Release}
use upload.Rules.Fields.{Answer, FieldTable}

pub data RuleType : Type 0 where
  policy restriction : RuleType

abbrev pub rule_type_eq : RuleType → RuleType → Bool
rule_type_eq policy policy = true
rule_type_eq restriction restriction = true
rule_type_eq _ _ = false

pub rule_type_eq_iff : (a b : RuleType) → (rule_type_eq a b ≡ true) ↔ (a ≡ b)
rule_type_eq_iff policy policy = ground arith
rule_type_eq_iff policy restriction = ground arith
rule_type_eq_iff restriction policy = ground arith
rule_type_eq_iff restriction restriction = ground arith

instance abbrev pub RuleType_eq : Eq RuleType
RuleType_eq = record { is_same = rule_type_eq; same_iff = rule_type_eq_iff }

pub record RuleRow : Type 0 where
  pub id : String
  pub name : String
  pub description : Option String
  pub type : RuleType
  pub version : ℕ
  pub is_active : Bool
  pub is_push : Bool
  pub rule : Value
  pub created_at : ℕ

-- The links of a rule to a release, a type of devices, a device and an operating system.
pub record RuleRelease : Type 0 where
  pub rule : String
  pub release : String

pub record RuleDeviceType : Type 0 where
  pub rule : String
  pub device_type : ℕ

pub record RuleDevice : Type 0 where
  pub rule : String
  pub device : String

pub record RuleOs : Type 0 where
  pub rule : String
  pub os_type : String

pub record DeviceType : Type 0 where
  pub id : ℕ
  pub name : String

pub record Tables : Type 0 where
  pub rules : List RuleRow
  pub rule_releases : List RuleRelease
  pub rule_device_types : List RuleDeviceType
  pub rule_devices : List RuleDevice
  pub rule_os : List RuleOs
  pub releases : List Release
  pub projects : List Project
  pub device_types : List DeviceType
  pub devices : List String
  pub fields : FieldTable

-- What is called: the mapper, the order of rules by their creation with the last one first, the
-- reading of JSON and of numbers, and the engine's check of a rule.
pub record Env : Type 1 where
  pub orm : Orm
  pub newest_first : List RuleRow → List RuleRow
  pub parse_json : String → Option Value
  pub parse_int : String → Option ℕ
  pub is_valid : Value → Bool

-- A value, a BadRequestException, a NotFoundException, an UnauthorizedException, what the
-- validation throws, or an error of the database.
pub data Reply (A : Type 0) : Type 0 where
  ok : A → Reply A
  bad_request not_found unauthorized failed : Reply A
  refused : Answer → Reply A

abbrev pub M : Type 0 → Type 0
M A = Tables → Tables × Reply A

infixl 5 ◌>>=◌ ◌>>◌
abbrev pub continue : {A B : Type 0} → Tables × Reply A → (A → M B) → Tables × Reply B
continue (s, ok a) f = f a s
continue (s, bad_request) f = (s, bad_request)
continue (s, not_found) f = (s, not_found)
continue (s, unauthorized) f = (s, unauthorized)
continue (s, failed) f = (s, failed)
continue (s, refused a) f = (s, refused a)

abbrev pub ◌>>=◌ : {A B : Type 0} → M A → (A → M B) → M B
◌>>=◌ m f s = continue (m s) f

abbrev pub ◌>>◌ : {A B : Type 0} → M A → M B → M B
m >> k = m >>= λ _. k

abbrev pub done : {A : Type 0} → A → M A
done a s = (s, ok a)

abbrev pub fail : {A : Type 0} → Reply A → M A
fail e s = (s, e)

abbrev pub ask : {A : Type 0} → (Tables → A) → M A
ask f s = (s, ok (f s))

abbrev pub change : (Tables → Tables) → M (Unit {0})
change f s = (f s, ok tt)
