-- ===== src/Api/Enums.antt =====
-- The enumerations of the inventory's API (generated code of another repository), by the constants
-- that this repository names. They are open, as protobuf enumerations are: `unnamed` stands for the
-- values that this repository never names. Go compares them by their numbers.
use infra_onboarding.Prelude.{ℕ, ◌+◌, ◌≡◌, ap, arith, nat_eq, nat_eq_iff, Eq}

pub data HostState : Type 0 where
  unspecified deleted onboarded untrusted registered : HostState
  unnamed : ℕ → HostState

pub data InstanceState : Type 0 where
  unspecified running deleted untrusted : InstanceState
  unnamed : ℕ → InstanceState

pub data StatusIndication : Type 0 where
  unspecified error in_progress idle : StatusIndication
  unnamed : ℕ → StatusIndication

pub data OsType : Type 0 where
  unspecified mutable immutable : OsType
  unnamed : ℕ → OsType

pub data InstanceKind : Type 0 where
  unspecified metal : InstanceKind
  unnamed : ℕ → InstanceKind

pub data BmcKind : Type 0 where
  unspecified pdu : BmcKind
  unnamed : ℕ → BmcKind

pub data OsProviderKind : Type 0 where
  unspecified infra : OsProviderKind
  unnamed : ℕ → OsProviderKind

pub data ResourceKind : Type 0 where
  unspecified host instance : ResourceKind
  unnamed : ℕ → ResourceKind

pub data EventKind : Type 0 where
  unspecified created updated deleted : EventKind
  unnamed : ℕ → EventKind

abbrev host_state_tag : HostState → ℕ
host_state_tag HostState.unspecified = 0
host_state_tag HostState.deleted = 1
host_state_tag HostState.onboarded = 2
host_state_tag HostState.untrusted = 3
host_state_tag HostState.registered = 4
host_state_tag (HostState.unnamed n) = n + 5

abbrev instance_state_tag : InstanceState → ℕ
instance_state_tag InstanceState.unspecified = 0
instance_state_tag InstanceState.running = 1
instance_state_tag InstanceState.deleted = 2
instance_state_tag InstanceState.untrusted = 3
instance_state_tag (InstanceState.unnamed n) = n + 4

abbrev indication_tag : StatusIndication → ℕ
indication_tag StatusIndication.unspecified = 0
indication_tag StatusIndication.error = 1
indication_tag StatusIndication.in_progress = 2
indication_tag StatusIndication.idle = 3
indication_tag (StatusIndication.unnamed n) = n + 4

abbrev os_type_tag : OsType → ℕ
os_type_tag OsType.unspecified = 0
os_type_tag OsType.mutable = 1
os_type_tag OsType.immutable = 2
os_type_tag (OsType.unnamed n) = n + 3

abbrev os_provider_tag : OsProviderKind → ℕ
os_provider_tag OsProviderKind.unspecified = 0
os_provider_tag OsProviderKind.infra = 1
os_provider_tag (OsProviderKind.unnamed n) = n + 2

pub host_state_sound : (a b : HostState) → host_state_tag a ≡ host_state_tag b → a ≡ b
host_state_sound a b h = ground arith

pub instance_state_sound :
    (a b : InstanceState) → instance_state_tag a ≡ instance_state_tag b → a ≡ b
instance_state_sound a b h = ground arith

pub indication_sound : (a b : StatusIndication) → indication_tag a ≡ indication_tag b → a ≡ b
indication_sound a b h = ground arith

pub os_type_sound : (a b : OsType) → os_type_tag a ≡ os_type_tag b → a ≡ b
os_type_sound a b h = ground arith

pub os_provider_sound : (a b : OsProviderKind) → os_provider_tag a ≡ os_provider_tag b → a ≡ b
os_provider_sound a b h = ground arith

-- An injective numbering gives an equality test.
abbrev pub eq_by {ℓ} : {A : Type ℓ} (tag : A → ℕ) → ((a b : A) → tag a ≡ tag b → a ≡ b) → Eq A
eq_by tag inj = record {
  equals = λ a b. nat_eq (tag a) (tag b);
  equals_iff = λ a b. (
    λ h. inj a b ((nat_eq_iff (tag a) (tag b)).0 h),
    λ p. (nat_eq_iff (tag a) (tag b)).1 (ap tag p),
  );
}

instance abbrev pub host_state_eq : Eq HostState
host_state_eq = eq_by host_state_tag host_state_sound

instance abbrev pub instance_state_eq : Eq InstanceState
instance_state_eq = eq_by instance_state_tag instance_state_sound

instance abbrev pub indication_eq : Eq StatusIndication
indication_eq = eq_by indication_tag indication_sound

instance abbrev pub os_type_eq : Eq OsType
os_type_eq = eq_by os_type_tag os_type_sound

instance abbrev pub os_provider_eq : Eq OsProviderKind
os_provider_eq = eq_by os_provider_tag os_provider_sound

abbrev event_kind_tag : EventKind → ℕ
event_kind_tag EventKind.unspecified = 0
event_kind_tag EventKind.created = 1
event_kind_tag EventKind.updated = 2
event_kind_tag EventKind.deleted = 3
event_kind_tag (EventKind.unnamed n) = n + 4

pub event_kind_sound : (a b : EventKind) → event_kind_tag a ≡ event_kind_tag b → a ≡ b
event_kind_sound a b h = ground arith

instance abbrev pub event_kind_eq : Eq EventKind
event_kind_eq = eq_by event_kind_tag event_kind_sound
