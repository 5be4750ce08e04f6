-- ===== src/Domain/Turns/Start/Requests.antt =====
-- src/domain/turn-service.ts: when two start requests count as the same.
use electrosphere.Base.{◌≡◌, ◌↔◌, refl, Bool, true, none, some, arith}
use electrosphere.Domain.Types.{
  Backend, SandboxKind, NetworkProfile, Request, kind_eq, backend_eq, network_eq, profile_eq,
  option_same, request_eq,
}

abbrev Decides : {A : Type 0} → (A → A → Bool) → Type 0
Decides {A = A} same = (a b : A) → (same a b ≡ true) ↔ (a ≡ b)

kind_eq_iff : Decides kind_eq
kind_eq_iff SandboxKind.instant SandboxKind.instant = (λ _. refl, λ _. refl)
kind_eq_iff SandboxKind.durable SandboxKind.durable = (λ _. refl, λ _. refl)
kind_eq_iff SandboxKind.instant SandboxKind.durable = ground arith
kind_eq_iff SandboxKind.durable SandboxKind.instant = ground arith

backend_eq_iff : Decides backend_eq
backend_eq_iff Backend.docker Backend.docker = (λ _. refl, λ _. refl)
backend_eq_iff Backend.firecracker Backend.firecracker = (λ _. refl, λ _. refl)
backend_eq_iff Backend.docker Backend.firecracker = ground arith
backend_eq_iff Backend.firecracker Backend.docker = ground arith

network_eq_iff : Decides network_eq
network_eq_iff NetworkProfile.no_network NetworkProfile.no_network = (λ _. refl, λ _. refl)
network_eq_iff NetworkProfile.egress NetworkProfile.egress = (λ _. refl, λ _. refl)
network_eq_iff NetworkProfile.no_network NetworkProfile.egress = ground arith
network_eq_iff NetworkProfile.egress NetworkProfile.no_network = ground arith

option_same_iff : {A : Type 0} (same : A → A → Bool) → Decides same → Decides (option_same same)
option_same_iff same h none none = (λ _. refl, λ _. refl)
option_same_iff same h none (some b) = ground arith
option_same_iff same h (some a) none = ground arith
option_same_iff same h (some a) (some b) = ground (arith, h a b)

profile_eq_iff : Decides profile_eq
profile_eq_iff a b = ground arith

-- Two requests have the same text exactly if they are equal.
pub request_eq_iff : (a b : Request) → (request_eq a b ≡ true) ↔ (a ≡ b)
unfolding request_eq
request_eq_iff a b = ground (
  arith,
  kind_eq_iff a.mode b.mode,
  option_same_iff backend_eq backend_eq_iff a.backend b.backend,
  option_same_iff network_eq network_eq_iff a.network b.network,
  option_same_iff profile_eq profile_eq_iff a.resource_profile b.resource_profile,
)
