-- ===== src/Capacity.antt =====
-- `HostCapacity` of boxerd/scheduler.py: what the host has, and what Boxer's domains use of it.
-- The file /proc/meminfo, the processor count and libvirt's answers are arguments. Amounts of RAM
-- are Python floats: their type and operations are the interface `Float`.
use boxer.Base.{
  ℕ, zero, suc, ◌+◌, ◌-◌, max, String, Bool, Option, none, some, List, [], ◌∷◌, length, select,
  if◌then◌else◌,
}
use text.Mathlib.Text.{starts_with}

-- The floating-point operations that the scheduler makes, in GiB.
pub record Float : Type 1 where
  pub F : Type 0
  pub zero_gib : F
  pub of_kib : ℕ → F
  pub of_mib : ℕ → F
  pub sub : F → F → F
  pub max_gib : F → F → F
  pub round2 : F → F
  pub greater : F → F → Bool

-- A domain as libvirt lists it; `info` is `none` if libvirt raises an error.
pub record DomainInfo : Type 0 where
  pub max_mem_kib : ℕ
  pub vcpus : ℕ

pub record Domain : Type 0 where
  pub name : String
  pub info : Option DomainInfo

abbrev pub is_boxer_domain : Domain → Bool
is_boxer_domain d = starts_with d.name "Boxer--"

-- The active domains; `none` if the listing raises an error.
unfoldable pub count_running_boxer_vms : Option (List Domain) → ℕ
count_running_boxer_vms none = 0
count_running_boxer_vms (some doms) = length (select is_boxer_domain doms)

-- The loops keep the total that they had when libvirt raised an error.
unfoldable pub total_until_error : (DomainInfo → ℕ) → List Domain → ℕ → ℕ
total_until_error f [] total = total
total_until_error f (d ∷ doms) total =
    let rest = total_until_error f doms total in
    if is_boxer_domain d
    then elim d.info [ none ↦ total | some i ↦ total_until_error f doms (total + f i) ]
    else rest

unfoldable pub used_ram_kib : Option (List Domain) → ℕ
unfolding total_until_error
used_ram_kib none = 0
used_ram_kib (some doms) = total_until_error (λ i. i.max_mem_kib) doms 0

unfoldable pub used_vcpus : Option (List Domain) → ℕ
unfolding total_until_error
used_vcpus none = 0
used_vcpus (some doms) = total_until_error (λ i. i.vcpus) doms 0

-- max_total_vcpus or max(1, host_threads - 2)
unfoldable pub vcpu_limit : Option ℕ → ℕ → ℕ
vcpu_limit none threads = max 1 (threads - 2)
vcpu_limit (some zero) threads = max 1 (threads - 2)
vcpu_limit (some (suc n)) threads = suc n

module _ (float : Float) where
  pub record HostStatus : Type 0 where
    pub total_ram_gib : float.F
    pub usable_ram_gib : float.F
    pub free_ram_gib : float.F
    pub host_threads : ℕ
    pub max_vcpus : ℕ
    pub used_vcpus : ℕ
    pub free_vcpus : ℕ
    pub running_vms : ℕ

  -- `reserved` and `max_total_vcpus` are the configuration's.
  unfoldable pub get_status : float.F → Option ℕ → ℕ → ℕ → Option (List Domain) → HostStatus
  get_status reserved max_total_vcpus total_kib threads doms =
      let total = float.of_kib total_kib in
      let usable = float.sub total reserved in
      let limit = vcpu_limit max_total_vcpus threads in
      let used = used_vcpus doms in
      record {
        total_ram_gib = float.round2 total;
        usable_ram_gib = float.round2 usable;
        free_ram_gib =
            float.round2
              (float.max_gib float.zero_gib (float.sub usable (float.of_kib (used_ram_kib doms))));
        host_threads = threads;
        max_vcpus = limit;
        used_vcpus = used;
        free_vcpus = limit - used;
        running_vms = count_running_boxer_vms doms;
      }
